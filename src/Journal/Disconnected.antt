-- ===== src/Journal/Disconnected.antt =====
-- crates/bitrst-core/src/disconnected_block_journal.rs
use bitrst.Base.{
  ℕ, ◌-◌, List, [], ◌∷◌, ◌++◌, length, drop, Option, none, some, ltb, leb, ◌==◌, if◌then◌else◌,
  Result, ok, err,
}
use bitrst.Block.Types.{Block}
use bitrst.Limits.{default_disconnected_block_journal_capacity}

pub record JournalEntry : Type 0 where
  pub event_seq : ℕ
  pub block : Block

pub record DisconnectedBlockRecoveryError : Type 0 where
  pub cursor_seq : ℕ
  pub oldest_available : ℕ

-- The front of the deque is the head of the list.
pub record DisconnectedBlockJournal : Type 0 where
  pub entries : List JournalEntry
  pub capacity : ℕ

unfoldable pub with_capacity : ℕ → DisconnectedBlockJournal
with_capacity capacity = record { entries = []; capacity = if capacity == 0 then 1 else capacity }

abbrev pub default : DisconnectedBlockJournal
default = with_capacity default_disconnected_block_journal_capacity

-- The source's method is named `record`, a keyword here.
unfoldable pub record_block : DisconnectedBlockJournal → ℕ → Block → DisconnectedBlockJournal
record_block journal event_seq block =
    let kept =
      if leb journal.capacity (length journal.entries)
      then drop 1 journal.entries
      else journal.entries in
    record journal { entries = kept ++ (record { event_seq = event_seq; block = block } ∷ []) }

-- The blocks of the entries after `since`.
abbrev pub blocks_after : ℕ → List JournalEntry → List Block
blocks_after since [] = []
blocks_after since (entry ∷ entries) =
    let rest = blocks_after since entries in
    if ltb since entry.event_seq then entry.block ∷ rest else rest

-- Whether `since` is too old for a deque whose front is given.
abbrev pub too_old : ℕ → List JournalEntry → Option DisconnectedBlockRecoveryError
too_old since [] = none
too_old since (oldest ∷ entries) =
    if ltb since (oldest.event_seq - 1)
    then some (record { cursor_seq = since; oldest_available = oldest.event_seq })
    else none

unfoldable pub blocks_since :
    DisconnectedBlockJournal → ℕ → Result DisconnectedBlockRecoveryError (List Block)
blocks_since journal since = elim (too_old since journal.entries) [
  | some error ↦ err error
  | none ↦ ok (blocks_after since journal.entries)
]
