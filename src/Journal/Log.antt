-- ===== src/Journal/Log.antt =====
-- crates/bitrst-core/src/chain_event_journal.rs
use bitrst.Base.{
  ℕ, ◌+◌, ◌-◌, ◌^◌, List, [], ◌∷◌, ◌++◌, length, drop, Option, none, some, ltb, leb, ◌==◌,
  if◌then◌else◌, Result, ok, err,
}
use bitrst.Journal.Events.{ChainEvent}
use bitrst.Limits.{default_chain_event_journal_capacity}

pub record JournalEntry : Type 0 where
  pub seq : ℕ
  pub event : ChainEvent

pub record ChainEventCursor : Type 0 where
  pub last_seq : ℕ

pub record ChainEventCursorError : Type 0 where
  pub cursor_seq : ℕ
  pub oldest_available : ℕ

-- The front of the deque is the head of the list.
pub record ChainEventJournal : Type 0 where
  pub next_seq : ℕ
  pub entries : List JournalEntry
  pub capacity : ℕ
  pub wallet_high_water : ℕ

unfoldable pub with_capacity : ℕ → ChainEventJournal
with_capacity capacity = record {
  next_seq = 1;
  entries = [];
  capacity = if capacity == 0 then 1 else capacity;
  wallet_high_water = 0;
}

abbrev pub default : ChainEventJournal
default = with_capacity default_chain_event_journal_capacity

-- `u64::saturating_add(1)`
abbrev pub next_u64 : ℕ → ℕ
next_u64 n = if ltb (n + 1) (2 ^ 64) then n + 1 else n

unfoldable pub push : ChainEventJournal → ChainEvent → ChainEventJournal × ℕ
push journal event =
    let seq = journal.next_seq in
    let kept =
      if leb journal.capacity (length journal.entries)
      then drop 1 journal.entries
      else journal.entries in
    (
      record journal {
        next_seq = next_u64 seq;
        entries = kept ++ (record { seq = seq; event = event } ∷ []);
      },
      seq,
    )

abbrev pub front_seq : List JournalEntry → Option ℕ
front_seq [] = none
front_seq (entry ∷ entries) = some entry.seq

unfoldable pub oldest_seq : ChainEventJournal → Option ℕ
oldest_seq journal = front_seq journal.entries

-- The sequence of the last entry, or `seq` if there is none.
abbrev pub last_seq_or : ℕ → List JournalEntry → ℕ
last_seq_or seq [] = seq
last_seq_or seq (entry ∷ entries) = last_seq_or entry.seq entries

unfoldable pub latest_seq : ChainEventJournal → ℕ
latest_seq journal = last_seq_or 0 journal.entries

unfoldable pub event_cursor : ChainEventJournal → ChainEventCursor
event_cursor journal = record { last_seq = latest_seq journal }

abbrev pub newer : ℕ → List JournalEntry → List JournalEntry
newer seq [] = []
newer seq (entry ∷ entries) =
    let rest = newer seq entries in if ltb seq entry.seq then entry ∷ rest else rest

abbrev pub events_of : List JournalEntry → List ChainEvent
events_of [] = []
events_of (entry ∷ entries) = entry.event ∷ events_of entries

-- `seq < oldest.saturating_sub(1)`
abbrev pub lags : ℕ → Option ℕ → Option ChainEventCursorError
lags seq none = none
lags seq (some oldest) =
    if ltb seq (oldest - 1)
    then some (record { cursor_seq = seq; oldest_available = oldest })
    else none

unfoldable pub take_events :
    ChainEventJournal → Result ChainEventCursorError (List ChainEvent × ChainEventJournal)
take_events journal = elim (lags journal.wallet_high_water (oldest_seq journal)) [
  | some error ↦ err error
  | none ↦ ok (
    events_of (newer journal.wallet_high_water journal.entries),
    record journal { wallet_high_water = last_seq_or journal.wallet_high_water journal.entries },
  )
]

-- The cursor moves to the last entry that is newer, if there is one.
unfoldable pub collect_events :
    ChainEventJournal
    → ChainEventCursor
    → Result ChainEventCursorError (List ChainEvent × ChainEventCursor)
collect_events journal cursor = elim (lags cursor.last_seq (oldest_seq journal)) [
  | some error ↦ err error
  | none ↦
      let fresh = newer cursor.last_seq journal.entries in
      ok (events_of fresh, record { last_seq = last_seq_or cursor.last_seq fresh })
]
