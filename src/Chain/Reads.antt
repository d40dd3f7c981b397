-- ===== src/Chain/Reads.antt =====
-- The accessors of `Chain` in crates/bitrst-core/src/chain.rs.
use bitrst.Base.{
  ℕ, ◌-◌, ◌%◌, ◌^◌, List, [], ◌∷◌, reverse, length, get_elem?, replicate, Option, none, some, Bool,
  true, false, ◌||◌, ◌==◌, if◌then◌else◌, Result, ok, err, ◌>>=◌,
}
use bitrst.Base.Map
use bitrst.Base.Keys.{bytes_discrete}
use bitrst.Crypto.{Primitives}
use bitrst.Block.Types.{Block}
use bitrst.Block.Encode.{hash}
use bitrst.Journal.Events.{ChainEvent}
use bitrst.Journal.Log
use bitrst.Journal.Log.{ChainEventCursor, ChainEventCursorError}
use bitrst.Journal.Disconnected.{DisconnectedBlockRecoveryError, blocks_since}
use bitrst.Chain.Types
use bitrst.Chain.Types.{Chain, ChainError}

-- `len().saturating_sub(1) as u32`
unfoldable pub height : Chain → ℕ
height chain = (length chain.blocks - 1) % 2 ^ 32

unfoldable pub active_block_count : Chain → ℕ
active_block_count chain = length chain.blocks

abbrev pub hash_of_tip : Primitives → List Block → List ℕ
hash_of_tip crypto [] = replicate 32 0
hash_of_tip crypto (tip ∷ blocks) = hash crypto tip

unfoldable pub tip_hash : Primitives → Chain → List ℕ
tip_hash crypto chain = hash_of_tip crypto chain.blocks

unfoldable pub active_block_at : Chain → ℕ → Option Block
active_block_at chain at = get_elem? (reverse chain.blocks) at

unfoldable pub set_network_time : Chain → ℕ → Result ChainError Chain
set_network_time chain network_time =
    if network_time == 0
    then err Types.invalid_network_time
    else ok (record chain { network_time = network_time })

unfoldable pub event_cursor : Chain → ChainEventCursor
event_cursor chain = Log.event_cursor chain.event_journal

unfoldable pub collect_events :
    Chain → ChainEventCursor → Result ChainEventCursorError (List ChainEvent × ChainEventCursor)
collect_events chain cursor = Log.collect_events chain.event_journal cursor

unfoldable pub take_events : Chain → Result ChainEventCursorError (List ChainEvent × Chain)
take_events chain = do
  taken ← Log.take_events chain.event_journal
  ok (taken.0, record chain { event_journal = taken.1 })

unfoldable pub recovery_disconnected_blocks :
    Chain → ℕ → Result DisconnectedBlockRecoveryError (List Block)
recovery_disconnected_blocks chain since_event_seq =
    blocks_since chain.disconnected_journal since_event_seq

-- `contains_key`
abbrev pub found : {A : Type 0} → Option A → Bool
found none = false
found (some a) = true

unfoldable pub has_block_hash : Chain → List ℕ → Bool
has_block_hash chain hash_ =
    found (Map.get bytes_discrete hash_ chain.known)
    || found (Map.get bytes_discrete hash_ chain.orphans)

unfoldable pub block_by_hash : Chain → List ℕ → Option Block
block_by_hash chain hash_ = elim (Map.get bytes_discrete hash_ chain.known) [
  | some meta ↦ some meta.block
  | none ↦ elim (Map.get bytes_discrete hash_ chain.orphans) [
    | some entry ↦ some entry.block
    | none ↦ none
  ]
]

unfoldable pub find_height : Chain → List ℕ → Option ℕ
find_height chain hash_ = elim (Map.get bytes_discrete hash_ chain.known) [
  | none ↦ none
  | some meta ↦ some meta.height
]
