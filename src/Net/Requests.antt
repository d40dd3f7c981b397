-- ===== src/Net/Requests.antt =====
-- `BlockRequestTracker` and `TxRequestTracker` of crates/bitrst-net/src/relay.rs, which are the
-- same code, and the slots of inbound_capacity.rs. Times are numbers of one clock.
use bitrst.Base.{
  ℕ, suc, ◌-◌, List, [], ◌∷◌, Option, none, some, Bool, true, false, ltb, leb, if◌then◌else◌,
}
use bitrst.Base.Map
use bitrst.Base.Map.{Map}
use bitrst.Base.Keys.{bytes_discrete}
use bitrst.Net.Types.{max_pending_block_requests, block_request_ttl}

pub record PendingRequest : Type 0 where
  pub requested_at : ℕ

pub record RequestTracker : Type 0 where
  pub pending : Map (List ℕ) PendingRequest
  pub max_pending : ℕ
  pub request_ttl : ℕ

unfoldable pub new_tracker : ℕ → ℕ → RequestTracker
new_tracker max_pending request_ttl = record {
  pending = [];
  max_pending = max_pending;
  request_ttl = request_ttl;
}

abbrev pub default_tracker : RequestTracker
default_tracker = new_tracker max_pending_block_requests block_request_ttl

-- `retain`: `saturating_duration_since` is zero for a later time.
unfoldable pub retain_live : ℕ → ℕ → Map (List ℕ) PendingRequest → Map (List ℕ) PendingRequest
retain_live now ttl [] = []
retain_live now ttl ((hash, request) ∷ pending) =
    let rest = retain_live now ttl pending in
    if ltb (now - request.requested_at) ttl then (hash, request) ∷ rest else rest

unfoldable pub expire_before : ℕ → RequestTracker → RequestTracker × ℕ
expire_before now tracker =
    let live = retain_live now tracker.request_ttl tracker.pending in
    (record tracker { pending = live }, Map.size live)

abbrev is_pending : Option PendingRequest → Bool
is_pending none = false
is_pending (some request) = true

unfoldable pub mark_requested : List ℕ → ℕ → RequestTracker → RequestTracker × Bool
mark_requested hash now tracker =
    let expired = (expire_before now tracker).0 in
    if is_pending (Map.get bytes_discrete hash expired.pending)
    then (expired, false)
    else (if leb expired.max_pending (Map.size expired.pending) then (expired, false) else (
      record expired {
        pending = Map.insert bytes_discrete hash (record { requested_at = now }) expired.pending;
      },
      true,
    ))

unfoldable pub clear : List ℕ → RequestTracker → RequestTracker
clear hash tracker = record tracker { pending = Map.remove bytes_discrete hash tracker.pending }

unfoldable pub pending_count : RequestTracker → ℕ
pending_count tracker = Map.size tracker.pending

-- The slots for inbound connections: `try_acquire` is one atomic step, whatever the interleaving.
pub record InboundCapacity : Type 0 where
  pub active : ℕ
  pub max : ℕ

unfoldable pub new_capacity : ℕ → InboundCapacity
new_capacity max = record { active = 0; max = max }

unfoldable pub try_acquire : InboundCapacity → InboundCapacity × Bool
try_acquire capacity =
    if leb capacity.max capacity.active
    then (capacity, false)
    else (record capacity { active = suc capacity.active }, true)

-- `fetch_sub(1)` by the guard of a slot, which was counted when it was made.
unfoldable pub release : InboundCapacity → InboundCapacity
release capacity = record capacity { active = capacity.active - 1 }
