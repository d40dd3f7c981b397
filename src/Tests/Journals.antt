-- ===== src/Tests/Journals.antt =====
-- A journal with room for two events that has seen three, and a journal of one block.
use bitrst.Base.{ℕ, ◌<◌, ◌≤◌, ◌≡◌, refl, [], ◌∷◌, ok, err, arith}
use bitrst.Journal.Events.{ChainEvent, block_connected}
use bitrst.Journal.Log
use bitrst.Journal.Log.{ChainEventJournal, collect_events, take_events}
use bitrst.Journal.History.{Tracks, with_capacity-Tracks, push-Tracks}
use bitrst.Journal.Readers.{collect_events-Tracks, take_events-Tracks}
use bitrst.Journal.Disconnected
use bitrst.Journal.Disconnected.{DisconnectedBlockJournal, blocks_since, blocks_after, record_block}
use bitrst.Journal.Recovery.{
  Retains, with_capacity-Retains, record_block-Retains, blocks_since-Retains,
}
use bitrst.Tests.Data.{parent_id, block}

abbrev connected : ℕ → ChainEvent
connected height = block_connected height parent_id 1

abbrev two : ChainEventJournal
two = (Log.push (Log.push (Log.with_capacity 2) (connected 1)).0 (connected 2)).0

two-Tracks : Tracks two (connected 1 ∷ connected 2 ∷ [])
two-Tracks =
    push-Tracks _ _ (connected 2)
      (push-Tracks _ _ (connected 1) (with_capacity-Tracks 2) (omega arith)) (omega arith)

push-Tracks_example :
    Tracks (Log.push two (connected 3)).0 (connected 1 ∷ connected 2 ∷ connected 3 ∷ [])
push-Tracks_example =
    push-Tracks two (connected 1 ∷ connected 2 ∷ []) (connected 3) two-Tracks (omega arith)

abbrev three : ChainEventJournal
three = (Log.push two (connected 3)).0

opened : Unit {0}
unfolding Log.push Log.with_capacity
opened = tt

three_marks : (three.wallet_high_water ≡ 0) × (three.capacity ≡ 2)
unfolding opened
three_marks = (refl, refl)

collect_events-Tracks_example :
    (1 ≤ 1
      → collect_events three (record { last_seq = 1 })
        ≡ ok (connected 2 ∷ connected 3 ∷ [], record { last_seq = 3 }))
    × (1 < 1
        → collect_events three (record { last_seq = 1 })
          ≡ err (record { cursor_seq = 1; oldest_available = 2 }))
unfolding opened
collect_events-Tracks_example =
    collect_events-Tracks three (connected 1 ∷ connected 2 ∷ connected 3 ∷ [])
      (record { last_seq = 1 }) push-Tracks_example (omega arith)

take_events-Tracks_example :
    (1 ≤ 0
      → take_events three
        ≡ ok (connected 1 ∷ connected 2 ∷ connected 3 ∷ [], record three { wallet_high_water = 3 }))
    × (0 < 1 → take_events three ≡ err (record { cursor_seq = 0; oldest_available = 2 }))
unfolding opened
take_events-Tracks_example =
    take_events-Tracks three (connected 1 ∷ connected 2 ∷ connected 3 ∷ []) push-Tracks_example
      (omega arith)

abbrev recorded : DisconnectedBlockJournal
recorded = record_block (Disconnected.with_capacity 4) 7 block

recorded-Retains : Retains recorded (record { event_seq = 7; block = block } ∷ [])
recorded-Retains =
    record_block-Retains (Disconnected.with_capacity 4) [] 7 block (with_capacity-Retains 4)

recorded_marks : recorded.capacity ≡ 4
unfolding record_block Disconnected.with_capacity
recorded_marks = refl

recorded_runs : blocks_since recorded 6 ≡ ok (block ∷ [])
unfolding record_block Disconnected.with_capacity blocks_since
recorded_runs = refl

blocks_since-Retains_example :
    block ∷ [] ≡ blocks_after 6 (record { event_seq = 7; block = block } ∷ [])
blocks_since-Retains_example =
    blocks_since-Retains recorded (record { event_seq = 7; block = block } ∷ []) 6 (block ∷ [])
      recorded-Retains (tt, tt) recorded_runs
