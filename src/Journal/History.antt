-- ===== src/Journal/History.antt =====
-- The bounded journal against the whole history of events.
use bitrst.Base.{
  ℕ, suc, ◌+◌, ◌-◌, ◌^◌, ◌≤◌, ◌<◌, ◌≡◌, refl, sym, ap, ◌∙◌, subst, List, [], ◌∷◌, ◌++◌, length,
  drop, drop-append_le, drop-nil, drop-drop, length-append, length-drop, ltb, leb, ◌==◌,
  if◌then◌else◌, Bool-cases, inl, inr, ltb→le, lt→ltb, arith,
}
use bitrst.Journal.Events.{ChainEvent}
use bitrst.Journal.Log.{JournalEntry, ChainEventJournal, with_capacity, push, newer}

-- Events with consecutive sequence numbers from `seq` on.
abbrev pub numbered : ℕ → List ChainEvent → List JournalEntry
numbered seq [] = []
numbered seq (event ∷ events) = record { seq = seq; event = event } ∷ numbered (suc seq) events

-- The journal holds the last `capacity` events of the history, numbered from 1.
pub record Tracks (journal : ChainEventJournal) (history : List ChainEvent) : Type 0 where
  pub room : 0 < journal.capacity
  pub next : journal.next_seq ≡ suc (length history)
  pub window :
      journal.entries
      ≡ numbered
          (suc (length history - journal.capacity))
          (drop (length history - journal.capacity) history)

pub with_capacity-Tracks : (capacity : ℕ) → Tracks (with_capacity capacity) []
unfolding with_capacity
with_capacity-Tracks capacity = record {
  room = ground arith;
  next = refl;
  window =
      ap (numbered _)
        (sym (drop-nil {A = ChainEvent} (0 - (if capacity == 0 then 1 else capacity))));
}

numbered-append :
    (seq : ℕ) (events : List ChainEvent) (event : ChainEvent)
    → numbered seq (events ++ (event ∷ []))
      ≡ numbered seq events ++ (record { seq = seq + length events; event = event } ∷ [])
numbered-append seq [] event = ap (λ (n : ℕ). record { seq = n; event = event } ∷ []) (omega arith)
numbered-append seq (e ∷ events) event = ap (◌∷◌ (record { seq = seq; event = e })) (
    numbered-append (suc seq) events event
    ∙ ap (λ (n : ℕ). numbered (suc seq) events ++ (record { seq = n; event = event } ∷ []))
        (omega arith))

length-numbered :
    (seq : ℕ) (events : List ChainEvent) → length (numbered seq events) ≡ length events
length-numbered seq [] = refl
length-numbered seq (e ∷ events) = ap suc (length-numbered (suc seq) events)

drop-numbered :
    (seq : ℕ) (events : List ChainEvent)
    → drop 1 (numbered seq events) ≡ numbered (suc seq) (drop 1 events)
drop-numbered seq [] = refl
drop-numbered seq (e ∷ events) = refl

newer-all :
    (seen start : ℕ) (events : List ChainEvent)
    → seen ≤ start
    → newer seen (numbered (suc start) events) ≡ numbered (suc start) events
newer-all seen start [] h = refl
newer-all seen start (e ∷ events) h = rw (lt→ltb seen (suc start) (omega arith)) (
    ap (◌∷◌ (record { seq = suc start; event = e }))
      (newer-all seen (suc start) events (omega arith)))

-- What a reader that has seen the first `seen` events finds behind them.
pub newer-numbered :
    (seen start : ℕ) (events : List ChainEvent)
    → start ≤ seen
    → newer seen (numbered (suc start) events)
      ≡ numbered (suc (start + (seen - start))) (drop (seen - start) events)
newer-numbered seen start [] h = rw (drop-nil {A = ChainEvent} (seen - start)) refl
newer-numbered seen start (e ∷ events) h = elim (Bool-cases (ltb seen (suc start))) [
  | inl later ↦
      let same : seen - start ≡ 0 = ground arith in
      rw same (
        subst
          (λ (n : ℕ).
            newer seen (numbered (suc start) (e ∷ events)) ≡ numbered (suc n) (e ∷ events))
          (omega arith) (newer-all seen start (e ∷ events) (ground arith)))
  | inr earlier ↦
      let at : suc start ≤ seen = ltb→le seen (suc start) earlier in
      let step : seen - start ≡ suc (seen - suc start) = omega arith in
      rw (step, earlier)
        (newer-numbered seen (suc start) events at
          ∙ ap (λ (n : ℕ). numbered (suc n) (drop (seen - suc start) events)) (omega arith))
]

numbered-push :
    (d : ℕ) (history : List ChainEvent) (event : ChainEvent)
    → d ≤ length history
    → numbered (suc d) (drop d history)
        ++ (record { seq = suc (length history); event = event } ∷ [])
      ≡ numbered (suc d) (drop d (history ++ (event ∷ [])))
numbered-push d history event h = sym (
    ap (numbered (suc d)) (drop-append_le d history (event ∷ []) h)
    ∙ numbered-append (suc d) (drop d history) event
    ∙ ap (λ (n : ℕ). numbered (suc d) (drop d history) ++ (record { seq = n; event = event } ∷ []))
        (rw (length-drop d history) (omega arith)))

-- What `push` keeps of the entries, and where the journal starts afterwards.
kept-numbered :
    (capacity : ℕ) (history : List ChainEvent)
    → 0 < capacity
    → (if leb capacity (
          length
            (numbered (suc (length history - capacity)) (drop (length history - capacity) history)))
        then drop 1
            (numbered (suc (length history - capacity)) (drop (length history - capacity) history))
        else numbered (suc (length history - capacity)) (drop (length history - capacity) history))
      ≡ numbered
          (suc (suc (length history) - capacity))
          (drop (suc (length history) - capacity) history)
kept-numbered capacity history room =
    let d = length history - capacity in
    rw (length-numbered (suc d) (drop d history), length-drop d history)
      (elim (Bool-cases (leb capacity (length history - d))) [
        | inl full ↦
            let step : suc (length history) - capacity ≡ d + 1 = ground arith in
            rw (full, step)
              (drop-numbered (suc d) (drop d history)
                ∙ ap (numbered (suc (suc d))) (drop-drop d 1 history)
                ∙ ap (λ (n : ℕ). numbered (suc n) (drop (d + 1) history)) (omega arith))
        | inr free ↦
            let none_now : d ≡ 0 = ground arith in
            let none_then : suc (length history) - capacity ≡ 0 = ground arith in
            rw (free, none_then, none_now) refl
      ])

-- Recording an event keeps the journal the window of the last `capacity` events of the
-- history, numbered from 1, while the history is shorter than 2^64 - 2.
pub push-Tracks :
    (journal : ChainEventJournal) (history : List ChainEvent) (event : ChainEvent)
    → Tracks journal history
    → suc (length history) + 1 < 2 ^ 64
    → Tracks ((push journal event).0) (history ++ (event ∷ []))
unfolding push
push-Tracks journal history event tracks small = record {
  room = tracks.room;
  next = rw (length-append history (event ∷ []), tracks.next) (ground arith);
  window =
      rw (length-append history (event ∷ []), tracks.window, tracks.next)
        (ap
            (λ (entries : List JournalEntry).
              entries ++ (record { seq = suc (length history); event = event } ∷ []))
            (kept-numbered journal.capacity history tracks.room)
          ∙ numbered-push (suc (length history) - journal.capacity) history event (omega arith)
          ∙ ap (λ (d : ℕ). numbered (suc d) (drop d (history ++ (event ∷ []))))
              (ap (λ (n : ℕ). n - journal.capacity) (omega arith)));
}
