-- ===== src/Journal/Readers.antt =====
-- What a reader of the bounded journal gets, by the history of events.
use bitrst.Base.{
  ℕ, suc, ◌+◌, ◌-◌, ◌≤◌, ◌<◌, ◌≡◌, refl, ap, ◌∙◌, List, [], ◌∷◌, length, drop, drop-drop,
  length-drop, none, some, ok, err, lt→ltb, le→ltb, arith,
}
use bitrst.Journal.Events.{ChainEvent}
use bitrst.Journal.Log.{
  ChainEventJournal, ChainEventCursor, front_seq, oldest_seq, last_seq_or, newer, events_of, lags,
  take_events, collect_events,
}
use bitrst.Journal.History.{numbered, Tracks, newer-numbered}

-- How many events of the history the journal no longer holds.
abbrev pub evicted : ChainEventJournal → List ChainEvent → ℕ
evicted journal history = length history - journal.capacity

events_of-numbered : (seq : ℕ) (events : List ChainEvent) → events_of (numbered seq events) ≡ events
events_of-numbered seq [] = refl
events_of-numbered seq (e ∷ events) = ap (◌∷◌ e) (events_of-numbered (suc seq) events)

last_seq_or-numbered :
    (seq : ℕ) (events : List ChainEvent)
    → last_seq_or seq (numbered (suc seq) events) ≡ seq + length events
last_seq_or-numbered seq [] = omega arith
last_seq_or-numbered seq (e ∷ events) = last_seq_or-numbered (suc seq) events ∙ omega arith

-- A reader lags behind the window exactly when an event after its own has left it.
lags-behind :
    (seen d : ℕ) (events : List ChainEvent)
    → 0 < length events
    → seen < d
    → lags seen (front_seq (numbered (suc d) events))
      ≡ some (record { cursor_seq = seen; oldest_available = suc d })
lags-behind seen d [] h lag = absurd (omega arith)
lags-behind seen d (e ∷ events) h lag = rw (lt→ltb seen (suc d - 1) (omega arith)) refl

lags-within :
    (seen d : ℕ) (events : List ChainEvent)
    → d ≤ seen
    → lags seen (front_seq (numbered (suc d) events)) ≡ none
lags-within seen d [] h = refl
lags-within seen d (e ∷ events) h = rw (le→ltb seen (suc d - 1) (omega arith)) refl

-- The entries after the first `seen` events, if none of them has left the window.
newer-Tracks :
    (journal : ChainEventJournal) (history : List ChainEvent) (seen : ℕ)
    → Tracks journal history
    → evicted journal history ≤ seen
    → newer seen journal.entries ≡ numbered (suc seen) (drop seen history)
newer-Tracks journal history seen tracks h =
    let d = evicted journal history in
    rw tracks.window (
      newer-numbered seen d (drop d history) h
      ∙ ap (numbered (suc (d + (seen - d)))) (drop-drop d (seen - d) history)
      ∙ ap (λ (n : ℕ). numbered (suc n) (drop n history)) (omega arith))

lags-Tracks :
    (journal : ChainEventJournal) (history : List ChainEvent) (seen : ℕ)
    → Tracks journal history
    → (evicted journal history ≤ seen → lags seen (oldest_seq journal) ≡ none)
      × (seen < evicted journal history
          → lags seen (oldest_seq journal)
            ≡ some (record { cursor_seq = seen; oldest_available = suc (evicted journal history) }))
unfolding oldest_seq
lags-Tracks journal history seen tracks =
    let d = evicted journal history in
    let room : 0 < journal.capacity = tracks.room in
    rw tracks.window (
      lags-within seen d (drop d history),
      λ lag. lags-behind seen d (drop d history) (rw (length-drop d history) (omega arith)) lag,
    )

-- A reader whose cursor stands within the history gets exactly the events after its cursor,
-- in order, and its cursor moves to the end; if one of them has left the window, it gets an
-- error that names its cursor and the oldest event that is left.
pub collect_events-Tracks :
    (journal : ChainEventJournal) (history : List ChainEvent) (cursor : ChainEventCursor)
    → Tracks journal history
    → cursor.last_seq ≤ length history
    → (evicted journal history ≤ cursor.last_seq
        → collect_events journal cursor
          ≡ ok (drop cursor.last_seq history, record { last_seq = length history }))
      × (cursor.last_seq < evicted journal history
          → collect_events journal cursor
            ≡ err (record {
              cursor_seq = cursor.last_seq;
              oldest_available = suc (evicted journal history);
            }))
unfolding collect_events oldest_seq
collect_events-Tracks journal history cursor tracks inside =
    let seen = cursor.last_seq in
    let (within, behind) = lags-Tracks journal history seen tracks in
    (
      λ held.
          rw (collect_events, within held, newer-Tracks journal history seen tracks held)
            (rw
              (
                events_of-numbered (suc seen) (drop seen history),
                last_seq_or-numbered seen (drop seen history),
                length-drop seen history,
              )
              (ap (λ (n : ℕ). ok (drop seen history, record { last_seq = n })) (omega arith))),
      λ lag. rw (collect_events, behind lag) refl,
    )

last_seq_or-window :
    (seen d : ℕ) (events : List ChainEvent)
    → (length events ≡ 0 → seen ≡ d)
    → last_seq_or seen (numbered (suc d) events) ≡ d + length events
last_seq_or-window seen d [] h = h refl ∙ omega arith
last_seq_or-window seen d (e ∷ events) h = last_seq_or-numbered (suc d) events ∙ omega arith

last_seq_or-Tracks :
    (journal : ChainEventJournal) (history : List ChainEvent) (seen : ℕ)
    → Tracks journal history
    → evicted journal history ≤ seen
    → seen ≤ length history
    → last_seq_or seen journal.entries ≡ length history
last_seq_or-Tracks journal history seen tracks held inside =
    let d = evicted journal history in
    let room : 0 < journal.capacity = tracks.room in
    rw
      (
        tracks.window,
        last_seq_or-window seen d (drop d history) (rw (length-drop d history) (λ h. omega arith)),
        length-drop d history,
      )
      (omega arith)

-- The journal's own reader gets exactly the events after its mark, in order, and the mark moves
-- to the end; if one of them has left the window, it gets an error that names the mark and the
-- oldest event that is left.
pub take_events-Tracks :
    (journal : ChainEventJournal) (history : List ChainEvent)
    → Tracks journal history
    → journal.wallet_high_water ≤ length history
    → (evicted journal history ≤ journal.wallet_high_water
        → take_events journal
          ≡ ok (
            drop journal.wallet_high_water history,
            record journal { wallet_high_water = length history },
          ))
      × (journal.wallet_high_water < evicted journal history
          → take_events journal
            ≡ err (record {
              cursor_seq = journal.wallet_high_water;
              oldest_available = suc (evicted journal history);
            }))
unfolding take_events
take_events-Tracks journal history tracks inside =
    let seen = journal.wallet_high_water in
    let (within, behind) = lags-Tracks journal history seen tracks in
    (
      λ held.
          rw (take_events, within held, newer-Tracks journal history seen tracks held)
            (rw (events_of-numbered (suc seen) (drop seen history))
              (rw (last_seq_or-Tracks journal history seen tracks held inside) refl)),
      λ lag. rw (take_events, behind lag) refl,
    )
