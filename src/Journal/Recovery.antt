-- ===== src/Journal/Recovery.antt =====
-- Recovery from crates/bitrst-core/src/disconnected_block_journal.rs, against all that was recorded.
use bitrst.Base.{
  ℕ, zero, suc, ◌+◌, ◌-◌, ◌≤◌, ◌<◌, ◌≡◌, refl, sym, ap, ◌∙◌, List, [], ◌∷◌, ◌++◌, length, drop,
  drop-nil, drop-append_le, drop-drop, length-drop, length-append, All, Option-cases, none, ltb,
  leb, ok, err, Bool-cases, inl, inr, le→ltb, ltb→le, arith,
}
use bitrst.Block.Types.{Block}
use bitrst.Journal.Disconnected.{
  JournalEntry, DisconnectedBlockJournal, with_capacity, record_block, blocks_after, too_old,
  blocks_since,
}

-- The event sequences ascend.
abbrev pub Ascending : List JournalEntry → Type 0
Ascending [] = Unit
Ascending (entry ∷ entries) =
    All (λ later. entry.event_seq < later.event_seq) entries × Ascending entries

-- The journal holds the last `capacity` of the records that were made.
pub record Retains (journal : DisconnectedBlockJournal) (history : List JournalEntry) : Type 0 where
  pub room : 0 < journal.capacity
  pub window : journal.entries ≡ drop (length history - journal.capacity) history

pub with_capacity-Retains : (capacity : ℕ) → Retains (with_capacity capacity) []
unfolding with_capacity
with_capacity-Retains capacity = record {
  room = ground arith;
  window = sym (drop-nil {A = JournalEntry} _);
}

pub record_block-Retains :
    (journal : DisconnectedBlockJournal) (history : List JournalEntry) (event_seq : ℕ)
    (block : Block)
    → Retains journal history
    → Retains
        (record_block journal event_seq block)
        (history ++ (record { event_seq = event_seq; block = block } ∷ []))
unfolding record_block
record_block-Retains journal history event_seq block retains =
    let entry : JournalEntry = record { event_seq = event_seq; block = block } in
    let d = length history - journal.capacity in
    let room = retains.room in
    record {
      room = room;
      window =
          rw (length-append history (entry ∷ []), retains.window, length-drop d history)
            (elim (Bool-cases (leb journal.capacity (length history - d))) [
              | inl full ↦
                  let step : length history + 1 - journal.capacity ≡ d + 1 = ground arith in
                  rw (full, step)
                    (ap (λ (entries : List JournalEntry). entries ++ (entry ∷ []))
                        (drop-drop d 1 history)
                      ∙ sym (drop-append_le (d + 1) history (entry ∷ []) (ground arith)))
              | inr free ↦
                  let none_now : d ≡ 0 = ground arith in
                  let none_then : length history + 1 - journal.capacity ≡ 0 = ground arith in
                  rw (free, none_then, none_now) refl
            ]);
    }

-- What was recorded before the front of the window is no later than `since`.
front-bounds :
    (since n lo : ℕ) (entries : List JournalEntry)
    → All (λ later. lo < later.event_seq) entries
    → too_old since (drop n entries) ≡ none
    → n < length entries
    → lo ≤ since
front-bounds since n lo [] later h inside = absurd (omega arith)
front-bounds since zero lo (entry ∷ entries) (first, later) h inside =
    elim (Bool-cases (ltb since (entry.event_seq - 1))) [
      | inl old ↦ absurd (ground arith)
      | inr fine ↦ let at = ltb→le since (entry.event_seq - 1) fine in omega arith
    ]
front-bounds since (suc n) lo (entry ∷ entries) (first, later) h inside =
    front-bounds since n lo entries later h (omega arith)

-- Entries at or before `since` are not among those after it.
blocks_after-drop :
    (since n : ℕ) (history : List JournalEntry)
    → Ascending history
    → too_old since (drop n history) ≡ none
    → n < length history
    → blocks_after since (drop n history) ≡ blocks_after since history
blocks_after-drop since zero history ascending h inside = refl
blocks_after-drop since (suc n) [] ascending h inside = absurd (omega arith)
blocks_after-drop since (suc n) (entry ∷ entries) (before, ascending) h inside =
    rw
      (le→ltb since entry.event_seq
        (front-bounds since n entry.event_seq entries before h (omega arith)))
      (blocks_after-drop since n entries ascending h (omega arith))

blocks_after-window :
    (since capacity : ℕ) (history : List JournalEntry)
    → 0 < capacity
    → Ascending history
    → too_old since (drop (length history - capacity) history) ≡ none
    → blocks_after since (drop (length history - capacity) history) ≡ blocks_after since history
blocks_after-window since capacity [] room ascending h =
    ap (blocks_after since) (drop-nil {A = JournalEntry} (0 - capacity))
blocks_after-window since capacity (entry ∷ entries) room ascending h =
    blocks_after-drop since (suc (length entries) - capacity) (entry ∷ entries) ascending h
      (omega arith)

-- What is recovered from a journal whose event sequences ascend is every block recorded after
-- the cursor, in order: where one is lost, recovery does not succeed.
pub blocks_since-Retains :
    (journal : DisconnectedBlockJournal) (history : List JournalEntry) (since : ℕ)
    (blocks : List Block)
    → Retains journal history
    → Ascending history
    → blocks_since journal since ≡ ok blocks
    → blocks ≡ blocks_after since history
unfolding blocks_since
blocks_since-Retains journal history since blocks retains ascending h =
    let d = length history - journal.capacity in
    elim (Option-cases (too_old since (drop d history))) [
      | inr (error, e) ↦
          let refused : err error ≡ ok blocks = rw (blocks_since, retains.window, e) at h in
          absurd (ground arith)
      | inl e ↦
          let recent : too_old since journal.entries ≡ none = rw retains.window e in
          let same : ok (blocks_after since journal.entries) ≡ ok blocks =
            rw (blocks_since, recent) at h in
          let found : blocks_after since journal.entries ≡ blocks = ground arith in
          sym found
          ∙ ap (blocks_after since) retains.window
          ∙ blocks_after-window since journal.capacity history retains.room ascending e
    ]
