-- ===== src/Mempool/Marks.antt =====
-- The loop of `remove_for_block` in crates/bitrst-core/src/mempool.rs ends, on a set of hashes that
-- it has nothing to add to.
use bitrst.Base.{
  ℕ, zero, suc, ◌≤◌, ◌<◌, ◌≡◌, refl, sym, ◌∙◌, List, [], ◌∷◌, All, All-imp, some, Bool, true, false,
  not, ◌&&◌, ◌||◌, Bool-cases, inl, inr, arith, if◌then◌else◌,
}
use bitrst.Base.Map
use bitrst.Base.Keys.{bytes_discrete, elem}
use bitrst.Utxo.Types.{OutPoint}
use bitrst.Mempool.Types.{MempoolEntry}
use bitrst.Mempool.Pool.{Entries}
use bitrst.Mempool.Sync.{spends_removed, mark_spenders, mark_all}
use bitrst.Mempool.Keyed.{Present, Present-∷}

-- `removed.contains(&id)`
abbrev pub marked : List ℕ → List (List ℕ) → Bool
marked id removed = elem bytes_discrete id removed

pub marked-∷ :
    (id k : List ℕ) (removed : List (List ℕ))
    → marked id removed ≡ true
    → marked id (k ∷ removed) ≡ true
marked-∷ id k removed h = ground arith

-- The entries that are not in the set.
unmarked : Entries → List (List ℕ) → ℕ
unmarked [] removed = 0
unmarked ((id, entry) ∷ entries) removed =
    let rest = unmarked entries removed in if marked id removed then rest else suc rest

unmarked-le :
    (entries : Entries) (k : List ℕ) (removed : List (List ℕ))
    → unmarked entries (k ∷ removed) ≤ unmarked entries removed
unfolding unmarked
unmarked-le [] k removed = omega arith
unmarked-le ((id, entry) ∷ entries) k removed =
    let rest = unmarked-le entries k removed in
    elim (Bool-cases (marked id removed)) [
      | inl there ↦ rw (there, marked-∷ id k removed there) rest
      | inr out ↦ elim (Bool-cases (marked id (k ∷ removed))) [
        | inl now ↦ rw (out, now) (omega arith)
        | inr still ↦ rw (out, still) (omega arith)
      ]
    ]

marked_self : (k : List ℕ) (removed : List (List ℕ)) → marked k (k ∷ removed) ≡ true
marked_self k removed = ground arith

unmarked-lt :
    (entries : Entries) (k : List ℕ) (removed : List (List ℕ))
    → Present entries k
    → marked k removed ≡ false
    → suc (unmarked entries (k ∷ removed)) ≤ unmarked entries removed
unfolding unmarked Map.get
unmarked-lt [] k removed there out = absurd (there refl)
unmarked-lt ((id, entry) ∷ entries) k removed there out =
    let rest = unmarked-le entries k removed in
    elim (bytes_discrete id k) [
      | yes p ↦
          let was : marked id removed ≡ false = rw p out in
          let now : marked id (k ∷ removed) ≡ true = rw p (marked_self k removed) in
          rw (was, now) (omega arith)
      | no p ↦
          let deeper : Present entries k = λ e. there (ground arith) in
          let fewer = unmarked-lt entries k removed deeper out in
          let same : marked id (k ∷ removed) ≡ marked id removed = ground arith in
          rw same (elim (Bool-cases (marked id removed)) [
            | inl in_set ↦ rw in_set fewer
            | inr free ↦ rw free (omega arith)
          ])
    ]

-- An entry that a pass leaves: it is in the set, or it spends nothing that is gone.
abbrev pub Quiet : List OutPoint → List (List ℕ) → List ℕ × MempoolEntry → Type 0
Quiet spent removed (id, entry) =
    not (marked id removed) && spends_removed spent removed entry.tx.inputs ≡ false

-- What a pass over some entries makes of a set, for the entries of the whole pool.
record Passed (whole : Entries) (spent : List OutPoint) (entries : Entries)
    (removed : List (List ℕ)) (added : Bool) (out : List (List ℕ) × Bool) : Type 0 where
  grows : (id : List ℕ) → marked id removed ≡ true → marked id out.0 ≡ true
  fewer : unmarked whole out.0 ≤ unmarked whole removed
  strict : out.1 ≡ true → added ≡ false → suc (unmarked whole out.0) ≤ unmarked whole removed
  still : out.1 ≡ false → (added ≡ false) × (out.0 ≡ removed) × All (Quiet spent removed) entries

mark_spenders-Passed :
    (whole : Entries) (spent : List OutPoint) (entries : Entries) (removed : List (List ℕ))
    (added : Bool)
    → All (λ (e : List ℕ × MempoolEntry). Present whole e.0) entries
    → Passed whole spent entries removed added (mark_spenders spent entries removed added)
unfolding mark_spenders
mark_spenders-Passed whole spent [] removed added there = record {
  grows = λ id h. h;
  fewer = omega arith;
  strict = λ h k. absurd (ground arith);
  still = λ h. (h, refl, tt);
}
mark_spenders-Passed whole spent ((id, entry) ∷ entries) removed added (here, there) =
    elim (Bool-cases (not (marked id removed) && spends_removed spent removed entry.tx.inputs)) [
      | inl marks ↦
          let out : marked id removed ≡ false = ground arith in
          let rest =
            mark_spenders-Passed whole spent entries (id ∷ removed) (added || true) there in
          let less = unmarked-lt whole id removed here out in
          let on : added || true ≡ true = ground arith in
          rw marks (record {
            grows = λ k h. rest.grows k (marked-∷ k id removed h);
            fewer = (let f = rest.fewer in omega arith);
            strict = λ h k. (let f = rest.fewer in omega arith);
            still = λ h. (let none_added = (rest.still h).0 in absurd (ground arith));
          })
      | inr quiet ↦
          let rest = mark_spenders-Passed whole spent entries removed (added || false) there in
          let same : added || false ≡ added = ground arith in
          rw quiet (record {
            grows = rest.grows;
            fewer = rest.fewer;
            strict = λ h k. rest.strict h (same ∙ k);
            still = λ h. (let (a, b, c) = rest.still h in (sym same ∙ a, b, (quiet, c)));
          })
    ]

Present-all : (entries : Entries) → All (λ (e : List ℕ × MempoolEntry). Present entries e.0) entries
unfolding Map.get
Present-all [] = tt
Present-all ((id, entry) ∷ entries) = (
  λ e. ground arith,
  All-imp _ entries (λ e there. Present-∷ entries id entry e.0 there) (Present-all entries),
)

-- The set that the loop ends with.
pub record Closed (spent : List OutPoint) (entries : Entries) (removed out : List (List ℕ))
    : Type 0 where
  pub grows : (id : List ℕ) → marked id removed ≡ true → marked id out ≡ true
  pub quiet : All (Quiet spent out) entries

mark_all_total :
    (fuel : ℕ) (spent : List OutPoint) (entries : Entries) (removed : List (List ℕ))
    → unmarked entries removed < fuel
    → (out : List (List ℕ)) × (mark_all fuel spent entries removed ≡ some out)
      × Closed spent entries removed out
unfolding mark_all
mark_all_total zero spent entries removed enough = absurd (omega arith)
mark_all_total (suc fuel) spent entries removed enough =
    let pass = mark_spenders spent entries removed false in
    let passed = mark_spenders-Passed entries spent entries removed false (Present-all entries) in
    elim (Bool-cases (pass.1)) [
      | inl added ↦
          let less = passed.strict added refl in
          let (out, e, closed) = mark_all_total fuel spent entries (pass.0) (omega arith) in
          (
            out,
            rw added e,
            record { grows = λ id h. closed.grows id (passed.grows id h); quiet = closed.quiet },
          )
      | inr nothing ↦
          let (a, same, quiet) = passed.still nothing in
          (removed, rw (nothing, same) refl, record { grows = λ id h. h; quiet = quiet })
    ]

unmarked_size :
    (entries : Entries) (removed : List (List ℕ)) → unmarked entries removed ≤ Map.size entries
unfolding unmarked
unmarked_size [] removed = omega arith
unmarked_size ((id, entry) ∷ entries) removed =
    let rest = unmarked_size entries removed in ground arith

pub mark_all-Closed :
    (spent : List OutPoint) (entries : Entries) (removed : List (List ℕ))
    → (out : List (List ℕ)) × (mark_all (suc (Map.size entries)) spent entries removed ≡ some out)
      × Closed spent entries removed out
mark_all-Closed spent entries removed =
    let small = unmarked_size entries removed in
    mark_all_total (suc (Map.size entries)) spent entries removed (omega arith)
