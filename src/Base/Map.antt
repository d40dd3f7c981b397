-- ===== src/Base/Map.antt =====
-- Rust's `HashMap` as an association list: `insert` replaces, `remove` drops every entry of a key.
use Prim.Native.Nat.{ℕ, ◌+◌, ◌≤◌, suc}
use mathlib.Core.Path.{◌≡◌, refl, sym, ◌∙◌}
use mathlib.Core.Logic.{◌≢◌, ite, if_pos, if_neg}
use mathlib.Core.Option.{Option, none, some}
use mathlib.Core.List.{List, [], ◌∷◌}
use native.Mathlib.Omega.{arith}

abbrev pub Map : Type 0 → Type 0 → Type 0
Map K V = List (K × V)

-- The entries' values, measured and added up.
abbrev pub total : {K V : Type 0} → (V → ℕ) → Map K V → ℕ
total f [] = 0
total f ((k, v) ∷ m) = f v + total f m

abbrev pub size : {K V : Type 0} → Map K V → ℕ
size [] = 0
size (e ∷ m) = suc (size m)

module _ {K V : Type 0} (dec : Discrete K) where
  unfoldable pub get : K → Map K V → Option V
  get k [] = none
  get k ((j, v) ∷ m) = ite (dec j k) (some v) (get k m)

  unfoldable pub remove : K → Map K V → Map K V
  remove k [] = []
  remove k ((j, v) ∷ m) = let rest = remove k m in ite (dec j k) rest ((j, v) ∷ rest)

  unfoldable pub insert : K → V → Map K V → Map K V
  insert k v m = (k, v) ∷ remove k m

  pub get-remove_self : (k : K) (m : Map K V) → get k (remove k m) ≡ none
  unfolding get remove
  get-remove_self k [] = refl
  get-remove_self k ((j, v) ∷ m) = ground (arith, get-remove_self k m)

  pub get-remove_ne : (k q : K) (m : Map K V) → k ≢ q → get q (remove k m) ≡ get q m
  unfolding get remove
  get-remove_ne k q [] h = refl
  get-remove_ne k q ((j, v) ∷ m) h = ground (arith, get-remove_ne k q m)

  pub get-remove : (k q : K) (m : Map K V) → get q (remove k m) ≡ ite (dec k q) none (get q m)
  get-remove k q m = ground (arith, get-remove_self k m, get-remove_ne k q m)

  pub get-insert :
      (k q : K) (v : V) (m : Map K V) → get q (insert k v m) ≡ ite (dec k q) (some v) (get q m)
  unfolding get insert
  get-insert k q v m = ground (arith, get-remove_ne k q m)

  -- No key stands twice: every map that starts empty and is changed by `insert` and `remove`.
  abbrev pub Distinct : Map K V → Type 0
  Distinct [] = Unit
  Distinct ((k, v) ∷ m) = (get k m ≡ none) × Distinct m

  pub remove_absent : (k : K) (m : Map K V) → get k m ≡ none → remove k m ≡ m
  unfolding get remove
  remove_absent k [] h = refl
  remove_absent k ((j, v) ∷ m) h = ground (arith, remove_absent k m)

  pub remove-Distinct : (k : K) (m : Map K V) → Distinct m → Distinct (remove k m)
  unfolding remove
  remove-Distinct k [] h = tt
  remove-Distinct k ((j, v) ∷ m) h = elim (dec j k) [
    | yes p ↦ rw (if_pos _ p) (remove-Distinct k m h.1)
    | no p ↦ rw (if_neg _ p) (get-remove_ne k j m (λ e. p (sym e)) ∙ h.0, remove-Distinct k m h.1)
  ]

  pub insert-Distinct : (k : K) (v : V) (m : Map K V) → Distinct m → Distinct (insert k v m)
  unfolding insert
  insert-Distinct k v m h = (get-remove_self k m, remove-Distinct k m h)

  pub total-remove :
      (f : V → ℕ) (k : K) (v : V) (m : Map K V)
      → Distinct m
      → get k m ≡ some v
      → total f m ≡ f v + total f (remove k m)
  unfolding get remove
  total-remove f k v [] d h = absurd (ground arith)
  total-remove f k v ((j, w) ∷ m) d h = elim (dec j k) [
    | yes p ↦
        let same : w ≡ v = ground arith in
        rw (if_pos _ p, remove_absent k m (rw p at d.0), same) refl
    | no p ↦
        let found : get k m ≡ some v = ground arith in
        rw (if_neg _ p) (omega (arith, total-remove f k v m d.1 found))
  ]

  pub total-insert_new :
      (f : V → ℕ) (k : K) (v : V) (m : Map K V)
      → get k m ≡ none
      → total f (insert k v m) ≡ f v + total f m
  unfolding insert
  total-insert_new f k v m h = rw (remove_absent k m h) refl

  pub size-remove-le : (k : K) (m : Map K V) → size (remove k m) ≤ size m
  unfolding remove
  size-remove-le k [] = omega arith
  size-remove-le k ((j, v) ∷ m) = ground (arith, size-remove-le k m)

  pub size-remove_found :
      (k : K) (v : V) (m : Map K V) → get k m ≡ some v → suc (size (remove k m)) ≤ size m
  unfolding get remove
  size-remove_found k v [] h = absurd (ground arith)
  size-remove_found k v ((j, w) ∷ m) h = elim (dec j k) [
    | yes p ↦ rw (if_pos _ p) (omega (arith, size-remove-le k m))
    | no p ↦
        let found : get k m ≡ some v = ground arith in
        rw (if_neg _ p) (omega (arith, size-remove_found k v m found))
  ]
