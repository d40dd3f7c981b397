-- ===== src/Base/Keys.antt =====
-- Equality of byte strings, decided: hashes are the keys of the program's maps and sets.
use Prim.Native.Nat.{ℕ}
use mathlib.Core.Path.{◌≡◌, refl, ap₂}
use mathlib.Core.Bool.{Bool, true, false}
use mathlib.Core.List.{List, [], ◌∷◌}
use native.Mathlib.Decide.{ℕ_discrete}
use native.Mathlib.Omega.{arith}

both : (x y : ℕ) (xs ys : List ℕ) → Dec (x ≡ y) → Dec (xs ≡ ys) → Dec (x ∷ xs ≡ y ∷ ys)
both x y xs ys (yes p) (yes q) = yes (ap₂ ◌∷◌ p q)
both x y xs ys (yes p) (no q) = no (λ e. q (ground arith))
both x y xs ys (no p) q = no (λ e. p (ground arith))

unfoldable pub bytes_discrete : Discrete (List ℕ)
unfolding both ℕ_discrete
bytes_discrete [] [] = yes refl
bytes_discrete [] (y ∷ ys) = no (λ e. cc)
bytes_discrete (x ∷ xs) [] = no (λ e. cc)
bytes_discrete (x ∷ xs) (y ∷ ys) = both x y xs ys (ℕ_discrete x y) (bytes_discrete xs ys)

-- `a == b` as a Boolean.
abbrev pub holds : {P : Type 0} → Dec P → Bool
holds (yes p) = true
holds (no p) = false

pub holds-false : {P : Type 0} (d : Dec P) → ¬ P → holds d ≡ false
holds-false (yes p) n = absurd (n p)
holds-false (no p) n = refl

pub holds-true : {P : Type 0} (d : Dec P) → P → holds d ≡ true
holds-true (yes p) h = refl
holds-true (no n) h = absurd (n h)

-- `set.contains(&a)`
abbrev pub elem {ℓ} : {A : Type ℓ} → Discrete A → A → List A → Bool
elem dec a [] = false
elem dec a (x ∷ xs) = let rest = elem dec a xs in elim (dec x a) [ yes p ↦ true | no p ↦ rest ]
