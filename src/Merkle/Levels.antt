-- ===== src/Merkle/Levels.antt =====
-- The passes of the Merkle computation: sizes, termination, and what a root does not tell apart.
use bitrst.Base.{
  ℕ, zero, suc, ◌+◌, ◌*◌, ◌/◌, ◌≤◌, ◌<◌, ◌≡◌, refl, ap, List, [], ◌∷◌, ◌++◌, length, length-append,
  All, false, some, ltb, ◌==◌, Bool-cases, inl, inr, ltb→lt, lt→ltb, le→ltb, arith,
}
use bitrst.Wire.Bytes.{IsArray}
use bitrst.Crypto.{Primitives, sha256d, sha256d-IsArray}
use bitrst.Merkle.Root.{next_level, merkle_loop, merkle_root, head_of}
use bitrst.Limits.{max_transactions_per_block}

module _ (crypto : Primitives) where
  pub length-next_level :
      (level : List (List ℕ)) → length (next_level crypto level) ≡ (length level + 1) / 2
  unfolding next_level
  length-next_level [] = omega arith
  length-next_level (x ∷ []) = omega arith
  length-next_level (x ∷ y ∷ level) = omega (arith, length-next_level level)

  next_level-IsArray : (level : List (List ℕ)) → All (IsArray 32) (next_level crypto level)
  unfolding next_level
  next_level-IsArray [] = tt
  next_level-IsArray (x ∷ []) = (sha256d-IsArray crypto (x ++ x), tt)
  next_level-IsArray (x ∷ y ∷ level) = (sha256d-IsArray crypto (x ++ y), next_level-IsArray level)

  -- With fuel for its length a level that is not empty is reduced to one hash.
  merkle_loop_total :
      (fuel : ℕ) (level : List (List ℕ))
      → 0 < length level
      → length level ≤ fuel
      → All (IsArray 32) level
      → (root : List ℕ) × (merkle_loop crypto fuel level ≡ some (root ∷ [])) × IsArray 32 root
  unfolding merkle_loop
  merkle_loop_total zero level h k all = absurd (omega arith)
  merkle_loop_total (suc fuel) [] h k all = absurd (omega arith)
  merkle_loop_total (suc fuel) (x ∷ []) h k all = (x, refl, all.0)
  merkle_loop_total (suc fuel) (x ∷ y ∷ level) h k all =
      let next = next_level crypto (x ∷ y ∷ level) in
      let size = length-next_level (x ∷ y ∷ level) in
      let (root, e, good) =
        merkle_loop_total fuel next (omega (arith, size)) (omega (arith, size))
          (next_level-IsArray (x ∷ y ∷ level)) in
      (root, rw (lt→ltb 1 (length (x ∷ y ∷ level)) (omega arith)) e, good)

  -- Every list of 1 to 25,000 hashes has a root, which is a hash of 32 bytes.
  pub merkle_root_total :
      (txids : List (List ℕ))
      → 0 < length txids
      → length txids ≤ max_transactions_per_block
      → All (IsArray 32) txids
      → (root : List ℕ) × (merkle_root crypto txids ≡ some root) × IsArray 32 root
  unfolding merkle_root
  merkle_root_total txids h k all =
      let (root, e, good) = merkle_loop_total (length txids) txids h (omega arith) all in
      (
        root,
        (let nonempty : (length txids == 0) ≡ false = ground arith in
            rw (nonempty, le→ltb _ _ k, e) refl),
        good,
      )

  -- More fuel changes nothing.
  merkle_loop_fuel :
      (fuel more : ℕ) (level : List (List ℕ))
      → 0 < length level
      → length level ≤ fuel
      → fuel ≤ more
      → merkle_loop crypto more level ≡ merkle_loop crypto fuel level
  unfolding merkle_loop
  merkle_loop_fuel zero more level h k m = absurd (omega arith)
  merkle_loop_fuel (suc fuel) zero level h k m = absurd (omega arith)
  merkle_loop_fuel (suc fuel) (suc more) level h k m = elim (Bool-cases (ltb 1 (length level))) [
    | inl big ↦
        let two = ltb→lt _ _ big in
        let size = length-next_level level in
        rw (big) (
          merkle_loop_fuel fuel more (next_level crypto level) (omega (arith, size))
            (omega (arith, size)) (omega arith))
    | inr small ↦ rw (small) refl
  ]

  loop_step :
      (n : ℕ) (level : List (List ℕ))
      → length level ≡ n
      → 2 ≤ n
      → merkle_loop crypto n level
        ≡ merkle_loop crypto (length (next_level crypto level)) (next_level crypto level)
  unfolding merkle_loop
  loop_step zero level e h = absurd (omega arith)
  loop_step (suc n) level e h =
      let size = length-next_level level in
      rw (lt→ltb 1 (length level) (omega arith)) (
        merkle_loop_fuel (length (next_level crypto level)) n (next_level crypto level)
          (omega (arith, size)) (omega arith) (omega (arith, size)))

  -- The root of two hashes or more is that of the level above.
  merkle_root_step :
      (level : List (List ℕ))
      → 2 ≤ length level
      → length level ≤ max_transactions_per_block
      → merkle_root crypto level
        ≡ head_of crypto
            (merkle_loop crypto (length (next_level crypto level)) (next_level crypto level))
  unfolding merkle_root
  merkle_root_step level h k =
      let nonempty : (length level == 0) ≡ false = ground arith in
      rw (nonempty, le→ltb _ _ k, loop_step (length level) level refl h) refl

  -- A pass pairs a last hash that stands alone with itself, as if it had been listed twice.
  pub next_level_duplicate :
      (pairs : ℕ) (level : List (List ℕ)) (last : List ℕ)
      → length level ≡ 2 * pairs
      → next_level crypto (level ++ (last ∷ [])) ≡ next_level crypto (level ++ (last ∷ last ∷ []))
  unfolding next_level
  next_level_duplicate pairs [] last e = refl
  next_level_duplicate pairs (x ∷ []) last e = absurd (omega arith)
  next_level_duplicate zero (x ∷ y ∷ level) last e = absurd (omega arith)
  next_level_duplicate (suc pairs) (x ∷ y ∷ level) last e =
      ap (◌∷◌ (sha256d crypto (x ++ y))) (next_level_duplicate pairs level last (omega arith))

  -- An odd list of three hashes or more has the root of the list that repeats its last hash.
  pub merkle_root_duplicate :
      (pairs : ℕ) (level : List (List ℕ)) (last : List ℕ)
      → length level ≡ 2 * suc pairs
      → length level + 2 ≤ max_transactions_per_block
      → merkle_root crypto (level ++ (last ∷ [])) ≡ merkle_root crypto (level ++ (last ∷ last ∷ []))
  merkle_root_duplicate pairs level last e k =
      let one = length-append level (last ∷ []) in
      let two = length-append level (last ∷ last ∷ []) in
      rw
        (
          merkle_root_step (level ++ (last ∷ [])) (omega (arith, one)) (omega (arith, one)),
          merkle_root_step (level ++ (last ∷ last ∷ [])) (omega (arith, two)) (omega (arith, two)),
          next_level_duplicate (suc pairs) level last e,
        )
        refl
