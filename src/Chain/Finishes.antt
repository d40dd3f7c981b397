-- ===== src/Chain/Finishes.antt =====
-- The checks of crates/bitrst-core/src/chain.rs and lack of fuel.
use bitrst.Base
use bitrst.Base.{
  ℕ, zero, suc, ◌+◌, ◌-◌, ◌%◌, ◌^◌, ◌≤◌, ◌<◌, ◌≡◌, ◌⊎◌, refl, sym, ap, subst, ◌∙◌, List, [], ◌∷◌,
  length, reverse, get_elem?, Option, none, some, ok_or, map_err, reject_if, inl, inr, Bool, true,
  false, not, ◌==◌, leb, if◌then◌else◌, Result, ok, err, arith,
}
use bitrst.Crypto.{Primitives}
use bitrst.Block.Types.{Block}
use bitrst.Work.Difficulty.{adjust_bits, difficulty_adjustment_interval}
use bitrst.Chain.Types
use bitrst.Chain.Types.{
  Chain, ChainError, BlockMeta, ConnectResult, Fault, failed, panicked, out_of_fuel, block_work,
}
use bitrst.Chain.Validate.{validate_block_transactions_for_utxo}
use bitrst.Chain.Header.{
  returned, block_at, retarget, expected_bits, check_contents, check_time,
  validate_block_header_for_parent, validate_block_for_parent,
}
use bitrst.Chain.Connect.{place}

-- A result that is no lack of fuel.
abbrev pub Finished : {A : Type 0} → Result Fault A → Type 0
Finished (ok a) = Unit
Finished (err (failed e)) = Unit
Finished (err panicked) = Unit
Finished (err out_of_fuel) = true ≡ false

pub Finished-returned : {A : Type 0} (r : Result ChainError A) → Finished (returned r)
Finished-returned (ok a) = tt
Finished-returned (err e) = tt

pub Finished-bind :
    {A B : Type 0} (first : Result Fault A) (next : A → Result Fault B)
    → Finished first
    → ((a : A) → Finished (next a))
    → Finished (Base.◌>>=◌ first next)
Finished-bind (ok a) next h k = k a
Finished-bind (err (failed e)) next h k = tt
Finished-bind (err panicked) next h k = tt
Finished-bind (err out_of_fuel) next h k = absurd (ground arith)

Finished-if :
    {A : Type 0} (b : Bool) (x y : Result Fault A)
    → Finished x
    → Finished y
    → Finished (if b then x else y)
Finished-if true x y h k = h
Finished-if false x y h k = k

Finished-ok_or : {A : Type 0} (o : Option A) → Finished (ok_or o panicked)
Finished-ok_or none = tt
Finished-ok_or (some a) = tt

pub Finished-reject : (b : Bool) (e : ChainError) → Finished (reject_if b (failed e))
Finished-reject true e = tt
Finished-reject false e = tt

retarget-Finished : (ascending : List Block) (height : ℕ) → Finished (retarget ascending height)
unfolding retarget block_at
retarget-Finished ascending height =
    Finished-if (leb (length ascending) (height - difficulty_adjustment_interval)) (ok _) _ tt (
      Finished-bind (ok_or (get_elem? ascending (height - difficulty_adjustment_interval)) panicked)
        _ (Finished-ok_or _)
        (λ first.
          Finished-bind (ok_or (get_elem? ascending (height - 1)) panicked) _ (Finished-ok_or _)
            (λ last. Finished-returned (
              map_err Types.difficulty
                (adjust_bits last.header.bits (last.header.time - first.header.time))))))

expected_bits-Finished :
    (chain : Chain) (height bits : ℕ) → Finished (expected_bits chain height bits)
unfolding expected_bits
expected_bits-Finished chain height bits = Finished-if (height == 0) (ok bits) _ tt (
    Finished-if (not (height % difficulty_adjustment_interval == 0)) (returned _) _
      (Finished-returned _) (retarget-Finished (reverse chain.blocks) height))

module _ (crypto : Primitives) where
  pub validate_block_for_parent-Finished :
      (block : Block) (parent : Option Block) (parent_hash : Option (List ℕ)) (height : ℕ)
      (chain : Chain)
      → Finished (validate_block_for_parent crypto block parent parent_hash height chain)
  unfolding validate_block_for_parent validate_block_header_for_parent
  validate_block_for_parent-Finished block parent parent_hash height chain =
      Finished-bind (validate_block_header_for_parent crypto block parent parent_hash height chain)
        _
        (Finished-bind (returned (check_contents crypto block)) _
          (Finished-returned (check_contents crypto block))
          (λ done.
            Finished-bind (returned (check_time block parent parent_hash chain)) _
              (Finished-returned (check_time block parent parent_hash chain))
              (λ done'.
                Finished-bind (expected_bits chain height block.header.bits) _
                  (expected_bits-Finished chain height block.header.bits)
                  (λ expected. Finished-reject (not (block.header.bits == expected)) _))))
        (λ done. Finished-returned (validate_block_transactions_for_utxo crypto block chain.utxo))

  pub place-Finished :
      (block : Block) (parent : BlockMeta) (chain : Chain)
      → Finished (place crypto block parent chain)
  unfolding place
  place-Finished block parent chain =
      Finished-bind
        (validate_block_for_parent crypto block (some parent.block)
          (some block.header.prev_blockhash) ((parent.height + 1) % 2 ^ 32) chain)
        _
        (validate_block_for_parent-Finished block (some parent.block)
          (some block.header.prev_blockhash) ((parent.height + 1) % 2 ^ 32) chain)
        (λ done.
          Finished-bind (returned (block_work block.header.bits)) _
            (Finished-returned (block_work block.header.bits)) (λ own. tt))
