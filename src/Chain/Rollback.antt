-- ===== src/Chain/Rollback.antt =====
-- What an error of a method of crates/bitrst-core/src/chain.rs leaves of the active chain.
use bitrst.Base.{
  ℕ, ◌≡◌, refl, List, Option, none, some, Bool, true, false, if◌then◌else◌, Result, ok, err, subst,
}
use bitrst.Base.Keys.{bytes_discrete, holds}
use bitrst.Crypto.{Primitives}
use bitrst.Block.Types.{Block}
use bitrst.Chain.Work.{ChainWork, at_most}
use bitrst.Chain.Types.{
  Chain, ChainError, BlockMeta, ConnectResult, Fault, failed, panicked, out_of_fuel,
}
use bitrst.Chain.Reads.{tip_hash}
use bitrst.Chain.Action.{Action, after, lift, ◌>>◌}
use bitrst.Chain.Reorg.{restore, reorg_along, reorg_to_block, try_reorg_to_block}
use bitrst.Chain.Connect.{
  switch, settle, settle_at, connect_to_parent, connect_one, extend, keep_aside,
}
use bitrst.Chain.Steps.{reorg_to_block-Growing}

-- What an error leaves: the active chain, its outputs and its work, and the orphans.
pub record Unmoved (before later : Chain) : Type 0 where
  pub blocks : later.blocks ≡ before.blocks
  pub active_hashes : later.active_hashes ≡ before.active_hashes
  pub utxo : later.utxo ≡ before.utxo
  pub total_work : later.total_work ≡ before.total_work
  pub orphans : later.orphans ≡ before.orphans

abbrev pub Rolled : {A : Type 0} → Chain → Chain × Result Fault A → Type 0
Rolled before (later, ok a) = Unit
Rolled before (later, err (failed e)) = Unmoved before later
Rolled before (later, err panicked) = Unit
Rolled before (later, err out_of_fuel) = Unit

Rolled-stay : (A : Type 0) (chain : Chain) (fault : Fault) → Rolled {A = A} chain (chain, err fault)
Rolled-stay A chain (failed e) = record {
  blocks = refl;
  active_hashes = refl;
  utxo = refl;
  total_work = refl;
  orphans = refl;
}
Rolled-stay A chain panicked = tt
Rolled-stay A chain out_of_fuel = tt

Rolled-last :
    {A B : Type 0} (chain : Chain) (out : Chain × Result Fault A) (change : A → Chain → Chain)
    (value : A → Chain → B)
    → Rolled chain out
    → Rolled chain (after out (λ a c. (change a c, ok (value a c))))
Rolled-last chain (c, ok a) change value h = tt
Rolled-last chain (c, err (failed e)) change value h = h
Rolled-last chain (c, err panicked) change value h = tt
Rolled-last chain (c, err out_of_fuel) change value h = tt

Rolled-if :
    {A : Type 0} (chain : Chain) (b : Bool) (x y : Chain × Result Fault A)
    → Rolled chain x
    → Rolled chain y
    → Rolled chain (if b then x else y)
Rolled-if chain true x y h k = h
Rolled-if chain false x y h k = k

restore-Rolled :
    (chain : Chain) (out : Chain × Result Fault ℕ)
    → (restore chain out).0.orphans ≡ chain.orphans
    → Rolled chain (restore chain out)
unfolding restore
restore-Rolled chain (c, ok n) h = tt
restore-Rolled chain (c, err (failed e)) h = record {
  blocks = refl;
  active_hashes = refl;
  utxo = refl;
  total_work = refl;
  orphans = h;
}
restore-Rolled chain (c, err panicked) h = tt
restore-Rolled chain (c, err out_of_fuel) h = tt

module _ (crypto : Primitives) where
  reorg_along-Rolled :
      (work : ChainWork) (path : Result Fault (List Block × List ℕ)) (chain : Chain)
      → (reorg_along crypto work path chain).0.orphans ≡ chain.orphans
      → Rolled chain (reorg_along crypto work path chain)
  reorg_along-Rolled work (err fault) chain h = Rolled-stay ℕ chain fault
  reorg_along-Rolled work (ok (path, fork)) chain h =
      restore-Rolled chain (try_reorg_to_block crypto path fork work chain) h

  reorg_to_block-Rolled :
      (block : Block) (work : ChainWork) (chain : Chain)
      → Rolled chain (reorg_to_block crypto block work chain)
  unfolding reorg_to_block
  reorg_to_block-Rolled block work chain =
      reorg_along-Rolled work _ chain (reorg_to_block-Growing crypto block work chain).orphans

  settle-Rolled :
      (block : Block) (at : ℕ) (work : ChainWork) (chain : Chain)
      → Rolled chain (settle crypto block at work chain)
  unfolding settle switch extend keep_aside
  settle-Rolled block at work chain =
      Rolled-if chain (holds (bytes_discrete block.header.prev_blockhash (tip_hash crypto chain)))
        (extend crypto block at work chain) _ tt
        (Rolled-if chain (at_most work chain.total_work) (keep_aside crypto block at work chain)
          (switch crypto block work chain) tt
          (Rolled-last chain (reorg_to_block crypto block work chain) _ _
            (reorg_to_block-Rolled block work chain)))

  settle_at-Rolled :
      (block : Block) (place : Result Fault (ℕ × ChainWork)) (chain : Chain)
      → Rolled chain (settle_at crypto block place chain)
  settle_at-Rolled block (err fault) chain = Rolled-stay ConnectResult chain fault
  settle_at-Rolled block (ok (at, work)) chain = settle-Rolled block at work chain

  connect_to_parent-Rolled :
      (block : Block) (parent : Option BlockMeta) (chain : Chain)
      → Rolled chain (connect_to_parent crypto block parent chain)
  unfolding connect_to_parent
  connect_to_parent-Rolled block none chain = tt
  connect_to_parent-Rolled block (some parent) chain = settle_at-Rolled block _ chain

  Rolled-check :
      {B : Type 0} (check : Result Fault (Unit {0})) (next : Action B) (chain : Chain)
      → Rolled chain (next chain)
      → Rolled chain ((lift check >> next) chain)
  unfolding lift ◌>>◌
  Rolled-check {B = B} (ok done) next chain h = h
  Rolled-check {B = B} (err fault) next chain h = Rolled-stay B chain fault

  connect_one-Rolled :
      (block : Block) (chain : Chain) → Rolled chain (connect_one crypto block chain)
  unfolding connect_one
  connect_one-Rolled block chain =
      Rolled-check _ (connect_to_parent crypto block _) chain
        (connect_to_parent-Rolled block _ chain)

  -- One block, connected without the orphans that wait for it: if that returns an error, the
  -- active blocks and their hashes, the unspent outputs, the total work and the orphans are as
  -- they were, the blocks that the error cost a reorganization included.
  pub connect_one-Unmoved :
      (block : Block) (chain later : Chain) (e : ChainError)
      → connect_one crypto block chain ≡ (later, err (failed e))
      → Unmoved chain later
  connect_one-Unmoved block chain later e h =
      subst (Rolled chain) h (connect_one-Rolled block chain)
