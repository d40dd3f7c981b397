-- ===== src/Chain/Termination.antt =====
-- The loops of crates/bitrst-core/src/chain.rs against their fuel.
use bitrst.Base.{
  ℕ, zero, suc, ◌+◌, ◌^◌, ◌≤◌, ◌<◌, ◌≡◌, refl, sym, ap, subst, ◌∙◌, List, [], ◌∷◌, length, Option,
  none, some, ok_or, inl, inr, Bool, true, false, if◌then◌else◌, Result, ok, err, arith,
}
use bitrst.Base.Map
use bitrst.Base.Keys.{bytes_discrete, holds}
use bitrst.Crypto.{Primitives}
use bitrst.Block.Types.{Block}
use bitrst.Block.Encode.{hash}
use bitrst.Chain.Work.{ChainWork, at_most}
use bitrst.Chain.Types
use bitrst.Chain.Types.{
  Chain, ChainError, BlockMeta, ConnectResult, Fault, failed, panicked, out_of_fuel, block_work,
}
use bitrst.Chain.Validate.{validate_block_limits}
use bitrst.Chain.Header.{returned, validate_block_for_parent}
use bitrst.Chain.Reads.{found, tip_hash, has_block_hash, find_height}
use bitrst.Chain.Action.{Action, lift, pure, ◌>>◌, ◌>>=◌, modify, after}
use bitrst.Chain.Reorg.{
  collect_from, collect_fork_path, path_fuel, disconnect_until, parent_plus, path_work,
  connect_path_block, connect_path, try_reorg_to_block, restore, reorg_along, reorg_to_block,
}
use bitrst.Chain.Connect.{
  place, extend, keep_aside, switch, settle, settle_at, connect_to_parent, check_new, connect_one,
}
use bitrst.Chain.Index.{Known, find}
use bitrst.Chain.Active.{WellFormed, IsActive}
use bitrst.Chain.Switching.{disconnect_until-Landed}
use bitrst.Chain.WellFormed.{new-above, check_new-unknown}
use bitrst.Chain.Reorged.{Collected, collect_fork_path-Collected}
use bitrst.Chain.Finishes.{
  Finished, Finished-returned, Finished-reject, Finished-bind, validate_block_for_parent-Finished,
  place-Finished,
}

pub Finished-after :
    {A B : Type 0} (out : Chain × Result Fault A) (next : A → Action B)
    → Finished out.1
    → ((a : A) (c : Chain) → out ≡ (c, ok a) → Finished (next a c).1)
    → Finished (after out next).1
Finished-after (c, ok a) next h k = k a c refl
Finished-after (c, err (failed e)) next h k = tt
Finished-after (c, err panicked) next h k = tt
Finished-after (c, err out_of_fuel) next h k = absurd (ground arith)

pub Finished-branch :
    {A : Type 0} (b : Bool) (x y : Chain × Result Fault A)
    → Finished x.1
    → Finished y.1
    → Finished (if b then x else y).1
Finished-branch true x y h k = h
Finished-branch false x y h k = k

-- Every height leaves room for the next.
abbrev pub Low : Known → Type 0
Low known = (id : List ℕ) (meta : BlockMeta) → find id known ≡ some meta → meta.height + 1 < 2 ^ 32

module _ (crypto : Primitives) (root : List ℕ) where
  collect_step :
      (chain : Chain) (tip : Block) (path : List Block) (fuel : ℕ) (active : Bool)
      (meta : Option BlockMeta)
      → WellFormed crypto root chain
      → Low chain.known
      → found (Map.get bytes_discrete tip.header.prev_blockhash chain.active_hashes) ≡ active
      → find tip.header.prev_blockhash chain.known ≡ meta
      → path_fuel meta ≤ suc fuel
      → ((b : Block) (p : List Block)
          → path_fuel (find b.header.prev_blockhash chain.known) ≤ fuel
          → Finished (collect_from fuel chain b p))
      → Finished (
          if active then ok (path, tip.header.prev_blockhash) else elim meta [
            | none ↦ err (failed Types.missing_ancestor)
            | some m ↦ collect_from fuel chain m.block (m.block ∷ path)
          ])
  collect_step chain tip path fuel true meta wf low a e enough next = tt
  collect_step chain tip path fuel false none wf low a e enough next = tt
  collect_step chain tip path fuel false (some m) wf low a e enough next =
      next m.block (m.block ∷ path) (elim (wf.index.parent tip.header.prev_blockhash m e) [
        | inl first ↦ absurd (
            let on : found (Map.get bytes_discrete tip.header.prev_blockhash chain.active_hashes)
                ≡ true =
              ap (λ k. found (Map.get bytes_discrete k chain.active_hashes)) first ∙ wf.rooted in
            ground arith)
        | inr (p, e', child) ↦
            let room = low m.block.header.prev_blockhash p e' in
            let height = child.height in rw e' (omega arith)
      ])

  collect_from-Finished :
      (fuel : ℕ) (chain : Chain) (tip : Block) (path : List Block)
      → WellFormed crypto root chain
      → Low chain.known
      → path_fuel (find tip.header.prev_blockhash chain.known) ≤ fuel
      → Finished (collect_from fuel chain tip path)
  unfolding collect_from
  collect_from-Finished zero chain tip path wf low enough =
      absurd (positive (find tip.header.prev_blockhash chain.known) enough)
    where
      positive : (meta : Option BlockMeta) → ¬ (path_fuel meta ≤ 0)
      positive none h = omega arith
      positive (some m) h = omega arith
  collect_from-Finished (suc fuel) chain tip path wf low enough =
      collect_step chain tip path fuel _ _ wf low refl refl enough
        (λ b p more. collect_from-Finished fuel chain b p wf low more)

  parent_plus-Finished :
      (block : Block) (work : Result ChainError ChainWork) (chain : Chain)
      → Finished (parent_plus crypto block work chain).1
  parent_plus-Finished block (ok own) chain = tt
  parent_plus-Finished block (err e) chain = tt

  connect_path_block-Finished :
      (block : Block) (chain : Chain) → Finished (connect_path_block crypto block chain).1
  unfolding connect_path_block path_work lift modify ◌>>=◌ ◌>>◌
  connect_path_block-Finished block chain =
      Finished-after (chain, validate_block_for_parent crypto block _ _ _ chain) _
        (validate_block_for_parent-Finished crypto block _ _ _ chain)
        (λ done c e.
          Finished-after (parent_plus crypto block (block_work block.header.bits) c) _
            (parent_plus-Finished block (block_work block.header.bits) c) (λ work d e'. tt))

  connect_path-Finished :
      (path : List Block) (chain : Chain) → Finished (connect_path crypto path chain).1
  unfolding connect_path ◌>>◌ pure
  connect_path-Finished [] chain = tt
  connect_path-Finished (block ∷ path) chain =
      Finished-after (connect_path_block crypto block chain) _
        (connect_path_block-Finished block chain) (λ done c e. connect_path-Finished path c)

  try_reorg_to_block-Finished :
      (path : List Block) (fork : List ℕ) (work : ChainWork) (chain : Chain)
      → WellFormed crypto root chain
      → IsActive fork chain.active_hashes
      → Finished (try_reorg_to_block crypto path fork work chain).1
  unfolding try_reorg_to_block lift modify pure ◌>>=◌ ◌>>◌
  try_reorg_to_block-Finished path fork work chain wf active =
      Finished-after (chain, ok_or (find_height chain fork) (failed Types.missing_ancestor)) _
        (Finished-missing (find_height chain fork))
        (λ at c e.
          let same : c ≡ chain = ap (λ (o : Chain × Result Fault ℕ). o.0) (sym e) in
          subst
            (λ d.
              Finished
                (after (disconnect_until crypto (suc (length chain.blocks)) fork 0 d) (λ n.
                  connect_path crypto path
                  >> (modify (λ moved. record moved { total_work = work }) >> pure n))).1)
            (sym same)
            (Finished-after (disconnect_until crypto (suc (length chain.blocks)) fork 0 chain) _
              (let l =
                  disconnect_until-Landed crypto root (suc (length chain.blocks)) fork 0 chain wf
                    (wf.active fork active) (omega arith) in
                rw l.succeeds tt)
              (λ n d e'.
                Finished-after (connect_path crypto path d) _ (connect_path-Finished path d)
                  (λ done f e''. tt))))
    where
      Finished-missing : (o : Option ℕ) → Finished (ok_or o (failed Types.missing_ancestor))
      Finished-missing none = tt
      Finished-missing (some n) = tt

  restore-Finished :
      (before : Chain) (out : Chain × Result Fault ℕ)
      → Finished out.1
      → Finished (restore before out).1
  unfolding restore
  restore-Finished before (c, ok n) h = tt
  restore-Finished before (c, err (failed e)) h = tt
  restore-Finished before (c, err panicked) h = tt
  restore-Finished before (c, err out_of_fuel) h = h

  reorg_along-Finished :
      (new : Block) (work : ChainWork) (chain : Chain) (path : Result Fault (List Block × List ℕ))
      → WellFormed crypto root chain
      → Finished path
      → Collected crypto root chain new path
      → Finished (reorg_along crypto work path chain).1
  reorg_along-Finished new work chain (err fault) wf h r = stay fault h
    where
      stay : (f : Fault) → Finished {A = List Block × List ℕ} (err f) → Finished {A = ℕ} (err f)
      stay (failed e) x = tt
      stay panicked x = tt
      stay out_of_fuel x = x
  reorg_along-Finished new work chain (ok (path, fork)) wf h (route, active) =
      restore-Finished chain (try_reorg_to_block crypto path fork work chain)
        (try_reorg_to_block-Finished path fork work chain wf active)

  reorg_to_block-Finished :
      (new : Block) (work : ChainWork) (chain : Chain)
      → WellFormed crypto root chain
      → Low chain.known
      → find (hash crypto new) chain.known ≡ none
      → Finished (reorg_to_block crypto new work chain).1
  unfolding reorg_to_block collect_fork_path
  reorg_to_block-Finished new work chain wf low unknown =
      reorg_along-Finished new work chain (collect_fork_path chain new) wf
        (collect_from-Finished _ chain new (new ∷ []) wf low (omega arith))
        (collect_fork_path-Collected crypto root new chain wf unknown
          (new-above crypto root new chain wf unknown))

  settle-Finished :
      (block : Block) (at : ℕ) (work : ChainWork) (chain : Chain)
      → WellFormed crypto root chain
      → Low chain.known
      → find (hash crypto block) chain.known ≡ none
      → Finished (settle crypto block at work chain).1
  unfolding settle extend keep_aside switch
  settle-Finished block at work chain wf low unknown =
      Finished-branch (holds (bytes_discrete block.header.prev_blockhash (tip_hash crypto chain)))
        (extend crypto block at work chain) _ tt
        (Finished-branch (at_most work chain.total_work) (keep_aside crypto block at work chain)
          (switch crypto block work chain) tt
          (Finished-after (reorg_to_block crypto block work chain) _
            (reorg_to_block-Finished block work chain wf low unknown) (λ depth c e. tt)))

  connect_to_parent-Finished :
      (block : Block) (parent : Option BlockMeta) (chain : Chain)
      → WellFormed crypto root chain
      → Low chain.known
      → find (hash crypto block) chain.known ≡ none
      → Finished (connect_to_parent crypto block parent chain).1
  unfolding connect_to_parent
  connect_to_parent-Finished block none chain wf low unknown = tt
  connect_to_parent-Finished block (some parent) chain wf low unknown =
      settled (place crypto block parent chain) (place-Finished crypto block parent chain)
    where
      settled :
          (placed : Result Fault (ℕ × ChainWork))
          → Finished placed
          → Finished (settle_at crypto block placed chain).1
      settled (ok (at, work)) h = settle-Finished block at work chain wf low unknown
      settled (err (failed e)) h = tt
      settled (err panicked) h = tt
      settled (err out_of_fuel) h = h

  connect_one-checked :
      (block : Block) (chain : Chain) (check : Result Fault (Unit {0}))
      → WellFormed crypto root chain
      → Low chain.known
      → Finished check
      → check_new crypto block chain ≡ check
      → Finished
          ((lift check
              >> connect_to_parent crypto block (find block.header.prev_blockhash chain.known))
            chain).1
  unfolding lift ◌>>◌
  connect_one-checked block chain (ok done) wf low h e =
      connect_to_parent-Finished block _ chain wf low (check_new-unknown crypto root block chain e)
  connect_one-checked block chain (err (failed f)) wf low h e = tt
  connect_one-checked block chain (err panicked) wf low h e = tt
  connect_one-checked block chain (err out_of_fuel) wf low h e = h

  check_new-Finished : (block : Block) (chain : Chain) → Finished (check_new crypto block chain)
  unfolding check_new
  check_new-Finished block chain =
      Finished-bind (returned (validate_block_limits block)) _
        (Finished-returned (validate_block_limits block))
        (λ done.
          Finished-reject (has_block_hash chain (hash crypto block)) Types.block_already_known)

  -- Connecting one block to a well-formed chain ends: neither the walk to the fork nor the loop
  -- that takes blocks off runs out of fuel, if every known height leaves room for the next.
  pub connect_one-Finished :
      (block : Block) (chain : Chain)
      → WellFormed crypto root chain
      → Low chain.known
      → Finished (connect_one crypto block chain).1
  unfolding connect_one
  connect_one-Finished block chain wf low =
      connect_one-checked block chain _ wf low (check_new-Finished block chain) refl
