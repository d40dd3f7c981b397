-- ===== src/Chain/Reorged.antt =====
-- A whole reorganization of crates/bitrst-core/src/chain.rs on a well-formed chain.
use bitrst.Base.{
  ℕ, zero, suc, ◌≡◌, ◌≢◌, refl, sym, ap, subst, ◌∙◌, List, [], ◌∷◌, length, Option, none, some, inl,
  inr, Bool, true, false, if◌then◌else◌, Result, ok, err, arith,
}
use bitrst.Base.Map
use bitrst.Base.Keys.{bytes_discrete}
use bitrst.Crypto.{Primitives}
use bitrst.Block.Types.{Block}
use bitrst.Block.Encode.{hash}
use bitrst.Chain.Work.{ChainWork}
use bitrst.Chain.Types.{
  Chain, BlockMeta, ChainError, ConnectResult, Fault, failed, panicked, out_of_fuel, block_work,
}
use bitrst.Chain.Reads.{found, tip_hash}
use bitrst.Chain.Action.{Action, lift, pure, ◌>>◌, ◌>>=◌, modify, after}
use bitrst.Chain.Reorg.{
  collect_from, collect_fork_path, path_fuel, disconnect_until, connect_path, try_reorg_to_block,
  restore, reorg_along, reorg_to_block,
}
use bitrst.Chain.Index.{
  find, Extends, Extends-refl, OnlyOld, OnlyNew, OnlyOld-refl, OnlyNew-old, Indexed,
}
use bitrst.Chain.Active.{IsActive, WellFormed, Stacked-Extends}
use bitrst.Chain.Switching.{Route, Landed, disconnect_until-Landed}
use bitrst.Chain.Climbing.{Climbed, Climbed-more, connect_path-Climbed}

module _ (crypto : Primitives) (root : List ℕ) where
  -- The path that is collected is a route from an active block to the new one.
  abbrev pub Collected : Chain → Block → Result Fault (List Block × List ℕ) → Type 0
  Collected chain new (err fault) = Unit
  Collected chain new (ok (path, fork)) =
      Route crypto root chain.known new fork path × IsActive fork chain.active_hashes

  Collected-step :
      (chain : Chain) (new tip : Block) (path : List Block) (fuel : ℕ) (active : Bool)
      (meta : Option BlockMeta)
      → WellFormed crypto root chain
      → Route crypto root chain.known new tip.header.prev_blockhash path
      → found (Map.get bytes_discrete tip.header.prev_blockhash chain.active_hashes) ≡ active
      → find tip.header.prev_blockhash chain.known ≡ meta
      → ((b : Block) (p : List Block)
          → Route crypto root chain.known new b.header.prev_blockhash p
          → Collected chain new (collect_from fuel chain b p))
      → Collected chain new (
          if active then ok (path, tip.header.prev_blockhash) else elim meta [
            | none ↦ err (failed bitrst.Chain.Types.missing_ancestor)
            | some m ↦ collect_from fuel chain m.block (m.block ∷ path)
          ])
  Collected-step chain new tip path fuel true meta wf route a e next = (route, a)
  Collected-step chain new tip path fuel false none wf route a e next = tt
  Collected-step chain new tip path fuel false (some m) wf route a e next =
      let own = wf.index.keyed _ m e in
      next m.block (m.block ∷ path) (
        refl,
        (λ at_root.
            let same : tip.header.prev_blockhash ≡ root = sym own ∙ at_root in
            let on : found (Map.get bytes_discrete tip.header.prev_blockhash chain.active_hashes)
                ≡ true =
              ap (λ k. found (Map.get bytes_discrete k chain.active_hashes)) same ∙ wf.rooted in
            absurd (ground arith)),
        inl (m, ap (λ k. find k chain.known) own ∙ e, refl),
        subst (λ k. Route crypto root chain.known new k path) (sym own) route,
      )

  collect_from-Collected :
      (fuel : ℕ) (chain : Chain) (new tip : Block) (path : List Block)
      → WellFormed crypto root chain
      → Route crypto root chain.known new tip.header.prev_blockhash path
      → Collected chain new (collect_from fuel chain tip path)
  unfolding collect_from
  collect_from-Collected zero chain new tip path wf route = tt
  collect_from-Collected (suc fuel) chain new tip path wf route =
      Collected-step chain new tip path fuel _ _ wf route refl refl
        (λ b p r. collect_from-Collected fuel chain new b p wf r)

  Climbed-lift :
      {A B : Type 0} (new : Block) (chain : Chain) (check : Result Fault A) (next : A → Action B)
      → Indexed crypto root chain.known
      → ((a : A) → Climbed crypto root new chain (next a chain))
      → Climbed crypto root new chain ((lift check >>= next) chain)
  unfolding lift ◌>>=◌
  Climbed-lift new chain (ok a) next index h = h a
  Climbed-lift new chain (err fault) next index h = record {
    index = index;
    more = Extends-refl chain.known;
    only = OnlyNew-old (OnlyOld-refl chain.known);
    failed = λ f e. OnlyOld-refl chain.known;
    done = λ a e. absurd (ground arith);
  }

  Climbed-bind :
      {A B : Type 0} (new : Block) (chain : Chain) (first : Action A) (next : A → Action B)
      → Climbed crypto root new chain (after (first chain) next)
      → Climbed crypto root new chain ((first >>= next) chain)
  unfolding ◌>>=◌
  Climbed-bind new chain first next h = h

  Climbed-finish :
      (new : Block) (chain : Chain) (out : Chain × Result Fault (Unit {0})) (n : ℕ)
      (work : ChainWork)
      → Climbed crypto root new chain out
      → Climbed crypto root new chain
          (after out (λ done. modify (λ moved. record moved { total_work = work }) >> pure n))
  unfolding modify pure ◌>>◌ tip_hash
  Climbed-finish new chain (c, ok done) n work h = record {
    index = h.index;
    more = h.more;
    only = h.only;
    failed = λ f e. absurd (ground arith);
    done = λ a e. h.done done refl;
  }
  Climbed-finish new chain (c, err fault) n work h = record {
    index = h.index;
    more = h.more;
    only = h.only;
    failed = λ f e. h.failed fault refl;
    done = λ a e. absurd (ground arith);
  }

  Climbed-Landed :
      (new : Block) (fork : List ℕ) (path : List Block) (chain : Chain)
      (out : Chain × Result Fault ℕ) (work : ChainWork)
      → Landed crypto root fork chain out
      → Route crypto root chain.known new fork path
      → Climbed crypto root new chain (
          after out (λ n.
            connect_path crypto path
            >> (modify (λ moved. record moved { total_work = work }) >> pure n)))
  unfolding ◌>>◌
  Climbed-Landed new fork path chain (c, ok n) work l route =
      Climbed-more crypto root new chain c _ (rw l.known (Extends-refl chain.known))
        (rw l.known (OnlyOld-refl chain.known))
        (Climbed-finish new c (connect_path crypto path c) n work (
          connect_path-Climbed crypto root new path c l.well_formed (
            subst (λ t. Route crypto root c.known new t path) (sym l.tip)
              (subst (λ k. Route crypto root k new fork path) (sym l.known) route))))
  Climbed-Landed new fork path chain (c, err fault) work l route =
      absurd (let e = l.succeeds in ground arith)

  try_reorg_to_block-Climbed :
      (new : Block) (path : List Block) (fork : List ℕ) (work : ChainWork) (chain : Chain)
      → WellFormed crypto root chain
      → Route crypto root chain.known new fork path
      → IsActive fork chain.active_hashes
      → Climbed crypto root new chain (try_reorg_to_block crypto path fork work chain)
  unfolding try_reorg_to_block
  try_reorg_to_block-Climbed new path fork work chain wf route active =
      Climbed-lift new chain _ _ wf.index (λ at.
        (Climbed-bind new chain _ _ (
          Climbed-Landed new fork path chain
            (disconnect_until crypto (suc (length chain.blocks)) fork 0 chain) work
            (disconnect_until-Landed crypto root (suc (length chain.blocks)) fork 0 chain wf
              (wf.active fork active) (omega arith))
            route)))

  -- How a call may end that returns: on a well-formed chain.
  abbrev pub Ends : {A : Type 0} → Chain × Result Fault A → Type 0
  Ends (chain, ok a) = WellFormed crypto root chain
  Ends (chain, err (failed e)) = WellFormed crypto root chain
  Ends (chain, err panicked) = Unit
  Ends (chain, err out_of_fuel) = Unit

  pub Ends-stay :
      (A : Type 0) (chain : Chain) (fault : Fault)
      → WellFormed crypto root chain
      → Ends {A = A} (chain, err fault)
  Ends-stay A chain (failed e) wf = wf
  Ends-stay A chain panicked wf = tt
  Ends-stay A chain out_of_fuel wf = tt

  restore-Ends :
      (new : Block) (before : Chain) (out : Chain × Result Fault ℕ)
      → WellFormed crypto root before
      → Climbed crypto root new before out
      → Ends (restore before out)
  unfolding restore
  restore-Ends new before (c, ok n) wf h = (h.done n refl).0
  restore-Ends new before (c, err (failed e)) wf h = record {
    index = h.index;
    stack = Stacked-Extends crypto root before.known c.known before.blocks h.more wf.stack;
    active = wf.active;
    rooted = wf.rooted;
  }
  restore-Ends new before (c, err panicked) wf h = tt
  restore-Ends new before (c, err out_of_fuel) wf h = tt

  reorg_along-Ends :
      (new : Block) (work : ChainWork) (chain : Chain) (path : Result Fault (List Block × List ℕ))
      → WellFormed crypto root chain
      → Collected chain new path
      → Ends (reorg_along crypto work path chain)
  reorg_along-Ends new work chain (err fault) wf h = Ends-stay ℕ chain fault wf
  reorg_along-Ends new work chain (ok (path, fork)) wf (route, active) =
      restore-Ends new chain (try_reorg_to_block crypto path fork work chain) wf
        (try_reorg_to_block-Climbed new path fork work chain wf route active)

  -- A successful reorganization leaves the work that it was asked for.
  abbrev Totals : {A : Type 0} → ChainWork → Chain × Result Fault A → Type 0
  Totals work (c, ok a) = c.total_work ≡ work
  Totals work (c, err fault) = Unit

  Totals-after :
      {A B : Type 0} (work : ChainWork) (out : Chain × Result Fault A) (next : A → Action B)
      → ((a : A) (c : Chain) → Totals work (next a c))
      → Totals work (after out next)
  Totals-after work (c, ok a) next h = h a c
  Totals-after work (c, err fault) next h = tt

  try_reorg_to_block-Totals :
      (path : List Block) (fork : List ℕ) (work : ChainWork) (chain : Chain)
      → Totals work (try_reorg_to_block crypto path fork work chain)
  unfolding try_reorg_to_block ◌>>=◌ ◌>>◌ modify pure
  try_reorg_to_block-Totals path fork work chain = Totals-after work (lift _ chain) _ (λ at c.
      Totals-after work (disconnect_until crypto (suc (length chain.blocks)) fork 0 c) _
        (λ n d. Totals-after work (connect_path crypto path d) _ (λ done e. refl)))

  -- What a reorganization leaves: on the new block with its work, or where it started.
  abbrev pub Reorganized : Block → ChainWork → Chain → Chain × Result Fault ℕ → Type 0
  Reorganized new work before (c, ok n) =
      WellFormed crypto root c
      × (tip_hash crypto c ≡ hash crypto new)
      × (c.total_work ≡ work)
      × OnlyNew new before.known c.known
  Reorganized new work before (c, err (failed e)) =
      (c.blocks ≡ before.blocks)
      × (c.total_work ≡ before.total_work)
      × Extends before.known c.known
      × OnlyOld before.known c.known
  Reorganized new work before (c, err panicked) = Unit
  Reorganized new work before (c, err out_of_fuel) = Unit

  restore-Reorganized :
      (new : Block) (work : ChainWork) (before : Chain) (out : Chain × Result Fault ℕ)
      → Climbed crypto root new before out
      → Totals work out
      → Reorganized new work before (restore before out)
  unfolding restore tip_hash
  restore-Reorganized new work before (c, ok n) h t =
      let (wf, tip) = h.done n refl in (wf, tip, t, h.only)
  restore-Reorganized new work before (c, err (failed e)) h t =
      (refl, refl, h.more, h.failed (failed e) refl)
  restore-Reorganized new work before (c, err panicked) h t = tt
  restore-Reorganized new work before (c, err out_of_fuel) h t = tt

  Reorganized-stay :
      (new : Block) (work : ChainWork) (chain : Chain) (fault : Fault)
      → Reorganized new work chain (chain, err fault)
  Reorganized-stay new work chain (failed e) =
      (refl, refl, Extends-refl chain.known, OnlyOld-refl chain.known)
  Reorganized-stay new work chain panicked = tt
  Reorganized-stay new work chain out_of_fuel = tt

  reorg_along-Reorganized :
      (new : Block) (work : ChainWork) (chain : Chain) (path : Result Fault (List Block × List ℕ))
      → WellFormed crypto root chain
      → Collected chain new path
      → Reorganized new work chain (reorg_along crypto work path chain)
  reorg_along-Reorganized new work chain (err fault) wf h = Reorganized-stay new work chain fault
  reorg_along-Reorganized new work chain (ok (path, fork)) wf (route, active) =
      restore-Reorganized new work chain (try_reorg_to_block crypto path fork work chain)
        (try_reorg_to_block-Climbed new path fork work chain wf route active)
        (try_reorg_to_block-Totals path fork work chain)

  pub collect_fork_path-Collected :
      (new : Block) (chain : Chain)
      → WellFormed crypto root chain
      → find (hash crypto new) chain.known ≡ none
      → hash crypto new ≢ root
      → Collected chain new (collect_fork_path chain new)
  unfolding collect_fork_path
  collect_fork_path-Collected new chain wf unknown above =
      collect_from-Collected (path_fuel (find new.header.prev_blockhash chain.known)) chain new new
        (new ∷ []) wf (refl, above, inr (unknown, refl, refl), refl)

  pub reorg_to_block-Reorganized :
      (new : Block) (work : ChainWork) (chain : Chain)
      → WellFormed crypto root chain
      → find (hash crypto new) chain.known ≡ none
      → hash crypto new ≢ root
      → Reorganized new work chain (reorg_to_block crypto new work chain)
  unfolding reorg_to_block
  reorg_to_block-Reorganized new work chain wf unknown above =
      reorg_along-Reorganized new work chain _ wf
        (collect_fork_path-Collected new chain wf unknown above)

  -- The reorganization to a new block: it ends, whether it succeeds or not, on a well-formed chain.
  pub reorg_to_block-Ends :
      (new : Block) (work : ChainWork) (chain : Chain)
      → WellFormed crypto root chain
      → find (hash crypto new) chain.known ≡ none
      → hash crypto new ≢ root
      → Ends (reorg_to_block crypto new work chain)
  unfolding reorg_to_block
  reorg_to_block-Ends new work chain wf unknown above =
      reorg_along-Ends new work chain _ wf (collect_fork_path-Collected new chain wf unknown above)
