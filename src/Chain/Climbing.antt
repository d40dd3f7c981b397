-- ===== src/Chain/Climbing.antt =====
-- How a reorganization of crates/bitrst-core/src/chain.rs climbs the fork on a well-formed chain.
use bitrst.Base.{
  ℕ, ◌+◌, ◌%◌, ◌^◌, ◌≡◌, ◌⊎◌, refl, sym, ap, subst, ◌∙◌, List, [], ◌∷◌, none, some, inl, inr,
  Result, ok, err, arith,
}
use bitrst.Base.Map
use bitrst.Base.Keys.{bytes_discrete}
use bitrst.Crypto.{Primitives}
use bitrst.Block.Types.{Block}
use bitrst.Block.Encode.{hash}
use bitrst.Chain.Work.{ChainWork, add}
use bitrst.Chain.Types.{Chain, BlockMeta, ChainError, Fault, failed, block_work}
use bitrst.Chain.Reads.{height, tip_hash}
use bitrst.Chain.Action.{Action, lift, pure, ◌>>◌, ◌>>=◌, modify, after}
use bitrst.Chain.Attach.{publish, attach, work_of}
use bitrst.Chain.Reorg.{parent_plus, path_work, connect_path_block, connect_path}
use bitrst.Chain.Index.{
  Known, find, Extends, Extends-refl, Extends-trans, Indexed, find-insert_ne, Enters, OnlyOld,
  OnlyNew, OnlyOld-refl, OnlyOld-trans, OnlyNew-old, OnlyNew-trans, insert-OnlyOld, insert-OnlyNew,
}
use bitrst.Chain.Active.{WellFormed, Fits, Listed, tip_meta, attach-WellFormed}
use bitrst.Chain.Switching.{Route}

module _ (crypto : Primitives) (root : List ℕ) (new : Block) where
  -- A step left the index an extension, or it put `block` on the tip.
  abbrev Kept : Chain → Chain × Result Fault (Unit {0}) → Type 0
  Kept chain out = (fault : Fault) × (out.1 ≡ err fault) × (out.0.known ≡ chain.known)

  abbrev Put : Block → Chain → Chain × Result Fault (Unit {0}) → Type 0
  Put block chain out =
      (own : ChainWork) × (block_work block.header.bits ≡ ok own)
      × (out ≡ (
        attach crypto block ((height chain + 1) % 2 ^ 32)
            (add (work_of (find block.header.prev_blockhash chain.known)) own) chain,
        ok tt,
      ))

  Put-by_work :
      (block : Block) (chain : Chain) (work : Result ChainError ChainWork)
      → block_work block.header.bits ≡ work
      → let out =
          after
            (parent_plus crypto block work chain)
            (λ total. modify (attach crypto block ((height chain + 1) % 2 ^ 32) total)) in
        Kept chain out ⊎ Put block chain out
  unfolding modify
  Put-by_work block chain (ok own) e = inr (own, e, refl)
  Put-by_work block chain (err e') e = inl (failed e', refl, refl)

  Put-if_valid :
      (block : Block) (chain : Chain) (valid : Result Fault (Unit {0})) (next : Action (Unit {0}))
      → Kept chain (next chain) ⊎ Put block chain (next chain)
      → Kept chain ((lift valid >> next) chain) ⊎ Put block chain ((lift valid >> next) chain)
  unfolding lift ◌>>◌
  Put-if_valid block chain (ok done) next h = h
  Put-if_valid block chain (err fault) next h = inl (fault, refl, refl)

  connect_path_block-cases :
      (block : Block) (chain : Chain)
      → Kept chain (connect_path_block crypto block chain)
        ⊎ Put block chain (connect_path_block crypto block chain)
  unfolding connect_path_block path_work ◌>>=◌
  connect_path_block-cases block chain =
      Put-if_valid block chain _ _ (Put-by_work block chain (block_work block.header.bits) refl)

  Route-insert :
      (id : List ℕ) (m meta : BlockMeta) (known : Known) (below : List ℕ) (path : List Block)
      → find id known ≡ some m
      → Extends known (Map.insert bytes_discrete id meta known)
      → Route crypto root known new below path
      → Route crypto root (Map.insert bytes_discrete id meta known) new below path
  Route-insert id m meta known below [] at more end = end
  Route-insert id m meta known below (b ∷ path) at more (on, above, inl (x, e, same), rest) =
      let (x', e', s) = more.at _ x e in
      (
        on,
        above,
        inl (x', e', s.block ∙ same),
        Route-insert id m meta known (hash crypto b) path at more rest,
      )
  Route-insert id m meta known below (b ∷ path) at more (on, above, inr (new_, it, last), rest) = (
    on,
    above,
    inr (
      find-insert_ne id (hash crypto b) meta known
            (λ p. let e = ap (λ k. find k known) p in ground arith)
          ∙ new_,
      it,
      last,
    ),
    Route-insert id m meta known (hash crypto b) path at more rest,
  )

  -- What the climb leaves: an index with all that there was, and, if it succeeds, a well-formed
  -- chain whose tip is the new block.
  pub record Climbed {A : Type 0} (chain : Chain) (out : Chain × Result Fault A) : Type 0 where
    pub index : Indexed crypto root out.0.known
    pub more : Extends chain.known out.0.known
    pub only : OnlyNew new chain.known out.0.known
    pub failed : (fault : Fault) → out.1 ≡ err fault → OnlyOld chain.known out.0.known
    pub done :
        (a : A)
        → out.1 ≡ ok a
        → WellFormed crypto root out.0 × (tip_hash crypto out.0 ≡ hash crypto new)

  onward :
      (block : Block) (path : List Block) (meta : BlockMeta) (known : Known)
      → Listed crypto root known block
        ⊎ ((find (hash crypto block) known ≡ none) × (block ≡ new) × (path ≡ []))
      → Extends known (Map.insert bytes_discrete (hash crypto block) meta known)
      → Route crypto root known new (hash crypto block) path
      → Route crypto root
          (Map.insert bytes_discrete (hash crypto block) meta known)
          new
          (hash crypto block)
          path
  onward block path meta known (inl (m, e, same)) more rest =
      Route-insert (hash crypto block) m meta known (hash crypto block) path e more rest
  onward block path meta known (inr (new_, it, last)) more rest =
      subst
        (λ p.
          Route crypto root known new (hash crypto block) p
          → Route crypto root (Map.insert bytes_discrete (hash crypto block) meta known) new
              (hash crypto block) p)
        (sym last) (λ r. r) rest

  only_from :
      (block : Block) (path : List Block) (meta : BlockMeta) (known : Known)
      → meta.block ≡ block
      → Listed crypto root known block
        ⊎ ((find (hash crypto block) known ≡ none) × (block ≡ new) × (path ≡ []))
      → Enters known (hash crypto block) meta
      → OnlyOld known (Map.insert bytes_discrete (hash crypto block) meta known)
        ⊎ ((path ≡ [])
            × OnlyNew new known (Map.insert bytes_discrete (hash crypto block) meta known))
  only_from block path meta known own (inl (m, e, same)) way =
      inl (insert-OnlyOld (hash crypto block) meta m known way e)
  only_from block path meta known own (inr (new_, it, last)) way = inr (
    last,
    subst (λ b. OnlyNew b known (Map.insert bytes_discrete (hash crypto block) meta known))
        (own ∙ it) (insert-OnlyNew (hash crypto block) meta known way new_),
  )

  -- One block of the route on the tip: the rest of the route starts above it.
  climb_one :
      (block : Block) (path : List Block) (chain : Chain) (own : ChainWork)
      → WellFormed crypto root chain
      → Route crypto root chain.known new (tip_hash crypto chain) (block ∷ path)
      → block_work block.header.bits ≡ ok own
      → let moved =
          attach crypto block
            ((height chain + 1) % 2 ^ 32)
            (add (work_of (find block.header.prev_blockhash chain.known)) own)
            chain in
        WellFormed crypto root moved
        × Extends chain.known moved.known
        × Route crypto root moved.known new (tip_hash crypto moved) path
        × (OnlyOld chain.known moved.known ⊎ ((path ≡ []) × OnlyNew new chain.known moved.known))
  unfolding attach publish tip_hash height
  climb_one block path chain own wf (on, above, listed, rest) e =
      let (tip, found_, tip_height, counted) =
        tip_meta crypto root chain.known chain.blocks wf.stack in
      let below : find block.header.prev_blockhash chain.known ≡ some tip =
        ap (λ k. find k chain.known) on ∙ found_ in
      let fits : Fits crypto root chain.known block ((height chain + 1) % 2 ^ 32)
          (add (work_of (find block.header.prev_blockhash chain.known)) own) tip =
        record {
          below = below;
          height = ap (λ (n : ℕ). (n + 1) % 2 ^ 32) (sym tip_height);
          own = own;
          own_work = e;
          total = ap (λ m. add (work_of m) own) below;
        } in
      let (wf', more, way) =
        attach-WellFormed crypto root block _ _ tip chain wf on fits above (either listed) in
      (
        wf',
        more,
        onward block path _ chain.known listed more rest,
        only_from block path _ chain.known refl listed way,
      )
    where
      either :
          Listed crypto root chain.known block
            ⊎ ((find (hash crypto block) chain.known ≡ none) × (block ≡ new) × (path ≡ []))
          → (find (hash crypto block) chain.known ≡ none) ⊎ Listed crypto root chain.known block
      either (inl there) = inr there
      either (inr (new_, it, last)) = inl new_

  Climbed-Kept :
      {A : Type 0} (chain : Chain) (out : Chain × Result Fault (Unit {0})) (next : Action A)
      → Indexed crypto root chain.known
      → Kept chain out
      → Climbed chain (after out (λ done. next))
  Climbed-Kept chain (c, ok done) next index (fault, e, same) = absurd (ground arith)
  Climbed-Kept chain (c, err fault') next index (fault, e, same) = record {
    index = rw same index;
    more = rw same (Extends-refl chain.known);
    only = rw same (OnlyNew-old (OnlyOld-refl chain.known));
    failed = λ f e. rw same (OnlyOld-refl chain.known);
    done = λ a e. absurd (ground arith);
  }

  pub Climbed-more :
      {A : Type 0} (chain moved : Chain) (out : Chain × Result Fault A)
      → Extends chain.known moved.known
      → OnlyOld chain.known moved.known
      → Climbed moved out
      → Climbed chain out
  Climbed-more chain moved out more only h = record {
    index = h.index;
    more = Extends-trans more h.more;
    only = OnlyNew-trans only h.only;
    failed = λ fault e. OnlyOld-trans only (h.failed fault e);
    done = h.done;
  }

  -- The new block is the last of the route.
  Climbed-last :
      (path : List Block) (chain moved : Chain)
      → path ≡ []
      → WellFormed crypto root moved
      → Route crypto root moved.known new (tip_hash crypto moved) path
      → Extends chain.known moved.known
      → OnlyNew new chain.known moved.known
      → Climbed chain (connect_path crypto path moved)
  unfolding connect_path pure
  Climbed-last [] chain moved last wf end more only = record {
    index = wf.index;
    more = more;
    only = only;
    failed = λ f e. absurd (ground arith);
    done = λ a e. (wf, end);
  }
  Climbed-last (b ∷ path) chain moved last wf end more only = absurd (ground arith)

  pub connect_path-Climbed :
      (path : List Block) (chain : Chain)
      → WellFormed crypto root chain
      → Route crypto root chain.known new (tip_hash crypto chain) path
      → Climbed chain (connect_path crypto path chain)
  unfolding connect_path ◌>>◌ pure
  connect_path-Climbed [] chain wf end = record {
    index = wf.index;
    more = Extends-refl chain.known;
    only = OnlyNew-old (OnlyOld-refl chain.known);
    failed = λ f e. absurd (ground arith);
    done = λ a e. (wf, end);
  }
  connect_path-Climbed (block ∷ path) chain wf route = elim (connect_path_block-cases block chain) [
    | inl kept ↦
        Climbed-Kept chain (connect_path_block crypto block chain) (connect_path crypto path)
          wf.index kept
    | inr (own, w, e) ↦
        let (wf', more, rest, only) = climb_one block path chain own wf route w in
        subst (λ o. Climbed chain (after o (λ done. connect_path crypto path))) (sym e)
          (elim only [
            | inl old ↦ Climbed-more chain _ _ more old (connect_path-Climbed path _ wf' rest)
            | inr (last, fresh) ↦ Climbed-last path chain _ last wf' rest more fresh
          ])
  ]
