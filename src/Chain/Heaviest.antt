-- ===== src/Chain/Heaviest.antt =====
-- The work of the active chain of crates/bitrst-core/src/chain.rs against that of the known blocks.
use bitrst.Base.{
  ℕ, ◌+◌, ◌^◌, ◌≤◌, ◌<◌, ◌≡◌, ◌⊎◌, refl, sym, ap, subst, ◌∙◌, List, [], Option, none, some, inl,
  inr, Bool, true, false, if◌then◌else◌, Result, ok, err, arith,
}
use bitrst.Base.Keys.{bytes_discrete, holds}
use bitrst.Crypto.{Primitives}
use bitrst.Block.Types.{Block}
use bitrst.Block.Encode.{hash}
use bitrst.Journal.Log.{ChainEventJournal}
use bitrst.Chain.Work.{ChainWork, add, at_most}
use bitrst.Chain.Types.{
  Chain, BlockMeta, ConnectResult, Fault, failed, panicked, out_of_fuel, block_work,
}
use bitrst.Chain.Reads.{tip_hash, hash_of_tip}
use bitrst.Chain.Action.{lift, ◌>>◌, after}
use bitrst.Chain.Attach.{publish, attach}
use bitrst.Chain.Reorg.{reorg_to_block}
use bitrst.Chain.Orphans.{insert_orphan}
use bitrst.Chain.Connect.{
  place, extend, keep_aside, switch, settle, settle_at, connect_to_parent, check_new, connect_one,
}
use bitrst.Chain.Index.{
  Known, find, Same, Parent, OnlyNew, find-insert_self, insert-Extends, insert-OnlyNew,
}
use bitrst.Chain.Active.{WellFormed, Fits, tip_meta, attach-WellFormed, Fits-Enters, entry_for}
use bitrst.Chain.Reorged.{Ends, Reorganized, reorg_to_block-Ends, reorg_to_block-Reorganized}
use bitrst.Chain.WellFormed.{
  new-above, place-Fits, check_new-unknown, keep_aside-WellFormed, insert_orphan-parts,
  insert_orphan-same, holds-yes,
}
use bitrst.Chain.Weight.{value, IsWork, add-value, at_most_iff, block_work-IsWork}

module _ (crypto : Primitives) (root : List ℕ) where
  pub record Heaviest (chain : Chain) : Type 0 where
    pub well_formed : WellFormed crypto root chain
    pub tip : BlockMeta
    pub tip_found : find (hash_of_tip crypto chain.blocks) chain.known ≡ some tip
    pub tip_total : tip.work ≡ chain.total_work
    pub works :
        (id : List ℕ) (meta : BlockMeta) → find id chain.known ≡ some meta → IsWork meta.work
    pub best :
        (id : List ℕ) (meta : BlockMeta)
        → find id chain.known ≡ some meta
        → value meta.work ≤ value chain.total_work

  -- The work up to a block whose parent is known fits in 256 bits.
  abbrev pub Roomy : Block → Chain → Type 0
  Roomy block chain =
      (parent : BlockMeta) (own : ChainWork)
      → find block.header.prev_blockhash chain.known ≡ some parent
      → block_work block.header.bits ≡ ok own
      → value parent.work + value own < 2 ^ 256

  -- The work of a block that fits is that of its parent and its own.
  Fits-value :
      (block : Block) (at : ℕ) (work : ChainWork) (parent : BlockMeta) (chain : Chain)
      → Heaviest chain
      → Roomy block chain
      → Fits crypto root chain.known block at work parent
      → IsWork work × (value parent.work ≤ value work)
  Fits-value block at work parent chain h room fits =
      let (sum, is_work) =
        add-value parent.work fits.own (h.works _ parent fits.below)
          (block_work-IsWork block.header.bits fits.own fits.own_work)
          (room parent fits.own fits.below fits.own_work) in
      let total = fits.total in (rw total is_work, rw total (omega arith))

  -- A new entry for a block has the work with which the block fits.
  child-work :
      (block : Block) (at : ℕ) (work : ChainWork) (parent : BlockMeta) (known : Known)
      (meta : BlockMeta)
      → Fits crypto root known block at work parent
      → meta.block ≡ block
      → Parent known meta
      → meta.work ≡ work
  child-work block at work parent known meta fits same (p, e, child) =
      let p≡ : p ≡ parent =
        (let a : find block.header.prev_blockhash known ≡ some p =
            ap (λ (b : Block). find b.header.prev_blockhash known) (sym same) ∙ e in
          let b = fits.below in ground arith) in
      let own≡ : child.own ≡ fits.own =
        (let a : block_work block.header.bits ≡ ok child.own =
            ap (λ (b : Block). block_work b.header.bits) (sym same) ∙ child.own_work in
          let b = fits.own_work in ground arith) in
      child.work
      ∙ ap (λ (x : BlockMeta). add x.work child.own) p≡
      ∙ ap (add parent.work) own≡
      ∙ sym fits.total

  -- What holds of every old entry and of the new work holds of every entry.
  works-OnlyNew :
      (P : ChainWork → Type 0) (block : Block) (at : ℕ) (work : ChainWork) (parent : BlockMeta)
      (known known' : Known)
      → Fits crypto root known block at work parent
      → OnlyNew block known known'
      → ((id : List ℕ) (meta : BlockMeta) → find id known ≡ some meta → P meta.work)
      → P work
      → (id : List ℕ) (meta : BlockMeta) → find id known' ≡ some meta
      → P meta.work
  works-OnlyNew P block at work parent known known' fits only old new_ id meta e =
      elim (only.at id meta e) [
        | inl (m, e', same) ↦ subst P (sym same.work) (old id m e')
        | inr (is_new, above) ↦
            subst P (sym (child-work block at work parent known meta fits is_new above)) new_
      ]

  extend-Heaviest :
      (block : Block) (at : ℕ) (work : ChainWork) (parent : BlockMeta) (chain : Chain)
      → Heaviest chain
      → Roomy block chain
      → find (hash crypto block) chain.known ≡ none
      → Fits crypto root chain.known block at work parent
      → block.header.prev_blockhash ≡ tip_hash crypto chain
      → Heaviest (extend crypto block at work chain).0
  unfolding extend attach publish tip_hash
  extend-Heaviest block at work parent chain h room unknown fits on =
      let (wf, more, way) =
        attach-WellFormed crypto root block at work parent chain h.well_formed on fits
          (new-above crypto root block chain h.well_formed unknown) (inl unknown) in
      let meta = entry_for crypto root block at work chain in
      let only = insert-OnlyNew (hash crypto block) meta chain.known way unknown in
      let (is_work, over) = Fits-value block at work parent chain h room fits in
      let on_tip : parent ≡ h.tip =
        (let a : find block.header.prev_blockhash chain.known ≡ some h.tip =
            ap (λ k. find k chain.known) on ∙ h.tip_found in
          let b = fits.below in ground arith) in
      let below : value chain.total_work ≤ value work =
        (let a : value parent.work ≡ value chain.total_work =
            ap (λ (x : BlockMeta). value x.work) on_tip ∙ ap value h.tip_total in
          omega arith) in
      record {
        well_formed = record {
          index = wf.index;
          stack = wf.stack;
          active = wf.active;
          rooted = wf.rooted;
        };
        tip = meta;
        tip_found = find-insert_self (hash crypto block) meta chain.known;
        tip_total = refl;
        works = works-OnlyNew IsWork block at work parent chain.known _ fits only h.works is_work;
        best =
            works-OnlyNew (λ w. value w ≤ value work) block at work parent chain.known _ fits only
              (λ id m e. let b = h.best id m e in omega arith) (omega arith);
      }

  keep_aside-Heaviest :
      (block : Block) (at : ℕ) (work : ChainWork) (parent : BlockMeta) (chain : Chain)
      → Heaviest chain
      → Roomy block chain
      → find (hash crypto block) chain.known ≡ none
      → Fits crypto root chain.known block at work parent
      → at_most work chain.total_work ≡ true
      → Heaviest (keep_aside crypto block at work chain).0
  unfolding keep_aside
  keep_aside-Heaviest block at work parent chain h room unknown fits lighter =
      let (is_work, over) = Fits-value block at work parent chain h room fits in
      let meta : BlockMeta = record { block = block; height = at; work = work; undo = [] } in
      let way =
        Fits-Enters crypto root chain.known parent meta h.well_formed.index fits
          (new-above crypto root block chain h.well_formed unknown) (inl unknown) in
      let only = insert-OnlyNew (hash crypto block) meta chain.known way unknown in
      let (tip', found', same) =
        (insert-Extends (hash crypto block) meta chain.known way).at _ h.tip h.tip_found in
      let total_is_work : IsWork chain.total_work =
        subst IsWork h.tip_total (h.works _ h.tip h.tip_found) in
      let below = (at_most_iff work chain.total_work is_work total_is_work).0 lighter in
      record {
        well_formed =
            keep_aside-WellFormed crypto root block at work parent chain h.well_formed unknown fits;
        tip = tip';
        tip_found = found';
        tip_total = same.work ∙ h.tip_total;
        works = works-OnlyNew IsWork block at work parent chain.known _ fits only h.works is_work;
        best =
            works-OnlyNew (λ w. value w ≤ value chain.total_work) block at work parent chain.known _
              fits only h.best below;
      }

  -- How a call that returns ends: on a chain whose tip has the most work.
  abbrev pub HeavyEnds : {A : Type 0} → Chain × Result Fault A → Type 0
  HeavyEnds (c, ok a) = Heaviest c
  HeavyEnds (c, err (failed e)) = Heaviest c
  HeavyEnds (c, err panicked) = Unit
  HeavyEnds (c, err out_of_fuel) = Unit

  -- The reorganization, when the block has more work than the active chain.
  Reorganized-Heavy :
      (block : Block) (at : ℕ) (work : ChainWork) (parent : BlockMeta) (chain : Chain)
      (out : Chain × Result Fault ℕ)
      → Heaviest chain
      → Roomy block chain
      → find (hash crypto block) chain.known ≡ none
      → Fits crypto root chain.known block at work parent
      → at_most work chain.total_work ≡ false
      → Ends crypto root out
      → Reorganized crypto root block work chain out
      → HeavyEnds out
  unfolding tip_hash
  Reorganized-Heavy block at work parent chain (c, ok n) h room unknown fits heavier wf
        (wf', on_new, total, only) =
      let (is_work, over) = Fits-value block at work parent chain h room fits in
      let total_is_work : IsWork chain.total_work =
        subst IsWork h.tip_total (h.works _ h.tip h.tip_found) in
      let above : ¬ (value work ≤ value chain.total_work) = (λ le.
        let yes_ = (at_most_iff work chain.total_work is_work total_is_work).1 le in
        ground arith) in
      let (tip, found_, level, counted) = tip_meta crypto root c.known c.blocks wf'.stack in
      let found' : find (hash crypto block) c.known ≡ some tip =
        ap (λ k. find k c.known) (sym on_new) ∙ found_ in
      record {
        well_formed = wf';
        tip = tip;
        tip_found = found_;
        tip_total = new_tip (only.at (hash crypto block) tip found') ∙ sym total;
        works = works-OnlyNew IsWork block at work parent chain.known _ fits only h.works is_work;
        best =
            works-OnlyNew (λ w. value w ≤ value c.total_work) block at work parent chain.known _
              fits only
              (λ id m e.
                let b = h.best id m e in let t = ap value total in omega (arith, outweigh above))
              (let t = ap value total in omega arith);
      }
    where
      outweigh : ¬ (value work ≤ value chain.total_work) → value chain.total_work ≤ value work
      outweigh n = ground arith

      new_tip :
          {tip : BlockMeta}
          → ((old : BlockMeta) × (find (hash crypto block) chain.known ≡ some old) × Same old tip)
            ⊎ ((tip.block ≡ block) × Parent chain.known tip)
          → tip.work ≡ work
      new_tip (inl (old, e, same)) = absurd (ground arith)
      new_tip {tip = t} (inr (is_new, above)) =
          child-work block at work parent chain.known t fits is_new above
  Reorganized-Heavy block at work parent chain (c, err (failed e)) h room unknown fits heavier wf
        (blocks, total, more, only) =
      let (tip', found', same) = more.at _ h.tip h.tip_found in
      record {
        well_formed = wf;
        tip = tip';
        tip_found = ap (λ bs. find (hash_of_tip crypto bs) c.known) blocks ∙ found';
        tip_total = same.work ∙ h.tip_total ∙ sym total;
        works = λ id m e'.
            let (old, e₁, s) = only.at id m e' in subst IsWork (sym s.work) (h.works id old e₁);
        best = λ id m e'.
            let (old, e₁, s) = only.at id m e' in
            let b = h.best id old e₁ in
            let t = ap value total in
            let w : value m.work ≡ value old.work = ap value s.work in omega arith;
      }
  Reorganized-Heavy block at work parent chain (c, err panicked) h room unknown fits heavier wf r =
      tt
  Reorganized-Heavy block at work parent chain (c, err out_of_fuel) h room unknown fits heavier wf
        r =
      tt

  Heavy-after :
      {B : Type 0} (out : Chain × Result Fault ℕ) (change : ℕ → Chain → Chain)
      (answer : ℕ → Chain → B)
      → HeavyEnds out
      → ((n : ℕ) (c : Chain) → Heaviest c → Heaviest (change n c))
      → HeavyEnds (after out (λ n c. (change n c, ok (answer n c))))
  Heavy-after (c, ok n) change answer h k = k n c h
  Heavy-after (c, err (failed e)) change answer h k = h
  Heavy-after (c, err panicked) change answer h k = tt
  Heavy-after (c, err out_of_fuel) change answer h k = tt

  Heavy-if :
      {A : Type 0} (b : Bool) (x y : Chain × Result Fault A)
      → (b ≡ true → HeavyEnds x)
      → (b ≡ false → HeavyEnds y)
      → HeavyEnds (if b then x else y)
  Heavy-if true x y h k = h refl
  Heavy-if false x y h k = k refl

  -- The same chain but for its journal.
  Heaviest-journal :
      (journal : ChainEventJournal) (c : Chain)
      → Heaviest c
      → Heaviest (record c { event_journal = journal })
  Heaviest-journal journal c h = record {
    well_formed = record {
      index = h.well_formed.index;
      stack = h.well_formed.stack;
      active = h.well_formed.active;
      rooted = h.well_formed.rooted;
    };
    tip = h.tip;
    tip_found = h.tip_found;
    tip_total = h.tip_total;
    works = h.works;
    best = h.best;
  }

  switch-Heavy :
      (block : Block) (at : ℕ) (work : ChainWork) (parent : BlockMeta) (chain : Chain)
      → Heaviest chain
      → Roomy block chain
      → find (hash crypto block) chain.known ≡ none
      → Fits crypto root chain.known block at work parent
      → at_most work chain.total_work ≡ false
      → HeavyEnds (switch crypto block work chain)
  unfolding switch publish
  switch-Heavy block at work parent chain h room unknown fits heavier =
      let above = new-above crypto root block chain h.well_formed unknown in
      Heavy-after (reorg_to_block crypto block work chain) _ _
        (Reorganized-Heavy block at work parent chain (reorg_to_block crypto block work chain) h
          room unknown fits heavier
          (reorg_to_block-Ends crypto root block work chain h.well_formed unknown above)
          (reorg_to_block-Reorganized crypto root block work chain h.well_formed unknown above))
        (λ depth c k. Heaviest-journal _ c k)

  settle-Heavy :
      (block : Block) (at : ℕ) (work : ChainWork) (parent : BlockMeta) (chain : Chain)
      → Heaviest chain
      → Roomy block chain
      → find (hash crypto block) chain.known ≡ none
      → Fits crypto root chain.known block at work parent
      → HeavyEnds (settle crypto block at work chain)
  unfolding settle
  settle-Heavy block at work parent chain h room unknown fits =
      Heavy-if (holds (bytes_discrete block.header.prev_blockhash (tip_hash crypto chain)))
        (extend crypto block at work chain) _
        (λ e. ended (extend crypto block at work chain) (
          extend-Heaviest block at work parent chain h room unknown fits
            (holds-yes crypto root _ e)))
        (λ e.
          Heavy-if (at_most work chain.total_work) (keep_aside crypto block at work chain)
            (switch crypto block work chain)
            (λ lighter.
              ended (keep_aside crypto block at work chain)
                (keep_aside-Heaviest block at work parent chain h room unknown fits lighter))
            (λ heavier. switch-Heavy block at work parent chain h room unknown fits heavier))
    where
      ended : {A : Type 0} (out : Chain × Result Fault A) → Heaviest out.0 → HeavyEnds out
      ended (c, ok a) k = k
      ended (c, err (failed e)) k = k
      ended (c, err panicked) k = tt
      ended (c, err out_of_fuel) k = tt

  Heavy-stay :
      (A : Type 0) (chain : Chain) (fault : Fault)
      → Heaviest chain
      → HeavyEnds {A = A} (chain, err fault)
  Heavy-stay A chain (failed e) h = h
  Heavy-stay A chain panicked h = tt
  Heavy-stay A chain out_of_fuel h = tt

  settle_at-Heavy :
      (block : Block) (parent : BlockMeta) (chain : Chain) (placed : Result Fault (ℕ × ChainWork))
      → Heaviest chain
      → Roomy block chain
      → find (hash crypto block) chain.known ≡ none
      → find block.header.prev_blockhash chain.known ≡ some parent
      → place crypto block parent chain ≡ placed
      → HeavyEnds (settle_at crypto block placed chain)
  settle_at-Heavy block parent chain (err fault) h room unknown below e =
      Heavy-stay ConnectResult chain fault h
  settle_at-Heavy block parent chain (ok (at, work)) h room unknown below e =
      settle-Heavy block at work parent chain h room unknown
        (place-Fits crypto root block parent chain at work below e)

  -- The orphans are no part of what the tip is compared with.
  insert_orphan-Heaviest :
      (block : Block) (chain : Chain) → Heaviest chain → Heaviest (insert_orphan crypto block chain)
  insert_orphan-Heaviest block chain h =
      let (known, blocks, total) = insert_orphan-same crypto root block chain in
      record {
        well_formed = insert_orphan-parts crypto root block chain h.well_formed;
        tip = h.tip;
        tip_found = rw (known, blocks) h.tip_found;
        tip_total = h.tip_total ∙ sym total;
        works = λ id m e. h.works id m (rw known at e);
        best = λ id m e. rw total (h.best id m (rw known at e));
      }

  connect_to_parent-Heavy :
      (block : Block) (parent : Option BlockMeta) (chain : Chain)
      → Heaviest chain
      → Roomy block chain
      → find (hash crypto block) chain.known ≡ none
      → find block.header.prev_blockhash chain.known ≡ parent
      → HeavyEnds (connect_to_parent crypto block parent chain)
  unfolding connect_to_parent
  connect_to_parent-Heavy block none chain h room unknown e = insert_orphan-Heaviest block chain h
  connect_to_parent-Heavy block (some parent) chain h room unknown e =
      settle_at-Heavy block parent chain _ h room unknown e refl

  connect_one-checked :
      (block : Block) (chain : Chain) (check : Result Fault (Unit {0}))
      → Heaviest chain
      → Roomy block chain
      → check_new crypto block chain ≡ check
      → HeavyEnds (
          (lift check
              >> connect_to_parent crypto block (find block.header.prev_blockhash chain.known))
            chain)
  unfolding lift ◌>>◌
  connect_one-checked block chain (ok done) h room e =
      connect_to_parent-Heavy block _ chain h room (check_new-unknown crypto root block chain e)
        refl
  connect_one-checked block chain (err fault) h room e = Heavy-stay ConnectResult chain fault h

  -- Connecting one block, with success or an error, ends on a well-formed chain whose total work
  -- is that of its tip in the index and no less than that of any known block, if the work up to
  -- the block fits in 256 bits.
  pub connect_one-Heaviest :
      (block : Block) (chain : Chain)
      → Heaviest chain
      → Roomy block chain
      → HeavyEnds (connect_one crypto block chain)
  unfolding connect_one
  connect_one-Heaviest block chain h room = connect_one-checked block chain _ h room refl
