-- ===== src/Chain/Active.antt =====
-- The active chain of crates/bitrst-core/src/chain.rs and the index: how a block goes on and off.
use bitrst.Base.{
  ℕ, suc, ◌+◌, ◌-◌, ◌%◌, ◌^◌, ◌≡◌, ◌≢◌, ◌⊎◌, refl, sym, ap, ◌∙◌, List, [], ◌∷◌, length, Option,
  none, some, inl, inr, true, false, if_pos, if_neg, Result, ok, arith,
}
use bitrst.Base.Map
use bitrst.Base.Map.{Map, get-insert, get-remove}
use bitrst.Base.Keys.{bytes_discrete}
use bitrst.Crypto.{Primitives}
use bitrst.Block.Types.{Block}
use bitrst.Block.Encode.{hash}
use bitrst.Chain.Work.{ChainWork, add}
use bitrst.Chain.Types.{Chain, BlockMeta, Fault, block_work}
use bitrst.Chain.Reads.{found, tip_hash, hash_of_tip}
use bitrst.Chain.Attach.{publish, attach, detach, disconnect, disconnect_found, take_off, apply_all}
use bitrst.Chain.Index.{
  Known, find, IsChild, Same, Extends, Indexed, Enters, find-insert_self, insert-Extends,
  insert-Indexed,
}

abbrev pub Hashes : Type 0
Hashes = Map (List ℕ) (Unit {0})

abbrev pub IsActive : List ℕ → Hashes → Type 0
IsActive id hashes = found (Map.get bytes_discrete id hashes) ≡ true

module _ (crypto : Primitives) where
  abbrev pub Among : List ℕ → List Block → Type 0
  Among id [] = true ≡ false
  Among id (b ∷ bs) = (hash crypto b ≡ id) ⊎ Among id bs

  -- The entry of an active block, whose height is the number of the blocks below it.
  abbrev pub Stands : Known → Block → List Block → Type 0
  Stands known b below =
      (meta : BlockMeta) × (find (hash crypto b) known ≡ some meta)
      × (meta.block ≡ b)
      × (meta.height ≡ length below % 2 ^ 32)

module _ (crypto : Primitives) (root : List ℕ) where
  -- Each active block has the one below as its parent, down to the first, whose hash is `root`.
  abbrev pub Stacked : Known → List Block → Type 0
  Stacked known [] = true ≡ false
  Stacked known (b ∷ []) = (hash crypto b ≡ root) × Stands crypto known b []
  Stacked known (b ∷ c ∷ bs) =
      (b.header.prev_blockhash ≡ hash crypto c)
      × (hash crypto b ≢ root)
      × Stands crypto known b (c ∷ bs)
      × Stacked known (c ∷ bs)

  pub record Parts (known : Known) (blocks : List Block) (hashes : Hashes) : Type 0 where
    pub index : Indexed crypto root known
    pub stack : Stacked known blocks
    pub active : (id : List ℕ) → IsActive id hashes → Among crypto id blocks
    pub rooted : IsActive root hashes

  -- The invariant of the chain.
  abbrev pub WellFormed : Chain → Type 0
  WellFormed chain = Parts chain.known chain.blocks chain.active_hashes

  Stands-Extends :
      (known known' : Known) (b : Block) (bs : List Block)
      → Extends known known'
      → Stands crypto known b bs
      → Stands crypto known' b bs
  Stands-Extends known known' b bs more (m, e, same, at) =
      let (m', e', s) = more.at _ m e in (m', e', s.block ∙ same, s.height ∙ at)

  pub Stacked-Extends :
      (known known' : Known) (bs : List Block)
      → Extends known known'
      → Stacked known bs
      → Stacked known' bs
  Stacked-Extends known known' [] more h = h
  Stacked-Extends known known' (b ∷ []) more (first, h) =
      (first, Stands-Extends known known' b [] more h)
  Stacked-Extends known known' (b ∷ c ∷ bs) more (on, above, h, rest) = (
    on,
    above,
    Stands-Extends known known' b (c ∷ bs) more h,
    Stacked-Extends known known' (c ∷ bs) more rest,
  )

  -- The entry of the tip.
  pub tip_meta :
      (known : Known) (bs : List Block)
      → Stacked known bs
      → (meta : BlockMeta) × (find (hash_of_tip crypto bs) known ≡ some meta)
        × (meta.height ≡ (length bs - 1) % 2 ^ 32)
        × (length bs ≡ suc (length bs - 1))
  tip_meta known [] h = absurd (ground arith)
  tip_meta known (b ∷ []) (first, (m, e, same, at)) = (m, e, at, refl)
  tip_meta known (b ∷ c ∷ bs) (on, above, (m, e, same, at), rest) = (m, e, omega arith, omega arith)

  Stacked-push :
      (known : Known) (b : Block) (bs : List Block)
      → Stacked known bs
      → b.header.prev_blockhash ≡ hash_of_tip crypto bs
      → hash crypto b ≢ root
      → Stands crypto known b bs
      → Stacked known (b ∷ bs)
  Stacked-push known b [] h on above stands = absurd (ground arith)
  Stacked-push known b (c ∷ bs) h on above stands = (on, above, stands, h)

  pub insert-active :
      (b : Block) (bs : List Block) (hashes : Hashes)
      → ((id : List ℕ) → IsActive id hashes → Among crypto id bs)
      → (id : List ℕ) → IsActive id (Map.insert bytes_discrete (hash crypto b) tt hashes)
      → Among crypto id (b ∷ bs)
  insert-active b bs hashes h id now = elim (bytes_discrete (hash crypto b) id) [
    | yes p ↦ inl p
    | no p ↦ inr (
        h id (
          sym (
            ap found (
              get-insert bytes_discrete (hash crypto b) id tt hashes
              ∙ if_neg (bytes_discrete (hash crypto b) id) p _ _))
          ∙ now))
  ]

  insert-rooted :
      (id : List ℕ) (hashes : Hashes)
      → IsActive root hashes
      → IsActive root (Map.insert bytes_discrete id tt hashes)
  insert-rooted id hashes h =
      rw (get-insert bytes_discrete id root tt hashes)
        (elim (bytes_discrete id root) [ yes p ↦ rw (if_pos _ p) refl | no p ↦ rw (if_neg _ p) h ])

  -- A block with the work and the height of a child of `parent`.
  pub record Fits (known : Known) (block : Block) (at : ℕ) (work : ChainWork) (parent : BlockMeta)
      : Type 0 where
    pub below : find block.header.prev_blockhash known ≡ some parent
    pub height : at ≡ (parent.height + 1) % 2 ^ 32
    pub own : ChainWork
    pub own_work : block_work block.header.bits ≡ ok own
    pub total : work ≡ add parent.work own

  abbrev pub Listed : Known → Block → Type 0
  Listed known block =
      (meta : BlockMeta) × (find (hash crypto block) known ≡ some meta) × (meta.block ≡ block)

  pub Fits-Enters :
      (known : Known) (parent meta : BlockMeta)
      → Indexed crypto root known
      → Fits known meta.block meta.height meta.work parent
      → hash crypto meta.block ≢ root
      → (find (hash crypto meta.block) known ≡ none) ⊎ Listed known meta.block
      → Enters known (hash crypto meta.block) meta
  Fits-Enters known parent meta index fits above (inl new_) = inl (
    new_,
    (
      parent,
      fits.below,
      record { height = fits.height; own = fits.own; own_work = fits.own_work; work = fits.total },
    ),
  )
  Fits-Enters known parent meta index fits above (inr (old, e, same)) =
      elim (index.parent _ old e) [
        | inl first ↦ absurd (above first)
        | inr (p, e', child) ↦ inr (old, e, again p e' child)
      ]
    where
      again :
          (p : BlockMeta)
          → find old.block.header.prev_blockhash known ≡ some p
          → IsChild old p
          → Same old meta
      again p e' child =
          let below : find meta.block.header.prev_blockhash known ≡ some p =
            ap (λ (b : Block). find b.header.prev_blockhash known) (sym same) ∙ e' in
          let p≡ : parent ≡ p = (let f = fits.below in ground arith) in
          let own≡ : fits.own ≡ child.own =
            (let a : block_work meta.block.header.bits ≡ ok child.own =
                ap (λ (b : Block). block_work b.header.bits) (sym same) ∙ child.own_work in
              let b = fits.own_work in ground arith) in
          record {
            block = sym same;
            height =
                fits.height ∙ ap (λ (x : BlockMeta). (x.height + 1) % 2 ^ 32) p≡ ∙ sym child.height;
            work =
                fits.total
                ∙ ap (λ (x : BlockMeta). add x.work fits.own) p≡
                ∙ ap (add p.work) own≡
                ∙ sym child.work;
          }

  abbrev pub entry_for : Block → ℕ → ChainWork → Chain → BlockMeta
  entry_for block at work chain = record {
    block = block;
    height = at;
    work = work;
    undo = (apply_all crypto block.transactions chain.utxo).1;
  }

  -- Putting a block that fits on the tip of a well-formed chain.
  pub attach-WellFormed :
      (block : Block) (at : ℕ) (work : ChainWork) (parent : BlockMeta) (chain : Chain)
      → WellFormed chain
      → block.header.prev_blockhash ≡ tip_hash crypto chain
      → Fits chain.known block at work parent
      → hash crypto block ≢ root
      → (find (hash crypto block) chain.known ≡ none) ⊎ Listed chain.known block
      → WellFormed (attach crypto block at work chain)
        × Extends chain.known (attach crypto block at work chain).known
        × Enters chain.known (hash crypto block) (entry_for block at work chain)
  unfolding attach publish tip_hash
  attach-WellFormed block at work parent chain ok_ on fits above listed =
      let meta = entry_for block at work chain in
      let way = Fits-Enters chain.known parent meta ok_.index fits above listed in
      let more = insert-Extends (hash crypto block) meta chain.known way in
      let (tip, found_, tip_height, counted) = tip_meta chain.known chain.blocks ok_.stack in
      let same : parent ≡ tip =
        (let a : find block.header.prev_blockhash chain.known ≡ some tip =
            ap (λ k. find k chain.known) on ∙ found_ in
          let b = fits.below in ground arith) in
      let level : at ≡ length chain.blocks % 2 ^ 32 =
        (let a = fits.height in
          let b : parent.height ≡ tip.height = ap (λ (x : BlockMeta). x.height) same in
          omega arith) in
      (
        record {
          index =
              insert-Indexed crypto root (hash crypto block) meta chain.known ok_.index refl way;
          stack =
              Stacked-push _ block chain.blocks
                (Stacked-Extends chain.known _ chain.blocks more ok_.stack) on above
                (meta, find-insert_self (hash crypto block) meta chain.known, refl, level);
          active = insert-active block chain.blocks chain.active_hashes ok_.active;
          rooted = insert-rooted (hash crypto block) chain.active_hashes ok_.rooted;
        },
        more,
        way,
      )

  -- What taking the tip off a well-formed chain with another block below leaves.
  pub record Lowered (chain : Chain) (blocks : List Block) (out : Chain × Result Fault (Unit {0}))
      : Type 0 where
    pub succeeds : out.1 ≡ ok tt
    pub known : out.0.known ≡ chain.known
    pub blocks_left : out.0.blocks ≡ blocks
    pub well_formed : WellFormed out.0

  disconnect_found-Lowered :
      (b c : Block) (bs : List Block) (chain : Chain) (meta : Option BlockMeta)
      → Parts chain.known (b ∷ c ∷ bs) chain.active_hashes
      → (m : BlockMeta) → meta ≡ some m
      → Lowered chain (c ∷ bs) (disconnect_found crypto b meta (take_off crypto b (c ∷ bs) chain))
  unfolding detach
  disconnect_found-Lowered b c bs chain meta parts m e =
      let (on, above, stands, rest) = parts.stack in
      rw e (record {
        succeeds = refl;
        known = refl;
        blocks_left = refl;
        well_formed = record {
          index = parts.index;
          stack = rest;
          active = λ id now. elim (bytes_discrete (hash crypto b) id) [
            | yes p ↦ absurd (
                let gone : found (
                      Map.get bytes_discrete id
                        (Map.remove bytes_discrete (hash crypto b) chain.active_hashes))
                    ≡ false =
                  ap found (
                    get-remove bytes_discrete (hash crypto b) id chain.active_hashes
                    ∙ if_pos (bytes_discrete (hash crypto b) id) p _ _) in
                ground arith)
            | no p ↦
                elim (parts.active id (
                  sym (
                    ap found (
                      get-remove bytes_discrete (hash crypto b) id chain.active_hashes
                      ∙ if_neg (bytes_discrete (hash crypto b) id) p _ _))
                  ∙ now)) [ inl at_tip ↦ absurd (p at_tip) | inr under ↦ under ]
          ];
          rooted =
              rw (get-remove bytes_discrete (hash crypto b) root chain.active_hashes)
                (rw (if_neg (bytes_discrete (hash crypto b) root) above) parts.rooted);
        };
      })

  pub disconnect-Lowered :
      (b c : Block) (bs : List Block) (chain : Chain)
      → Parts chain.known (b ∷ c ∷ bs) chain.active_hashes
      → Lowered chain (c ∷ bs) (disconnect crypto (b ∷ c ∷ bs) chain)
  disconnect-Lowered b c bs chain parts =
      let (on, above, (m, e, same, at), rest) = parts.stack in
      disconnect_found-Lowered b c bs chain _ parts m e
