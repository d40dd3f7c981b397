-- ===== src/Chain/Index.antt =====
-- The index of the known blocks of crates/bitrst-core/src/chain.rs: how entries and their parents
-- fit, and how an index grows.
use bitrst.Base.{
  ℕ, ◌+◌, ◌%◌, ◌^◌, ◌≡◌, ◌≢◌, ◌⊎◌, refl, sym, ap, subst, ◌∙◌, List, Option, none, some, inl, inr,
  if_pos, if_neg, ok, arith,
}
use bitrst.Base.Map
use bitrst.Base.Map.{Map, get-insert}
use bitrst.Base.Keys.{bytes_discrete}
use bitrst.Crypto.{Primitives}
use bitrst.Block.Types.{Block}
use bitrst.Block.Encode.{hash}
use bitrst.Chain.Work.{ChainWork, add}
use bitrst.Chain.Types.{BlockMeta, block_work}

abbrev pub Known : Type 0
Known = Map (List ℕ) BlockMeta

abbrev pub find : List ℕ → Known → Option BlockMeta
find id known = Map.get bytes_discrete id known

pub record IsChild (meta parent : BlockMeta) : Type 0 where
  pub height : meta.height ≡ (parent.height + 1) % 2 ^ 32
  pub own : ChainWork
  pub own_work : block_work meta.block.header.bits ≡ ok own
  pub work : meta.work ≡ add parent.work own

-- Two entries that differ in their undo at most.
pub record Same (meta other : BlockMeta) : Type 0 where
  pub block : other.block ≡ meta.block
  pub height : other.height ≡ meta.height
  pub work : other.work ≡ meta.work

pub Same-refl : (meta : BlockMeta) → Same meta meta
Same-refl meta = record { block = refl; height = refl; work = refl }

pub Same-trans : {a b c : BlockMeta} → Same a b → Same b c → Same a c
Same-trans s t = record {
  block = t.block ∙ s.block;
  height = t.height ∙ s.height;
  work = t.work ∙ s.work;
}

IsChild-Same :
    {meta meta' parent parent' : BlockMeta}
    → IsChild meta parent
    → Same meta meta'
    → Same parent parent'
    → IsChild meta' parent'
IsChild-Same c s t = record {
  height = s.height ∙ c.height ∙ ap (λ (n : ℕ). (n + 1) % 2 ^ 32) (sym t.height);
  own = c.own;
  own_work = ap (λ (b : Block). block_work b.header.bits) s.block ∙ c.own_work;
  work = s.work ∙ c.work ∙ ap (λ w. add w c.own) (sym t.work);
}

-- The later index has every entry of the earlier one, up to its undo.
pub record Extends (before later : Known) : Type 0 where
  pub at :
      (id : List ℕ) (meta : BlockMeta)
      → find id before ≡ some meta
      → (meta' : BlockMeta) × (find id later ≡ some meta') × Same meta meta'

pub Extends-refl : (known : Known) → Extends known known
Extends-refl known = record { at = λ id meta h. (meta, h, Same-refl meta) }

pub Extends-trans : {a b c : Known} → Extends a b → Extends b c → Extends a c
Extends-trans f g = record {
  at = λ id meta h.
      let (m, e, s) = f.at id meta h in let (m', e', t) = g.at id m e in (m', e', Same-trans s t);
}

abbrev pub Parent : Known → BlockMeta → Type 0
Parent known meta =
    (parent : BlockMeta) × (find meta.block.header.prev_blockhash known ≡ some parent)
    × IsChild meta parent

-- The later index has no entry but those of the earlier one, up to their undo.
pub record OnlyOld (before later : Known) : Type 0 where
  pub at :
      (id : List ℕ) (meta : BlockMeta)
      → find id later ≡ some meta
      → (old : BlockMeta) × (find id before ≡ some old) × Same old meta

-- Or one more, of the block `new`, whose parent is in the earlier one.
pub record OnlyNew (new : Block) (before later : Known) : Type 0 where
  pub at :
      (id : List ℕ) (meta : BlockMeta)
      → find id later ≡ some meta
      → ((old : BlockMeta) × (find id before ≡ some old) × Same old meta)
        ⊎ ((meta.block ≡ new) × Parent before meta)

pub record Indexed (crypto : Primitives) (root : List ℕ) (known : Known) : Type 0 where
  pub keyed :
      (id : List ℕ) (meta : BlockMeta) → find id known ≡ some meta → hash crypto meta.block ≡ id
  pub parent :
      (id : List ℕ) (meta : BlockMeta) → find id known ≡ some meta → (id ≡ root) ⊎ Parent known meta

Parent-Same :
    (known known' : Known) (meta meta' : BlockMeta)
    → Parent known meta
    → Same meta meta'
    → Extends known known'
    → Parent known' meta'
Parent-Same known known' meta meta' (p, e, c) s more =
    let (p', e', t) = more.at _ p e in
    (p', ap (λ (b : Block). find b.header.prev_blockhash known') s.block ∙ e', IsChild-Same c s t)

-- How an entry may enter the index: a new block below which its parent stands, or a block that
-- is there already with the same block, height and work.
abbrev pub Enters : Known → List ℕ → BlockMeta → Type 0
Enters known id meta =
    ((find id known ≡ none) × Parent known meta)
    ⊎ ((old : BlockMeta) × (find id known ≡ some old) × Same old meta)

pub find-insert_self :
    (id : List ℕ) (meta : BlockMeta) (known : Known)
    → find id (Map.insert bytes_discrete id meta known) ≡ some meta
find-insert_self id meta known =
    get-insert bytes_discrete id id meta known ∙ if_pos (bytes_discrete id id) refl _ _

pub find-insert_ne :
    (id q : List ℕ) (meta : BlockMeta) (known : Known)
    → id ≢ q
    → find q (Map.insert bytes_discrete id meta known) ≡ find q known
find-insert_ne id q meta known p =
    get-insert bytes_discrete id q meta known ∙ if_neg (bytes_discrete id q) p _ _

pub entry-cases :
    (id q : List ℕ) (meta m : BlockMeta) (known : Known)
    → find q (Map.insert bytes_discrete id meta known) ≡ some m
    → ((id ≡ q) × (meta ≡ m)) ⊎ (find q known ≡ some m)
entry-cases id q meta m known h = elim (bytes_discrete id q) [
  | yes p ↦
      let e : find id (Map.insert bytes_discrete id meta known) ≡ some m =
        ap (λ k. find k (Map.insert bytes_discrete id meta known)) p ∙ h in
      let e' = find-insert_self id meta known in inl (p, ground arith)
  | no p ↦ inr (sym (find-insert_ne id q meta known p) ∙ h)
]

entered :
    (known : Known) (id : List ℕ) (meta m : BlockMeta)
    → Enters known id meta
    → find id known ≡ some m
    → Same m meta
entered known id meta m (inl (new_, parent)) e = absurd (ground arith)
entered known id meta m (inr (old, e', same)) e =
    let eq : old ≡ m = ground arith in
    record {
      block = same.block ∙ ap (λ (x : BlockMeta). x.block) eq;
      height = same.height ∙ ap (λ (x : BlockMeta). x.height) eq;
      work = same.work ∙ ap (λ (x : BlockMeta). x.work) eq;
    }

pub insert-Extends :
    (id : List ℕ) (meta : BlockMeta) (known : Known)
    → Enters known id meta
    → Extends known (Map.insert bytes_discrete id meta known)
insert-Extends id meta known way = record {
  at = λ q m h. elim (bytes_discrete id q) [
    | yes p ↦ (
      meta,
      ap (λ k. find k (Map.insert bytes_discrete id meta known)) (sym p)
          ∙ find-insert_self id meta known,
      entered known id meta m way (ap (λ k. find k known) p ∙ h),
    )
    | no p ↦ (m, find-insert_ne id q meta known p ∙ h, Same-refl m)
  ];
}

pub OnlyOld-refl : (known : Known) → OnlyOld known known
OnlyOld-refl known = record { at = λ id meta h. (meta, h, Same-refl meta) }

pub OnlyOld-trans : {a b c : Known} → OnlyOld a b → OnlyOld b c → OnlyOld a c
OnlyOld-trans f g = record {
  at = λ id meta h.
      let (m, e, s) = g.at id meta h in let (old, e', t) = f.at id m e in (old, e', Same-trans t s);
}

Same-sym : {a b : BlockMeta} → Same a b → Same b a
Same-sym s = record { block = sym s.block; height = sym s.height; work = sym s.work }

pub OnlyNew-old : {new : Block} {a b : Known} → OnlyOld a b → OnlyNew new a b
OnlyNew-old f = record { at = λ id meta h. inl (f.at id meta h) }

-- The entries of what grew out of an index without new blocks.
pub OnlyNew-trans : {new : Block} {a b c : Known} → OnlyOld a b → OnlyNew new b c → OnlyNew new a c
OnlyNew-trans f g = record {
  at = λ id meta h. elim (g.at id meta h) [
    | inl (m, e, s) ↦ let (old, e', t) = f.at id m e in inl (old, e', Same-trans t s)
    | inr (same, (p, e, c)) ↦
        let (old, e', t) = f.at _ p e in
        inr (same, (old, e', IsChild-Same c (Same-refl meta) (Same-sym t)))
  ];
}

pub insert-OnlyOld :
    (id : List ℕ) (meta old : BlockMeta) (known : Known)
    → Enters known id meta
    → find id known ≡ some old
    → OnlyOld known (Map.insert bytes_discrete id meta known)
insert-OnlyOld id meta old known way there = record {
  at = λ q m h. elim (entry-cases id q meta m known h) [
    | inl (at, same) ↦ (
      old,
      ap (λ k. find k known) (sym at) ∙ there,
      subst (Same old) same (entered known id meta old way there),
    )
    | inr kept ↦ (m, kept, Same-refl m)
  ];
}

entered_new :
    (known : Known) (id : List ℕ) (meta : BlockMeta)
    → Enters known id meta
    → find id known ≡ none
    → Parent known meta
entered_new known id meta (inl (new_, parent)) e = parent
entered_new known id meta (inr (old, e', same)) e = absurd (ground arith)

pub insert-OnlyNew :
    (id : List ℕ) (meta : BlockMeta) (known : Known)
    → Enters known id meta
    → find id known ≡ none
    → OnlyNew meta.block known (Map.insert bytes_discrete id meta known)
insert-OnlyNew id meta known way unknown = record {
  at = λ q m h. elim (entry-cases id q meta m known h) [
    | inl (at, same) ↦ inr (
      ap (λ (x : BlockMeta). x.block) (sym same),
      subst (Parent known) same (entered_new known id meta way unknown),
    )
    | inr kept ↦ inl (m, kept, Same-refl m)
  ];
}

module _ (crypto : Primitives) (root : List ℕ) where
  -- The parent of an entry, in an index that has more.
  later-Parent :
      (known known' : Known) (id : List ℕ) (meta : BlockMeta)
      → (id ≡ root) ⊎ Parent known meta
      → Extends known known'
      → (id ≡ root) ⊎ Parent known' meta
  later-Parent known known' id meta (inl first) more = inl first
  later-Parent known known' id meta (inr parent) more =
      inr (Parent-Same known known' meta meta parent (Same-refl meta) more)

  -- The parent of the entry that enters.
  entering-Parent :
      (known known' : Known) (id : List ℕ) (meta : BlockMeta)
      → Indexed crypto root known
      → Enters known id meta
      → Extends known known'
      → (id ≡ root) ⊎ Parent known' meta
  entering-Parent known known' id meta index (inl (new_, parent)) more =
      inr (Parent-Same known known' meta meta parent (Same-refl meta) more)
  entering-Parent known known' id meta index (inr (old, e, same)) more =
      elim (index.parent id old e) [
        | inl first ↦ inl first
        | inr parent ↦ inr (Parent-Same known known' old meta parent same more)
      ]

  pub insert-Indexed :
      (id : List ℕ) (meta : BlockMeta) (known : Known)
      → Indexed crypto root known
      → hash crypto meta.block ≡ id
      → Enters known id meta
      → Indexed crypto root (Map.insert bytes_discrete id meta known)
  insert-Indexed id meta known index own way = record {
    keyed = λ q m h. elim (entry-cases id q meta m known h) [
      | inl (at, same) ↦ ap (λ (x : BlockMeta). hash crypto x.block) (sym same) ∙ own ∙ at
      | inr old ↦ index.keyed q m old
    ];
    parent = λ q m h. elim (entry-cases id q meta m known h) [
      | inl (at, same) ↦
          subst (λ (x : BlockMeta). (q ≡ root) ⊎ Parent (Map.insert bytes_discrete id meta known) x)
            same
            (subst
              (λ (k : List ℕ). (k ≡ root) ⊎ Parent (Map.insert bytes_discrete id meta known) meta)
              at (entering-Parent known _ id meta index way (insert-Extends id meta known way)))
      | inr old ↦ later-Parent known _ q m (index.parent q m old) (insert-Extends id meta known way)
    ];
  }
