-- ===== src/Chain/Queue.antt =====
-- The loop over the orphans of crates/bitrst-core/src/chain.rs against its fuel.
use bitrst.Base.{
  ℕ, zero, suc, ◌+◌, ◌^◌, ◌≤◌, ◌<◌, ◌≡◌, refl, ap, subst, List, [], ◌∷◌, length, length-append, All,
  All-append, All-imp, Option, none, some, inl, inr, Bool, true, false, if◌then◌else◌, Result, ok,
  err, Bool-cases, arith,
}
use bitrst.Base.Map
use bitrst.Base.Map.{Map}
use bitrst.Base.Keys.{bytes_discrete, holds}
use bitrst.Limits.{max_orphan_blocks}
use bitrst.Crypto.{Primitives}
use bitrst.Block.Types.{Block}
use bitrst.Block.Encode.{hash}
use bitrst.Chain.Work.{ChainWork, at_most}
use bitrst.Chain.Types.{Chain, OrphanEntry, BlockMeta, ConnectResult, Fault}
use bitrst.Chain.Reads.{found, tip_hash}
use bitrst.Chain.Action.{lift, pure, ◌>>◌, after}
use bitrst.Chain.Attach.{publish, attach}
use bitrst.Chain.Reorg.{reorg_to_block}
use bitrst.Chain.Orphans.{is_ready, take_ready, enqueue_ready_orphans}
use bitrst.Chain.Connect.{
  place, extend, keep_aside, switch, settle, settle_at, connect_to_parent, check_new, connect_one,
  connect_queue, process_orphans, connect_block, tip_moved,
}
use bitrst.Chain.Steps.{Grows, Grows-refl, connect_to_parent-Growing}
use bitrst.Chain.OrphanPool.{Bounded, connect_one-Bounded, take_ready-size}
use bitrst.Chain.Index.{Known, find, OnlyNew, OnlyNew-old, OnlyOld-refl, insert-OnlyNew}
use bitrst.Chain.Active.{WellFormed, Fits, Fits-Enters}
use bitrst.Chain.Reorged.{Ends, Reorganized, reorg_to_block-Reorganized}
use bitrst.Chain.WellFormed.{
  new-above, place-Fits, check_new-unknown, insert_orphan-same, connect_one-WellFormed,
}
use bitrst.Chain.Finishes.{Finished}
use bitrst.Chain.Termination.{Low, Finished-after, Finished-branch, connect_one-Finished}

-- Every height leaves room for `n` more.
abbrev pub Under : ℕ → Known → Type 0
Under n known =
    (id : List ℕ) (meta : BlockMeta) → find id known ≡ some meta → meta.height + n < 2 ^ 32

module _ (crypto : Primitives) (root : List ℕ) where
  -- A call that succeeds adds the block to the index at most.
  abbrev Added : {A : Type 0} → Block → Chain → Chain × Result Fault A → Type 0
  Added block chain (c, ok a) = OnlyNew block chain.known c.known
  Added block chain (c, err fault) = Unit

  Under-OnlyNew :
      (n : ℕ) (block : Block) (known known' : Known)
      → OnlyNew block known known'
      → Under (suc n) known
      → Under n known'
  Under-OnlyNew n block known known' only under id meta e = elim (only.at id meta e) [
    | inl (old, e', same) ↦ let b = under id old e' in let h = same.height in omega arith
    | inr (is_new, (p, e', child)) ↦
        let b = under meta.block.header.prev_blockhash p e' in let h = child.height in omega arith
  ]

  Added-after :
      {A B : Type 0} (block : Block) (chain : Chain) (out : Chain × Result Fault A)
      (change : A → Chain → Chain) (answer : A → Chain → B)
      → Added block chain out
      → ((a : A) (c : Chain) → (change a c).known ≡ c.known)
      → Added block chain (after out (λ a c. (change a c, ok (answer a c))))
  Added-after block chain (c, ok a) change answer h same = rw (same a c) h
  Added-after block chain (c, err fault) change answer h same = tt

  Added-if :
      {A : Type 0} (block : Block) (chain : Chain) (b : Bool) (x y : Chain × Result Fault A)
      → Added block chain x
      → Added block chain y
      → Added block chain (if b then x else y)
  Added-if block chain true x y h k = h
  Added-if block chain false x y h k = k

  Added-reorg :
      (block : Block) (work : ChainWork) (chain : Chain) (out : Chain × Result Fault ℕ)
      → Reorganized crypto root block work chain out
      → Added block chain out
  Added-reorg block work chain (c, ok n) (wf, tip, total, only) = only
  Added-reorg block work chain (c, err fault) h = tt

  settle-Added :
      (block : Block) (at : ℕ) (work : ChainWork) (parent : BlockMeta) (chain : Chain)
      → WellFormed crypto root chain
      → find (hash crypto block) chain.known ≡ none
      → Fits crypto root chain.known block at work parent
      → Added block chain (settle crypto block at work chain)
  unfolding settle extend keep_aside switch attach publish
  settle-Added block at work parent chain wf unknown fits =
      let above = new-above crypto root block chain wf unknown in
      Added-if block chain
        (holds (bytes_discrete block.header.prev_blockhash (tip_hash crypto chain)))
        (extend crypto block at work chain) _
        (insert-OnlyNew (hash crypto block) _ chain.known
          (Fits-Enters crypto root chain.known parent _ wf.index fits above (inl unknown)) unknown)
        (Added-if block chain (at_most work chain.total_work)
          (keep_aside crypto block at work chain) (switch crypto block work chain)
          (insert-OnlyNew (hash crypto block) _ chain.known
            (Fits-Enters crypto root chain.known parent _ wf.index fits above (inl unknown))
            unknown)
          (Added-after block chain (reorg_to_block crypto block work chain) _ _
            (Added-reorg block work chain (reorg_to_block crypto block work chain)
              (reorg_to_block-Reorganized crypto root block work chain wf unknown above))
            (λ depth c. refl)))

  settle_at-Added :
      (block : Block) (parent : BlockMeta) (chain : Chain) (placed : Result Fault (ℕ × ChainWork))
      → WellFormed crypto root chain
      → find (hash crypto block) chain.known ≡ none
      → find block.header.prev_blockhash chain.known ≡ some parent
      → place crypto block parent chain ≡ placed
      → Added block chain (settle_at crypto block placed chain)
  settle_at-Added block parent chain (err fault) wf unknown below e = tt
  settle_at-Added block parent chain (ok (at, work)) wf unknown below e =
      settle-Added block at work parent chain wf unknown
        (place-Fits crypto root block parent chain at work below e)

  connect_to_parent-Added :
      (block : Block) (parent : Option BlockMeta) (chain : Chain)
      → WellFormed crypto root chain
      → find (hash crypto block) chain.known ≡ none
      → find block.header.prev_blockhash chain.known ≡ parent
      → Added block chain (connect_to_parent crypto block parent chain)
  unfolding connect_to_parent
  connect_to_parent-Added block none chain wf unknown e =
      let (known, blocks, total) = insert_orphan-same crypto root block chain in
      rw known (OnlyNew-old (OnlyOld-refl chain.known))
  connect_to_parent-Added block (some parent) chain wf unknown e =
      settle_at-Added block parent chain _ wf unknown e refl

  -- A block that is connected: what it adds, and, where its parent is known, what it keeps.
  record Step (block : Block) (chain : Chain) (out : Chain × Result Fault ConnectResult)
      : Type 0 where
    added : Added block chain out
    kept :
        (parent : BlockMeta)
        → find block.header.prev_blockhash chain.known ≡ some parent
        → Grows chain out.0

  kept_parent :
      (block : Block) (chain : Chain) (meta : Option BlockMeta) (parent : BlockMeta)
      → meta ≡ some parent
      → Grows chain (connect_to_parent crypto block meta chain).0
  kept_parent block chain none parent e = absurd (ground arith)
  kept_parent block chain (some m) parent e = connect_to_parent-Growing crypto block m chain

  connect_one-checked :
      (block : Block) (chain : Chain) (check : Result Fault (Unit {0}))
      → WellFormed crypto root chain
      → check_new crypto block chain ≡ check
      → Step block chain (
          (lift check
              >> connect_to_parent crypto block (find block.header.prev_blockhash chain.known))
            chain)
  unfolding lift ◌>>◌
  connect_one-checked block chain (ok done) wf e = record {
    added =
        connect_to_parent-Added block _ chain wf (check_new-unknown crypto root block chain e) refl;
    kept = λ parent e'. kept_parent block chain _ parent e';
  }
  connect_one-checked block chain (err fault) wf e = record {
    added = tt;
    kept = λ parent e'. Grows-refl chain;
  }

  connect_one-Step :
      (block : Block) (chain : Chain)
      → WellFormed crypto root chain
      → Step block chain (connect_one crypto block chain)
  unfolding connect_one
  connect_one-Step block chain wf = connect_one-checked block chain _ wf refl

  -- The blocks of the queue have their parents in the index.
  abbrev Waiting : Known → List Block → Type 0
  Waiting known queue = All (λ b. found (find b.header.prev_blockhash known) ≡ true) queue

  take_ready-Waiting :
      (known : Known) (orphans : Map (List ℕ) OrphanEntry)
      → Waiting known (take_ready known orphans).0
  unfolding take_ready
  take_ready-Waiting known [] = tt
  take_ready-Waiting known ((id, entry) ∷ orphans) = elim (Bool-cases (is_ready known entry)) [
    | inl ready ↦ rw ready (ready, take_ready-Waiting known orphans)
    | inr waits ↦ rw waits (take_ready-Waiting known orphans)
  ]

  enqueued :
      (queue : List Block) (chain : Chain)
      → WellFormed crypto root chain
      → Waiting chain.known queue
      → let (queue', chain') = enqueue_ready_orphans queue chain in
        WellFormed crypto root chain'
        × Waiting chain'.known queue'
        × (chain'.known ≡ chain.known)
        × (length queue' + Map.size chain'.orphans ≡ length queue + Map.size chain.orphans)
  unfolding enqueue_ready_orphans
  enqueued queue chain wf waiting =
      let ready = take_ready chain.known chain.orphans in
      let size = take_ready-size chain.known chain.orphans in
      let joined = length-append queue ready.0 in
      (
        record { index = wf.index; stack = wf.stack; active = wf.active; rooted = wf.rooted },
        All-append _ queue ready.0 waiting (take_ready-Waiting chain.known chain.orphans),
        refl,
        omega arith,
      )

  Low-Under : (n : ℕ) (known : Known) → Under (suc n) known → Low known
  Low-Under n known under id meta e = let b = under id meta e in omega arith

  found-some : (meta : Option BlockMeta) → found meta ≡ true → (m : BlockMeta) × (meta ≡ some m)
  found-some none h = absurd (ground arith)
  found-some (some m) h = (m, refl)

  -- A well-formed chain after a call that succeeded.
  ended_ok :
      {A : Type 0} (out : Chain × Result Fault A) (c : Chain) (a : A)
      → out ≡ (c, ok a)
      → Ends crypto root out
      → WellFormed crypto root c
  ended_ok out c a e h = subst (Ends crypto root) e h

  connect_queue-Finished :
      (fuel : ℕ) (queue : List Block) (chain : Chain)
      → WellFormed crypto root chain
      → Waiting chain.known queue
      → Under (suc fuel) chain.known
      → length queue + Map.size chain.orphans ≤ fuel
      → Finished (connect_queue crypto fuel queue chain).1
  unfolding connect_queue
  connect_queue-Finished zero [] chain wf waiting under enough = tt
  connect_queue-Finished (suc fuel) [] chain wf waiting under enough = tt
  connect_queue-Finished zero (block ∷ queue) chain wf waiting under enough = absurd (omega arith)
  connect_queue-Finished (suc fuel) (block ∷ queue) chain wf (has, waiting) under enough =
      let step = connect_one-Step block chain wf in
      let (parent, e) = found-some (find block.header.prev_blockhash chain.known) has in
      let grows = step.kept parent e in
      Finished-after (connect_one crypto block chain) _
        (connect_one-Finished crypto root block chain wf (Low-Under (suc fuel) chain.known under))
        (λ outcome moved e'.
          let wf' =
            ended_ok _ moved outcome e' (connect_one-WellFormed crypto root block chain wf) in
          let grows' : Grows chain moved = subst (λ o. Grows chain o.0) e' grows in
          let added' : OnlyNew block chain.known moved.known =
            subst (Added block chain) e' step.added in
          let waiting' = All-imp _ queue (λ b h. grows'.known b.header.prev_blockhash h) waiting in
          let (wf₂, waiting₂, known, size) = enqueued queue moved wf' waiting' in
          let orphans : Map.size moved.orphans ≡ Map.size chain.orphans =
            ap Map.size grows'.orphans in
          connect_queue-Finished fuel (enqueue_ready_orphans queue moved).0
            (enqueue_ready_orphans queue moved).1 wf₂ waiting₂
            (rw known (Under-OnlyNew (suc fuel) block chain.known moved.known added' under))
            (omega arith))

  process_orphans-Finished :
      (chain : Chain)
      → WellFormed crypto root chain
      → Bounded chain
      → Under (suc max_orphan_blocks) chain.known
      → Finished (process_orphans crypto chain).1
  unfolding process_orphans
  process_orphans-Finished chain wf bounded under =
      let (wf', waiting, known, size) = enqueued [] chain wf tt in
      connect_queue-Finished (Map.size chain.orphans) (enqueue_ready_orphans [] chain).0
        (enqueue_ready_orphans [] chain).1 wf' waiting
        (rw known (λ id meta e. let b = under id meta e in omega arith)) (omega arith)

  -- Connecting a block ends, the orphans that it connects included: no loop runs out of fuel, if
  -- the chain is well formed, the pool of orphans is within its limit, and every known height
  -- leaves room for as many more as there may be orphans, and two.
  pub connect_block-Finished :
      (block : Block) (chain : Chain)
      → WellFormed crypto root chain
      → Bounded chain
      → Under (suc (suc max_orphan_blocks)) chain.known
      → Finished (connect_block crypto block chain).1
  unfolding connect_block pure
  connect_block-Finished block chain wf bounded under =
      let step = connect_one-Step block chain wf in
      Finished-after (connect_one crypto block chain) _
        (connect_one-Finished crypto root block chain wf
          (Low-Under (suc max_orphan_blocks) chain.known under))
        (λ outcome moved e.
          let wf' =
            ended_ok _ moved outcome e (connect_one-WellFormed crypto root block chain wf) in
          let added : OnlyNew block chain.known moved.known =
            subst (Added block chain) e step.added in
          let bounded' : Bounded moved =
            subst (λ o. Bounded o.0) e (connect_one-Bounded crypto block chain bounded) in
          Finished-branch (tip_moved crypto outcome)
            (after (process_orphans crypto moved) (λ done. pure outcome)) _
            (Finished-after (process_orphans crypto moved) (λ done. pure outcome)
              (process_orphans-Finished moved wf' bounded'
                (Under-OnlyNew (suc max_orphan_blocks) block chain.known moved.known added under))
              (λ done c e'. tt))
            tt)
