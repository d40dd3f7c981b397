-- ===== src/Chain/WellFormed.antt =====
-- The invariant of crates/bitrst-core/src/chain.rs over the methods that connect blocks.
use bitrst.Base.{
  ℕ, zero, suc, ◌+◌, ◌-◌, ◌%◌, ◌^◌, ◌≤◌, ◌≡◌, ◌≢◌, ◌⊎◌, refl, sym, ap, subst, ◌∙◌, List, [], ◌∷◌,
  length, Option, none, some, ok_or, inl, inr, Bool, true, false, if◌then◌else◌, ◌||◌, reject_if,
  leb, Result, ok, err, Bool-cases, Option-cases, Result-cases, >>=-eq-ok, arith,
}
use bitrst.Base
use bitrst.Base.Map
use bitrst.Base.Keys.{bytes_discrete, holds}
use bitrst.Crypto.{Primitives}
use bitrst.Limits.{max_orphan_blocks}
use bitrst.Block.Types.{Block}
use bitrst.Block.Encode.{hash}
use bitrst.Chain.Work.{ChainWork, add, at_most}
use bitrst.Chain.Types.{
  Chain, BlockMeta, ChainError, ConnectResult, Fault, failed, panicked, out_of_fuel, block_work,
}
use bitrst.Chain.Validate.{validate_block_limits}
use bitrst.Chain.Header.{returned, validate_block_for_parent}
use bitrst.Chain.Reads.{found, tip_hash, has_block_hash}
use bitrst.Chain.Action.{Action, lift, pure, ◌>>◌, after}
use bitrst.Chain.Attach.{publish}
use bitrst.Chain.Reorg.{reorg_to_block}
use bitrst.Chain.Orphans.{oldest_orphan, evict_oldest_orphan, insert_orphan, enqueue_ready_orphans}
use bitrst.Chain.Connect.{
  place, extend, keep_aside, switch, settle, settle_at, connect_to_parent, check_new, connect_one,
  connect_queue, process_orphans, connect_block, tip_moved,
}
use bitrst.Chain.Index.{Known, find, insert-Indexed, insert-Extends}
use bitrst.Chain.Active.{WellFormed, Stacked, Stacked-Extends, Fits, attach-WellFormed, Fits-Enters}
use bitrst.Chain.Reorged.{Ends, Ends-stay, reorg_to_block-Ends}

module _ (crypto : Primitives) (root : List ℕ) where
  -- The first block is in the index.
  root_known :
      (known : Known) (bs : List Block)
      → Stacked crypto root known bs
      → (meta : BlockMeta) × (find root known ≡ some meta)
  root_known known [] h = absurd (ground arith)
  root_known known (b ∷ []) (first, (m, e, same, at)) = (m, ap (λ k. find k known) (sym first) ∙ e)
  root_known known (b ∷ c ∷ bs) (on, above, stands, rest) = root_known known (c ∷ bs) rest

  -- A block that is not in the index is not the first one.
  pub new-above :
      (block : Block) (chain : Chain)
      → WellFormed crypto root chain
      → find (hash crypto block) chain.known ≡ none
      → hash crypto block ≢ root
  new-above block chain wf unknown same =
      let (m, e) = root_known chain.known chain.blocks wf.stack in
      let e' : find (hash crypto block) chain.known ≡ some m =
        ap (λ k. find k chain.known) same ∙ e in
      ground arith

  pub extend-WellFormed :
      (block : Block) (at : ℕ) (work : ChainWork) (parent : BlockMeta) (chain : Chain)
      → WellFormed crypto root chain
      → find (hash crypto block) chain.known ≡ none
      → Fits crypto root chain.known block at work parent
      → block.header.prev_blockhash ≡ tip_hash crypto chain
      → Ends crypto root (extend crypto block at work chain)
  unfolding extend
  extend-WellFormed block at work parent chain wf unknown fits on =
      let (wf', more, way) =
        attach-WellFormed crypto root block at work parent chain wf on fits
          (new-above block chain wf unknown) (inl unknown) in
      record { index = wf'.index; stack = wf'.stack; active = wf'.active; rooted = wf'.rooted }

  pub keep_aside-WellFormed :
      (block : Block) (at : ℕ) (work : ChainWork) (parent : BlockMeta) (chain : Chain)
      → WellFormed crypto root chain
      → find (hash crypto block) chain.known ≡ none
      → Fits crypto root chain.known block at work parent
      → Ends crypto root (keep_aside crypto block at work chain)
  unfolding keep_aside
  keep_aside-WellFormed block at work parent chain wf unknown fits =
      let meta : BlockMeta = record { block = block; height = at; work = work; undo = [] } in
      let way =
        Fits-Enters crypto root chain.known parent meta wf.index fits
          (new-above block chain wf unknown) (inl unknown) in
      record {
        index = insert-Indexed crypto root (hash crypto block) meta chain.known wf.index refl way;
        stack =
            Stacked-Extends crypto root chain.known _ chain.blocks
              (insert-Extends (hash crypto block) meta chain.known way) wf.stack;
        active = wf.active;
        rooted = wf.rooted;
      }

  Ends-fault :
      {A : Type 0} (B : Type 0) (out : Chain × Result Fault A) (chain : Chain) (fault : Fault)
      → out ≡ (chain, err fault)
      → Ends crypto root out
      → Ends crypto root {A = B} (chain, err fault)
  Ends-fault B out chain (failed e) same h = subst (Ends crypto root) same h
  Ends-fault B out chain panicked same h = tt
  Ends-fault B out chain out_of_fuel same h = tt

  Ends-after :
      {A B : Type 0} (out : Chain × Result Fault A) (next : A → Action B)
      → Ends crypto root out
      → ((a : A) (c : Chain)
          → out ≡ (c, ok a)
          → WellFormed crypto root c
          → Ends crypto root (next a c))
      → Ends crypto root (after out next)
  Ends-after {A = A} {B = B} (c, ok a) next h k = k a c refl h
  Ends-after {A = A} {B = B} (c, err fault) next h k =
      Ends-fault {A = A} B (c, err fault) c fault refl h

  Ends-if :
      {A : Type 0} (b : Bool) (x y : Chain × Result Fault A)
      → (b ≡ true → Ends crypto root x)
      → (b ≡ false → Ends crypto root y)
      → Ends crypto root (if b then x else y)
  Ends-if true x y h k = h refl
  Ends-if false x y h k = k refl

  switch-WellFormed :
      (block : Block) (work : ChainWork) (chain : Chain)
      → WellFormed crypto root chain
      → find (hash crypto block) chain.known ≡ none
      → Ends crypto root (switch crypto block work chain)
  unfolding switch publish
  switch-WellFormed block work chain wf unknown =
      Ends-after (reorg_to_block crypto block work chain) _
        (reorg_to_block-Ends crypto root block work chain wf unknown
          (new-above block chain wf unknown))
        (λ depth c e wf'. record {
          index = wf'.index;
          stack = wf'.stack;
          active = wf'.active;
          rooted = wf'.rooted;
        })

  pub holds-yes : {P : Type 0} (d : Dec P) → holds d ≡ true → P
  holds-yes (yes p) h = p
  holds-yes (no p) h = absurd (ground arith)

  settle-WellFormed :
      (block : Block) (at : ℕ) (work : ChainWork) (parent : BlockMeta) (chain : Chain)
      → WellFormed crypto root chain
      → find (hash crypto block) chain.known ≡ none
      → Fits crypto root chain.known block at work parent
      → Ends crypto root (settle crypto block at work chain)
  unfolding settle
  settle-WellFormed block at work parent chain wf unknown fits =
      Ends-if (holds (bytes_discrete block.header.prev_blockhash (tip_hash crypto chain)))
        (extend crypto block at work chain) _
        (λ e. extend-WellFormed block at work parent chain wf unknown fits (holds-yes _ e))
        (λ e.
          Ends-if (at_most work chain.total_work) (keep_aside crypto block at work chain)
            (switch crypto block work chain)
            (λ e'. keep_aside-WellFormed block at work parent chain wf unknown fits)
            (λ e'. switch-WellFormed block work chain wf unknown))

  pub returned-ok : {A : Type 0} (r : Result ChainError A) (a : A) → returned r ≡ ok a → r ≡ ok a
  returned-ok (ok x) a e = ground arith
  returned-ok (err x) a e = absurd (ground arith)

  place_parts :
      (valid : Result Fault (Unit {0})) (worked : Result ChainError ChainWork) (at : ℕ)
      (below : ChainWork) (spot : ℕ) (work : ChainWork)
      → Base.◌>>◌ {B = ℕ × ChainWork} valid
          (Base.◌>>=◌ {B = ℕ × ChainWork} (returned worked) (λ own. ok (at, add below own)))
        ≡ ok (spot, work)
      → (own : ChainWork) × (worked ≡ ok own) × (spot ≡ at) × (work ≡ add below own)
  place_parts (ok done) (ok own) at below spot work e =
      (own, refl, ap first_of (sym e), ap second_of (sym e))
    where
      first_of : Result Fault (ℕ × ChainWork) → ℕ
      first_of (ok (a, b)) = a
      first_of (err fault) = 0

      second_of : Result Fault (ℕ × ChainWork) → ChainWork
      second_of (ok (a, b)) = b
      second_of (err fault) = below
  place_parts (ok done) (err f) at below spot work e = absurd (ground arith)
  place_parts (err f) worked at below spot work e = absurd (ground arith)

  -- The place of a block whose parent is in the index.
  pub place-Fits :
      (block : Block) (parent : BlockMeta) (chain : Chain) (at : ℕ) (work : ChainWork)
      → find block.header.prev_blockhash chain.known ≡ some parent
      → place crypto block parent chain ≡ ok (at, work)
      → Fits crypto root chain.known block at work parent
  unfolding place
  place-Fits block parent chain at work below e =
      let (own, own_work, height, total) =
        place_parts
          (validate_block_for_parent crypto block (some parent.block)
            (some block.header.prev_blockhash) ((parent.height + 1) % 2 ^ 32) chain)
          (block_work block.header.bits) ((parent.height + 1) % 2 ^ 32) parent.work at work e in
      record { below = below; height = height; own = own; own_work = own_work; total = total }

  settle_at-WellFormed :
      (block : Block) (parent : BlockMeta) (chain : Chain) (placed : Result Fault (ℕ × ChainWork))
      → WellFormed crypto root chain
      → find (hash crypto block) chain.known ≡ none
      → find block.header.prev_blockhash chain.known ≡ some parent
      → place crypto block parent chain ≡ placed
      → Ends crypto root (settle_at crypto block placed chain)
  settle_at-WellFormed block parent chain (err fault) wf unknown below e =
      Ends-stay crypto root ConnectResult chain fault wf
  settle_at-WellFormed block parent chain (ok (at, work)) wf unknown below e =
      settle-WellFormed block at work parent chain wf unknown
        (place-Fits block parent chain at work below e)

  -- An orphan changes neither the index nor the active chain.
  insert_orphan-untouched :
      (block : Block) (chain : Chain)
      → let later = insert_orphan crypto block chain in
        (later.known ≡ chain.known)
        × (later.blocks ≡ chain.blocks)
        × (later.total_work ≡ chain.total_work)
        × (later.active_hashes ≡ chain.active_hashes)
  unfolding insert_orphan evict_oldest_orphan publish
  insert_orphan-untouched block chain =
      elim (Bool-cases (leb max_orphan_blocks (Map.size chain.orphans))) [
        | inl full ↦ elim (Option-cases (oldest_orphan chain.orphans)) [
          | inl none_ ↦ rw (full, none_) (refl, refl, refl, refl)
          | inr ((id, entry), some_) ↦ rw (full, some_) (refl, refl, refl, refl)
        ]
        | inr room ↦ rw room (refl, refl, refl, refl)
      ]

  pub insert_orphan-same :
      (block : Block) (chain : Chain)
      → let later = insert_orphan crypto block chain in
        (later.known ≡ chain.known)
        × (later.blocks ≡ chain.blocks)
        × (later.total_work ≡ chain.total_work)
  insert_orphan-same block chain =
      let (known, blocks, total, active) = insert_orphan-untouched block chain in
      (known, blocks, total)

  pub insert_orphan-parts :
      (block : Block) (chain : Chain)
      → WellFormed crypto root chain
      → WellFormed crypto root (insert_orphan crypto block chain)
  insert_orphan-parts block chain wf =
      let (known, blocks, total, active) = insert_orphan-untouched block chain in
      rw (known, blocks, active) wf

  connect_to_parent-WellFormed :
      (block : Block) (parent : Option BlockMeta) (chain : Chain)
      → WellFormed crypto root chain
      → find (hash crypto block) chain.known ≡ none
      → find block.header.prev_blockhash chain.known ≡ parent
      → Ends crypto root (connect_to_parent crypto block parent chain)
  unfolding connect_to_parent
  connect_to_parent-WellFormed block none chain wf unknown e = insert_orphan-parts block chain wf
  connect_to_parent-WellFormed block (some parent) chain wf unknown e =
      settle_at-WellFormed block parent chain _ wf unknown e refl

  reject-unknown :
      (limits : Result Fault (Unit {0})) (known : Option BlockMeta) (orphan : Bool) (e : Fault)
      → Base.◌>>◌ limits (reject_if (found known || orphan) e) ≡ ok tt
      → known ≡ none
  reject-unknown (ok done) none orphan e h = refl
  reject-unknown (ok done) (some m) orphan e h = absurd (ground arith)
  reject-unknown (err f) known orphan e h = absurd (ground arith)

  pub check_new-unknown :
      (block : Block) (chain : Chain)
      → check_new crypto block chain ≡ ok tt
      → find (hash crypto block) chain.known ≡ none
  unfolding check_new has_block_hash
  check_new-unknown block chain e =
      reject-unknown (returned (validate_block_limits block)) _
        (found (Map.get bytes_discrete (hash crypto block) chain.orphans)) _ e

  connect_one-checked :
      (block : Block) (chain : Chain) (check : Result Fault (Unit {0}))
      → WellFormed crypto root chain
      → check_new crypto block chain ≡ check
      → Ends crypto root (
          (lift check
              >> connect_to_parent crypto block (find block.header.prev_blockhash chain.known))
            chain)
  unfolding lift ◌>>◌
  connect_one-checked block chain (ok done) wf e =
      connect_to_parent-WellFormed block _ chain wf (check_new-unknown block chain e) refl
  connect_one-checked block chain (err fault) wf e =
      Ends-stay crypto root ConnectResult chain fault wf

  pub connect_one-WellFormed :
      (block : Block) (chain : Chain)
      → WellFormed crypto root chain
      → Ends crypto root (connect_one crypto block chain)
  unfolding connect_one
  connect_one-WellFormed block chain wf = connect_one-checked block chain _ wf refl

  connect_queue-WellFormed :
      (fuel : ℕ) (queue : List Block) (chain : Chain)
      → WellFormed crypto root chain
      → Ends crypto root (connect_queue crypto fuel queue chain)
  unfolding connect_queue enqueue_ready_orphans
  connect_queue-WellFormed zero [] chain wf = wf
  connect_queue-WellFormed (suc fuel) [] chain wf = wf
  connect_queue-WellFormed zero (block ∷ queue) chain wf = tt
  connect_queue-WellFormed (suc fuel) (block ∷ queue) chain wf =
      Ends-after (connect_one crypto block chain) _ (connect_one-WellFormed block chain wf)
        (λ outcome moved e wf'.
          connect_queue-WellFormed fuel (enqueue_ready_orphans queue moved).0
            (enqueue_ready_orphans queue moved).1
            (record {
              index = wf'.index;
              stack = wf'.stack;
              active = wf'.active;
              rooted = wf'.rooted;
            }))

  process_orphans-WellFormed :
      (chain : Chain)
      → WellFormed crypto root chain
      → Ends crypto root (process_orphans crypto chain)
  unfolding process_orphans enqueue_ready_orphans
  process_orphans-WellFormed chain wf =
      connect_queue-WellFormed (Map.size chain.orphans) (enqueue_ready_orphans [] chain).0
        (enqueue_ready_orphans [] chain).1
        (record { index = wf.index; stack = wf.stack; active = wf.active; rooted = wf.rooted })

  -- Connecting a block ends on a well-formed chain, whether it succeeds or returns an error: every
  -- known block but the first stands in the index one height above its parent and with its
  -- parent's work and its own, the active blocks are linked down to the first, each with its
  -- height in the index, and every active hash is that of one of them.
  pub connect_block-WellFormed :
      (block : Block) (chain : Chain)
      → WellFormed crypto root chain
      → Ends crypto root (connect_block crypto block chain)
  unfolding connect_block pure
  connect_block-WellFormed block chain wf =
      Ends-after (connect_one crypto block chain) _ (connect_one-WellFormed block chain wf)
        (λ outcome moved e wf'.
          Ends-if (tip_moved crypto outcome)
            (after (process_orphans crypto moved) (λ done. pure outcome)) _
            (λ t.
              Ends-after (process_orphans crypto moved) (λ done. pure outcome)
                (process_orphans-WellFormed moved wf') (λ done c e' w. w))
            (λ f. wf'))
