-- ===== src/Chain/Steps.antt =====
-- What the steps of crates/bitrst-core/src/chain.rs keep: orphans, clock, and the known blocks.
use bitrst.Base.{
  ℕ, zero, suc, ◌≡◌, refl, ◌∙◌, List, [], ◌∷◌, Option, none, some, Bool, true, false, if◌then◌else◌,
  Result, ok, err, if_pos, if_neg,
}
use bitrst.Base.Map
use bitrst.Base.Map.{Map, get-insert}
use bitrst.Base.Keys.{bytes_discrete, holds}
use bitrst.Crypto.{Primitives}
use bitrst.Block.Types.{Block}
use bitrst.Block.Encode.{hash}
use bitrst.Chain.Work.{ChainWork, at_most}
use bitrst.Chain.Types.{Chain, ChainError, BlockMeta, Fault, failed, panicked, out_of_fuel}
use bitrst.Chain.Reads.{found, tip_hash}
use bitrst.Chain.Action.{Action, after, ◌>>=◌, ◌>>◌, pure, lift, modify}
use bitrst.Chain.Attach.{
  publish, attach, detach, disconnect_found, take_off, disconnect, disconnect_tip_block,
}
use bitrst.Chain.Connect.{extend, keep_aside, switch, settle, settle_at, connect_to_parent}
use bitrst.Chain.Reorg.{
  unless, disconnect_until, parent_plus, reorg_along, path_work, connect_path_block, connect_path,
  try_reorg_to_block, restore, reorg_to_block,
}

-- The index never forgets a block.
abbrev Kept : Map (List ℕ) BlockMeta → Map (List ℕ) BlockMeta → Type 0
Kept before later =
    (id : List ℕ)
    → found (Map.get bytes_discrete id before) ≡ true
    → found (Map.get bytes_discrete id later) ≡ true

pub record Grows (before later : Chain) : Type 0 where
  pub orphans : later.orphans ≡ before.orphans
  pub receive_seq : later.orphan_receive_seq ≡ before.orphan_receive_seq
  pub time : later.network_time ≡ before.network_time
  pub known : Kept before.known later.known

pub Grows-refl : (chain : Chain) → Grows chain chain
Grows-refl chain = record { orphans = refl; receive_seq = refl; time = refl; known = λ id h. h }

pub Grows-trans : {a b c : Chain} → Grows a b → Grows b c → Grows a c
Grows-trans f g = record {
  orphans = g.orphans ∙ f.orphans;
  receive_seq = g.receive_seq ∙ f.receive_seq;
  time = g.time ∙ f.time;
  known = λ id h. g.known id (f.known id h);
}

-- An action whose every run grows the chain, whether it returns an error or not.
abbrev pub Growing : {A : Type 0} → Action A → Type 0
Growing action = (chain : Chain) → Grows chain (action chain).0

pub Grows-after :
    {A B : Type 0} (chain : Chain) (out : Chain × Result Fault A) (next : A → Action B)
    → Grows chain out.0
    → ((a : A) → out.1 ≡ ok a → Growing (next a))
    → Grows chain (after out next).0
Grows-after chain (moved, ok a) next h k = Grows-trans h (k a refl moved)
Grows-after chain (moved, err fault) next h k = h

pub Growing-lift : {A : Type 0} (result : Result Fault A) → Growing (lift result)
unfolding lift
Growing-lift result = Grows-refl

pub Growing-pure : {A : Type 0} (value : A) → Growing (pure value)
unfolding pure
Growing-pure value = Grows-refl

pub Growing-modify :
    (change : Chain → Chain)
    → ((chain : Chain) → Grows chain (change chain))
    → Growing (modify change)
unfolding modify
Growing-modify change h = h

pub Growing-bind :
    {A B : Type 0} (first : Action A) (next : A → Action B)
    → Growing first
    → ((a : A) → Growing (next a))
    → Growing (first >>= next)
unfolding ◌>>=◌
Growing-bind first next h k chain = Grows-after chain (first chain) next (h chain) (λ a e. k a)

pub Growing-then :
    {B : Type 0} (first : Action (Unit {0})) (next : Action B)
    → Growing first
    → Growing next
    → Growing (first >> next)
unfolding ◌>>◌
Growing-then first next h k chain = Grows-after chain (first chain) _ (h chain) (λ a e. k)

pub Grows-if :
    {A : Type 0} (chain : Chain) (b : Bool) (x y : Chain × Result Fault A)
    → Grows chain x.0
    → Grows chain y.0
    → Grows chain (if b then x else y).0
Grows-if chain true x y h k = h
Grows-if chain false x y h k = k

pub Growing-unless :
    {P A : Type 0} (d : Dec P) (value : A) (more : Action A)
    → Growing more
    → Growing (unless d value more)
Growing-unless (yes p) value more h = Growing-pure value
Growing-unless (no p) value more h = h

pub Kept-insert :
    (id : List ℕ) (meta : BlockMeta) (known : Map (List ℕ) BlockMeta)
    → Kept known (Map.insert bytes_discrete id meta known)
Kept-insert id meta known q h =
    rw (get-insert bytes_discrete id q meta known)
      (elim (bytes_discrete id q) [ yes p ↦ rw (if_pos _ p) refl | no p ↦ rw (if_neg _ p) h ])

restore-Grows :
    (chain : Chain) (out : Chain × Result Fault ℕ)
    → Grows chain out.0
    → Grows chain (restore chain out).0
unfolding restore
restore-Grows chain (moved, ok n) h = h
restore-Grows chain (moved, err panicked) h = h
restore-Grows chain (moved, err out_of_fuel) h = h
restore-Grows chain (moved, err (failed e)) h = record {
  orphans = h.orphans;
  receive_seq = h.receive_seq;
  time = h.time;
  known = h.known;
}

module _ (crypto : Primitives) where
  attach-Grows :
      (block : Block) (at : ℕ) (work : ChainWork) (chain : Chain)
      → Grows chain (attach crypto block at work chain)
  unfolding attach publish
  attach-Grows block at work chain = record {
    orphans = refl;
    receive_seq = refl;
    time = refl;
    known = Kept-insert (hash crypto block) _ chain.known;
  }

  pub attach-Growing :
      (block : Block) (at : ℕ) (work : ChainWork) → Growing (modify (attach crypto block at work))
  attach-Growing block at work = Growing-modify _ (attach-Grows block at work)

  disconnect_found-Growing :
      (block : Block) (meta : Option BlockMeta) → Growing (disconnect_found crypto block meta)
  unfolding detach
  disconnect_found-Growing block none chain = Grows-refl chain
  disconnect_found-Growing block (some meta) chain = record {
    orphans = refl;
    receive_seq = refl;
    time = refl;
    known = λ id h. h;
  }

  disconnect-Growing : (blocks : List Block) → Growing (disconnect crypto blocks)
  disconnect-Growing [] chain = Grows-refl chain
  disconnect-Growing (block ∷ blocks) chain =
      let g =
        disconnect_found-Growing block (Map.get bytes_discrete (hash crypto block) chain.known)
          (take_off crypto block blocks chain) in
      record { orphans = g.orphans; receive_seq = g.receive_seq; time = g.time; known = g.known }

  pub disconnect_tip_block-Growing : Growing (disconnect_tip_block crypto)
  unfolding disconnect_tip_block
  disconnect_tip_block-Growing chain = disconnect-Growing chain.blocks chain

  disconnect_until-Growing :
      (fuel : ℕ) (fork : List ℕ) (count : ℕ) → Growing (disconnect_until crypto fuel fork count)
  unfolding disconnect_until
  disconnect_until-Growing zero fork count chain =
      Growing-unless (bytes_discrete (tip_hash crypto chain) fork) count _ (Growing-lift _) chain
  disconnect_until-Growing (suc fuel) fork count chain =
      Growing-unless (bytes_discrete (tip_hash crypto chain) fork) count _
        (Growing-then _ _ disconnect_tip_block-Growing (disconnect_until-Growing fuel fork _)) chain

  parent_plus-Growing :
      (block : Block) (work : Result ChainError ChainWork) → Growing (parent_plus crypto block work)
  parent_plus-Growing block (ok work) chain = Grows-refl chain
  parent_plus-Growing block (err e) chain = record {
    orphans = refl;
    receive_seq = refl;
    time = refl;
    known = λ id h. h;
  }

  connect_path_block-Growing : (block : Block) → Growing (connect_path_block crypto block)
  unfolding connect_path_block path_work
  connect_path_block-Growing block chain =
      Growing-then _ _ (Growing-lift _)
        (Growing-bind _ _ (parent_plus-Growing block _) (λ work. attach-Growing block _ work)) chain

  connect_path-Growing : (path : List Block) → Growing (connect_path crypto path)
  unfolding connect_path
  connect_path-Growing [] = Growing-pure _
  connect_path-Growing (block ∷ path) =
      Growing-then _ _ (connect_path_block-Growing block) (connect_path-Growing path)

  try_reorg_to_block-Growing :
      (path : List Block) (fork : List ℕ) (work : ChainWork)
      → Growing (try_reorg_to_block crypto path fork work)
  unfolding try_reorg_to_block
  try_reorg_to_block-Growing path fork work chain =
      Growing-bind _ _ (Growing-lift _)
        (λ at. Growing-bind _ _ (disconnect_until-Growing _ fork 0) (λ n.
          Growing-then _ _ (connect_path-Growing path) (
            Growing-then _ _
              (Growing-modify _ (λ c. record {
                orphans = refl;
                receive_seq = refl;
                time = refl;
                known = λ id h. h;
              }))
              (Growing-pure _))))
        chain

  reorg_along-Growing :
      (work : ChainWork) (path : Result Fault (List Block × List ℕ))
      → Growing (reorg_along crypto work path)
  reorg_along-Growing work (err fault) chain = Grows-refl chain
  reorg_along-Growing work (ok (path, fork)) chain =
      restore-Grows chain _ (try_reorg_to_block-Growing path fork work chain)

  pub reorg_to_block-Growing :
      (block : Block) (work : ChainWork) → Growing (reorg_to_block crypto block work)
  unfolding reorg_to_block
  reorg_to_block-Growing block work chain = reorg_along-Growing work _ chain

  settle-Growing :
      (block : Block) (at : ℕ) (work : ChainWork) → Growing (settle crypto block at work)
  unfolding settle extend keep_aside switch publish
  settle-Growing block at work chain =
      Grows-if chain (holds (bytes_discrete block.header.prev_blockhash (tip_hash crypto chain))) _
        _
        (let g = attach-Grows block at work chain in
          record {
            orphans = g.orphans;
            receive_seq = g.receive_seq;
            time = g.time;
            known = g.known;
          })
        (Grows-if chain (at_most work chain.total_work) _ _
          record {
            orphans = refl;
            receive_seq = refl;
            time = refl;
            known = Kept-insert (hash crypto block) _ chain.known;
          }
          (Grows-after chain (reorg_to_block crypto block work chain) _
            (reorg_to_block-Growing block work chain)
            (λ depth e c. record {
              orphans = refl;
              receive_seq = refl;
              time = refl;
              known = λ id h. h;
            })))

  settle_at-Growing :
      (block : Block) (place : Result Fault (ℕ × ChainWork))
      → Growing (settle_at crypto block place)
  settle_at-Growing block (err fault) chain = Grows-refl chain
  settle_at-Growing block (ok (at, work)) chain = settle-Growing block at work chain

  -- What a block does whose parent is known.
  pub connect_to_parent-Growing :
      (block : Block) (parent : BlockMeta) → Growing (connect_to_parent crypto block (some parent))
  unfolding connect_to_parent
  connect_to_parent-Growing block parent chain = settle_at-Growing block _ chain
