-- ===== src/Chain/Genesis.antt =====
-- The chain that `new_genesis` of crates/bitrst-core/src/chain.rs starts.
use bitrst.Base
use bitrst.Base.{
  ℕ, ◌≤◌, ◌≡◌, ◌⊎◌, refl, sym, ap, subst, ◌∙◌, List, [], ◌∷◌, Option, none, some, false, inl, inr,
  true, Result, ok, err, if_pos, reject_if, ◌==◌, arith,
}
use bitrst.Base.Map
use bitrst.Base.Map.{get-insert}
use bitrst.Base.Keys.{bytes_discrete}
use bitrst.Crypto.{Primitives}
use bitrst.Block.Types.{Block}
use bitrst.Block.Encode.{hash}
use bitrst.Journal.Log.{ChainEventJournal}
use bitrst.Journal.Disconnected.{DisconnectedBlockJournal}
use bitrst.Chain.Work.{ChainWork}
use bitrst.Chain.Types.{Chain, Fault, failed, block_work}
use bitrst.Chain.Types
use bitrst.Chain.Validate.{validate_block_limits}
use bitrst.Chain.Header.{returned, validate_block_for_parent}
use bitrst.Chain.Attach.{publish, attach}
use bitrst.Chain.Connect.{blank, start}
use bitrst.Chain.Index.{find, find-insert_self, entry-cases}
use bitrst.Chain.Weight.{IsWork, value, block_work-IsWork}
use bitrst.Chain.WellFormed.{returned-ok}
use bitrst.Chain.Heaviest.{Heaviest}
use bitrst.Chain.Active.{IsActive, WellFormed, entry_for, insert-active}

-- A chain of checks that succeeds.
all_passed :
    (a b c : Result Fault (Unit {0})) (w : Result Fault ChainWork) (make : ChainWork → Chain)
    (chain : Chain)
    → Base.◌>>◌ {B = Chain} a (
        Base.◌>>◌ {B = Chain} b
          (Base.◌>>◌ {B = Chain} c (Base.◌>>=◌ {B = Chain} w (λ work. ok (make work)))))
      ≡ ok chain
    → (work : ChainWork) × (w ≡ ok work) × (make work ≡ chain)
all_passed (ok x) (ok y) (ok z) (ok work) make chain e = (work, refl, ground arith)
all_passed (ok x) (ok y) (ok z) (err f) make chain e = absurd (ground arith)
all_passed (ok x) (ok y) (err f) w make chain e = absurd (ground arith)
all_passed (ok x) (err f) c w make chain e = absurd (ground arith)
all_passed (err f) b c w make chain e = absurd (ground arith)

pub none_found : (id : List ℕ) (m : Types.BlockMeta) → ¬ (find id [] ≡ some m)
unfolding Map.get
none_found id m h = ground arith

none_active : (id : List ℕ) → IsActive id [] → true ≡ false
unfolding Map.get
none_active id h = absurd (ground arith)

module _ (crypto : Primitives) (genesis : Block) where
  pub attach-blank :
      (time : ℕ) (events : ChainEventJournal) (disconnected : DisconnectedBlockJournal)
      (work : ChainWork)
      → WellFormed crypto
          (hash crypto genesis)
          (record (attach crypto genesis 0 work (blank crypto time events disconnected)) {
            total_work = work;
          })
  unfolding attach publish
  attach-blank time events disconnected work =
      let empty = blank crypto time events disconnected in
      let meta = entry_for crypto (hash crypto genesis) genesis 0 work empty in
      record {
        index = record {
          keyed = λ id m h. elim (entry-cases (hash crypto genesis) id meta m [] h) [
            | inl (at, same) ↦ ap (λ (x : Types.BlockMeta). hash crypto x.block) (sym same) ∙ at
            | inr old ↦ absurd (none_found id m old)
          ];
          parent = λ id m h. elim (entry-cases (hash crypto genesis) id meta m [] h) [
            | inl (at, same) ↦ inl (sym at)
            | inr old ↦ absurd (none_found id m old)
          ];
        };
        stack = (refl, (meta, find-insert_self (hash crypto genesis) meta [], refl, refl));
        active = insert-active crypto (hash crypto genesis) genesis [] [] none_active;
        rooted =
            rw (get-insert bytes_discrete (hash crypto genesis) (hash crypto genesis) tt [])
              (rw (if_pos (bytes_discrete (hash crypto genesis) (hash crypto genesis)) refl) refl);
      }

  attach-blank-Heaviest :
      (time : ℕ) (events : ChainEventJournal) (disconnected : DisconnectedBlockJournal)
      (work : ChainWork)
      → IsWork work
      → Heaviest crypto
          (hash crypto genesis)
          (record (attach crypto genesis 0 work (blank crypto time events disconnected)) {
            total_work = work;
          })
  unfolding attach publish
  attach-blank-Heaviest time events disconnected work is_work =
      let empty = blank crypto time events disconnected in
      let meta = entry_for crypto (hash crypto genesis) genesis 0 work empty in
      record {
        well_formed = attach-blank time events disconnected work;
        tip = meta;
        tip_found = find-insert_self (hash crypto genesis) meta [];
        tip_total = refl;
        works = λ id m h. elim (entry-cases (hash crypto genesis) id meta m [] h) [
          | inl (at, same) ↦ subst (λ (x : Types.BlockMeta). IsWork x.work) same is_work
          | inr old ↦ absurd (none_found id m old)
        ];
        best = λ id m h. elim (entry-cases (hash crypto genesis) id meta m [] h) [
          | inl (at, same) ↦
              subst (λ (x : Types.BlockMeta). value x.work ≤ value work) same (omega arith)
          | inr old ↦ absurd (none_found id m old)
        ];
      }

  -- A chain that is started with a valid first block is well formed above that block, and its
  -- total work is that of the block.
  pub start-Heaviest :
      (time : ℕ) (events : ChainEventJournal) (disconnected : DisconnectedBlockJournal)
      (chain : Chain)
      → start crypto genesis time events disconnected ≡ ok chain
      → Heaviest crypto (hash crypto genesis) chain
        × (block_work genesis.header.bits ≡ ok chain.total_work)
  unfolding start
  start-Heaviest time events disconnected chain e =
      let (work, worked, made) =
        all_passed (reject_if (time == 0) (failed Types.invalid_network_time))
          (returned (validate_block_limits genesis))
          (validate_block_for_parent crypto genesis none none 0
            (blank crypto time events disconnected))
          (returned (block_work genesis.header.bits)) _ chain e in
      let own = returned-ok crypto (hash crypto genesis) _ work worked in
      let is_work = block_work-IsWork genesis.header.bits work own in
      (
        subst (Heaviest crypto (hash crypto genesis)) made
            (attach-blank-Heaviest time events disconnected work is_work),
        own ∙ ap ok (ap (λ (c : Chain). c.total_work) made),
      )
