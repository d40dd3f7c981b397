-- ===== src/Chain/Undo.antt =====
-- The tip of crates/bitrst-core/src/chain.rs on and off the active chain.
use bitrst.Base.{
  ℕ, ◌≡◌, refl, sym, ap, ◌∙◌, List, [], ◌∷◌, Option, none, some, if_pos, ite, if◌then◌else◌, Result,
  ok,
}
use bitrst.Base.Map
use bitrst.Base.Map.{get-insert, get-remove}
use bitrst.Base.Keys.{bytes_discrete}
use bitrst.Crypto.{Primitives}
use bitrst.Block.Types.{Block}
use bitrst.Block.Encode.{hash}
use bitrst.Transaction.Types.{Transaction}
use bitrst.Utxo.Types.{OutPoint, UtxoSet, TxUndo, get}
use bitrst.Utxo.Apply.{apply_transaction, disconnect_undo}
use bitrst.Utxo.Undo.{
  IsFresh, among, or_else, last_of, get-disconnect_undo, disconnect_undo-apply_transaction,
}
use bitrst.Chain.Work.{ChainWork}
use bitrst.Chain.Types.{Chain, BlockMeta, Fault}
use bitrst.Chain.Attach.{
  publish, apply_all, attach, undo_all, tip_work, detach, disconnect_found, disconnect_tip_block,
  take_off,
}

-- The undo of a transaction sees no more of the set than its lookups.
disconnect_undo-cong :
    (a b : UtxoSet) (undo : TxUndo)
    → ((q : OutPoint) → get a q ≡ get b q)
    → (q : OutPoint) → get (disconnect_undo a undo) q ≡ get (disconnect_undo b undo) q
disconnect_undo-cong a b undo h q =
    get-disconnect_undo q a undo
    ∙ ap (λ found. or_else (last_of q undo.removed) (if among q undo.created then none else found))
        (h q)
    ∙ sym (get-disconnect_undo q b undo)

put_and_taken :
    {P : Type 0} (d : Dec P) (v : Option (Unit {0}))
    → (P → v ≡ none)
    → ite d none (ite d (some tt) v) ≡ v
put_and_taken (yes p) v h = sym (h p)
put_and_taken (no p) v h = refl

module _ (crypto : Primitives) where
  -- No transaction creates an output that is unspent already when its turn comes.
  abbrev pub AllFresh : UtxoSet → List Transaction → Type 0
  AllFresh set [] = Unit
  AllFresh set (tx ∷ txs) = IsFresh crypto set tx × AllFresh (apply_transaction crypto set tx).0 txs

  -- A block's transactions taken back, the last first, leave every outpoint with what it held
  -- before them, if none of them created an output that was unspent already.
  pub undo_all-apply_all :
      (txs : List Transaction) (set : UtxoSet)
      → AllFresh set txs
      → (q : OutPoint)
      → get (undo_all crypto (apply_all crypto txs set).1 (apply_all crypto txs set).0) q
        ≡ get set q
  unfolding undo_all apply_all
  undo_all-apply_all [] set fresh q = refl
  undo_all-apply_all (tx ∷ txs) set (fresh, more) q =
      disconnect_undo-cong _ (apply_transaction crypto set tx).0 (apply_transaction crypto set tx).1
        (undo_all-apply_all txs (apply_transaction crypto set tx).0 more) q
      ∙ disconnect_undo-apply_transaction crypto set tx fresh q

  -- What comes of taking the tip off, against the chain before the tip was put on.
  pub record Undone (before : Chain) (out : Chain × Result Fault (Unit {0})) : Type 0 where
    pub succeeds : out.1 ≡ ok tt
    pub blocks : out.0.blocks ≡ before.blocks
    pub active :
        (id : List ℕ)
        → Map.get bytes_discrete id out.0.active_hashes
          ≡ Map.get bytes_discrete id before.active_hashes
    pub unspent : (q : OutPoint) → get out.0.utxo q ≡ get before.utxo q
    pub total_work : out.0.total_work ≡ tip_work crypto before.blocks out.0.known

  attached : Block → ℕ → ChainWork → Chain → BlockMeta
  attached block at work chain = record {
    block = block;
    height = at;
    work = work;
    undo = (apply_all crypto block.transactions chain.utxo).1;
  }

  -- The lookup of the tip's metadata, whatever it is found by.
  disconnect-Undone :
      (block : Block) (at : ℕ) (work : ChainWork) (chain : Chain) (found : Option BlockMeta)
      → found ≡ some (attached block at work chain)
      → AllFresh chain.utxo block.transactions
      → Map.get bytes_discrete (hash crypto block) chain.active_hashes ≡ none
      → Undone chain (
          disconnect_found crypto block found
            (take_off crypto block chain.blocks (attach crypto block at work chain)))
  unfolding attach attached detach publish
  disconnect-Undone block at work chain found e fresh inactive = rw e (record {
    succeeds = refl;
    blocks = refl;
    active = λ id.
        get-remove bytes_discrete (hash crypto block) id
          (Map.insert bytes_discrete (hash crypto block) tt chain.active_hashes)
        ∙ rw (get-insert bytes_discrete (hash crypto block) id tt chain.active_hashes) (
            put_and_taken (bytes_discrete (hash crypto block) id) _
              (λ p. ap (λ q. Map.get bytes_discrete q chain.active_hashes) (sym p) ∙ inactive));
    unspent = undo_all-apply_all block.transactions chain.utxo fresh;
    total_work = refl;
  })

  -- Taking off a block that has just been put on the active chain succeeds and gives back the
  -- active blocks, the active hashes and the unspent outputs; the total work is that of the block
  -- below in the index. The hash of the block was not active, and none of its transactions created
  -- an output that was unspent already.
  pub disconnect_tip_block-attach :
      (block : Block) (at : ℕ) (work : ChainWork) (chain : Chain)
      → AllFresh chain.utxo block.transactions
      → Map.get bytes_discrete (hash crypto block) chain.active_hashes ≡ none
      → Undone chain (disconnect_tip_block crypto (attach crypto block at work chain))
  unfolding disconnect_tip_block attach publish attached
  disconnect_tip_block-attach block at work chain fresh inactive =
      disconnect-Undone block at work chain _
        (get-insert bytes_discrete (hash crypto block) (hash crypto block)
            (attached block at work chain) chain.known
          ∙ if_pos (bytes_discrete (hash crypto block) (hash crypto block)) refl _ _)
        fresh inactive
