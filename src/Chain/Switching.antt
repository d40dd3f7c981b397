-- ===== src/Chain/Switching.antt =====
-- A reorganization of crates/bitrst-core/src/chain.rs on a well-formed chain.
use bitrst.Base.{
  ℕ, zero, suc, ◌≤◌, ◌≡◌, ◌≢◌, ◌⊎◌, refl, sym, ap, subst, ◌∙◌, List, [], ◌∷◌, length, none, inl,
  inr, Result, ok, err, arith,
}
use bitrst.Base.Keys.{bytes_discrete}
use bitrst.Crypto.{Primitives}
use bitrst.Block.Types.{Block}
use bitrst.Block.Encode.{hash}
use bitrst.Chain.Types.{Chain, Fault}
use bitrst.Chain.Reads.{tip_hash, hash_of_tip}
use bitrst.Chain.Action.{Action, pure, ◌>>◌, after}
use bitrst.Chain.Attach.{disconnect, disconnect_tip_block}
use bitrst.Chain.Reorg.{unless, disconnect_until}
use bitrst.Chain.Index.{Known, find}
use bitrst.Chain.Active.{Among, WellFormed, Parts, Lowered, Listed, disconnect-Lowered}

module _ (crypto : Primitives) (root : List ℕ) where
  -- The loop came down to the block whose hash is `fork`.
  pub record Landed (fork : List ℕ) (chain : Chain) (out : Chain × Result Fault ℕ) : Type 0 where
    pub count : ℕ
    pub succeeds : out.1 ≡ ok count
    pub known : out.0.known ≡ chain.known
    pub well_formed : WellFormed crypto root out.0
    pub tip : tip_hash crypto out.0 ≡ fork

  Landed-unless :
      {P : Type 0} (d : Dec P) (count : ℕ) (more : Action ℕ) (fork : List ℕ) (chain : Chain)
      → (P → Landed fork chain (chain, ok count))
      → (¬ P → Landed fork chain (more chain))
      → Landed fork chain (unless d count more chain)
  unfolding pure
  Landed-unless (yes p) count more fork chain h k = h p
  Landed-unless (no p) count more fork chain h k = k p

  Landed-then :
      (out : Chain × Result Fault (Unit {0})) (next : Action ℕ) (fork : List ℕ) (chain : Chain)
      → out.1 ≡ ok tt
      → out.0.known ≡ chain.known
      → Landed fork out.0 (next out.0)
      → Landed fork chain (after out (λ done. next))
  Landed-then (c, ok done) next fork chain e same l = record {
    count = l.count;
    succeeds = l.succeeds;
    known = l.known ∙ same;
    well_formed = l.well_formed;
    tip = l.tip;
  }
  Landed-then (c, err fault) next fork chain e same l = absurd (ground arith)

  -- A tip that is not the fork is taken off, and the fork is below.
  lower :
      (fork : List ℕ) (chain : Chain) (blocks : List Block)
      → chain.blocks ≡ blocks
      → WellFormed crypto root chain
      → Among crypto fork blocks
      → tip_hash crypto chain ≢ fork
      → (c : Block) × (bs : List Block) × Lowered crypto root chain
          (c ∷ bs)
          (disconnect_tip_block crypto chain)
        × Among crypto fork (c ∷ bs)
        × (length blocks ≡ suc (length (c ∷ bs)))
  unfolding disconnect_tip_block tip_hash
  lower fork chain [] e wf among above = absurd (ground arith)
  lower fork chain (b ∷ []) e wf (inl at) above = absurd (above (ap (hash_of_tip crypto) e ∙ at))
  lower fork chain (b ∷ []) e wf (inr under) above = absurd (ground arith)
  lower fork chain (b ∷ c ∷ bs) e wf (inl at) above =
      absurd (above (ap (hash_of_tip crypto) e ∙ at))
  lower fork chain (b ∷ c ∷ bs) e wf (inr under) above = (
    c,
    bs,
    subst (λ l. Lowered crypto root chain (c ∷ bs) (disconnect crypto l chain)) (sym e)
        (disconnect-Lowered crypto root b c bs chain
          (subst (λ l. Parts crypto root chain.known l chain.active_hashes) e wf)),
    under,
    refl,
  )

  -- The loop that takes blocks off never fails and never runs out of fuel.
  pub disconnect_until-Landed :
      (fuel : ℕ) (fork : List ℕ) (count : ℕ) (chain : Chain)
      → WellFormed crypto root chain
      → Among crypto fork chain.blocks
      → length chain.blocks ≤ fuel
      → Landed fork chain (disconnect_until crypto fuel fork count chain)
  unfolding disconnect_until ◌>>◌
  disconnect_until-Landed zero fork count chain wf among enough =
      Landed-unless (bytes_discrete (tip_hash crypto chain) fork) count _ fork chain
        (λ at. record { count = count; succeeds = refl; known = refl; well_formed = wf; tip = at })
        (λ above.
          let (c, bs, low, under, size) = lower fork chain chain.blocks refl wf among above in
          absurd (omega arith))
  disconnect_until-Landed (suc fuel) fork count chain wf among enough =
      Landed-unless (bytes_discrete (tip_hash crypto chain) fork) count _ fork chain
        (λ at. record { count = count; succeeds = refl; known = refl; well_formed = wf; tip = at })
        (λ above.
          let (c, bs, low, under, size) = lower fork chain chain.blocks refl wf among above in
          let left = low.blocks_left in
          Landed-then (disconnect_tip_block crypto chain) _ fork chain low.succeeds low.known (
            disconnect_until-Landed fuel fork _ (disconnect_tip_block crypto chain).0
              low.well_formed (subst (Among crypto fork) (sym left) under) (rw left (omega arith))))

  -- The blocks of a path that starts above `below`: listed ones, and perhaps `new` at its end.
  abbrev pub Route : Known → Block → List ℕ → List Block → Type 0
  Route known new below [] = below ≡ hash crypto new
  Route known new below (b ∷ path) =
      (b.header.prev_blockhash ≡ below)
      × (hash crypto b ≢ root)
      × (Listed crypto root known b
          ⊎ ((find (hash crypto b) known ≡ none) × (b ≡ new) × (path ≡ [])))
      × Route known new (hash crypto b) path
