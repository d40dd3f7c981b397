-- ===== src/Net/Phases.antt =====
-- What a run of crates/bitrst-net/src/handshake.rs has heard by the time it is in a phase.
use bitrst.Base.{
  ℕ, ◌≡◌, ◌≢◌, refl, List, [], ◌∷◌, Option, none, ◌==◌, Bool-cases, inl, inr, ==→eq, Result, ok,
  subst, arith,
}
use bitrst.Net.Types
use bitrst.Net.Types.{VersionMessage, Message, MessagePayload, NetError, verack_message}
use bitrst.Net.Protocol.{
  Received, after_messages, Waits, Expected, Progress, started, ignored, introduced, acknowledged,
}
use bitrst.Net.Handshake.{
  ConnectionDirection, HandshakeConfig, HandshakePhase, HandshakeState, awaiting_version,
  awaiting_peer_version, awaiting_verack, established, first_phase, new_handshake, dispatch,
  on_message, if_other_peer, local_replies,
}

Progress-first :
    {nonce : ℕ} {direction : ConnectionDirection} {phase : HandshakePhase}
    {peer : Option VersionMessage} {heard : List Received}
    → Progress nonce direction phase peer heard
    → Waits phase
    → (phase ≡ first_phase direction) × (peer ≡ none)
Progress-first started w = (refl, refl)
Progress-first (ignored received p unexpected) w = Progress-first p w
Progress-first (introduced command local v p other) w = absurd w
Progress-first (acknowledged command local p) w = absurd w

-- A run from `config` and `direction`.
abbrev Reached : HandshakeConfig → ConnectionDirection → HandshakeState → List Received → Type 0
Reached config direction state heard =
    (state.config ≡ config)
    × (state.direction ≡ direction)
    × Progress state.config.local_nonce state.direction state.phase state.peer_version heard

module _ (first_config : HandshakeConfig) (first_direction : ConnectionDirection)
    (state : HandshakeState) (heard : List Received) (command : List ℕ)
    (local : Option VersionMessage)
    (reached : Reached first_config first_direction state heard) where
  Reached-ignored :
      (payload : MessagePayload)
      → ¬ Expected state.config.local_nonce state.phase payload
      → Reached first_config first_direction state
          ((record { command = command; payload = payload }, local) ∷ heard)
  Reached-ignored payload unexpected =
      let (same, side, progress) = reached in
      (
        same,
        side,
        ignored (record { command = command; payload = payload }, local) progress unexpected,
      )

  Reached-if_other_peer :
      (v : VersionMessage) (replies : Result NetError (List Message))
      → Waits state.phase
      → (Expected state.config.local_nonce state.phase (Types.version v)
          → v.nonce ≢ state.config.local_nonce)
      → Reached first_config first_direction
          (if_other_peer v state replies).0
          ((record { command = command; payload = Types.version v }, local) ∷ heard)
  Reached-if_other_peer v replies waits other =
      elim (Bool-cases (v.nonce == state.config.local_nonce)) [
        | inl own ↦ rw own (
            Reached-ignored (Types.version v)
              (λ e. other e (==→eq v.nonce state.config.local_nonce own)))
        | inr foreign ↦
            let (same, side, progress) = reached in
            let (at_first, unknown) = Progress-first progress waits in
            let before : Progress state.config.local_nonce state.direction
                (first_phase state.direction) none heard =
              subst (λ p. Progress state.config.local_nonce state.direction p none heard) at_first
                (subst (λ p. Progress state.config.local_nonce state.direction state.phase p heard)
                  unknown progress) in
            rw foreign (same, side, introduced command local v before (λ e. ground arith))
      ]

module _ (first_config : HandshakeConfig) (first_direction : ConnectionDirection)
    (direction : ConnectionDirection) (config : HandshakeConfig) (peer : Option VersionMessage)
    (heard : List Received) (command : List ℕ) (local : Option VersionMessage) where
  abbrev at : HandshakePhase → HandshakeState
  at phase = record { direction = direction; config = config; phase = phase; peer_version = peer }

  Reached-dispatch :
      (phase : HandshakePhase) (payload : MessagePayload)
      → Reached first_config first_direction (at phase) heard
      → Reached first_config first_direction
          (dispatch phase payload local (at phase)).0
          ((record { command = command; payload = payload }, local) ∷ heard)
  Reached-dispatch awaiting_version (Types.version v) r =
      Reached-if_other_peer first_config first_direction (at awaiting_version) heard command local r
        v (local_replies local) tt (λ e. e)
  Reached-dispatch awaiting_version Types.verack r =
      Reached-ignored first_config first_direction (at awaiting_version) heard command local r
        Types.verack (λ e. e)
  Reached-dispatch awaiting_version (Types.inv items) r =
      Reached-ignored first_config first_direction (at awaiting_version) heard command local r
        (Types.inv items) (λ e. e)
  Reached-dispatch awaiting_version (Types.get_data items) r =
      Reached-ignored first_config first_direction (at awaiting_version) heard command local r
        (Types.get_data items) (λ e. e)
  Reached-dispatch awaiting_version (MessagePayload.block b) r =
      Reached-ignored first_config first_direction (at awaiting_version) heard command local r
        (MessagePayload.block b) (λ e. e)
  Reached-dispatch awaiting_version (Types.tx t) r =
      Reached-ignored first_config first_direction (at awaiting_version) heard command local r
        (Types.tx t) (λ e. e)
  Reached-dispatch awaiting_peer_version (Types.version v) r =
      Reached-if_other_peer first_config first_direction (at awaiting_peer_version) heard command
        local r v (ok (verack_message ∷ [])) tt (λ e. e)
  Reached-dispatch awaiting_peer_version Types.verack r =
      Reached-ignored first_config first_direction (at awaiting_peer_version) heard command local r
        Types.verack (λ e. e)
  Reached-dispatch awaiting_peer_version (Types.inv items) r =
      Reached-ignored first_config first_direction (at awaiting_peer_version) heard command local r
        (Types.inv items) (λ e. e)
  Reached-dispatch awaiting_peer_version (Types.get_data items) r =
      Reached-ignored first_config first_direction (at awaiting_peer_version) heard command local r
        (Types.get_data items) (λ e. e)
  Reached-dispatch awaiting_peer_version (MessagePayload.block b) r =
      Reached-ignored first_config first_direction (at awaiting_peer_version) heard command local r
        (MessagePayload.block b) (λ e. e)
  Reached-dispatch awaiting_peer_version (Types.tx t) r =
      Reached-ignored first_config first_direction (at awaiting_peer_version) heard command local r
        (Types.tx t) (λ e. e)
  Reached-dispatch awaiting_verack (Types.version v) r =
      Reached-ignored first_config first_direction (at awaiting_verack) heard command local r
        (Types.version v) (λ e. e)
  Reached-dispatch awaiting_verack Types.verack r =
      let (same, side, progress) = r in (same, side, acknowledged command local progress)
  Reached-dispatch awaiting_verack (Types.inv items) r =
      Reached-ignored first_config first_direction (at awaiting_verack) heard command local r
        (Types.inv items) (λ e. e)
  Reached-dispatch awaiting_verack (Types.get_data items) r =
      Reached-ignored first_config first_direction (at awaiting_verack) heard command local r
        (Types.get_data items) (λ e. e)
  Reached-dispatch awaiting_verack (MessagePayload.block b) r =
      Reached-ignored first_config first_direction (at awaiting_verack) heard command local r
        (MessagePayload.block b) (λ e. e)
  Reached-dispatch awaiting_verack (Types.tx t) r =
      Reached-ignored first_config first_direction (at awaiting_verack) heard command local r
        (Types.tx t) (λ e. e)
  Reached-dispatch established payload r =
      Reached-ignored first_config first_direction (at established) heard command local r payload
        (λ e. e)

on_message-Reached :
    (config : HandshakeConfig) (direction : ConnectionDirection) (message : Message)
    (local : Option VersionMessage) (state : HandshakeState) (heard : List Received)
    → Reached config direction state heard
    → Reached config direction (on_message message local state).0 ((message, local) ∷ heard)
unfolding on_message
on_message-Reached config direction message local state heard reached =
    Reached-dispatch config direction state.direction state.config state.peer_version heard
      message.command local state.phase message.payload reached

after_messages-Reached :
    (config : HandshakeConfig) (direction : ConnectionDirection) (heard : List Received)
    → Reached config direction (after_messages (new_handshake direction config) heard) heard
unfolding new_handshake
after_messages-Reached config direction [] = (refl, refl, started)
after_messages-Reached config direction ((message, local) ∷ heard) =
    on_message-Reached config direction message local _ heard
      (after_messages-Reached config direction heard)

-- A new handshake that takes any messages, errors and all, is in the phase that the protocol gives
-- for them and knows the version that the protocol gives: a first version whose nonce is not the
-- node's own moves it from its first phase to the wait for a verack, a verack from there to the
-- established phase, and every other message leaves it where it is.
pub after_messages-Progress :
    (config : HandshakeConfig) (direction : ConnectionDirection) (heard : List Received)
    → let state = after_messages (new_handshake direction config) heard in
      Progress config.local_nonce direction state.phase state.peer_version heard
after_messages-Progress config direction heard =
    let state = after_messages (new_handshake direction config) heard in
    let (same, side, progress) = after_messages-Reached config direction heard in
    subst (λ d. Progress config.local_nonce d state.phase state.peer_version heard) side
      (subst
        (λ (c : HandshakeConfig).
          Progress c.local_nonce state.direction state.phase state.peer_version heard)
        same progress)
