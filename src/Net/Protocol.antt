-- ===== src/Net/Protocol.antt =====
-- The handshake of crates/bitrst-net/src/handshake.rs as a protocol: what moves it on.
use bitrst.Base.{ℕ, ◌≢◌, List, [], ◌∷◌, Option, none, some}
use bitrst.Net.Types
use bitrst.Net.Types.{VersionMessage, Message, MessagePayload}
use bitrst.Net.Handshake.{
  ConnectionDirection, HandshakePhase, HandshakeState, awaiting_version, awaiting_peer_version,
  awaiting_verack, established, first_phase, on_message,
}

-- A message and the local version passed with it.
abbrev pub Received : Type 0
Received = Message × Option VersionMessage

-- The state after messages, the last one first; the replies and the errors do not change it.
abbrev pub after_messages : HandshakeState → List Received → HandshakeState
after_messages state [] = state
after_messages state ((message, local) ∷ earlier) =
    (on_message message local (after_messages state earlier)).0

abbrev pub Waits : HandshakePhase → Type 0
Waits awaiting_version = Unit
Waits awaiting_peer_version = Unit
Waits awaiting_verack = ⊥
Waits established = ⊥

-- The message that moves the handshake on: a version of another peer first, then a verack.
abbrev pub Expected : ℕ → HandshakePhase → MessagePayload → Type 0
Expected nonce awaiting_version (Types.version v) = v.nonce ≢ nonce
Expected nonce awaiting_version Types.verack = ⊥
Expected nonce awaiting_version (Types.inv items) = ⊥
Expected nonce awaiting_version (Types.get_data items) = ⊥
Expected nonce awaiting_version (MessagePayload.block b) = ⊥
Expected nonce awaiting_version (Types.tx t) = ⊥
Expected nonce awaiting_peer_version (Types.version v) = v.nonce ≢ nonce
Expected nonce awaiting_peer_version Types.verack = ⊥
Expected nonce awaiting_peer_version (Types.inv items) = ⊥
Expected nonce awaiting_peer_version (Types.get_data items) = ⊥
Expected nonce awaiting_peer_version (MessagePayload.block b) = ⊥
Expected nonce awaiting_peer_version (Types.tx t) = ⊥
Expected nonce awaiting_verack (Types.version v) = ⊥
Expected nonce awaiting_verack Types.verack = Unit
Expected nonce awaiting_verack (Types.inv items) = ⊥
Expected nonce awaiting_verack (Types.get_data items) = ⊥
Expected nonce awaiting_verack (MessagePayload.block b) = ⊥
Expected nonce awaiting_verack (Types.tx t) = ⊥
Expected nonce established payload = ⊥

-- The protocol, for a node's own nonce and the side it is on: the phase and the peer's version
-- that messages lead to, the last one first.
pub data Progress (nonce : ℕ) (direction : ConnectionDirection)
    : HandshakePhase → Option VersionMessage → List Received → Type 0 where
  started : Progress nonce direction (first_phase direction) none []
  ignored :
      {phase : HandshakePhase} {peer : Option VersionMessage} {heard : List Received}
      (received : Received)
      → Progress nonce direction phase peer heard
      → ¬ Expected nonce phase received.0.payload
      → Progress nonce direction phase peer (received ∷ heard)
  introduced :
      {heard : List Received} (command : List ℕ) (local : Option VersionMessage)
      (v : VersionMessage)
      → Progress nonce direction (first_phase direction) none heard
      → v.nonce ≢ nonce
      → Progress nonce direction awaiting_verack
          (some v)
          ((record { command = command; payload = Types.version v }, local) ∷ heard)
  acknowledged :
      {peer : Option VersionMessage} {heard : List Received} (command : List ℕ)
      (local : Option VersionMessage)
      → Progress nonce direction awaiting_verack peer heard
      → Progress nonce direction established peer
          ((record { command = command; payload = Types.verack }, local) ∷ heard)
