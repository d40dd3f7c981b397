-- ===== src/Net/Handshake.antt =====
-- crates/bitrst-net/src/handshake.rs. The timeout is used outside of the state machine.
use bitrst.Base.{ℕ, List, [], ◌∷◌, Option, none, some, ◌==◌, if◌then◌else◌, Result, ok, err}
use bitrst.Net.Types
use bitrst.Net.Types.{
  VersionMessage, Message, MessagePayload, NetError, handshake_violation, self_connection,
  verack_message, version_message,
}

pub data ConnectionDirection : Type 0 where
  outbound : ConnectionDirection
  inbound : ConnectionDirection

pub record HandshakeConfig : Type 0 where
  pub local_nonce : ℕ
  pub timeout : ℕ

pub data HandshakePhase : Type 0 where
  awaiting_version : HandshakePhase
  awaiting_peer_version : HandshakePhase
  awaiting_verack : HandshakePhase
  established : HandshakePhase

pub record HandshakeState : Type 0 where
  pub direction : ConnectionDirection
  pub config : HandshakeConfig
  pub phase : HandshakePhase
  pub peer_version : Option VersionMessage

abbrev pub first_phase : ConnectionDirection → HandshakePhase
first_phase outbound = awaiting_peer_version
first_phase inbound = awaiting_version

unfoldable pub new_handshake : ConnectionDirection → HandshakeConfig → HandshakeState
new_handshake direction config = record {
  direction = direction;
  config = config;
  phase = first_phase direction;
  peer_version = none;
}

abbrev pub greeting : ConnectionDirection → HandshakePhase → VersionMessage → List Message
greeting outbound awaiting_peer_version v = version_message v ∷ []
greeting outbound awaiting_version v = []
greeting outbound awaiting_verack v = []
greeting outbound established v = []
greeting inbound phase v = []

unfoldable pub initial_outbound_messages : HandshakeState → VersionMessage → List Message
initial_outbound_messages state v = greeting state.direction state.phase v

-- What a method that changes the state leaves and returns.
abbrev pub Handled : Type 0
Handled = HandshakeState × Result NetError (List Message)

-- The peer's version is accepted before the local one is asked for.
abbrev pub accept_version : VersionMessage → HandshakeState → HandshakeState
accept_version v state = record state { peer_version = some v; phase = awaiting_verack }

-- `validate_peer_version(version)?`, and what follows it.
abbrev pub if_other_peer :
    VersionMessage → HandshakeState → Result NetError (List Message) → Handled
if_other_peer v state replies =
    if v.nonce == state.config.local_nonce
    then (state, err self_connection)
    else (accept_version v state, replies)

abbrev pub local_replies : Option VersionMessage → Result NetError (List Message)
local_replies none = err (handshake_violation "missing local version for inbound handshake")
local_replies (some local) = ok (version_message local ∷ verack_message ∷ [])

abbrev unexpected : HandshakeState → Handled
unexpected state = (state, err (handshake_violation "unexpected handshake message"))

-- The `match` on the phase and the payload.
abbrev pub dispatch :
    HandshakePhase → MessagePayload → Option VersionMessage → HandshakeState → Handled
dispatch awaiting_version (Types.version v) local state =
    if_other_peer v state (local_replies local)
dispatch awaiting_version Types.verack local state = unexpected state
dispatch awaiting_version (Types.inv items) local state = unexpected state
dispatch awaiting_version (Types.get_data items) local state = unexpected state
dispatch awaiting_version (MessagePayload.block b) local state = unexpected state
dispatch awaiting_version (Types.tx t) local state = unexpected state
dispatch awaiting_peer_version (Types.version v) local state =
    if_other_peer v state (ok (verack_message ∷ []))
dispatch awaiting_peer_version Types.verack local state = unexpected state
dispatch awaiting_peer_version (Types.inv items) local state = unexpected state
dispatch awaiting_peer_version (Types.get_data items) local state = unexpected state
dispatch awaiting_peer_version (MessagePayload.block b) local state = unexpected state
dispatch awaiting_peer_version (Types.tx t) local state = unexpected state
dispatch awaiting_verack Types.verack local state = (record state { phase = established }, ok [])
dispatch awaiting_verack (Types.version v) local state = unexpected state
dispatch awaiting_verack (Types.inv items) local state = unexpected state
dispatch awaiting_verack (Types.get_data items) local state = unexpected state
dispatch awaiting_verack (MessagePayload.block b) local state = unexpected state
dispatch awaiting_verack (Types.tx t) local state = unexpected state
dispatch established payload local state = (state, ok [])

unfoldable pub on_message : Message → Option VersionMessage → HandshakeState → Handled
on_message message local_version state = dispatch state.phase message.payload local_version state
