-- ===== src/Net.antt =====
-- crates/bitrst-net/src: messages of the peer protocol, their envelope, the handshake, and the
-- bookkeeping of requests and connections.
pub mod Types
pub mod Envelope
pub mod Utf8
pub mod Fields
pub mod Codec
pub mod Inventories
pub mod Versions
pub mod Framing
pub mod Arriving
pub mod PayloadRoundTrip
pub mod FrameRoundTrip
pub mod Handshake
pub mod EnvelopeRoundTrip
pub mod Protocol
pub mod Phases
pub mod Requests
pub mod Relay
pub mod Handlers
