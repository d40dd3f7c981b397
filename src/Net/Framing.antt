-- ===== src/Net/Framing.antt =====
-- crates/bitrst-net/src/framing.rs: messages as bytes of a stream. The stream is what the reads of a
-- socket give, one after the other.
use bitrst.Base.{
  ℕ, ◌+◌, List, [], ◌∷◌, ◌++◌, length, take, drop, leb, ◌==◌, if◌then◌else◌, Result, ok, err, ◌>>=◌,
  ◌>>◌,
}
use bitrst.Crypto.{Primitives}
use bitrst.Net.Types.{
  Message, NetError, io, connection_closed, message_header_size, max_payload_size,
}
use bitrst.Net.Envelope.{
  MessageHeader, encode_message_header, decode_message_header, verify_checksum,
}
use bitrst.Net.Codec.{encode_payload, decode_payload}

-- `Network` of constants.rs, and its four bytes.
pub data Network : Type 0 where
  mainnet : Network
  testnet : Network

abbrev pub magic : Network → List ℕ
magic mainnet = 0xf9 ∷ 0xbe ∷ 0xb4 ∷ 0xd9 ∷ []
magic testnet = 0x0b ∷ 0x11 ∷ 0x09 ∷ 0x07 ∷ []

-- A read that gives no bytes is the end, too.
pub data Arrivals : Type 0 where
  closed : Arrivals
  broken : Arrivals
  arrived : List ℕ → Arrivals → Arrivals

-- The buffer of a `FramedReader`, and the socket behind it.
pub record Framed : Type 0 where
  pub buffer : List ℕ
  pub arrivals : Arrivals

-- `while self.buffer.len() < size`, a `read_buf` each time
unfoldable pub fill : ℕ → List ℕ → Arrivals → Framed × Result NetError (Unit {0})
fill size buffer closed =
    let reader : Framed = record { buffer = buffer; arrivals = closed } in
    if leb size (length buffer) then (reader, ok tt) else (reader, err connection_closed)
fill size buffer broken =
    let reader : Framed = record { buffer = buffer; arrivals = broken } in
    if leb size (length buffer) then (reader, ok tt) else (reader, err (io "read"))
fill size buffer (arrived bytes later) =
    let rest = fill size (buffer ++ bytes) later in
    if leb size (length buffer)
    then (record { buffer = buffer; arrivals = arrived bytes later }, ok tt)
    else (if length bytes == 0
        then (record { buffer = buffer; arrivals = later }, err connection_closed)
        else rest)

module _ (crypto : Primitives) (network : Network) where
  -- `write_message`, as the bytes that it writes.
  unfoldable pub frame : Message → Result NetError (List ℕ)
  frame message = do
    (command, payload) ← encode_payload message
    header ← encode_message_header crypto command payload (magic network) max_payload_size
    ok (header ++ payload)

  -- Behind the second loop: the bytes of the message leave the buffer before they are checked.
  abbrev pub take_payload :
      MessageHeader → Framed × Result NetError (Unit {0}) → Framed × Result NetError Message
  take_payload header (reader, err e) = (reader, err e)
  take_payload header (reader, ok done) =
      let payload = take header.payload_len (drop message_header_size reader.buffer) in
      (
        record reader { buffer = drop (message_header_size + header.payload_len) reader.buffer },
        (do verify_checksum crypto header payload; decode_payload header.command.name payload),
      )

  abbrev pub take_header : Framed → Result NetError MessageHeader → Framed × Result NetError Message
  take_header reader (err e) = (reader, err e)
  take_header reader (ok header) =
      take_payload header
        (fill (message_header_size + header.payload_len) reader.buffer reader.arrivals)

  abbrev pub after_header : Framed × Result NetError (Unit {0}) → Framed × Result NetError Message
  after_header (reader, err e) = (reader, err e)
  after_header (reader, ok done) = take_header reader (
      decode_message_header (take message_header_size reader.buffer) (magic network)
        max_payload_size)

  unfoldable pub read_message : Framed → Framed × Result NetError Message
  read_message reader = after_header (fill message_header_size reader.buffer reader.arrivals)
