-- ===== src/Net/FrameRoundTrip.antt =====
-- A stream of messages in crates/bitrst-net/src/framing.rs is read back message by message.
use bitrst.Base.{
  ℕ, ◌+◌, ◌≤◌, ◌≡◌, refl, sym, ap, ◌∙◌, List, ◌++◌, length, take, drop, append_assoc, length-append,
  length-drop, take-append, drop-append, drop-append_le, drop-drop, Result, ok, err, arith, subst,
  ap₂,
}
use bitrst.Crypto.{Primitives}
use bitrst.Net.Types
use bitrst.Net.Types.{Message, MessagePayload, NetError, max_payload_size, message_header_size}
use bitrst.Net.Envelope.{MessageHeader, decode_message_header, all_printable, verify_checksum}
use bitrst.Net.EnvelopeRoundTrip.{
  IsCommand, header_bytes, length-header_bytes, encode_message_header-ok, decode_message_header-ok,
  verify_checksum-ok,
}
use bitrst.Net.Codec.{encode_payload, decode_payload, decode_named}
use bitrst.Net.PayloadRoundTrip.{
  command_of, IsPayload, sent_bytes, payload_bytes-ok, decode_named-ok,
}
use bitrst.Net.Framing.{
  Network, mainnet, testnet, magic, Framed, fill, frame, take_payload, after_header, read_message,
}
use bitrst.Net.Arriving.{stream, Flowing, ahead, take-append_le, fill-Filled}

-- A message under its own command, within its types and the limits.
pub record IsMessage (message : Message) : Type 0 where
  pub named : message.command ≡ command_of message.payload
  pub typed : IsPayload message.payload
  pub fits : length (sent_bytes message.payload) ≤ max_payload_size

command_of-IsCommand : (payload : MessagePayload) → IsCommand (command_of payload)
unfolding all_printable
command_of-IsCommand Types.verack = record {
  some_bytes = omega arith;
  fits = omega arith;
  printable = refl;
}
command_of-IsCommand (Types.version v) = record {
  some_bytes = omega arith;
  fits = omega arith;
  printable = refl;
}
command_of-IsCommand (Types.inv items) = record {
  some_bytes = omega arith;
  fits = omega arith;
  printable = refl;
}
command_of-IsCommand (Types.get_data items) = record {
  some_bytes = omega arith;
  fits = omega arith;
  printable = refl;
}
command_of-IsCommand (MessagePayload.block b) = record {
  some_bytes = omega arith;
  fits = omega arith;
  printable = refl;
}
command_of-IsCommand (Types.tx t) = record {
  some_bytes = omega arith;
  fits = omega arith;
  printable = refl;
}

length-magic : (network : Network) → length (magic network) ≡ 4
length-magic mainnet = refl
length-magic testnet = refl

-- What a buffer that holds the first bytes of a stream gives and leaves of them.
split_front :
    (n : ℕ) (buffer later front back : List ℕ)
    → buffer ++ later ≡ front ++ back
    → length front ≡ n
    → n ≤ length buffer
    → (take n buffer ≡ front) × (drop n buffer ++ later ≡ back)
split_front n buffer later front back same size enough = (
  sym (take-append_le n buffer later enough)
      ∙ ap (take n) same
      ∙ ap (λ m. take m (front ++ back)) (sym size)
      ∙ take-append front back,
  sym (drop-append_le n buffer later enough)
      ∙ ap (drop n) same
      ∙ ap (λ m. drop m (front ++ back)) (sym size)
      ∙ drop-append front back,
)

-- The same for what stands behind the header of 24 bytes.
split_body :
    (buffer later front body rest : List ℕ)
    → buffer ++ later ≡ front ++ (body ++ rest)
    → length front ≡ 24
    → 24 + length body ≤ length buffer
    → (take (length body) (drop 24 buffer) ≡ body)
      × (drop (24 + length body) buffer ++ later ≡ rest)
split_body buffer later front body rest same size enough =
    let (head, behind) =
      split_front 24 buffer later front (body ++ rest) same size (omega (arith, enough)) in
    let (there, left) =
      split_front (length body) (drop 24 buffer) later body rest behind refl
        (omega (arith, enough, length-drop 24 buffer)) in
    (there, ap (λ bs. bs ++ later) (sym (drop-drop 24 (length body) buffer)) ∙ left)

module _ (crypto : Primitives) (network : Network) where
  after_header-ok :
      (out : Framed × Result NetError (Unit {0})) (header : MessageHeader)
      → out.1 ≡ ok tt
      → decode_message_header
          (take message_header_size (out.0).buffer)
          (magic network)
          max_payload_size
        ≡ ok header
      → after_header crypto network out
        ≡ take_payload crypto network header
            (fill (message_header_size + header.payload_len) (out.0).buffer (out.0).arrivals)
  after_header-ok (reader, err e) header done decoded = absurd (ground arith)
  after_header-ok (reader, ok done) header e decoded = rw decoded refl

  take_payload-ok :
      (header : MessageHeader) (out : Framed × Result NetError (Unit {0})) (payload : List ℕ)
      (message : Message)
      → out.1 ≡ ok tt
      → take header.payload_len (drop message_header_size (out.0).buffer) ≡ payload
      → verify_checksum crypto header payload ≡ ok tt
      → decode_payload header.command.name payload ≡ ok message
      → take_payload crypto network header out ≡ (
        record (out.0) { buffer = drop (message_header_size + header.payload_len) (out.0).buffer },
        ok message,
      )
  take_payload-ok header (reader, err e) payload message done there checked decoded =
      absurd (ground arith)
  take_payload-ok header (reader, ok done) payload message e there checked decoded =
      rw (there, checked, decoded) refl

  -- The bytes of a message on the wire.
  abbrev pub frame_bytes : Message → List ℕ
  frame_bytes message =
      header_bytes crypto message.command (sent_bytes message.payload) (magic network)
      ++ sent_bytes message.payload

  module _ (message : Message) (h : IsMessage message) where
    own_command : IsCommand message.command
    own_command = subst IsCommand (sym h.named) (command_of-IsCommand message.payload)

    frame-ok : frame crypto network message ≡ ok (frame_bytes message)
    unfolding frame encode_payload
    frame-ok =
        rw
          (
            payload_bytes-ok message.payload h.typed,
            encode_message_header-ok crypto message.command (sent_bytes message.payload)
                (magic network) max_payload_size own_command (length-magic network) h.fits,
          )
          refl

    decode_payload-ok : decode_payload message.command (sent_bytes message.payload) ≡ ok message
    unfolding decode_payload
    decode_payload-ok =
        rw
          (ap (λ c. decode_named c (sent_bytes message.payload)) h.named
            ∙ decode_named-ok message.payload h.typed)
          refl

    -- A reader whose buffer and arriving bytes begin with those of a message, cut into reads in any
    -- way, returns the message and has lost no byte behind it; the bytes are what sending the message
    -- writes. The message carries its own command and is within its types and the decoders' limits,
    -- a version message that does not ask for relay is of version 60002 or later, and no read before
    -- the end gives no byte.
    pub read_message-frame :
        (reader : Framed) (rest : List ℕ)
        → Flowing reader.arrivals
        → ahead reader ≡ frame_bytes message ++ rest
        → (frame crypto network message ≡ ok (frame_bytes message))
          × (after : Framed) × (read_message crypto network reader ≡ (after, ok message))
          × (ahead after ≡ rest)
          × Flowing after.arrivals
    unfolding read_message
    read_message-frame reader rest flowing same =
        let payload = sent_bytes message.payload in
        let front = header_bytes crypto message.command payload (magic network) in
        let size =
          length-header_bytes crypto message.command payload (magic network) max_payload_size
            own_command (length-magic network) h.fits in
        let all = same ∙ append_assoc front payload rest in
        let total : length (ahead reader) ≡ 24 + (length payload + length rest) =
          ap length all
          ∙ length-append front (payload ++ rest)
          ∙ ap₂ ◌+◌ size (length-append payload rest) in
        let first = fill-Filled 24 reader.buffer reader.arrivals flowing (omega (arith, total)) in
        let out = fill 24 reader.buffer reader.arrivals in
        let (head, behind) =
          split_front 24 (out.0).buffer (stream (out.0).arrivals) front (payload ++ rest)
            (first.same ∙ all) size first.enough in
        let decoded =
          ap (λ bs. decode_message_header bs (magic network) max_payload_size) head
          ∙ decode_message_header-ok crypto message.command payload (magic network) max_payload_size
              own_command (length-magic network) h.fits (omega (arith, h.fits)) in
        let second =
          fill-Filled (24 + length payload) (out.0).buffer (out.0).arrivals first.flowing
            (omega (arith, total, ap length first.same)) in
        let out₂ = fill (24 + length payload) (out.0).buffer (out.0).arrivals in
        let (body, left) =
          split_body (out₂.0).buffer (stream (out₂.0).arrivals) front payload rest
            (second.same ∙ first.same ∙ all) size second.enough in
        (
          frame-ok,
          record (out₂.0) { buffer = drop (24 + length payload) (out₂.0).buffer },
          after_header-ok out _ first.done decoded
              ∙ take_payload-ok _ out₂ payload message second.done body
                  (verify_checksum-ok crypto message.command payload (magic network)
                    max_payload_size own_command (length-magic network) h.fits)
                  decode_payload-ok,
          left,
          second.flowing,
        )
