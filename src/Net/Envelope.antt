-- ===== src/Net/Envelope.antt =====
-- crates/bitrst-net/src/envelope.rs: the 24 bytes in front of a payload.
use bitrst.Base.{
  ℕ, suc, ◌-◌, ◌%◌, ◌^◌, List, [], ◌∷◌, ◌++◌, length, take, drop, replicate, Bool, true, not, ◌&&◌,
  ◌||◌, ltb, leb, ◌==◌, if◌then◌else◌, Result, ok, ◌>>=◌, ◌>>◌, reject_if,
}
use bitrst.Base.Keys.{bytes_discrete, holds}
use bitrst.Wire.Bytes.{to_le_bytes, from_le_bytes}
use bitrst.Crypto.{Primitives, sha256d}
use bitrst.Net.Types.{
  NetError, invalid_magic, invalid_command, payload_too_large, checksum_mismatch, command_length,
}

-- The bytes of `Command`, which is ASCII.
pub record Command : Type 0 where
  pub name : List ℕ

pub record MessageHeader : Type 0 where
  pub magic : List ℕ
  pub command : Command
  pub payload_len : ℕ
  pub checksum : List ℕ

-- `position(|&byte| byte == 0)`, or the length.
unfoldable pub zero_position : List ℕ → ℕ
zero_position [] = 0
zero_position (byte ∷ bytes) = let rest = zero_position bytes in if byte == 0 then 0 else suc rest

-- `all(|byte| (0x20..=0x7e).contains(byte))`
unfoldable pub all_printable : List ℕ → Bool
all_printable [] = true
all_printable (byte ∷ bytes) = leb 0x20 byte && leb byte 0x7e && all_printable bytes

unfoldable pub all_zero : List ℕ → Bool
all_zero [] = true
all_zero (byte ∷ bytes) = byte == 0 && all_zero bytes

-- ASCII is UTF-8, so that the conversion behind the checks cannot fail.
unfoldable pub from_header_bytes : List ℕ → Result NetError Command
from_header_bytes bytes =
    let end = zero_position bytes in
    (do
      reject_if (length (take end bytes) == 0) invalid_command
      reject_if (not (all_printable (take end bytes))) invalid_command
      reject_if (not (all_zero (drop end bytes))) invalid_command
      ok (record { name = take end bytes }))

unfoldable pub encode_command : List ℕ → Result NetError (List ℕ)
encode_command name = do
  reject_if (length name == 0 || ltb command_length (length name)) invalid_command
  reject_if (not (all_printable name)) invalid_command
  ok (name ++ replicate (command_length - length name) 0)

-- Of 24 bytes.
unfoldable pub decode_message_header : List ℕ → List ℕ → ℕ → Result NetError MessageHeader
decode_message_header bytes expected_magic max_payload =
    let magic = take 4 bytes in
    let payload_len = from_le_bytes (take 4 (drop 16 bytes)) in
    (do
      reject_if (not (holds (bytes_discrete magic expected_magic))) invalid_magic
      command ← from_header_bytes (take 12 (drop 4 bytes))
      reject_if (ltb max_payload payload_len) (payload_too_large payload_len max_payload)
      ok (record {
        magic = magic;
        command = command;
        payload_len = payload_len;
        checksum = take 4 (drop 20 bytes);
      }))

module _ (crypto : Primitives) where
  unfoldable pub checksum_of : List ℕ → List ℕ
  checksum_of payload = take 4 (sha256d crypto payload)

  -- The four slices fill the 24 bytes.
  unfoldable pub encode_message_header : List ℕ → List ℕ → List ℕ → ℕ → Result NetError (List ℕ)
  encode_message_header command payload magic max_payload = do
    reject_if (ltb max_payload (length payload))
        (payload_too_large (length payload % 2 ^ 32) max_payload)
    command_bytes ← encode_command command
    ok (
        magic
        ++ (command_bytes ++ (to_le_bytes 4 (length payload % 2 ^ 32) ++ checksum_of payload)))

  unfoldable pub verify_checksum : MessageHeader → List ℕ → Result NetError (Unit {0})
  verify_checksum header payload =
      reject_if (not (holds (bytes_discrete (checksum_of payload) header.checksum)))
        (checksum_mismatch header.command.name)
