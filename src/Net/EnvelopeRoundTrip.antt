-- ===== src/Net/EnvelopeRoundTrip.antt =====
-- Headers of crates/bitrst-net/src/envelope.rs, written and read back.
use bitrst.Base.{
  ℕ, zero, suc, ◌-◌, ◌%◌, ◌^◌, ◌<◌, ◌≤◌, ◌≡◌, refl, sym, ap, ◌∙◌, List, [], ◌∷◌, ◌++◌, append-nil,
  length, take, drop, replicate, true, false, ltb, ◌==◌, ok, arith, take-append, drop-append,
  length-append, length-replicate, length-take, drop-drop, le→ltb,
}
use bitrst.Base.Keys.{bytes_discrete, holds-true}
use bitrst.Wire.Bytes.{to_le_bytes, from_le_bytes, length-to_le_bytes, from_le_bytes-to_le_bytes}
use bitrst.Crypto.{Primitives, sha256d, sha256d-IsArray}
use bitrst.Net.Types.{command_length, message_header_size}
use bitrst.Net.Envelope.{
  MessageHeader, zero_position, all_printable, all_zero, from_header_bytes, encode_command,
  decode_message_header, checksum_of, encode_message_header, verify_checksum,
}

zero_position-replicate : (n : ℕ) → zero_position (replicate n 0) ≡ 0
unfolding zero_position
zero_position-replicate zero = refl
zero_position-replicate (suc n) = refl

all_printable-∷ :
    (byte : ℕ) (bytes : List ℕ)
    → all_printable (byte ∷ bytes) ≡ true
    → ((byte == 0) ≡ false) × (all_printable bytes ≡ true)
unfolding all_printable
all_printable-∷ zero bytes h = absurd (ground arith)
all_printable-∷ (suc byte) bytes h = (ground arith, ground arith)

zero_position-name :
    (name : List ℕ) (n : ℕ)
    → all_printable name ≡ true
    → zero_position (name ++ replicate n 0) ≡ length name
unfolding zero_position
zero_position-name [] n h = zero_position-replicate n
zero_position-name (byte ∷ name) n h =
    let (nonzero, h') = all_printable-∷ byte name h in
    rw nonzero (ap suc (zero_position-name name n h'))

all_zero-replicate : (n : ℕ) → all_zero (replicate n 0) ≡ true
unfolding all_zero
all_zero-replicate zero = refl
all_zero-replicate (suc n) = all_zero-replicate n

-- A command that `Command::encode` takes.
pub record IsCommand (name : List ℕ) : Type 0 where
  pub some_bytes : 0 < length name
  pub fits : length name ≤ command_length
  pub printable : all_printable name ≡ true

abbrev padded : List ℕ → List ℕ
padded name = name ++ replicate (command_length - length name) 0

length-padded : (name : List ℕ) → IsCommand name → length (padded name) ≡ command_length
length-padded name c =
    length-append name _
    ∙ (rw (length-replicate {A = ℕ} (command_length - length name) 0)
        (let f = c.fits in omega arith))

encode_command-ok : (name : List ℕ) → IsCommand name → encode_command name ≡ ok (padded name)
unfolding encode_command
encode_command-ok name c =
    let low = c.some_bytes in
    let nonempty : (length name == 0) ≡ false = ground arith in
    let short : ltb command_length (length name) ≡ false = le→ltb _ _ c.fits in
    rw (nonempty, short, c.printable) refl

from_header_bytes-padded :
    (name : List ℕ) → IsCommand name → from_header_bytes (padded name) ≡ ok (record { name = name })
unfolding from_header_bytes
from_header_bytes-padded name c =
    let low = c.some_bytes in
    let nonempty : (length name == 0) ≡ false = ground arith in
    rw
      (
        zero_position-name name (command_length - length name) c.printable,
        take-append name (replicate (command_length - length name) 0),
        drop-append name (replicate (command_length - length name) 0),
        all_zero-replicate (command_length - length name),
        nonempty,
        c.printable,
      )
      refl

-- What stands behind bytes of a known length.
take_field : (n : ℕ) (field rest : List ℕ) → length field ≡ n → take n (field ++ rest) ≡ field
take_field n field rest e = rw (← e) (take-append field rest)

drop_field : (n : ℕ) (field rest : List ℕ) → length field ≡ n → drop n (field ++ rest) ≡ rest
drop_field n field rest e = rw (← e) (drop-append field rest)

module _ (magic cmd len sum : List ℕ) (lm : length magic ≡ 4) (lc : length cmd ≡ 12)
    (ll : length len ≡ 4) (ls : length sum ≡ 4) where
  laid_out : List ℕ
  laid_out = magic ++ (cmd ++ (len ++ sum))

  length-laid_out : length laid_out ≡ 24
  unfolding laid_out
  length-laid_out =
      rw
        (
          length-append magic (cmd ++ (len ++ sum)),
          length-append cmd (len ++ sum),
          length-append len sum,
          lm,
          lc,
          ll,
          ls,
        )
        refl

  magic_field : take 4 laid_out ≡ magic
  unfolding laid_out
  magic_field = take_field 4 magic _ lm

  behind_magic : drop 4 laid_out ≡ cmd ++ (len ++ sum)
  unfolding laid_out
  behind_magic = drop_field 4 magic _ lm

  command_field : take 12 (drop 4 laid_out) ≡ cmd
  command_field = ap (take 12) behind_magic ∙ take_field 12 cmd _ lc

  behind_command : drop 16 laid_out ≡ len ++ sum
  behind_command =
      sym (drop-drop 4 12 laid_out) ∙ ap (drop 12) behind_magic ∙ drop_field 12 cmd _ lc

  length_field : take 4 (drop 16 laid_out) ≡ len
  length_field = ap (take 4) behind_command ∙ take_field 4 len sum ll

  checksum_field : take 4 (drop 20 laid_out) ≡ sum
  checksum_field =
      ap (take 4)
        (sym (drop-drop 16 4 laid_out) ∙ ap (drop 4) behind_command ∙ drop_field 4 len sum ll)
      ∙ ap (take 4) (sym (append-nil sum))
      ∙ take_field 4 sum [] ls

module _ (crypto : Primitives) where
  length-checksum_of : (payload : List ℕ) → length (checksum_of crypto payload) ≡ 4
  unfolding checksum_of
  length-checksum_of payload =
      let all : length (sha256d crypto payload) ≡ 32 = (sha256d-IsArray crypto payload).size in
      length-take 4 (sha256d crypto payload) (omega arith)

  abbrev pub header_of : List ℕ → List ℕ → List ℕ → MessageHeader
  header_of name payload magic = record {
    magic = magic;
    command = record { name = name };
    payload_len = length payload;
    checksum = checksum_of crypto payload;
  }

  abbrev pub header_bytes : List ℕ → List ℕ → List ℕ → List ℕ
  header_bytes name payload magic =
      magic
      ++ (padded name ++ (to_le_bytes 4 (length payload % 2 ^ 32) ++ checksum_of crypto payload))

  module _ (name payload magic : List ℕ) (max_payload : ℕ) (c : IsCommand name)
      (m : length magic ≡ 4) (fits : length payload ≤ max_payload) where
    pub encode_message_header-ok :
        encode_message_header crypto name payload magic max_payload
        ≡ ok (header_bytes name payload magic)
    unfolding encode_message_header
    encode_message_header-ok = rw (le→ltb _ _ fits, encode_command-ok name c) refl

    pub decode_message_header-ok :
        length payload < 2 ^ 32
        → decode_message_header (header_bytes name payload magic) magic max_payload
          ≡ ok (header_of name payload magic)
    unfolding decode_message_header laid_out
    decode_message_header-ok small =
        let sum = checksum_of crypto payload in
        let len = to_le_bytes 4 (length payload % 2 ^ 32) in
        let cmd = padded name in
        let lc = length-padded name c in
        let ll : length len ≡ 4 = length-to_le_bytes 4 _ in
        let ls = length-checksum_of payload in
        let value : from_le_bytes len ≡ length payload =
          from_le_bytes-to_le_bytes 4 (length payload % 2 ^ 32) (omega arith) ∙ omega arith in
        rw
          (
            magic_field magic cmd len sum m lc ll ls,
            holds-true (bytes_discrete magic magic) refl,
            command_field magic cmd len sum m lc ll ls,
            from_header_bytes-padded name c,
            length_field magic cmd len sum m lc ll ls,
            value,
            le→ltb _ _ fits,
            checksum_field magic cmd len sum m lc ll ls,
          )
          refl

    pub length-header_bytes : length (header_bytes name payload magic) ≡ message_header_size
    unfolding laid_out
    length-header_bytes =
        length-laid_out magic (padded name) (to_le_bytes 4 (length payload % 2 ^ 32))
          (checksum_of crypto payload) m (length-padded name c) (length-to_le_bytes 4 _)
          (length-checksum_of payload)

    pub verify_checksum-ok : verify_checksum crypto (header_of name payload magic) payload ≡ ok tt
    unfolding verify_checksum
    verify_checksum-ok =
        rw
          (holds-true (bytes_discrete (checksum_of crypto payload) (checksum_of crypto payload))
            refl)
          refl
