-- ===== src/Net/Versions.antt =====
-- The version messages of crates/bitrst-net/src/codec/version.rs are read back.
use bitrst.Base.{
  ℕ, ◌^◌, ◌<◌, ◌≤◌, ◌≡◌, refl, sym, ap, ◌∙◌, ◌⊎◌, String, List, [], ◌∷◌, ◌++◌, length, replicate,
  append_assoc, append-nil, length-drop, Bool, true, false, ok, le→ltb, arith, Bool-cases, inl, inr,
  length-replicate, if◌then◌else◌, subst,
}
use bitrst.Base.Int.{
  ℤ, i32_bits, i64_bits, i64_bits-lt, i64_of_bits, i64_of_bits-i64_bits, IsI32, IsI64,
}
use bitrst.Wire.Bytes.{to_le_bytes, from_le_bytes, length-to_le_bytes, from_le_bytes-to_le_bytes}
use bitrst.Wire.CompactSize.{compact_size, write_compact_size-append}
use bitrst.Wire.Reader.{
  fail, truncated, WireReader, new, unread, advance, remaining, read_bytes, ◌>>=◌, pure,
}
use bitrst.Wire.Reads.{
  Reads, Reads-bind, Reads-return, Reads-pure, Reads-read_u64, Reads-read_i32, Reads-read_bytes,
  Reads-read_limited_len, unread-advance-append,
}
use bitrst.Net.Types.{VersionMessage, max_user_agent_len}
use bitrst.Net.Utf8.{is_utf8}
use bitrst.Net.Fields.{read_limited_string, version_fields}
use bitrst.Net.Codec.{read_relay, decode_version, sends_relay, relay_byte, encode_version}
use bitrst.Net.Inventories.{finish-empty}

-- A version within its types and the limit of its user agent. A peer before version 60002 is not
-- told the flag, which it takes for set.
pub record IsVersion (v : VersionMessage) : Type 0 where
  pub version : IsI32 v.version
  pub services : v.services < 2 ^ 64
  pub timestamp : IsI64 v.timestamp
  pub nonce : v.nonce < 2 ^ 64
  pub user_agent : is_utf8 v.user_agent ≡ true
  pub short : length v.user_agent ≤ max_user_agent_len
  pub start_height : IsI32 v.start_height
  pub relay : (sends_relay v.version ≡ true) ⊎ (v.relay ≡ true)

Reads-read_limited_string :
    (context : String) (limit : ℕ) (bytes : List ℕ)
    → length bytes ≤ limit
    → length bytes < 2 ^ 64
    → is_utf8 bytes ≡ true
    → Reads (read_limited_string context limit) (compact_size (length bytes) ++ bytes) bytes
unfolding read_limited_string
Reads-read_limited_string context limit bytes fits small valid =
    let check = λ (bs : List ℕ). if is_utf8 bs then pure bs else fail (truncated context 0 0) in
    let last : Reads (read_bytes (length bytes) context >>= check) bytes bytes =
      subst (λ bs. Reads (read_bytes (length bytes) context >>= check) bs bytes) (append-nil bytes)
        (Reads-bind (read_bytes (length bytes) context) check
          (Reads-read_bytes (length bytes) context bytes refl) (rw valid (Reads-pure bytes))) in
    Reads-bind _ _ (Reads-read_limited_len context limit (length bytes) fits small) last

-- The fields up to the flag, and the message that a flag completes.
abbrev encode_fields : VersionMessage → List ℕ
encode_fields v =
    to_le_bytes 4 (i32_bits v.version)
    ++ (to_le_bytes 8 v.services
        ++ (to_le_bytes 8 (i64_bits v.timestamp)
            ++ (replicate 26 0
                ++ (replicate 26 0
                    ++ (to_le_bytes 8 v.nonce
                        ++ ((compact_size (length v.user_agent) ++ v.user_agent)
                            ++ to_le_bytes 4 (i32_bits v.start_height)))))))

abbrev complete : VersionMessage → Bool → VersionMessage
complete v relay = record v { relay = relay }

timestamp_bits : (z : ℤ) → IsI64 z → i64_of_bits (from_le_bytes (to_le_bytes 8 (i64_bits z))) ≡ z
timestamp_bits z h =
    ap i64_of_bits (from_le_bytes-to_le_bytes 8 (i64_bits z) (i64_bits-lt z))
    ∙ i64_of_bits-i64_bits z h

Reads-version_fields :
    (v : VersionMessage) → IsVersion v → Reads version_fields (encode_fields v) (complete v)
unfolding version_fields
Reads-version_fields v h =
    let read_time = to_le_bytes 8 (i64_bits v.timestamp) in
    let completed = λ (start_height : ℤ) (relay : Bool). record v {
      timestamp = i64_of_bits (from_le_bytes read_time);
      start_height = start_height;
      relay = relay;
    } in
    subst (Reads version_fields (encode_fields v))
      (ap {B = Bool → VersionMessage}
        (λ (z : ℤ) (relay : Bool). record v { timestamp = z; relay = relay })
        (timestamp_bits v.timestamp h.timestamp))
      (Reads-bind _ _ (Reads-read_i32 "version" v.version h.version) (
        Reads-bind _ _ (Reads-read_u64 "services" v.services h.services) (
          Reads-bind _ _ (Reads-read_bytes 8 "timestamp" read_time (length-to_le_bytes 8 _)) (
            Reads-bind _ _
              (Reads-read_bytes 26 "addr_recv" (replicate 26 0) (length-replicate {A = ℕ} 26 0))
              (Reads-bind _ _
                (Reads-read_bytes 26 "addr_from" (replicate 26 0) (length-replicate {A = ℕ} 26 0))
                (Reads-bind _ _ (Reads-read_u64 "nonce" v.nonce h.nonce) (
                  Reads-bind _ _
                    (Reads-read_limited_string "user agent" max_user_agent_len v.user_agent h.short
                      (omega (arith, h.short)) h.user_agent)
                    (Reads-return _ completed
                      (Reads-read_i32 "start height" v.start_height h.start_height)))))))))

-- The bytes of the flag, where there are any.
abbrev flag : VersionMessage → List ℕ
flag v = if sends_relay v.version then relay_byte v.relay else []

remaining-unread : (r : WireReader) (bs : List ℕ) → unread r ≡ bs → remaining r ≡ length bs
unfolding remaining
remaining-unread r bs h = sym (length-drop r.position r.bytes) ∙ ap length h

read_relay-byte :
    (b : Bool) (r : WireReader)
    → unread r ≡ relay_byte b
    → (after : WireReader) × (read_relay r ≡ ok (b, after)) × (unread after ≡ [])
unfolding read_relay
read_relay-byte true r h =
    let split : unread r ≡ (1 ∷ []) ++ [] = h in
    (
      advance r 1,
      rw (remaining-unread r (1 ∷ []) h, (Reads-read_bytes 1 "relay" (1 ∷ []) refl).at r [] split)
          refl,
      unread-advance-append r (1 ∷ []) [] split,
    )
read_relay-byte false r h =
    let split : unread r ≡ (0 ∷ []) ++ [] = h in
    (
      advance r 1,
      rw (remaining-unread r (0 ∷ []) h, (Reads-read_bytes 1 "relay" (0 ∷ []) refl).at r [] split)
          refl,
      unread-advance-append r (0 ∷ []) [] split,
    )

read_relay-missing :
    (r : WireReader)
    → unread r ≡ []
    → (after : WireReader) × (read_relay r ≡ ok (true, after)) × (unread after ≡ [])
unfolding read_relay
read_relay-missing r h = (r, rw (remaining-unread r [] h) refl, h)

read_relay-flag :
    (v : VersionMessage) (r : WireReader)
    → (sends_relay v.version ≡ true) ⊎ (v.relay ≡ true)
    → unread r ≡ flag v
    → (after : WireReader) × (read_relay r ≡ ok (v.relay, after)) × (unread after ≡ [])
read_relay-flag v r known h = elim (Bool-cases (sends_relay v.version)) [
  | inl sent ↦ read_relay-byte v.relay r (rw sent at h)
  | inr left_out ↦ elim known [
    | inl sent ↦ absurd (ground arith)
    | inr set ↦ rw set (read_relay-missing r (rw left_out at h))
  ]
]

abbrev pub version_bytes : VersionMessage → List ℕ
version_bytes v = encode_fields v ++ flag v

module _ (v : VersionMessage) (h : IsVersion v) where
  pub encode_version-ok : encode_version v ≡ ok (version_bytes v)
  unfolding encode_version
  encode_version-ok =
      rw (le→ltb _ _ h.short, write_compact_size-append (length v.user_agent))
        (elim (Bool-cases (sends_relay v.version)) [
          | inl sent ↦ rw sent (ap ok (simp append_assoc))
          | inr left_out ↦ rw left_out (ap ok (simp (append_assoc, append-nil)))
        ])

  pub decode_version-ok : decode_version (version_bytes v) ≡ ok v
  unfolding decode_version new
  decode_version-ok =
      let r = advance (new (version_bytes v)) (length (encode_fields v)) in
      let rest : unread r ≡ flag v =
        unread-advance-append (new (version_bytes v)) (encode_fields v) (flag v) refl in
      let (after, e, empty) = read_relay-flag v r h.relay rest in
      rw
        (
          (Reads-version_fields v h).at (new (version_bytes v)) (flag v) refl,
          e,
          finish-empty after "version" empty,
        )
        refl
