-- ===== src/Net/Codec.antt =====
-- crates/bitrst-net/src/codec: wire_helpers.rs and inv.rs, version.rs, wire_payload.rs. Lengths are
-- written as in transaction.rs, whose code wire_helpers.rs has again.
use bitrst.Base.{
  ℕ, zero, suc, ◌%◌, ◌^◌, List, [], ◌∷◌, ◌++◌, length, replicate, Bool, true, false, not, ltb, leb,
  ◌==◌, ◌&&◌, if◌then◌else◌, Result, ok, err, ok_or, map_err, reject_if, ◌>>=◌, ◌>>◌, String,
}
use bitrst.Base.Int.{ℤ, pos, negsuc, i32_bits, i64_bits}
use bitrst.Base.Keys.{bytes_discrete, holds}
use bitrst.Wire.Bytes.{to_le_bytes}
use bitrst.Wire.CompactSize.{write_compact_size}
use bitrst.Wire.Reader.{
  WireReader, Decoder, trailing_bytes, new, remaining, read_u32, read_bytes, read_limited_len,
  finish, first,
}
use bitrst.Transaction.Encode as TxEncode
use bitrst.Transaction.Deserialize as TxDecode
use bitrst.Block.Encode as BlockEncode
use bitrst.Block.Deserialize as BlockDecode
use bitrst.Net.Types
use bitrst.Net.Types.{
  InventoryVector, VersionMessage, Message, MessagePayload, NetError, from_u32, to_u32,
}
use bitrst.Net.Fields.{version_fields}

-- `for _ in 0..count`, one entry
unfoldable pub read_item : WireReader → Result NetError (InventoryVector × WireReader)
read_item r = do
  (value, r₁) ← map_err Types.decode (read_u32 "inv entry type" r)
  inv_type ← ok_or (from_u32 value) (Types.unknown_inventory_type value)
  (hash, r₂) ← map_err Types.decode (read_bytes 32 "inv entry hash" r₁)
  ok (record { inv_type = inv_type; hash = hash }, r₂)

unfoldable pub read_items :
    ℕ → List InventoryVector → WireReader → Result NetError (List InventoryVector × WireReader)
read_items zero items r = ok (items, r)
read_items (suc count) items r = do
  (item, r₁) ← read_item r
  read_items count (items ++ (item ∷ [])) r₁

unfoldable pub decode_inventory_list : List ℕ → String → Result NetError (List InventoryVector)
decode_inventory_list bytes context = do
  (count, r) ← map_err Types.decode (read_limited_len context Types.max_inv_count (new bytes))
  (items, r₁) ← read_items count [] r
  map_err Types.decode (finish r₁ context)
  ok items

unfoldable pub write_items : List InventoryVector → List ℕ → List ℕ
write_items [] out = out
write_items (item ∷ items) out =
    write_items items ((out ++ to_le_bytes 4 (to_u32 item.inv_type)) ++ item.hash)

unfoldable pub encode_inventory_list : List InventoryVector → Result NetError (List ℕ)
encode_inventory_list items = do
  reject_if (ltb Types.max_inv_count (length items))
      (Types.payload_too_large (length items % 2 ^ 32) Types.max_inv_count)
  ok (write_items items (write_compact_size (length items) []))

-- A flag that is left out counts as set.
unfoldable pub read_relay : Decoder Bool
read_relay r =
    if remaining r == 0
    then ok (true, r)
    else (if remaining r == 1
        then (do (bytes, r₁) ← read_bytes 1 "relay" r; ok (not (first bytes == 0), r₁))
        else err (trailing_bytes "version" (remaining r)))

unfoldable pub decode_version : List ℕ → Result NetError VersionMessage
decode_version payload = map_err Types.decode (do
  (message, r) ← version_fields (new payload)
  (relay, r₁) ← read_relay r
  finish r₁ "version"
  ok (message relay))

-- `version >= 60_002`
unfoldable pub sends_relay : ℤ → Bool
sends_relay (pos n) = leb 60_002 n
sends_relay (negsuc n) = false

abbrev pub relay_byte : Bool → List ℕ
relay_byte true = 1 ∷ []
relay_byte false = 0 ∷ []

unfoldable pub encode_version : VersionMessage → Result NetError (List ℕ)
encode_version v = do
  reject_if (ltb Types.max_user_agent_len (length v.user_agent))
      (Types.payload_too_large (length v.user_agent % 2 ^ 32) Types.max_user_agent_len)
  let out₁ = to_le_bytes 4 (i32_bits v.version) ++ to_le_bytes 8 v.services
  let out₂ = (out₁ ++ to_le_bytes 8 (i64_bits v.timestamp)) ++ (replicate 26 0 ++ replicate 26 0)
  let out₃ = write_compact_size (length v.user_agent) (out₂ ++ to_le_bytes 8 v.nonce)
  let out₄ = (out₃ ++ v.user_agent) ++ to_le_bytes 4 (i32_bits v.start_height)
  ok (if sends_relay v.version then out₄ ++ relay_byte v.relay else out₄)

unfoldable pub payload_bytes : MessagePayload → Result NetError (List ℕ)
payload_bytes Types.verack = ok []
payload_bytes (Types.version v) = encode_version v
payload_bytes (Types.inv items) = encode_inventory_list items
payload_bytes (Types.get_data items) = encode_inventory_list items
payload_bytes (MessagePayload.block b) = ok (BlockEncode.serialize b)
payload_bytes (Types.tx t) = ok (TxEncode.serialize t)

unfoldable pub encode_payload : Message → Result NetError (List ℕ × List ℕ)
encode_payload message = do bytes ← payload_bytes message.payload; ok (message.command, bytes)

abbrev is_command : List ℕ → List ℕ → Bool
is_command command name = holds (bytes_discrete command name)

-- The `match` on the command.
unfoldable pub decode_named : List ℕ → List ℕ → Result NetError MessagePayload
unfolding bytes_discrete
decode_named command payload =
    if is_command command Types.verack_command && (length payload == 0)
    then ok Types.verack
    else (if is_command command Types.version_command
        then (do v ← decode_version payload; ok (Types.version v))
        else (if is_command command Types.inv_command
            then (do items ← decode_inventory_list payload "inv count"; ok (Types.inv items))
            else (if is_command command Types.getdata_command
                then (do
                  items ← decode_inventory_list payload "getdata count"
                  ok (Types.get_data items))
                else (if is_command command Types.block_command
                    then (do
                      b ← map_err Types.decode (BlockDecode.deserialize payload)
                      ok (MessagePayload.block b))
                    else (if is_command command Types.tx_command
                        then (do
                          t ← map_err Types.decode (TxDecode.deserialize payload)
                          ok (Types.tx t))
                        else err (Types.unsupported_command command))))))

unfoldable pub decode_payload : List ℕ → List ℕ → Result NetError Message
decode_payload command payload = do
  decoded ← decode_named command payload
  ok (record { command = command; payload = decoded })

-- `/bitrst:0.1.0/`
abbrev pub user_agent_name : List ℕ
user_agent_name = 47 ∷ 98 ∷ 105 ∷ 116 ∷ 114 ∷ 115 ∷ 116 ∷ 58 ∷ 48 ∷ 46 ∷ 49 ∷ 46 ∷ 48 ∷ 47 ∷ []

unfoldable pub default_version_message : ℕ → ℤ → ℤ → VersionMessage
default_version_message nonce timestamp start_height = record {
  version = Types.protocol_version;
  services = 0;
  timestamp = timestamp;
  nonce = nonce;
  user_agent = user_agent_name;
  start_height = start_height;
  relay = false;
}
