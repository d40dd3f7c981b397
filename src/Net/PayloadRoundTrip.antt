-- ===== src/Net/PayloadRoundTrip.antt =====
-- The payloads of crates/bitrst-net/src/codec/wire_payload.rs are read back.
use bitrst.Base.{ℕ, ◌≤◌, ◌≡◌, refl, List, [], ok}
use bitrst.Transaction.Types.{IsTransaction}
use bitrst.Transaction.Encode as TxEncode
use bitrst.Transaction.Reads.{WithinLimits}
use bitrst.Transaction.RoundTrip.{deserialize-serialize}
use bitrst.Block.Types.{IsBlock}
use bitrst.Block.Encode as BlockEncode
use bitrst.Block.Reads.{BlockWithinLimits}
use bitrst.Block.RoundTrip.{deserialize-serialize_block}
use bitrst.Limits.{max_block_serialized_size, max_transaction_serialized_size}
use bitrst.Net.Types
use bitrst.Net.Types.{Message, MessagePayload, NetError}
use bitrst.Net.Codec.{payload_bytes, decode_named}
use bitrst.Net.Inventories.{
  IsInventory, inventory_bytes, encode_inventory_list-ok, decode_inventory_list-ok,
}
use bitrst.Net.Versions.{IsVersion, version_bytes, encode_version-ok, decode_version-ok}

abbrev pub command_of : MessagePayload → List ℕ
command_of Types.verack = Types.verack_command
command_of (Types.version v) = Types.version_command
command_of (Types.inv items) = Types.inv_command
command_of (Types.get_data items) = Types.getdata_command
command_of (MessagePayload.block b) = Types.block_command
command_of (Types.tx t) = Types.tx_command

-- A payload within its types and the limits of the decoders.
abbrev pub IsPayload : MessagePayload → Type 0
IsPayload Types.verack = Unit
IsPayload (Types.version v) = IsVersion v
IsPayload (Types.inv items) = IsInventory items
IsPayload (Types.get_data items) = IsInventory items
IsPayload (MessagePayload.block b) =
    IsBlock b × BlockWithinLimits b × (BlockEncode.serialized_size b ≤ max_block_serialized_size)
IsPayload (Types.tx t) =
    IsTransaction t
    × WithinLimits t
    × (TxEncode.serialized_size t ≤ max_transaction_serialized_size)

abbrev pub sent_bytes : MessagePayload → List ℕ
sent_bytes Types.verack = []
sent_bytes (Types.version v) = version_bytes v
sent_bytes (Types.inv items) = inventory_bytes items
sent_bytes (Types.get_data items) = inventory_bytes items
sent_bytes (MessagePayload.block b) = BlockEncode.serialize b
sent_bytes (Types.tx t) = TxEncode.serialize t

pub payload_bytes-ok :
    (payload : MessagePayload) → IsPayload payload → payload_bytes payload ≡ ok (sent_bytes payload)
unfolding payload_bytes
payload_bytes-ok Types.verack h = refl
payload_bytes-ok (Types.version v) h = encode_version-ok v h
payload_bytes-ok (Types.inv items) h = encode_inventory_list-ok items h
payload_bytes-ok (Types.get_data items) h = encode_inventory_list-ok items h
payload_bytes-ok (MessagePayload.block b) h = refl
payload_bytes-ok (Types.tx t) h = refl

pub decode_named-ok :
    (payload : MessagePayload)
    → IsPayload payload
    → decode_named (command_of payload) (sent_bytes payload) ≡ ok payload
unfolding decode_named
decode_named-ok Types.verack h = refl
decode_named-ok (Types.version v) h = rw (decode_version-ok v h) refl
decode_named-ok (Types.inv items) h = rw (decode_inventory_list-ok items h "inv count") refl
decode_named-ok (Types.get_data items) h =
    rw (decode_inventory_list-ok items h "getdata count") refl
decode_named-ok (MessagePayload.block b) (typed, limits, small) =
    rw (deserialize-serialize_block b typed limits small) refl
decode_named-ok (Types.tx t) (typed, limits, small) =
    rw (deserialize-serialize t typed limits small) refl
