-- ===== src/Net/Types.antt =====
-- crates/bitrst-net/src/message.rs and error.rs, and the constants of constants.rs that the modelled
-- code uses. A command is the list of its bytes.
use bitrst.Base.{ℕ, List, [], ◌∷◌, String, Bool, Option, none, some, ◌==◌, if◌then◌else◌}
use bitrst.Base.Int.{ℤ, pos}
use bitrst.Block.Types.{Block}
use bitrst.Transaction.Types.{Transaction}
use bitrst.Wire.Reader.{DecodeError}
use bitrst.Chain.Types.{ChainError}
use bitrst.Limits.{max_block_serialized_size}

abbrev pub message_header_size : ℕ
message_header_size = 24

abbrev pub command_length : ℕ
command_length = 12

abbrev pub max_payload_size : ℕ
max_payload_size = max_block_serialized_size

abbrev pub protocol_version : ℤ
protocol_version = pos 70_016

abbrev pub max_inv_count : ℕ
max_inv_count = 50_000

abbrev pub max_user_agent_len : ℕ
max_user_agent_len = 256

abbrev pub max_pending_block_requests : ℕ
max_pending_block_requests = 256

-- In seconds, in a build without the feature test-short-period.
abbrev pub block_request_ttl : ℕ
block_request_ttl = 300

pub data InvType : Type 0 where
  transaction : InvType
  block : InvType
  filtered_block : InvType

unfoldable pub from_u32 : ℕ → Option InvType
from_u32 value =
    if value == 1
    then some transaction
    else (if value == 2 then some block else (if value == 3 then some filtered_block else none))

unfoldable pub to_u32 : InvType → ℕ
to_u32 transaction = 1
to_u32 block = 2
to_u32 filtered_block = 3

pub record InventoryVector : Type 0 where
  pub inv_type : InvType
  pub hash : List ℕ

pub record VersionMessage : Type 0 where
  pub version : ℤ
  pub services : ℕ
  pub timestamp : ℤ
  pub nonce : ℕ
  pub user_agent : List ℕ
  pub start_height : ℤ
  pub relay : Bool

pub data MessagePayload : Type 0 where
  verack : MessagePayload
  version : VersionMessage → MessagePayload
  inv : List InventoryVector → MessagePayload
  get_data : List InventoryVector → MessagePayload
  block : Block → MessagePayload
  tx : Transaction → MessagePayload

pub record Message : Type 0 where
  pub command : List ℕ
  pub payload : MessagePayload

abbrev pub verack_command : List ℕ
verack_command = 118 ∷ 101 ∷ 114 ∷ 97 ∷ 99 ∷ 107 ∷ []

abbrev pub version_command : List ℕ
version_command = 118 ∷ 101 ∷ 114 ∷ 115 ∷ 105 ∷ 111 ∷ 110 ∷ []

abbrev pub inv_command : List ℕ
inv_command = 105 ∷ 110 ∷ 118 ∷ []

abbrev pub getdata_command : List ℕ
getdata_command = 103 ∷ 101 ∷ 116 ∷ 100 ∷ 97 ∷ 116 ∷ 97 ∷ []

abbrev pub block_command : List ℕ
block_command = 98 ∷ 108 ∷ 111 ∷ 99 ∷ 107 ∷ []

abbrev pub tx_command : List ℕ
tx_command = 116 ∷ 120 ∷ []

-- `Message::verack`, and so on.
unfoldable pub verack_message : Message
verack_message = record { command = verack_command; payload = verack }

unfoldable pub version_message : VersionMessage → Message
version_message v = record { command = version_command; payload = version v }

unfoldable pub inv_message : List InventoryVector → Message
inv_message items = record { command = inv_command; payload = inv items }

unfoldable pub getdata_message : List InventoryVector → Message
getdata_message items = record { command = getdata_command; payload = get_data items }

unfoldable pub block_message : Block → Message
block_message b = record { command = block_command; payload = MessagePayload.block b }

unfoldable pub tx_message : Transaction → Message
tx_message t = record { command = tx_command; payload = tx t }

-- A duration is a number.
pub data NetError : Type 0 where
  connection_closed : NetError
  io : String → NetError
  invalid_magic : NetError
  invalid_command : NetError
  -- length, limit
  payload_too_large : ℕ → ℕ → NetError
  -- the command
  checksum_mismatch : List ℕ → NetError
  decode : DecodeError → NetError
  handshake_violation : String → NetError
  handshake_timeout : ℕ → NetError
  self_connection : NetError
  connection_limit_reached : NetError
  outbound_queue_full : NetError
  event_queue_full : NetError
  registration_queue_full : NetError
  -- the command
  unsupported_command : List ℕ → NetError
  unknown_inventory_type : ℕ → NetError
  chain : ChainError → NetError
  -- attempted, details
  seeds_exhausted : ℕ → String → NetError
  task_join_failed : NetError
