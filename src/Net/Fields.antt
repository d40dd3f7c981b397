-- ===== src/Net/Fields.antt =====
-- The fields of a version message in crates/bitrst-net/src/codec/version.rs, and read_limited_string
-- of wire_helpers.rs.
use bitrst.Base.{ℕ, List, Bool, String, if◌then◌else◌}
use bitrst.Base.Int.{i64_of_bits}
use bitrst.Wire.Bytes.{from_le_bytes}
use bitrst.Wire.Reader.{
  Decoder, ◌>>=◌, pure, fail, truncated, read_u64, read_i32, read_bytes, read_limited_len,
}
use bitrst.Net.Types
use bitrst.Net.Types.{VersionMessage}
use bitrst.Net.Utf8.{is_utf8}

unfoldable pub read_limited_string : String → ℕ → Decoder (List ℕ)
read_limited_string context max_len = do
  length ← read_limited_len context max_len
  bytes ← read_bytes length context
  if is_utf8 bytes then pure bytes else fail (truncated context 0 0)

-- The fields of `decode_version` up to the flag, and the message that a flag completes.
unfoldable pub version_fields : Decoder (Bool → VersionMessage)
version_fields = do
  version ← read_i32 "version"
  services ← read_u64 "services"
  timestamp ← read_bytes 8 "timestamp"
  _ ← read_bytes 26 "addr_recv"
  _ ← read_bytes 26 "addr_from"
  nonce ← read_u64 "nonce"
  user_agent ← read_limited_string "user agent" Types.max_user_agent_len
  start_height ← read_i32 "start height"
  pure (λ relay. record {
    version = version;
    services = services;
    timestamp = i64_of_bits (from_le_bytes timestamp);
    nonce = nonce;
    user_agent = user_agent;
    start_height = start_height;
    relay = relay;
  })
