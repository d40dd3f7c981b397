-- ===== src/Transaction/Deserialize.antt =====
-- `Transaction::deserialize` of crates/bitrst-core/src/transaction.rs.
use bitrst.Base.{ℕ, List, length, ltb, if◌then◌else◌, Result, ok, err, ◌>>=◌, ◌>>◌}
use bitrst.Wire.Reader.{DecodeError, limit_exceeded, new, finish}
use bitrst.Transaction.Types.{Transaction}
use bitrst.Transaction.Decode.{decode_from}
use bitrst.Limits.{max_transaction_serialized_size}

unfoldable pub deserialize : List ℕ → Result DecodeError Transaction
deserialize bytes =
    if ltb max_transaction_serialized_size (length bytes)
    then err (limit_exceeded "transaction size" (length bytes) max_transaction_serialized_size)
    else (do
      (transaction, reader) ← decode_from (new bytes)
      finish reader "transaction"
      ok transaction)
