-- ===== src/Transaction/Types.antt =====
-- `TxInput`, `TxOutput` and `Transaction` of crates/bitrst-core/src/transaction.rs, with the ranges
-- that their Rust types give.
use bitrst.Base.{ℕ, ◌^◌, ◌-◌, ◌<◌, List, [], ◌∷◌, replicate, All}
use bitrst.Base.Int.{ℤ, pos, IsI32}
use bitrst.Wire.Bytes.{IsByte, IsArray, to_le_bytes}

pub record TxInput : Type 0 where
  pub previous_output : List ℕ
  pub index : ℕ
  pub script_sig : List ℕ
  pub sequence : ℕ

pub record TxOutput : Type 0 where
  pub value : ℕ
  pub script_pubkey : List ℕ

pub record Transaction : Type 0 where
  pub version : ℤ
  pub inputs : List TxInput
  pub outputs : List TxOutput
  pub lock_time : ℕ

abbrev pub u32_max : ℕ
u32_max = 2 ^ 32 - 1

pub record IsTxInput (input : TxInput) : Type 0 where
  pub previous_output : IsArray 32 input.previous_output
  pub index : input.index < 2 ^ 32
  pub script_sig : All IsByte input.script_sig
  pub sequence : input.sequence < 2 ^ 32

pub record IsTxOutput (output : TxOutput) : Type 0 where
  pub value : output.value < 2 ^ 64
  pub script_pubkey : All IsByte output.script_pubkey

pub record IsTransaction (tx : Transaction) : Type 0 where
  pub version : IsI32 tx.version
  pub inputs : All IsTxInput tx.inputs
  pub outputs : All IsTxOutput tx.outputs
  pub lock_time : tx.lock_time < 2 ^ 32

-- `Transaction::coinbase`
unfoldable pub coinbase : ℕ → ℕ → Transaction
coinbase height reward = record {
  version = pos 1;
  inputs =
      record {
        previous_output = replicate 32 0;
        index = u32_max;
        script_sig = to_le_bytes 4 height;
        sequence = u32_max;
      }
      ∷ [];
  outputs = record { value = reward; script_pubkey = [] } ∷ [];
  lock_time = 0;
}
