-- ===== src/Tests/Data.antt =====
-- Inputs that the tests share: primitives that can be computed, and small transactions and blocks.
use bitrst.Base.{ℕ, ◌+◌, refl, List, [], ◌∷◌, length, replicate, ◌==◌, arith}
use bitrst.Base.Int.{pos}
use bitrst.Wire.Bytes.{IsArray, to_le_bytes, from_le_bytes, length-to_le_bytes, to_le_bytes-IsByte}
use bitrst.Crypto.{Primitives}
use bitrst.Transaction.Types.{Transaction, IsTransaction, u32_max}
use bitrst.Transaction.Reads.{WithinLimits}
use bitrst.Block.Types.{Block, IsBlock}
use bitrst.Block.Reads.{BlockWithinLimits}

-- A digest that is the input read as a number, plus one.
abbrev pub digest : ℕ → List ℕ → List ℕ
digest n bs = to_le_bytes n (from_le_bytes bs + 1)

pub digest-IsArray : (n : ℕ) (bs : List ℕ) → IsArray n (digest n bs)
digest-IsArray n bs = record {
  size = length-to_le_bytes n (from_le_bytes bs + 1);
  bytes = to_le_bytes-IsByte n (from_le_bytes bs + 1);
}

abbrev pub toy : Primitives
toy = record {
  sha256 = digest 32;
  ripemd160 = digest 20;
  verify_ecdsa = λ signature pubkey sighash. length signature == 2;
  sha256_array = digest-IsArray 32;
  ripemd160_array = digest-IsArray 20;
}

abbrev pub parent_id : List ℕ
parent_id = replicate 32 7

abbrev pub spend : Transaction
spend = record {
  version = pos 1;
  inputs =
      record { previous_output = parent_id; index = 0; script_sig = 0x51 ∷ []; sequence = u32_max }
      ∷ [];
  outputs =
      record { value = 600; script_pubkey = 0x51 ∷ [] }
      ∷ record { value = 300; script_pubkey = [] }
      ∷ [];
  lock_time = 0;
}

pub spend-IsTransaction : IsTransaction spend
spend-IsTransaction = record {
  version = omega arith;
  inputs = (
    record {
      previous_output = record { size = refl; bytes = omega arith };
      index = omega arith;
      script_sig = omega arith;
      sequence = omega arith;
    },
    tt,
  );
  outputs = (
    record { value = omega arith; script_pubkey = omega arith },
    (record { value = omega arith; script_pubkey = tt }, tt),
  );
  lock_time = omega arith;
}

pub spend-WithinLimits : WithinLimits spend
spend-WithinLimits = omega arith

abbrev pub block : Block
block = record {
  header = record {
    version = pos 1;
    prev_blockhash = replicate 32 9;
    merkle_root = replicate 32 5;
    time = 1_231_006_505;
    bits = 0x1d00_ffff;
    nonce = 3;
  };
  transactions = spend ∷ [];
}

pub block-IsBlock : IsBlock block
block-IsBlock = record {
  header = record {
    version = omega arith;
    prev_blockhash = record { size = refl; bytes = omega arith };
    merkle_root = record { size = refl; bytes = omega arith };
    time = omega arith;
    bits = omega arith;
    nonce = omega arith;
  };
  transactions = (spend-IsTransaction, tt);
}

pub block-WithinLimits : BlockWithinLimits block
block-WithinLimits = record { count = omega arith; transactions = (spend-WithinLimits, tt) }
