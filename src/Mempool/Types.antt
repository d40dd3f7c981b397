-- ===== src/Mempool/Types.antt =====
-- The types of crates/bitrst-core/src/mempool.rs.
use bitrst.Base.{ℕ, List, [], String, Option, none, some, Bool, true, false}
use bitrst.Base.Map
use bitrst.Base.Map.{Map}
use bitrst.Base.Keys.{bytes_discrete}
use bitrst.Limits.{default_max_mempool_tx_count, default_max_mempool_bytes}
use bitrst.Sighash.{SighashError}
use bitrst.Transaction.Types.{Transaction}
use bitrst.Utxo.Types.{OutPoint, UtxoError}
use mathlib.Core.Option

pub record MempoolLimits : Type 0 where
  pub max_tx_count : ℕ
  pub max_bytes : ℕ

abbrev pub default : MempoolLimits
default = record {
  max_tx_count = default_max_mempool_tx_count;
  max_bytes = default_max_mempool_bytes;
}

pub record AcceptedTx : Type 0 where
  pub txid : List ℕ
  pub fee : ℕ
  pub size : ℕ

pub data MempoolError : Type 0 where
  coinbase_rejected : MempoolError
  duplicate : List ℕ → MempoolError
  -- txid, index
  duplicate_input : List ℕ → ℕ → MempoolError
  -- size, limit
  oversized : ℕ → ℕ → MempoolError
  malformed : String → MempoolError
  utxo : UtxoError → MempoolError
  -- outpoint, existing txid
  conflicting_spend : OutPoint → List ℕ → MempoolError
  invalid_script : MempoolError
  sighash : SighashError → MempoolError
  at_capacity : MempoolError

pub record MempoolEntry : Type 0 where
  pub tx : Transaction
  pub fee_rate : ℕ
  pub size : ℕ
  pub seq : ℕ

pub record Mempool : Type 0 where
  pub limits : MempoolLimits
  pub entries : Map (List ℕ) MempoolEntry
  pub spends : Map OutPoint (List ℕ)
  pub total_bytes : ℕ
  pub next_seq : ℕ

unfoldable pub new : MempoolLimits → Mempool
new limits = record { limits = limits; entries = []; spends = []; total_bytes = 0; next_seq = 0 }

unfoldable pub len : Mempool → ℕ
len pool = Map.size pool.entries

abbrev has : {A : Type 0} → Option A → Bool
has none = false
has (some a) = true

unfoldable pub contains : Mempool → List ℕ → Bool
contains pool txid = has (Map.get bytes_discrete txid pool.entries)

unfoldable pub get_transaction : Mempool → List ℕ → Option Transaction
get_transaction pool txid =
    Option.map (λ entry. entry.tx) (Map.get bytes_discrete txid pool.entries)
