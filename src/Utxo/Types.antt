-- ===== src/Utxo/Types.antt =====
-- `OutPoint`, `UtxoEntry`, `TxUndo`, `UtxoError` and `UtxoSet` of crates/bitrst-core/src/utxo.rs.
use bitrst.Base.{
  ℕ, ◌≡◌, ap, ◌^◌, ◌+◌, List, [], ◌∷◌, Option, none, some, Bool, false, ◌&&◌, length, ltb, ◌==◌,
  if◌then◌else◌, replicate, ℕ_discrete,
}
use bitrst.Base.Map
use bitrst.Base.Map.{Map}
use bitrst.Base.Keys.{bytes_discrete, holds}
use bitrst.Transaction.Types.{TxInput, Transaction, u32_max}
use mathlib.Core.Option

pub record OutPoint : Type 0 where
  pub txid : List ℕ
  pub index : ℕ

pub record UtxoEntry : Type 0 where
  pub value : ℕ
  pub script_pubkey : List ℕ

pub record TxUndo : Type 0 where
  pub removed : List (OutPoint × UtxoEntry)
  pub created : List OutPoint

pub data UtxoError : Type 0 where
  missing_input : List ℕ → ℕ → UtxoError
  negative_output_value : UtxoError
  value_overflow : UtxoError
  input_output_mismatch : ℕ → ℕ → UtxoError
  duplicate_spend : List ℕ → ℕ → UtxoError

pub record UtxoSet : Type 0 where
  pub entries : Map OutPoint UtxoEntry

both : (a b : OutPoint) → Dec (a.txid ≡ b.txid) → Dec (a.index ≡ b.index) → Dec (a ≡ b)
both a b (yes p) (yes q) = yes (λ i. record { txid = p i; index = q i })
both a b (yes p) (no q) = no (λ e. q (ap (λ o. o.index) e))
both a b (no p) q = no (λ e. p (ap (λ o. o.txid) e))

unfoldable pub outpoint_discrete : Discrete OutPoint
unfolding both bytes_discrete ℕ_discrete
outpoint_discrete a b = both a b (bytes_discrete a.txid b.txid) (ℕ_discrete a.index b.index)

unfoldable pub new : UtxoSet
new = record { entries = [] }

unfoldable pub get : UtxoSet → OutPoint → Option UtxoEntry
get set outpoint = Map.get outpoint_discrete outpoint set.entries

abbrev has : {A : Type 0} → Option A → Bool
has none = false
has (some a) = Bool.true

unfoldable pub contains : UtxoSet → OutPoint → Bool
contains set outpoint = has (get set outpoint)

unfoldable pub get_value : UtxoSet → OutPoint → Option ℕ
get_value set outpoint = Option.map (λ entry. entry.value) (get set outpoint)

-- The output that an input spends.
abbrev pub outpoint_of : TxInput → OutPoint
outpoint_of input = record { txid = input.previous_output; index = input.index }

abbrev is_null : List TxInput → Bool
is_null [] = false
is_null (input ∷ inputs) =
    holds (bytes_discrete input.previous_output (replicate 32 0)) && (input.index == u32_max)

unfoldable pub is_coinbase : Transaction → Bool
is_coinbase tx = (length tx.inputs == 1) && is_null tx.inputs

-- `u64::checked_add`
unfoldable pub checked_add : ℕ → ℕ → Option ℕ
checked_add a b = if ltb (a + b) (2 ^ 64) then some (a + b) else none
