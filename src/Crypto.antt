-- ===== src/Crypto.antt =====
-- crates/bitrst-crypto/src: what the repository computes from the hash functions and the signature
-- check of its dependencies, which are parameters.
use bitrst.Base.{ℕ, ◌-◌, List, length, take, Bool, false, ltb, if◌then◌else◌}
use bitrst.Wire.Bytes.{IsArray}

-- `Sha256::digest`, `Ripemd160::digest` (crates sha2 and ripemd) and `verify_ecdsa` over a DER
-- signature, a public key and a digest (crate secp256k1). The laws are the sizes of the digests.
pub record Primitives : Type 0 where
  pub sha256 : List ℕ → List ℕ
  pub ripemd160 : List ℕ → List ℕ
  pub verify_ecdsa : List ℕ → List ℕ → List ℕ → Bool
  pub sha256_array : (bs : List ℕ) → IsArray 32 (sha256 bs)
  pub ripemd160_array : (bs : List ℕ) → IsArray 20 (ripemd160 bs)

module _ (crypto : Primitives) where
  unfoldable pub sha256d : List ℕ → List ℕ
  sha256d bs = crypto.sha256 (crypto.sha256 bs)

  unfoldable pub hash160 : List ℕ → List ℕ
  hash160 bs = crypto.ripemd160 (crypto.sha256 bs)

  pub sha256d-IsArray : (bs : List ℕ) → IsArray 32 (sha256d bs)
  unfolding sha256d
  sha256d-IsArray bs = crypto.sha256_array (crypto.sha256 bs)

  pub hash160-IsArray : (bs : List ℕ) → IsArray 20 (hash160 bs)
  unfolding hash160
  hash160-IsArray bs = crypto.ripemd160_array (crypto.sha256 bs)

  -- `verify_der_signature`: the last byte is the hash type, and a parse error is a failed check.
  unfoldable pub verify_der_signature : List ℕ → List ℕ → List ℕ → Bool
  verify_der_signature signature_with_hashtype pubkey sighash =
      if ltb (length signature_with_hashtype) 2
      then false
      else crypto.verify_ecdsa (take (length signature_with_hashtype - 1) signature_with_hashtype)
          pubkey sighash
