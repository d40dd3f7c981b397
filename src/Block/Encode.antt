-- ===== src/Block/Encode.antt =====
-- `serialize`, `serialized_size`, `hash` and `header_merkle_root_matches` of
-- crates/bitrst-core/src/block.rs.
use bitrst.Base.{
  ℕ, zero, suc, ◌+◌, ◌-◌, ◌≡◌, refl, sym, ap, ◌∙◌, List, [], ◌∷◌, ◌++◌, length, take, drop,
  replicate, length-append, take-append, append_assoc, append-nil, arith,
}
use bitrst.Base.Int.{i32_bits}
use bitrst.Wire.Bytes.{to_le_bytes, length-to_le_bytes}
use bitrst.Wire.CompactSize.{
  compact_size, write_compact_size, compact_size_encoded_len, write_compact_size-append,
}
use bitrst.Crypto.{Primitives, sha256d}
use bitrst.Transaction.Types.{Transaction}
use bitrst.Transaction.Encode.{concat_by, sum_by, serialize-encode}
use bitrst.Transaction.Encode.{
  serialize as serialize_transaction, serialized_size as transaction_size,
  encode as encode_transaction,
}
use bitrst.Block.Types.{BlockHeader, Block, IsBlockHeader}

-- `out[start..start + bytes.len()].copy_from_slice(bytes)`
unfoldable pub copy_at : ℕ → List ℕ → List ℕ → List ℕ
copy_at start bytes out = take start out ++ (bytes ++ drop (start + length bytes) out)

unfoldable pub serialize_header : BlockHeader → List ℕ
serialize_header header =
    let out₁ = copy_at 0 (to_le_bytes 4 (i32_bits header.version)) (replicate 80 0) in
    let out₂ = copy_at 4 header.prev_blockhash out₁ in
    let out₃ = copy_at 36 header.merkle_root out₂ in
    let out₄ = copy_at 68 (to_le_bytes 4 header.time) out₃ in
    let out₅ = copy_at 72 (to_le_bytes 4 header.bits) out₄ in
    copy_at 76 (to_le_bytes 4 header.nonce) out₅

unfoldable pub write_transactions : List Transaction → List ℕ → List ℕ
write_transactions [] out = out
write_transactions (tx ∷ txs) out = write_transactions txs (out ++ serialize_transaction tx)

unfoldable pub serialize : Block → List ℕ
serialize block =
    let out = write_compact_size (length block.transactions) (serialize_header block.header) in
    write_transactions block.transactions out

unfoldable pub serialized_size : Block → ℕ
serialized_size block =
    80
    + compact_size_encoded_len (length block.transactions)
    + sum_by transaction_size block.transactions

unfoldable pub hash_header : Primitives → BlockHeader → List ℕ
hash_header crypto header = sha256d crypto (serialize_header header)

abbrev pub hash : Primitives → Block → List ℕ
hash crypto block = hash_header crypto block.header

-- The format as a concatenation.
unfoldable pub encode_header : BlockHeader → List ℕ
encode_header header =
    to_le_bytes 4 (i32_bits header.version)
    ++ (header.prev_blockhash
        ++ (header.merkle_root
            ++ (to_le_bytes 4 header.time
                ++ (to_le_bytes 4 header.bits ++ to_le_bytes 4 header.nonce))))

unfoldable pub encode : Block → List ℕ
encode block =
    encode_header block.header
    ++ (compact_size (length block.transactions) ++ concat_by encode_transaction block.transactions)

drop-replicate : (n k : ℕ) → drop {A = ℕ} n (replicate k 0) ≡ replicate (k - n) 0
drop-replicate zero k = ap (λ m. replicate m 0) (omega arith)
drop-replicate (suc n) zero = let e : 0 - suc n ≡ 0 = omega arith in rw e refl
drop-replicate (suc n) (suc k) =
    let e : suc k - suc n ≡ k - n = omega arith in rw e (drop-replicate n k)

drop_more : (p z : List ℕ) (n : ℕ) → drop (length p + n) (p ++ z) ≡ drop n z
drop_more [] z n = ap (λ m. drop m z) (omega arith)
drop_more (x ∷ p) z n =
    let e : suc (length p) + n ≡ suc (length p + n) = omega arith in rw e (drop_more p z n)

-- A copy behind what is already filled eats as many of the zeros.
copy_at_fill :
    (start n rest : ℕ) (p bytes : List ℕ)
    → length p ≡ start
    → length bytes ≡ n
    → copy_at start bytes (p ++ replicate (n + rest) 0) ≡ (p ++ bytes) ++ replicate rest 0
unfolding copy_at
copy_at_fill start n rest p bytes e size =
    let left : n + rest - n ≡ rest = omega arith in
    rw (← e, size)
      (rw
        (
          take-append p (replicate (n + rest) 0),
          drop_more p (replicate (n + rest) 0) n,
          drop-replicate n (n + rest),
          left,
        )
        (sym (append_assoc p bytes (replicate rest 0))))

-- The six copies fill the eighty bytes one after the other.
pub serialize_header-encode :
    (header : BlockHeader) → IsBlockHeader header → serialize_header header ≡ encode_header header
unfolding serialize_header encode_header
serialize_header-encode header h =
    let a = to_le_bytes 4 (i32_bits header.version) in
    let b = header.prev_blockhash in
    let c = header.merkle_root in
    let d = to_le_bytes 4 header.time in
    let e = to_le_bytes 4 header.bits in
    let f = to_le_bytes 4 header.nonce in
    let la : length a ≡ 4 = length-to_le_bytes 4 _ in
    let ld : length d ≡ 4 = length-to_le_bytes 4 _ in
    let le : length e ≡ 4 = length-to_le_bytes 4 _ in
    let lf : length f ≡ 4 = length-to_le_bytes 4 _ in
    let l₂ = length-append a b in
    let l₃ = length-append (a ++ b) c in
    let l₄ = length-append ((a ++ b) ++ c) d in
    let l₅ = length-append (((a ++ b) ++ c) ++ d) e in
    rw
      (
        copy_at_fill 0 4 76 [] a refl la,
        copy_at_fill 4 32 44 a b la h.prev_blockhash.size,
        copy_at_fill 36 32 12 (a ++ b) c (omega (arith, h.prev_blockhash.size)) h.merkle_root.size,
        copy_at_fill 68 4 8 ((a ++ b) ++ c) d
            (omega (arith, h.prev_blockhash.size, h.merkle_root.size)) ld,
        copy_at_fill 72 4 4 (((a ++ b) ++ c) ++ d) e
            (omega (arith, h.prev_blockhash.size, h.merkle_root.size)) le,
        copy_at_fill 76 4 0 ((((a ++ b) ++ c) ++ d) ++ e) f
            (omega (arith, h.prev_blockhash.size, h.merkle_root.size)) lf,
      )
      (simp (append_assoc, append-nil))

write_transactions-append :
    (txs : List Transaction) (out : List ℕ)
    → write_transactions txs out ≡ out ++ concat_by encode_transaction txs
unfolding write_transactions
write_transactions-append [] out = sym (append-nil out)
write_transactions-append (tx ∷ txs) out =
    write_transactions-append txs (out ++ serialize_transaction tx)
    ∙ rw (serialize-encode, append_assoc)

pub serialize-encode_block :
    (block : Block) → IsBlockHeader block.header → serialize block ≡ encode block
unfolding serialize encode
serialize-encode_block block h = rw (
  write_transactions-append,
  write_compact_size-append,
  serialize_header-encode block.header h,
  append_assoc,
)
