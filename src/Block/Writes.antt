-- ===== src/Block/Writes.antt =====
-- What the decoders of headers and blocks accept is exactly what the encoders write.
use bitrst.Base.{ℕ, ◌≡◌, refl, List, [], ◌∷◌, All, append-nil}
use bitrst.Wire.Writes.{
  Writes, Writes-pure, Writes-bind, Writes-read_bytes, Writes-read_u32, Writes-read_i32,
  Writes-read_limited_len,
}
use bitrst.Transaction.Types.{Transaction, IsTransaction}
use bitrst.Transaction.Encode.{encode as encode_transaction}
use bitrst.Transaction.Decode.{decode_from}
use bitrst.Transaction.Reads.{WithinLimits}
use bitrst.Transaction.Writes.{Writes-decode_many, Writes-decode_from}
use bitrst.Block.Types.{BlockHeader, Block, IsBlockHeader, IsBlock}
use bitrst.Block.Encode.{encode, encode_header}
use bitrst.Block.Decode.{decode_header, decode_block}
use bitrst.Block.Reads.{BlockWithinLimits}
use bitrst.Limits.{max_transactions_per_block}

abbrev pub HeaderBytes : BlockHeader → List ℕ → Type 0
HeaderBytes header bs = (bs ≡ encode_header header) × IsBlockHeader header

abbrev pub BlockBytes : Block → List ℕ → Type 0
BlockBytes block bs = (bs ≡ encode block) × IsBlock block × BlockWithinLimits block

pub Writes-decode_header : Writes decode_header HeaderBytes
unfolding decode_header encode_header
Writes-decode_header = Writes-bind _ _ (Writes-read_i32 _) (λ version bs₁ _ (e₁, h₁).
    Writes-bind _ _ (Writes-read_bytes 32 _) (λ previous bs₂ _ (e₂, h₂).
      Writes-bind _ _ (Writes-read_bytes 32 _) (λ root bs₃ _ (e₃, h₃).
        Writes-bind _ _ (Writes-read_u32 _) (λ time bs₄ _ (e₄, h₄).
          Writes-bind _ _ (Writes-read_u32 _) (λ bits bs₅ _ (e₅, h₅).
            Writes-bind _ _ (Writes-read_u32 _) (λ nonce bs₆ _ (e₆, h₆).
              Writes-pure
                (record {
                  version = version;
                  prev_blockhash = previous;
                  merkle_root = root;
                  time = time;
                  bits = bits;
                  nonce = nonce;
                })
                (
                  rw (append-nil bs₆, e₁, e₂, e₃, e₄, e₅, e₆) refl,
                  record {
                    version = h₁;
                    prev_blockhash = h₂;
                    merkle_root = h₃;
                    time = h₄;
                    bits = h₅;
                    nonce = h₆;
                  },
                )))))))

abbrev GoodTransaction : Transaction → Type 0
GoodTransaction tx = IsTransaction tx × WithinLimits tx

All-good :
    (txs : List Transaction)
    → All GoodTransaction txs
    → All IsTransaction txs × All WithinLimits txs
All-good [] h = (tt, tt)
All-good (tx ∷ txs) h = let (typed, small) = All-good txs h.1 in ((h.0.0, typed), (h.0.1, small))

good_transaction : Writes decode_from (λ tx bs. (bs ≡ encode_transaction tx) × GoodTransaction tx)
good_transaction = record {
  at = λ r tx r' all run.
      let (bs, split, bytes, rest, (same, typed, small)) = Writes-decode_from.at r tx r' all run in
      (bs, split, bytes, rest, (same, (typed, small)));
}

pub Writes-decode_block : Writes decode_block BlockBytes
unfolding decode_block encode
Writes-decode_block = Writes-bind _ _ Writes-decode_header (λ header bs₁ _ (e₁, h₁).
    Writes-bind _ _ (Writes-read_limited_len _ max_transactions_per_block)
      (λ count bs₂ _ (e₂, _, small).
        Writes-bind _ _
          (Writes-decode_many decode_from encode_transaction GoodTransaction good_transaction count
            [])
          (λ transactions bs₃ _ (txs, same, size, e₃, good).
            let (typed, limits) = All-good txs good in
            Writes-pure (record { header = header; transactions = transactions })
              (
                rw (append-nil bs₃, e₁, e₂, e₃, same, size) refl,
                rw same (record { header = h₁; transactions = typed }),
                rw same (record { count = rw size small; transactions = limits }),
              ))))
