-- ===== src/Block/RoundTrip.antt =====
-- The wire formats of headers and blocks are decoded to what was encoded, and to nothing else.
use bitrst.Base.{
  ℕ, ◌≤◌, ◌≡◌, sym, ◌∙◌, List, length, All, Bool-cases, inl, inr, ltb, ltb→le, le→ltb, ok, arith,
}
use bitrst.Wire.Bytes.{IsByte}
use bitrst.Transaction.RoundTrip.{Reads-whole, Writes-whole, finish-advance}
use bitrst.Block.Types.{BlockHeader, Block, IsBlockHeader, IsBlock}
use bitrst.Block.Encode.{
  serialize, serialize_header, serialized_size, serialize_header-encode, serialize-encode_block,
}
use bitrst.Block.Decode.{decode_header, decode_block}
use bitrst.Block.Deserialize.{deserialize, deserialize_header}
use bitrst.Block.Size.{length-serialize_block}
use bitrst.Block.Reads.{BlockWithinLimits, Reads-decode_header, Reads-decode_block}
use bitrst.Block.Writes.{HeaderBytes, BlockBytes, Writes-decode_header, Writes-decode_block}
use bitrst.Limits.{max_block_serialized_size}

-- On well-typed headers and on byte strings the two directions of the header codec are inverse:
-- a header is read back from its 80 bytes, and accepted bytes are those of the header returned.
pub header_codec :
    ((header : BlockHeader)
      → IsBlockHeader header
      → deserialize_header (serialize_header header) ≡ ok header)
    × ((bytes : List ℕ) (header : BlockHeader)
        → All IsByte bytes
        → deserialize_header bytes ≡ ok header
        → (serialize_header header ≡ bytes) × IsBlockHeader header)
unfolding deserialize_header
header_codec = (
  λ header h.
      rw
        (Reads-whole decode_header (serialize_header header) header
          (rw (serialize_header-encode header h) (Reads-decode_header header h)))
        (rw (finish-advance (serialize_header header) "block header")),
  λ bytes header h run.
      let (same, typed) =
        Writes-whole decode_header HeaderBytes "block header" bytes header Writes-decode_header h
          run in
      (serialize_header-encode header typed ∙ sym same, typed),
)

-- A block that its types and the decoder's limits admit is read back from its own bytes.
pub deserialize-serialize_block :
    (block : Block)
    → IsBlock block
    → BlockWithinLimits block
    → serialized_size block ≤ max_block_serialized_size
    → deserialize (serialize block) ≡ ok block
unfolding deserialize
deserialize-serialize_block block h k small =
    rw
      (le→ltb max_block_serialized_size (length (serialize block))
        (omega (arith, length-serialize_block block h)))
      (rw
        (Reads-whole decode_block (serialize block) block
          (rw (serialize-encode_block block h.header) (Reads-decode_block block h k)))
        (rw (finish-advance (serialize block) "block")))

-- Whatever bytes are accepted as a block are the serialization of the block that is returned, which
-- is within its types and the limits: no other bytes decode to it.
pub serialize-deserialize_block :
    (bytes : List ℕ) (block : Block)
    → All IsByte bytes
    → deserialize bytes ≡ ok block
    → (serialize block ≡ bytes)
      × IsBlock block
      × BlockWithinLimits block
      × (length bytes ≤ max_block_serialized_size)
unfolding deserialize
serialize-deserialize_block bytes block h run =
    elim (Bool-cases (ltb max_block_serialized_size (length bytes))) [
      | inl over ↦ absurd (ground arith)
      | inr within ↦
          let (same, typed, limits) =
            Writes-whole decode_block BlockBytes "block" bytes block Writes-decode_block h
              (rw within at run) in
          (serialize-encode_block block typed.header ∙ sym same, typed, limits, ltb→le _ _ within)
    ]
