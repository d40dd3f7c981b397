-- ===== src/Net/Inventories.antt =====
-- The inventories of crates/bitrst-net/src/codec are read back.
use bitrst.Base.{
  ℕ, ◌-◌, ◌^◌, ◌<◌, ◌≤◌, ◌≡◌, refl, sym, ap, ◌∙◌, String, List, [], ◌∷◌, ◌++◌, length, append_assoc,
  append-nil, All, length-drop, some, ok, eq→==, le→ltb, arith,
}
use bitrst.Wire.Bytes.{to_le_bytes}
use bitrst.Wire.CompactSize.{compact_size, write_compact_size-append}
use bitrst.Wire.Reader.{WireReader, new, unread, advance, finish}
use bitrst.Wire.Reads.{
  Reads-read_u32, Reads-read_bytes, Reads-read_limited_len, unread-advance-append,
}
use bitrst.Transaction.Encode.{concat_by}
use bitrst.Net.Types.{
  InvType, transaction, block, filtered_block, InventoryVector, from_u32, to_u32, max_inv_count,
}
use bitrst.Net.Codec.{
  read_item, read_items, decode_inventory_list, write_items, encode_inventory_list,
}

-- A list that is sent has no more than the limit, and hashes of 32 bytes.
pub record IsInventory (items : List InventoryVector) : Type 0 where
  pub fits : length items ≤ max_inv_count
  pub hashes : All (λ item. length item.hash ≡ 32) items

abbrev encode_item : InventoryVector → List ℕ
encode_item item = to_le_bytes 4 (to_u32 item.inv_type) ++ item.hash

from_u32-to_u32 : (t : InvType) → from_u32 (to_u32 t) ≡ some t
unfolding from_u32 to_u32
from_u32-to_u32 transaction = refl
from_u32-to_u32 block = refl
from_u32-to_u32 filtered_block = refl

to_u32-lt : (t : InvType) → to_u32 t < 2 ^ 32
unfolding to_u32
to_u32-lt transaction = omega arith
to_u32-lt block = omega arith
to_u32-lt filtered_block = omega arith

read_item-ok :
    (item : InventoryVector) (r : WireReader) (tail : List ℕ)
    → length item.hash ≡ 32
    → unread r ≡ encode_item item ++ tail
    → (after : WireReader) × (read_item r ≡ ok (item, after)) × (unread after ≡ tail)
unfolding read_item
read_item-ok item r tail size h =
    let head = to_le_bytes 4 (to_u32 item.inv_type) in
    let h₁ : unread r ≡ head ++ (item.hash ++ tail) = h ∙ append_assoc head item.hash tail in
    let r₁ = advance r (length head) in
    let h₂ : unread r₁ ≡ item.hash ++ tail = unread-advance-append r head (item.hash ++ tail) h₁ in
    (
      advance r₁ (length item.hash),
      rw
          (
            (Reads-read_u32 "inv entry type" (to_u32 item.inv_type) (to_u32-lt item.inv_type)).at r
                (item.hash ++ tail) h₁,
            from_u32-to_u32 item.inv_type,
            (Reads-read_bytes 32 "inv entry hash" item.hash size).at r₁ tail h₂,
          )
          refl,
      unread-advance-append r₁ item.hash tail h₂,
    )

read_items-ok :
    (before items : List InventoryVector) (r : WireReader) (tail : List ℕ)
    → All (λ item. length item.hash ≡ 32) items
    → unread r ≡ concat_by encode_item items ++ tail
    → (after : WireReader) × (read_items (length items) before r ≡ ok (before ++ items, after))
      × (unread after ≡ tail)
unfolding read_items
read_items-ok before [] r tail sizes h =
    (r, ap (λ (xs : List InventoryVector). ok (xs, r)) (sym (append-nil before)), h)
read_items-ok before (item ∷ items) r tail sizes h =
    let (r₁, e₁, h₁) =
      read_item-ok item r (concat_by encode_item items ++ tail) sizes.0
        (h ∙ append_assoc (encode_item item) (concat_by encode_item items) tail) in
    let (r₂, e₂, h₂) = read_items-ok (before ++ (item ∷ [])) items r₁ tail sizes.1 h₁ in
    (r₂, rw (e₁, e₂, append_assoc before (item ∷ []) items) refl, h₂)

pub finish-empty : (r : WireReader) (context : String) → unread r ≡ [] → finish r context ≡ ok tt
unfolding finish
finish-empty r context h =
    let none_left : length r.bytes - r.position ≡ 0 =
      sym (length-drop r.position r.bytes) ∙ ap length h in
    rw (eq→== (length r.bytes - r.position) 0 none_left) refl

write_items-append :
    (items : List InventoryVector) (out : List ℕ)
    → write_items items out ≡ out ++ concat_by encode_item items
unfolding write_items
write_items-append [] out = sym (append-nil out)
write_items-append (item ∷ items) out =
    write_items-append items ((out ++ to_le_bytes 4 (to_u32 item.inv_type)) ++ item.hash)
    ∙ simp append_assoc

abbrev pub inventory_bytes : List InventoryVector → List ℕ
inventory_bytes items = compact_size (length items) ++ concat_by encode_item items

module _ (items : List InventoryVector) (h : IsInventory items) where
  pub encode_inventory_list-ok : encode_inventory_list items ≡ ok (inventory_bytes items)
  unfolding encode_inventory_list
  encode_inventory_list-ok =
      rw
        (
          le→ltb _ _ h.fits,
          write_compact_size-append (length items) [],
          write_items-append items (compact_size (length items)),
        )
        refl

  pub decode_inventory_list-ok :
      (context : String) → decode_inventory_list (inventory_bytes items) context ≡ ok items
  unfolding decode_inventory_list new
  decode_inventory_list-ok context =
      let count = compact_size (length items) in
      let rest = concat_by encode_item items in
      let r = new (inventory_bytes items) in
      let r₁ = advance r (length count) in
      let h₁ : unread r₁ ≡ rest = unread-advance-append r count rest refl in
      let (r₂, e₂, h₂) = read_items-ok [] items r₁ [] h.hashes (h₁ ∙ sym (append-nil rest)) in
      rw
        (
          (Reads-read_limited_len context max_inv_count (length items) h.fits
                (omega (arith, h.fits))).at
              r rest refl,
          e₂,
          finish-empty r₂ context h₂,
        )
        refl
