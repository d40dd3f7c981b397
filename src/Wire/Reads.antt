-- ===== src/Wire/Reads.antt =====
-- A decoder reads `a` off the bytes `bs`, whatever follows them: one rule for each way to build it.
use bitrst.Base.{
  ℕ, ◌+◌, ◌-◌, ◌^◌, ◌%◌, ◌≤◌, ◌<◌, ◌≡◌, refl, sym, ap, ◌∙◌, String, List, [], ◌∷◌, ◌++◌, length,
  drop, length-append, take-append, drop-append, drop-drop, length-drop, append_assoc, append-nil,
  subst, ltb, leb, if◌then◌else◌, ok, Bool-cases, inl, inr, arith, le→ltb,
}
use bitrst.Base.Int.{ℤ, IsI32, i32_bits, i32_bits-lt, i32_of_bits, i32_of_bits-i32_bits}
use bitrst.Wire.Bytes.{to_le_bytes, from_le_bytes, length-to_le_bytes, from_le_bytes-to_le_bytes}
use bitrst.Wire.Reader.{
  WireReader, Decoder, ◌>>=◌, pure, fail, unread, advance, read_bytes, read_array, read_u32,
  read_i32, read_u64, limit_exceeded, check_minimum, first, compact_size_after, read_compact_size,
  read_limited_len,
}
use bitrst.Wire.CompactSize.{compact_size, write_compact_size}

pub record Reads {A : Type 0} (p : Decoder A) (bs : List ℕ) (a : A) : Type 0 where
  pub at :
      (r : WireReader) (tail : List ℕ) → unread r ≡ bs ++ tail → p r ≡ ok (a, advance r (length bs))

unread-advance : (r : WireReader) (n : ℕ) → unread (advance r n) ≡ drop n (unread r)
unread-advance r n = sym (drop-drop r.position n r.bytes)

pub unread-advance-append :
    (r : WireReader) (bs tail : List ℕ)
    → unread r ≡ bs ++ tail
    → unread (advance r (length bs)) ≡ tail
unread-advance-append r bs tail h =
    unread-advance r (length bs) ∙ ap (drop (length bs)) h ∙ drop-append bs tail

-- What is left to read counts the unread bytes.
pub left-unread :
    (r : WireReader) (bs tail : List ℕ)
    → unread r ≡ bs ++ tail
    → length r.bytes - r.position ≡ length bs + length tail
left-unread r bs tail h = sym (length-drop r.position r.bytes) ∙ ap length h ∙ length-append bs tail

pub Reads-pure : {A : Type 0} (a : A) → Reads (pure a) [] a
unfolding pure
Reads-pure a = record {
  at = λ r tail h. ap (λ (n : ℕ). ok (a, record r { position = n })) (omega arith);
}

pub Reads-bind :
    {A B : Type 0} (p : Decoder A) (f : A → Decoder B) {bs cs : List ℕ} {a : A} {b : B}
    → Reads p bs a
    → Reads (f a) cs b
    → Reads (p >>= f) (bs ++ cs) b
unfolding ◌>>=◌
Reads-bind p f {bs} {cs} {a} {b} hp hf = record {
  at = λ r tail h.
      let h' : unread r ≡ bs ++ (cs ++ tail) = h ∙ append_assoc bs cs tail in
      rw (hp.at r (cs ++ tail) h') (
        hf.at (advance r (length bs)) tail (unread-advance-append r bs (cs ++ tail) h')
        ∙ ap (λ (n : ℕ). ok (b, record r { position = n })) (omega (arith, length-append bs cs)));
}

-- The last step of a block adds no bytes.
pub Reads-return :
    {A B : Type 0} (p : Decoder A) (f : A → B) {bs : List ℕ} {a : A}
    → Reads p bs a
    → Reads (p >>= λ x. pure (f x)) bs (f a)
Reads-return p f {bs} {a} hp =
    subst (λ cs. Reads (p >>= λ x. pure (f x)) cs (f a)) (append-nil bs)
      (Reads-bind p (λ x. pure (f x)) hp (Reads-pure (f a)))

pub Reads-read_bytes :
    (n : ℕ) (context : String) (bs : List ℕ) → length bs ≡ n → Reads (read_bytes n context) bs bs
unfolding read_bytes
Reads-read_bytes n context bs e = record {
  at = λ r tail h.
      rw
        (
          le→ltb (length r.bytes - r.position) n (omega (arith, left-unread r bs tail h)),
          ← e,
          h,
          take-append bs tail,
        )
        refl;
}

pub Reads-read_array :
    (n : ℕ) (context : String) (bs : List ℕ) → length bs ≡ n → Reads (read_array n context) bs bs
unfolding read_array
Reads-read_array n context bs e = record {
  at = λ r tail h.
      rw
        (
          le→ltb (length r.bytes - r.position) n (omega (arith, left-unread r bs tail h)),
          ← e,
          h,
          take-append bs tail,
        )
        refl;
}

pub Reads-read_u32 :
    (context : String) (v : ℕ) → v < 2 ^ 32 → Reads (read_u32 context) (to_le_bytes 4 v) v
unfolding read_u32
Reads-read_u32 context v h =
    subst (Reads (read_u32 context) (to_le_bytes 4 v)) (from_le_bytes-to_le_bytes 4 v h)
      (Reads-return _ from_le_bytes (Reads-read_array 4 context _ (length-to_le_bytes 4 v)))

pub Reads-read_u64 :
    (context : String) (v : ℕ) → v < 2 ^ 64 → Reads (read_u64 context) (to_le_bytes 8 v) v
unfolding read_u64
Reads-read_u64 context v h =
    subst (Reads (read_u64 context) (to_le_bytes 8 v)) (from_le_bytes-to_le_bytes 8 v h)
      (Reads-return _ from_le_bytes (Reads-read_array 8 context _ (length-to_le_bytes 8 v)))

pub Reads-read_i32 :
    (context : String) (z : ℤ) → IsI32 z → Reads (read_i32 context) (to_le_bytes 4 (i32_bits z)) z
unfolding read_i32
Reads-read_i32 context z h =
    let bits = from_le_bytes-to_le_bytes 4 (i32_bits z) (i32_bits-lt z) in
    subst (Reads (read_i32 context) (to_le_bytes 4 (i32_bits z)))
      (ap i32_of_bits bits ∙ i32_of_bits-i32_bits z h)
      (Reads-return _ (λ bs. i32_of_bits (from_le_bytes bs))
        (Reads-read_array 4 context _ (length-to_le_bytes 4 (i32_bits z))))

Reads-check_minimum :
    (context : String) (minimum value : ℕ)
    → minimum ≤ value
    → Reads (check_minimum context minimum value) [] value
unfolding check_minimum
Reads-check_minimum context minimum value h = rw (le→ltb value minimum h) (Reads-pure value)

-- A length prefix of `width` bytes, checked against the least value that needs it.
Reads-prefix :
    (context : String) (width minimum value : ℕ)
    → value < 256 ^ width
    → minimum ≤ value
    → Reads
        (read_array width context >>= λ bytes. check_minimum context minimum (from_le_bytes bytes))
        (to_le_bytes width value)
        value
Reads-prefix context width minimum value fits canonical =
    subst
      (λ bs.
        Reads
          (read_array width context >>= λ bytes.
            check_minimum context minimum (from_le_bytes bytes))
          bs value)
      (append-nil (to_le_bytes width value))
      (Reads-bind _ (λ bytes. check_minimum context minimum (from_le_bytes bytes))
        (Reads-read_array width context _ (length-to_le_bytes width value))
        (rw (from_le_bytes-to_le_bytes width value fits)
          (Reads-check_minimum context minimum value canonical)))

Reads-tagged :
    (context : String) (tag : ℕ) {bs : List ℕ} {value : ℕ}
    → Reads (compact_size_after context tag) bs value
    → Reads (read_compact_size context) (tag ∷ bs) value
unfolding read_compact_size
Reads-tagged context tag h =
    Reads-bind _ (λ bytes. compact_size_after context (first bytes))
      (Reads-read_array 1 context (tag ∷ []) refl) h

-- Every 64-bit value is read back from its compact size.
pub Reads-read_compact_size :
    (context : String) (value : ℕ)
    → value < 2 ^ 64
    → Reads (read_compact_size context) (compact_size value) value
unfolding compact_size write_compact_size compact_size_after
Reads-read_compact_size context value h = elim (Bool-cases (leb value 0xfc)) [
  | inl e ↦ rw e (
      Reads-tagged context (value % 2 ^ 8)
        (let small : value % 2 ^ 8 ≡ value = ground arith in rw (small, e) (Reads-pure value)))
  | inr e ↦ rw e (elim (Bool-cases (leb value 0xffff)) [
    | inl e₂ ↦ rw e₂ (
        Reads-tagged context 0xfd (
          let small : value % 2 ^ 16 ≡ value = ground arith in
          rw small (Reads-prefix context 2 0xfd value (ground arith) (ground arith))))
    | inr e₂ ↦ rw e₂ (elim (Bool-cases (leb value 0xffff_ffff)) [
      | inl e₃ ↦ rw e₃ (
          Reads-tagged context 0xfe (
            let small : value % 2 ^ 32 ≡ value = ground arith in
            rw small (Reads-prefix context 4 0x1_0000 value (ground arith) (ground arith))))
      | inr e₃ ↦ rw e₃ (
          Reads-tagged context 0xff
            (Reads-prefix context 8 0x1_0000_0000 value (ground arith) (ground arith)))
    ])
  ])
]

pub Reads-read_limited_len :
    (context : String) (limit value : ℕ)
    → value ≤ limit
    → value < 2 ^ 64
    → Reads (read_limited_len context limit) (compact_size value) value
unfolding read_limited_len
Reads-read_limited_len context limit value h fits =
    subst (λ bs. Reads (read_limited_len context limit) bs value) (append-nil (compact_size value))
      (Reads-bind (read_compact_size context)
        (λ v. if ltb limit v then fail (limit_exceeded context v limit) else pure v)
        (Reads-read_compact_size context value fits) (rw (le→ltb limit value h) (Reads-pure value)))
