-- ===== src/Wire/Writes.antt =====
-- What a successful decoder says of the bytes that it took: one rule for each way to build it.
use bitrst.Base.{
  ℕ, suc, ◌-◌, ◌^◌, ◌%◌, ◌≤◌, ◌<◌, ◌≡◌, refl, sym, ap, ◌∙◌, subst, String, List, [], ◌∷◌, ◌++◌,
  length, take, drop, All, All-append, All-take, All-drop, take-append-drop, length-take,
  length-drop, drop-drop, append_assoc, append-nil, ltb, leb, ◌==◌, if◌then◌else◌, Result, ok, err,
  Bool-cases, inl, inr, arith, ltb→le, ==→eq,
}
use bitrst.Base.Int.{ℤ, IsI32, i32_bits, i32_of_bits, i32_bits-i32_of_bits, i32_of_bits-IsI32}
use bitrst.Wire.Bytes.{
  IsByte, IsArray, to_le_bytes, from_le_bytes, from_le_bytes-lt, to_le_bytes-from_le_bytes,
}
use bitrst.Wire.Reader.{
  WireReader, Decoder, DecodeError, ◌>>=◌, pure, fail, unread, advance, read_bytes, read_array,
  read_u32, read_i32, read_u64, check_minimum, first, compact_size_after, read_compact_size,
  read_limited_len, limit_exceeded,
}
use bitrst.Wire.CompactSize.{compact_size, write_compact_size}

-- Whenever `p` succeeds it has taken bytes `bs` off the front of the input, and `P a bs` holds.
pub record Writes {A : Type 0} (p : Decoder A) (P : A → List ℕ → Type 0) : Type 0 where
  pub at :
      (r : WireReader) (a : A) (r' : WireReader)
      → All IsByte (unread r)
      → p r ≡ ok (a, r')
      → (bs : List ℕ) × (unread r ≡ bs ++ unread r')
        × All IsByte bs
        × All IsByte (unread r')
        × P a bs

module _ {A : Type 0} where
  pub ok_parts :
      (a b : A) (r s : WireReader)
      → ◌≡◌ {A = Result DecodeError (A × WireReader)} (ok (a, r)) (ok (b, s))
      → (a ≡ b) × (r ≡ s)
  ok_parts a b r s h = ground arith

  pub Writes-pure : {P : A → List ℕ → Type 0} (a : A) → P a [] → Writes (pure a) P
  unfolding pure
  Writes-pure {P} a h = record {
    at = λ r b r' all e.
        let (ea, er) = ok_parts a b r r' e in
        ([], ap unread er, tt, subst (λ s. All IsByte (unread s)) er all, subst (λ x. P x []) ea h);
  }

  pub Writes-fail : {P : A → List ℕ → Type 0} (e : DecodeError) → Writes (fail {A = A} e) P
  unfolding fail
  Writes-fail e = record { at = λ r b r' all h. absurd (ground arith) }

module _ {A B : Type 0} where
  bind-eq-ok :
      (p : Decoder A) (f : A → Decoder B) (r : WireReader) (b : B) (r'' : WireReader)
      → (p >>= f) r ≡ ok (b, r'')
      → (a : A) × (r' : WireReader) × (p r ≡ ok (a, r')) × (f a r' ≡ ok (b, r''))
  unfolding ◌>>=◌
  bind-eq-ok p f r b r'' h = go (p r) refl
    where
      go :
          (m : Result DecodeError (A × WireReader))
          → p r ≡ m
          → (a : A) × (r' : WireReader) × (p r ≡ ok (a, r')) × (f a r' ≡ ok (b, r''))
      go (ok (a, r')) e = (a, r', e, rw (e, ◌>>=◌) at h)
      go (err x) e = absurd (ground arith)

  pub Writes-bind :
      (p : Decoder A) (f : A → Decoder B) {P : A → List ℕ → Type 0} {Q : B → List ℕ → Type 0}
      → Writes p P
      → ((a : A) (bs : List ℕ) → All IsByte bs → P a bs → Writes (f a) (λ b cs. Q b (bs ++ cs)))
      → Writes (p >>= f) Q
  Writes-bind p f hp hf = record {
    at = λ r b r'' all h.
        let (a, r', e, e') = bind-eq-ok p f r b r'' h in
        let (bs, split, bytes, rest, good) = hp.at r a r' all e in
        let (cs, split', bytes', rest', good') = (hf a bs bytes good).at r' b r'' rest e' in
        (
          bs ++ cs,
          split ∙ ap (◌++◌ bs) split' ∙ sym (append_assoc bs cs (unread r'')),
          All-append IsByte bs cs bytes bytes',
          rest',
          good',
        );
  }

-- The bytes of a raw read are the value.
abbrev Raw : ℕ → List ℕ → List ℕ → Type 0
Raw n a bs = (bs ≡ a) × IsArray n a

Raw-read :
    (n : ℕ) (r : WireReader) (a : List ℕ) (r' : WireReader)
    → All IsByte (unread r)
    → n ≤ length r.bytes - r.position
    → ◌≡◌ {A = Result DecodeError (List ℕ × WireReader)}
        (ok (take n (unread r), advance r n))
        (ok (a, r'))
    → (bs : List ℕ) × (unread r ≡ bs ++ unread r')
      × All IsByte bs
      × All IsByte (unread r')
      × Raw n a bs
Raw-read n r a r' all enough h =
    let (ea, er) = ok_parts (take n (unread r)) a (advance r n) r' h in
    let after : drop n (unread r) ≡ unread r' = drop-drop r.position n r.bytes ∙ ap unread er in
    let bytes : All IsByte (take n (unread r)) = All-take IsByte n (unread r) all in
    let size : length (take n (unread r)) ≡ n =
      length-take n (unread r) (omega (arith, length-drop r.position r.bytes)) in
    (
      take n (unread r),
      sym (take-append-drop n (unread r)) ∙ ap (◌++◌ (take n (unread r))) after,
      bytes,
      subst (All IsByte) after (All-drop IsByte n (unread r) all),
      (ea, record { size = ap length (sym ea) ∙ size; bytes = subst (All IsByte) ea bytes }),
    )

pub Writes-read_bytes : (n : ℕ) (context : String) → Writes (read_bytes n context) (Raw n)
unfolding read_bytes
Writes-read_bytes n context = record {
  at = λ r a r' all h. elim (Bool-cases (ltb (length r.bytes - r.position) n)) [
    | inl short ↦ absurd (ground arith)
    | inr enough ↦ Raw-read n r a r' all (ltb→le _ _ enough) (rw enough at h)
  ];
}

pub Writes-read_array : (n : ℕ) (context : String) → Writes (read_array n context) (Raw n)
unfolding read_array
Writes-read_array n context = record {
  at = λ r a r' all h. elim (Bool-cases (ltb (length r.bytes - r.position) n)) [
    | inl short ↦ absurd (ground arith)
    | inr enough ↦ Raw-read n r a r' all (ltb→le _ _ enough) (rw enough at h)
  ];
}

-- An array of `n` bytes is the encoding of the number that it stands for.
Raw-value :
    (n : ℕ) (a bs : List ℕ)
    → Raw n a bs
    → (bs ++ [] ≡ to_le_bytes n (from_le_bytes a)) × (from_le_bytes a < 256 ^ n)
Raw-value n a bs (same, h) =
    let e : length a ≡ n = h.size in
    (
      append-nil bs
          ∙ same
          ∙ sym (to_le_bytes-from_le_bytes a h.bytes)
          ∙ ap (λ k. to_le_bytes k (from_le_bytes a)) e,
      subst (λ k. from_le_bytes a < 256 ^ k) e (from_le_bytes-lt a h.bytes),
    )

abbrev pub Number : ℕ → ℕ → List ℕ → Type 0
Number n v bs = (bs ≡ to_le_bytes n v) × (v < 256 ^ n)

pub Writes-read_u32 : (context : String) → Writes (read_u32 context) (Number 4)
unfolding read_u32
Writes-read_u32 context =
    Writes-bind _ _ (Writes-read_array 4 context)
      (λ a bs _ h. Writes-pure (from_le_bytes a) (Raw-value 4 a bs h))

pub Writes-read_u64 : (context : String) → Writes (read_u64 context) (Number 8)
unfolding read_u64
Writes-read_u64 context =
    Writes-bind _ _ (Writes-read_array 8 context)
      (λ a bs _ h. Writes-pure (from_le_bytes a) (Raw-value 8 a bs h))

abbrev pub Signed : ℤ → List ℕ → Type 0
Signed z bs = (bs ≡ to_le_bytes 4 (i32_bits z)) × IsI32 z

pub Writes-read_i32 : (context : String) → Writes (read_i32 context) Signed
unfolding read_i32
Writes-read_i32 context = Writes-bind _ _ (Writes-read_array 4 context) (λ a bs _ h.
    let (same, fits) = Raw-value 4 a bs h in
    Writes-pure (i32_of_bits (from_le_bytes a)) (
      same ∙ ap (to_le_bytes 4) (sym (i32_bits-i32_of_bits (from_le_bytes a) (omega arith))),
      i32_of_bits-IsI32 (from_le_bytes a) (omega arith),
    ))

abbrev pub Compact : ℕ → List ℕ → Type 0
Compact v bs = (bs ≡ compact_size v) × (v < 2 ^ 64)

Writes-check_minimum :
    {P : ℕ → List ℕ → Type 0} (context : String) (minimum value : ℕ)
    → (minimum ≤ value → P value [])
    → Writes (check_minimum context minimum value) P
unfolding check_minimum
Writes-check_minimum context minimum value h = elim (Bool-cases (ltb value minimum)) [
  | inl low ↦ rw low (Writes-fail _)
  | inr fits ↦ rw fits (Writes-pure value (h (ltb→le _ _ fits)))
]

-- A tag and the value behind it are the compact size that the value's range asks for.
Writes-prefix :
    (context : String) (tag width minimum : ℕ)
    → ((v : ℕ) → minimum ≤ v → v < 256 ^ width → Compact v (tag ∷ to_le_bytes width v))
    → Writes
        (read_array width context >>= λ bytes. check_minimum context minimum (from_le_bytes bytes))
        (λ v bs. Compact v (tag ∷ bs))
Writes-prefix context tag width minimum h =
    Writes-bind _ (λ bytes. check_minimum context minimum (from_le_bytes bytes))
      (Writes-read_array width context)
      (λ a bs _ raw.
        let (same, fits) = Raw-value width a bs raw in
        Writes-check_minimum context minimum (from_le_bytes a)
          (λ low. rw same (h (from_le_bytes a) low fits)))

Compact-one : (v : ℕ) → v ≤ 0xfc → Compact v (v ∷ [])
unfolding compact_size write_compact_size
Compact-one v h = ground arith

Compact-two : (v : ℕ) → 0xfd ≤ v → v < 256 ^ 2 → Compact v (0xfd ∷ to_le_bytes 2 v)
unfolding compact_size write_compact_size
Compact-two v low h = let same : v % 2 ^ 16 ≡ v = omega arith in ground arith

Compact-four : (v : ℕ) → 0x1_0000 ≤ v → v < 256 ^ 4 → Compact v (0xfe ∷ to_le_bytes 4 v)
unfolding compact_size write_compact_size
Compact-four v low h = let same : v % 2 ^ 32 ≡ v = omega arith in ground arith

Compact-eight : (v : ℕ) → 0x1_0000_0000 ≤ v → v < 256 ^ 8 → Compact v (0xff ∷ to_le_bytes 8 v)
unfolding compact_size write_compact_size
Compact-eight v low h = ground arith

Writes-compact_size_after :
    (context : String) (tag : ℕ)
    → tag < 256
    → Writes (compact_size_after context tag) (λ v bs. Compact v (tag ∷ bs))
unfolding compact_size_after
Writes-compact_size_after context tag byte = elim (Bool-cases (leb tag 0xfc)) [
  | inl e ↦ rw e (Writes-pure tag (Compact-one tag (ground arith)))
  | inr e ↦ elim (Bool-cases (tag == 0xfd)) [
    | inl e₂ ↦ rw (e, e₂) (rw (==→eq _ _ e₂) (Writes-prefix context 0xfd 2 0xfd Compact-two))
    | inr e₂ ↦ elim (Bool-cases (tag == 0xfe)) [
      | inl e₃ ↦
          rw (e, e₂, e₃) (rw (==→eq _ _ e₃) (Writes-prefix context 0xfe 4 0x1_0000 Compact-four))
      | inr e₃ ↦
          let last : tag ≡ 0xff = ground arith in
          rw (e, e₂, e₃) (rw last (Writes-prefix context 0xff 8 0x1_0000_0000 Compact-eight))
    ]
  ]
]

pub Writes-read_compact_size : (context : String) → Writes (read_compact_size context) Compact
unfolding read_compact_size
Writes-read_compact_size context =
    Writes-bind _ (λ bytes. compact_size_after context (first bytes)) (Writes-read_array 1 context)
      tagged
  where
    tagged :
        (a bs : List ℕ)
        → All IsByte bs
        → Raw 1 a bs
        → Writes (compact_size_after context (first a)) (λ v cs. Compact v (bs ++ cs))
    tagged [] bs _ (same, h) = let no : ◌≡◌ {A = ℕ} 0 1 = h.size in absurd (omega arith)
    tagged (tag ∷ []) bs _ (same, h) = rw same (Writes-compact_size_after context tag h.bytes.0)
    tagged (tag ∷ x ∷ xs) bs _ (same, h) =
        let no : suc (suc (length xs)) ≡ 1 = h.size in absurd (omega arith)

abbrev pub Limited : ℕ → ℕ → List ℕ → Type 0
Limited limit v bs = (bs ≡ compact_size v) × (v < 2 ^ 64) × (v ≤ limit)

pub Writes-read_limited_len :
    (context : String) (limit : ℕ) → Writes (read_limited_len context limit) (Limited limit)
unfolding read_limited_len
Writes-read_limited_len context limit =
    Writes-bind _ (λ v. if ltb limit v then fail (limit_exceeded context v limit) else pure v)
      (Writes-read_compact_size context)
      (λ v bs _ (same, fits). elim (Bool-cases (ltb limit v)) [
        | inl over ↦ rw over (Writes-fail _)
        | inr within ↦ rw within (Writes-pure v (append-nil bs ∙ same, fits, ltb→le _ _ within))
      ])
