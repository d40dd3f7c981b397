-- ===== src/Transaction/RoundTrip.antt =====
-- `Transaction::deserialize` inverts `Transaction::serialize`.
use bitrst.Base.{
  ℕ, All, length-drop, subst, >>=-eq-ok, Bool-cases, inl, inr, ltb, ltb→le, ◌+◌, ◌-◌, ◌≤◌, ◌≡◌,
  refl, sym, ap, ◌∙◌, List, [], ◌∷◌, ◌++◌, length, append-nil, le→ltb, eq→==, ok, arith, ◌>>=◌,
  String,
}
use bitrst.Wire.Reader.{Decoder, WireReader, new, finish, unread, advance}
use bitrst.Wire.Reads.{Reads}
use bitrst.Transaction.Types.{Transaction, IsTransaction}
use bitrst.Transaction.Encode.{serialize, serialized_size, serialize-encode}
use bitrst.Transaction.Size.{length-serialize}
use bitrst.Transaction.Deserialize.{deserialize}
use bitrst.Transaction.Reads.{WithinLimits, Reads-decode_from}
use bitrst.Transaction.Decode.{decode_from}
use bitrst.Wire.Bytes.{IsByte}
use bitrst.Wire.Writes.{Writes}
use bitrst.Transaction.Writes.{TransactionBytes, Writes-decode_from}
use bitrst.Limits.{max_transaction_serialized_size}

-- On all of its bytes a decoder leaves nothing for `finish` to refuse.
pub Reads-whole :
    {A : Type 0} (p : Decoder A) (bs : List ℕ) (a : A)
    → Reads p bs a
    → p (new bs) ≡ ok (a, advance (new bs) (length bs))
unfolding new
Reads-whole p bs a h = h.at (new bs) [] (sym (append-nil bs))

pub finish-advance :
    (bs : List ℕ) (context : String) → finish (advance (new bs) (length bs)) context ≡ ok tt
unfolding new finish
finish-advance bs context = rw (eq→== (length bs - (0 + length bs)) 0 (omega arith))

nil_of_length : {A : Type 0} (xs : List A) → length xs ≡ 0 → xs ≡ []
nil_of_length [] h = refl
nil_of_length (x ∷ xs) h = absurd (omega arith)

-- `finish` succeeds only on a reader that has nothing left.
pub finish-unread : (r : WireReader) (context : String) → finish r context ≡ ok tt → unread r ≡ []
unfolding finish
finish-unread r context h = nil_of_length (unread r) (
    omega (
      arith,
      length-drop r.position r.bytes,
      (let e : length r.bytes - r.position ≡ 0 = ground arith in e),
    ))

-- A decoder whose whole input `finish` accepts has taken all of it.
pub Writes-whole :
    {A : Type 0} (p : Decoder A) (P : A → List ℕ → Type 0) (context : String) (bs : List ℕ) (a : A)
    → Writes p P
    → All IsByte bs
    → (p (new bs) >>= λ (x, r). finish r context >>= λ _. ok x) ≡ ok a
    → P a bs
unfolding new
Writes-whole p P context bs a h bytes run =
    let ((x, r), e, run₁) = >>=-eq-ok (p (new bs)) _ run in
    let (done, e₁, run₂) = >>=-eq-ok (finish r context) _ run₁ in
    let (taken, split, _, _, good) = h.at (new bs) x r bytes e in
    let same : taken ≡ bs =
      sym (append-nil taken) ∙ ap (◌++◌ taken) (sym (finish-unread r context e₁)) ∙ sym split in
    let here : x ≡ a = ground arith in subst (P a) same (subst (λ y. P y taken) here good)

-- A transaction that its types and the decoder's limits admit is read back from its own bytes.
pub deserialize-serialize :
    (tx : Transaction)
    → IsTransaction tx
    → WithinLimits tx
    → serialized_size tx ≤ max_transaction_serialized_size
    → deserialize (serialize tx) ≡ ok tx
unfolding deserialize
deserialize-serialize tx h k small =
    rw
      (le→ltb max_transaction_serialized_size (length (serialize tx))
        (omega (arith, length-serialize tx h)))
      (rw
        (Reads-whole decode_from (serialize tx) tx (rw serialize-encode (Reads-decode_from tx h k)))
        (rw (finish-advance (serialize tx) "transaction")))

-- Whatever bytes are accepted are the serialization of the transaction that is returned, which is
-- within its types and the limits: no other bytes decode to it.
pub serialize-deserialize :
    (bytes : List ℕ) (tx : Transaction)
    → All IsByte bytes
    → deserialize bytes ≡ ok tx
    → (serialize tx ≡ bytes)
      × IsTransaction tx
      × WithinLimits tx
      × (length bytes ≤ max_transaction_serialized_size)
unfolding deserialize
serialize-deserialize bytes tx h run =
    elim (Bool-cases (ltb max_transaction_serialized_size (length bytes))) [
      | inl over ↦ absurd (ground arith)
      | inr within ↦
          let (same, typed, limits) =
            Writes-whole decode_from TransactionBytes "transaction" bytes tx Writes-decode_from h
              (rw within at run) in
          (serialize-encode tx ∙ sym same, typed, limits, ltb→le _ _ within)
    ]
