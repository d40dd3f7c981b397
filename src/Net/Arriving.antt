-- ===== src/Net/Arriving.antt =====
-- What the loops of framing.rs leave of a stream, however it is cut.
use bitrst.Base.{
  ℕ, zero, suc, ◌≤◌, ◌≡◌, ◌≢◌, refl, ap, List, [], ◌∷◌, ◌++◌, length, take, append_assoc,
  length-append, leb, ◌==◌, Result, ok, arith, Bool-cases, inl, inr, true, false,
}
use bitrst.Net.Types.{NetError}
use bitrst.Net.Framing.{Framed, Arrivals, closed, broken, arrived, fill}

-- The bytes that arrive, and that no read before the end gives none.
abbrev pub stream : Arrivals → List ℕ
stream closed = []
stream broken = []
stream (arrived bytes later) = bytes ++ stream later

abbrev pub Flowing : Arrivals → Type 0
Flowing closed = Unit
Flowing broken = Unit
Flowing (arrived bytes later) = (length bytes ≢ 0) × Flowing later

-- All bytes from the buffer on.
abbrev pub ahead : Framed → List ℕ
ahead reader = reader.buffer ++ stream reader.arrivals

pub take-append_le : (n : ℕ) (xs ys : List ℕ) → n ≤ length xs → take n (xs ++ ys) ≡ take n xs
take-append_le zero xs ys h = refl
take-append_le (suc n) [] ys h = absurd (omega arith)
take-append_le (suc n) (x ∷ xs) ys h = ap (◌∷◌ x) (take-append_le n xs ys (omega arith))

-- A loop for a size that the stream has ends, with so much in the buffer, and no byte is lost.
pub record Filled (size : ℕ) (bytes : List ℕ) (out : Framed × Result NetError (Unit {0}))
    : Type 0 where
  pub done : out.1 ≡ ok tt
  pub enough : size ≤ length (out.0).buffer
  pub same : ahead out.0 ≡ bytes
  pub flowing : Flowing (out.0).arrivals

pub fill-Filled :
    (size : ℕ) (buffer : List ℕ) (arrivals : Arrivals)
    → Flowing arrivals
    → size ≤ length (buffer ++ stream arrivals)
    → Filled size (buffer ++ stream arrivals) (fill size buffer arrivals)
unfolding fill
fill-Filled size buffer closed flowing h =
    let there : size ≤ length buffer = omega (arith, length-append buffer []) in
    let test : leb size (length buffer) ≡ true = ground arith in
    rw test (record { done = refl; enough = there; same = refl; flowing = tt })
fill-Filled size buffer broken flowing h =
    let there : size ≤ length buffer = omega (arith, length-append buffer []) in
    let test : leb size (length buffer) ≡ true = ground arith in
    rw test (record { done = refl; enough = there; same = refl; flowing = tt })
fill-Filled size buffer (arrived bytes later) flowing h =
    elim (Bool-cases (leb size (length buffer))) [
      | inl there ↦
          rw there (record { done = refl; enough = ground arith; same = refl; flowing = flowing })
      | inr short ↦
          let some_bytes : (length bytes == 0) ≡ false = ground arith in
          let together = append_assoc buffer bytes (stream later) in
          let rest = fill-Filled size (buffer ++ bytes) later flowing.1 (rw together h) in
          rw (short, some_bytes, ← together) rest
    ]
