-- ===== src/Script/Push.antt =====
-- A push written by `push_data` is read back by the interpreter, at every length.
use bitrst.Base.{
  ℕ, suc, ◌^◌, ◌%◌, ◌≤◌, ◌<◌, ◌≡◌, refl, sym, ap, ◌∙◌, List, [], ◌∷◌, ◌++◌, length, take, drop,
  length-append, take-append, drop-append, append_assoc, subst, leb, ◌==◌, ◌&&◌, true, false, ok,
  Bool-cases, inl, inr, le→ltb, arith,
}
use bitrst.Wire.Bytes.{to_le_bytes, length-to_le_bytes, from_le_bytes-to_le_bytes}
use bitrst.Crypto.{Primitives}
use bitrst.Script.Stack.{Stack, push}
use bitrst.Script.Interpreter.{
  read_push, read_number, push_next, push_prefixed, op_effect, op_step, step, run,
}
use bitrst.Script.Template.{push_data}
use bitrst.Script.Termination.{run-step}

read_push-append : (item rest : List ℕ) → read_push (item ++ rest) (length item) ≡ ok (item, rest)
unfolding read_push
read_push-append item rest =
    let enough : leb (length item) (length (item ++ rest)) ≡ true =
      ground (arith, length-append item rest) in
    rw enough (rw (take-append item rest, drop-append item rest) refl)

pub push_next-append :
    (item rest : List ℕ) (stack : Stack)
    → push_next (item ++ rest) (length item) stack ≡ ok (rest, item ∷ stack)
unfolding push_next push
push_next-append item rest stack = rw (read_push-append item rest) refl

read_number-append :
    (width n : ℕ) (rest : List ℕ)
    → n < 256 ^ width
    → read_number width (to_le_bytes width n ++ rest) ≡ ok (n, rest)
unfolding read_number
read_number-append width n rest h =
    let size = length-to_le_bytes width n in
    let bytes = to_le_bytes width n in
    let front : take width (bytes ++ rest) ≡ bytes =
      ap (λ k. take k (bytes ++ rest)) (sym size) ∙ take-append bytes rest in
    let back : drop width (bytes ++ rest) ≡ rest =
      ap (λ k. drop k (bytes ++ rest)) (sym size) ∙ drop-append bytes rest in
    rw (le→ltb (length (bytes ++ rest)) width (omega (arith, size, length-append bytes rest)))
      (rw (front, back, from_le_bytes-to_le_bytes width n h) refl)

push_prefixed-append :
    (width : ℕ) (item rest : List ℕ) (stack : Stack)
    → length item < 256 ^ width
    → push_prefixed width (to_le_bytes width (length item) ++ (item ++ rest)) stack
      ≡ ok (rest, item ∷ stack)
unfolding push_prefixed
push_prefixed-append width item rest stack h =
    rw (read_number-append width (length item) (item ++ rest) h) (push_next-append item rest stack)

module _ (crypto : Primitives) (sighash : List ℕ) where
  step_direct :
      (item rest : List ℕ) (stack : Stack)
      → 1 ≤ length item
      → length item ≤ 75
      → step crypto sighash (length item) (item ++ rest) stack ≡ ok (rest, item ∷ stack)
  unfolding step
  step_direct item rest stack lo hi =
      let direct : (leb 1 (length item) && leb (length item) 75) ≡ true = ground arith in
      rw direct (push_next-append item rest stack)

  step_pushdata1 :
      (item rest : List ℕ) (stack : Stack)
      → length item < 256
      → step crypto sighash 0x4c (length item ∷ (item ++ rest)) stack ≡ ok (rest, item ∷ stack)
  unfolding step to_le_bytes
  step_pushdata1 item rest stack h =
      let small : length item % 256 ≡ length item = omega arith in
      subst (λ n. push_prefixed 1 (n ∷ (item ++ rest)) stack ≡ ok (rest, item ∷ stack)) small
        (push_prefixed-append 1 item rest stack h)

  step_pushdata2 :
      (item rest : List ℕ) (stack : Stack)
      → length item < 256 ^ 2
      → step crypto sighash 0x4d ((to_le_bytes 2 (length item) ++ item) ++ rest) stack
        ≡ ok (rest, item ∷ stack)
  unfolding step
  step_pushdata2 item rest stack h =
      rw (append_assoc (to_le_bytes 2 (length item)) item rest)
        (push_prefixed-append 2 item rest stack h)

  step_pushdata4 :
      (item rest : List ℕ) (stack : Stack)
      → length item < 256 ^ 4
      → step crypto sighash 0x4e ((to_le_bytes 4 (length item) ++ item) ++ rest) stack
        ≡ ok (rest, item ∷ stack)
  unfolding step
  step_pushdata4 item rest stack h =
      rw (append_assoc (to_le_bytes 4 (length item)) item rest)
        (push_prefixed-append 4 item rest stack h)

  -- One round of the interpreter takes a whole push, whatever the stack and what follows, for
  -- every item shorter than 2^32 bytes.
  pub run-push_data :
      (fuel : ℕ) (item rest : List ℕ) (stack : Stack)
      → length item < 2 ^ 32
      → run crypto sighash (suc fuel) (push_data item ++ rest) stack
        ≡ run crypto sighash fuel rest (item ∷ stack)
  unfolding push_data
  run-push_data fuel [] rest stack h =
      run-step crypto sighash fuel 0x00 rest stack rest ([] ∷ stack)
        (unfold step op_step op_effect push in refl)
  run-push_data fuel (x ∷ xs) rest stack h =
      let item = x ∷ xs in
      let some_ : (length item == 0) ≡ false = ground arith in
      elim (Bool-cases (leb (length item) 75)) [
        | inl e ↦
            let small : length item % 2 ^ 8 ≡ length item = ground arith in
            rw (some_, e, small)
              (run-step crypto sighash fuel (length item) (item ++ rest) stack rest (item ∷ stack)
                (step_direct item rest stack (omega arith) (ground arith)))
        | inr e ↦ elim (Bool-cases (leb (length item) 255)) [
          | inl e₂ ↦
              let small : length item % 2 ^ 8 ≡ length item = ground arith in
              rw (some_, e, e₂, small)
                (run-step crypto sighash fuel 0x4c _ stack rest (item ∷ stack)
                  (step_pushdata1 item rest stack (ground arith)))
          | inr e₂ ↦ elim (Bool-cases (leb (length item) 65535)) [
            | inl e₃ ↦
                let small : length item % 2 ^ 16 ≡ length item = ground arith in
                rw (some_, e, e₂, e₃, small)
                  (run-step crypto sighash fuel 0x4d _ stack rest (item ∷ stack)
                    (step_pushdata2 item rest stack (ground arith)))
            | inr e₃ ↦
                let small : length item % 2 ^ 32 ≡ length item = ground arith in
                rw (some_, e, e₂, e₃, small)
                  (run-step crypto sighash fuel 0x4e _ stack rest (item ∷ stack)
                    (step_pushdata4 item rest stack (omega arith)))
          ]
        ]
      ]
