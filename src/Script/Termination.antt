-- ===== src/Script/Termination.antt =====
-- The interpreter's loop ends on every script: crates/bitrst-script/src/interpreter.rs.
use bitrst.Base.{
  ℕ, zero, suc, ◌≤◌, ◌≡◌, refl, sym, ◌∙◌, List, [], ◌∷◌, length, length-drop, some, Result, ok, err,
  >>=-eq-ok, Result-cases, inl, inr, arith,
}
use bitrst.Crypto.{Primitives}
use bitrst.Script.Stack.{ScriptError, Stack}
use bitrst.Script.Interpreter.{
  read_push, read_number, push_next, push_prefixed, op_effect, op_step, step, run, execute_script,
  verify_script, finish_script,
}

read_push-shorter :
    (script : List ℕ) (len : ℕ) (item rest : List ℕ)
    → read_push script len ≡ ok (item, rest)
    → length rest ≤ length script
unfolding read_push
read_push-shorter script len item rest h = ground (arith, length-drop len script)

read_number-shorter :
    (width : ℕ) (script : List ℕ) (n : ℕ) (rest : List ℕ)
    → read_number width script ≡ ok (n, rest)
    → length rest ≤ length script
unfolding read_number
read_number-shorter width script n rest h = ground (arith, length-drop width script)

push_next-shorter :
    (script : List ℕ) (len : ℕ) (stack : Stack) (rest : List ℕ) (stack' : Stack)
    → push_next script len stack ≡ ok (rest, stack')
    → length rest ≤ length script
unfolding push_next
push_next-shorter script len stack rest stack' h =
    let ((item, left), e, e') = >>=-eq-ok (read_push script len) _ h in
    let short = read_push-shorter script len item left e in
    let same : left ≡ rest = ground arith in rw same at short

push_prefixed-shorter :
    (width : ℕ) (script : List ℕ) (stack : Stack) (rest : List ℕ) (stack' : Stack)
    → push_prefixed width script stack ≡ ok (rest, stack')
    → length rest ≤ length script
unfolding push_prefixed
push_prefixed-shorter width script stack rest stack' h =
    let ((len, left), e, e') = >>=-eq-ok (read_number width script) _ h in
    omega (
      arith,
      read_number-shorter width script len left e,
      push_next-shorter left len stack rest stack' e',
    )

module _ (crypto : Primitives) (sighash : List ℕ) where
  op_step-shorter :
      (opcode : ℕ) (script : List ℕ) (stack : Stack) (rest : List ℕ) (stack' : Stack)
      → op_step crypto sighash opcode script stack ≡ ok (rest, stack')
      → length rest ≤ length script
  unfolding op_step
  op_step-shorter opcode script stack rest stack' h =
      let (s, e, e') = >>=-eq-ok (op_effect crypto sighash opcode stack) _ h in
      let same : script ≡ rest = ground arith in rw same (omega arith)

  -- No instruction moves back.
  step-shorter :
      (opcode : ℕ) (script : List ℕ) (stack : Stack) (rest : List ℕ) (stack' : Stack)
      → step crypto sighash opcode script stack ≡ ok (rest, stack')
      → length rest ≤ length script
  unfolding step
  step-shorter opcode script stack rest stack' h = ground (
    arith,
    push_next-shorter script opcode stack rest stack',
    push_prefixed-shorter 1 script stack rest stack',
    push_prefixed-shorter 2 script stack rest stack',
    push_prefixed-shorter 4 script stack rest stack',
    op_step-shorter opcode script stack rest stack',
  )

  pub run-nil : (fuel : ℕ) (stack : Stack) → run crypto sighash fuel [] stack ≡ some (ok stack)
  unfolding run
  run-nil zero stack = refl
  run-nil (suc fuel) stack = refl

  pub run-step :
      (fuel opcode : ℕ) (script : List ℕ) (stack : Stack) (rest : List ℕ) (stack' : Stack)
      → step crypto sighash opcode script stack ≡ ok (rest, stack')
      → run crypto sighash (suc fuel) (opcode ∷ script) stack ≡ run crypto sighash fuel rest stack'
  unfolding run
  run-step fuel opcode script stack rest stack' h = rw (h, run) refl

  pub run-fail :
      (fuel opcode : ℕ) (script : List ℕ) (stack : Stack) (e : ScriptError)
      → step crypto sighash opcode script stack ≡ err e
      → run crypto sighash (suc fuel) (opcode ∷ script) stack ≡ some (err e)
  unfolding run
  run-fail fuel opcode script stack e h = rw (h, run) refl

  -- More fuel than the script has bytes changes nothing.
  pub run_fuel :
      (fuel more : ℕ) (script : List ℕ) (stack : Stack)
      → length script ≤ fuel
      → fuel ≤ more
      → run crypto sighash more script stack ≡ run crypto sighash fuel script stack
  run_fuel fuel more [] stack h k = run-nil more stack ∙ sym (run-nil fuel stack)
  run_fuel zero more (opcode ∷ script) stack h k = absurd (omega arith)
  run_fuel (suc fuel) zero (opcode ∷ script) stack h k = absurd (omega arith)
  run_fuel (suc fuel) (suc more) (opcode ∷ script) stack h k =
      elim (Result-cases (step crypto sighash opcode script stack)) [
        | inl ((rest, stack'), e) ↦
            run-step more opcode script stack rest stack' e
            ∙ run_fuel fuel more rest stack'
                (omega (arith, step-shorter opcode script stack rest stack' e)) (omega arith)
            ∙ sym (run-step fuel opcode script stack rest stack' e)
        | inr (x, e) ↦
            run-fail more opcode script stack x e ∙ sym (run-fail fuel opcode script stack x e)
      ]

  run_total :
      (fuel : ℕ) (script : List ℕ) (stack : Stack)
      → length script ≤ fuel
      → (r : Result ScriptError Stack) × (run crypto sighash fuel script stack ≡ some r)
  run_total fuel [] stack h = (ok stack, run-nil fuel stack)
  run_total zero (opcode ∷ script) stack h = absurd (omega arith)
  run_total (suc fuel) (opcode ∷ script) stack h =
      elim (Result-cases (step crypto sighash opcode script stack)) [
        | inl ((rest, stack'), e) ↦
            let (r, done) =
              run_total fuel rest stack'
                (omega (arith, step-shorter opcode script stack rest stack' e)) in
            (r, run-step fuel opcode script stack rest stack' e ∙ done)
        | inr (x, e) ↦ (err x, run-fail fuel opcode script stack x e)
      ]

  execute_total :
      (script : List ℕ) (stack : Stack)
      → (r : Result ScriptError Stack) × (execute_script crypto sighash script stack ≡ some r)
  unfolding execute_script
  execute_total script stack = run_total (length script) script stack (omega arith)

  -- Verification of any two scripts ends with a verdict: the loops never run out of fuel.
  pub verify_script_total :
      (script_sig script_pubkey : List ℕ)
      → (verdict : Result ScriptError (Unit {0})) × (verify_script crypto sighash script_sig
            script_pubkey
          ≡ some verdict)
  unfolding verify_script
  verify_script_total script_sig script_pubkey =
      let (first, e) = execute_total script_sig [] in
      elim (Result-cases first) [
        | inl (stack, ok_) ↦
            let (second, e') = execute_total script_pubkey stack in
            elim (Result-cases second) [
              | inl (final, ok') ↦ (finish_script crypto sighash final, rw (e, ok_, e', ok') refl)
              | inr (x, bad) ↦ (err x, rw (e, ok_, e', bad) refl)
            ]
        | inr (x, bad) ↦ (err x, rw (e, bad) refl)
      ]
