-- ===== src/Script/P2pkh.antt =====
-- The verdict of `verify_script` on the P2PKH templates: crates/bitrst-script/src.
use bitrst.Base.{
  ℕ, suc, ◌^◌, ◌<◌, ◌≡◌, refl, sym, ap, ◌∙◌, List, [], ◌∷◌, ◌++◌, length, append-nil, Bool, true,
  false, if◌then◌else◌, Option, some, none, Result, ok, err, Bool-cases, inl, inr, arith,
}
use bitrst.Base.Keys.{bytes_discrete, holds}
use bitrst.Crypto.{Primitives, hash160, verify_der_signature}
use bitrst.Script.Stack.{
  ScriptError, equal_verify_failed, check_sig_failed, Stack, push, pop, dup, script_bool,
  top_is_true,
}
use bitrst.Script.Interpreter.{
  pop_two, op_effect, op_step, step, run, execute_script, then_finish, finish_script, verify_script,
  push_next,
}
use bitrst.Script.Template.{push_data, p2pkh_script_pubkey, p2pkh_script_sig}
use bitrst.Script.Termination.{run-nil, run-step, run-fail, run_fuel}
use bitrst.Script.Push.{run-push_data, push_next-append}

module _ (crypto : Primitives) (sighash : List ℕ) where
  -- The unlocking script leaves the signature and, above it, the key.
  execute-p2pkh_script_sig :
      (signature pubkey : List ℕ)
      → length signature < 2 ^ 32
      → length pubkey < 2 ^ 32
      → execute_script crypto sighash (p2pkh_script_sig signature pubkey) []
        ≡ some (ok (pubkey ∷ signature ∷ []))
  unfolding execute_script p2pkh_script_sig
  execute-p2pkh_script_sig signature pubkey hs hp =
      let script = push_data signature ++ push_data pubkey in
      let fuel = length script in
      let second : run crypto sighash (suc fuel) (push_data pubkey) (signature ∷ [])
          ≡ run crypto sighash fuel [] (pubkey ∷ signature ∷ []) =
        rw (append-nil (push_data pubkey)) at
          (run-push_data crypto sighash fuel pubkey [] (signature ∷ []) hp) in
      sym (run_fuel crypto sighash fuel (suc (suc fuel)) script [] (omega arith) (omega arith))
      ∙ run-push_data crypto sighash (suc fuel) signature (push_data pubkey) [] hs
      ∙ second
      ∙ run-nil crypto sighash fuel (pubkey ∷ signature ∷ [])

  -- What the locking script does with a key and a signature.
  unfoldable pub p2pkh_verdict : List ℕ → List ℕ → List ℕ → Result ScriptError (Unit {0})
  p2pkh_verdict pubkey_hash signature pubkey =
      if holds (bytes_discrete (hash160 crypto pubkey) pubkey_hash)
      then (if verify_der_signature crypto signature pubkey sighash
          then ok tt
          else err check_sig_failed)
      else err equal_verify_failed

  step_push_hash :
      (pubkey_hash rest : List ℕ) (stack : Stack)
      → length pubkey_hash ≡ 20
      → step crypto sighash 20 (pubkey_hash ++ rest) stack ≡ ok (rest, pubkey_hash ∷ stack)
  unfolding step
  step_push_hash pubkey_hash rest stack h =
      ap (λ n. push_next (pubkey_hash ++ rest) n stack) (sym h)
      ∙ push_next-append pubkey_hash rest stack

  -- The first three instructions push the hash of the key and the expected one.
  run_prefix :
      (fuel : ℕ) (pubkey_hash signature pubkey rest : List ℕ)
      → length pubkey_hash ≡ 20
      → run crypto sighash
          (suc (suc (suc fuel)))
          (0x76 ∷ 0xa9 ∷ 20 ∷ (pubkey_hash ++ rest))
          (pubkey ∷ signature ∷ [])
        ≡ run crypto sighash fuel rest
            (pubkey_hash ∷ hash160 crypto pubkey ∷ pubkey ∷ signature ∷ [])
  run_prefix fuel pubkey_hash signature pubkey rest h =
      run-step crypto sighash (suc (suc fuel)) 0x76 (0xa9 ∷ 20 ∷ (pubkey_hash ++ rest))
        (pubkey ∷ signature ∷ []) (0xa9 ∷ 20 ∷ (pubkey_hash ++ rest))
        (pubkey ∷ pubkey ∷ signature ∷ []) (unfold step op_step op_effect dup in refl)
      ∙ run-step crypto sighash (suc fuel) 0xa9 (20 ∷ (pubkey_hash ++ rest))
          (pubkey ∷ pubkey ∷ signature ∷ []) (20 ∷ (pubkey_hash ++ rest))
          (hash160 crypto pubkey ∷ pubkey ∷ signature ∷ [])
          (unfold step op_step op_effect pop push in refl)
      ∙ run-step crypto sighash fuel 20 (pubkey_hash ++ rest) _ rest _
          (step_push_hash pubkey_hash rest _ h)

  finish_true : finish_script crypto sighash ((1 ∷ []) ∷ []) ≡ ok tt
  unfolding finish_script top_is_true script_bool
  finish_true = refl

  abbrev outcome : Option (Result ScriptError Stack) → Option (Result ScriptError (Unit {0}))
  outcome none = none
  outcome (some (err e)) = some (err e)
  outcome (some (ok stack)) = some (finish_script crypto sighash stack)

  step_equalverify :
      (same : Bool) (rest right left : List ℕ) (stack : Stack)
      → holds (bytes_discrete left right) ≡ same
      → step crypto sighash 0x88 rest (right ∷ left ∷ stack)
        ≡ (if same then ok (rest, stack) else err equal_verify_failed)
  unfolding step op_step op_effect pop_two pop
  step_equalverify true rest right left stack h = rw h refl
  step_equalverify false rest right left stack h = rw h refl

  step_checksig :
      (good : Bool) (rest pubkey signature : List ℕ) (stack : Stack)
      → verify_der_signature crypto signature pubkey sighash ≡ good
      → step crypto sighash 0xac rest (pubkey ∷ signature ∷ stack)
        ≡ (if good then ok (rest, (1 ∷ []) ∷ stack) else err check_sig_failed)
  unfolding step op_step op_effect pop_two pop push
  step_checksig true rest pubkey signature stack h = rw h refl
  step_checksig false rest pubkey signature stack h = rw h refl

  run_checksig :
      (fuel : ℕ) (signature pubkey : List ℕ)
      → outcome (run crypto sighash (suc fuel) (0xac ∷ []) (pubkey ∷ signature ∷ []))
        ≡ some (
            if verify_der_signature crypto signature pubkey sighash
            then ok tt
            else err check_sig_failed)
  run_checksig fuel signature pubkey =
      elim (Bool-cases (verify_der_signature crypto signature pubkey sighash)) [
        | inl good ↦ rw good (
            ap outcome (
              run-step crypto sighash fuel 0xac [] (pubkey ∷ signature ∷ []) [] ((1 ∷ []) ∷ [])
                (step_checksig true [] pubkey signature [] good)
              ∙ run-nil crypto sighash fuel ((1 ∷ []) ∷ []))
            ∙ ap some finish_true)
        | inr bad ↦ rw bad (
            ap outcome (
              run-fail crypto sighash fuel 0xac [] (pubkey ∷ signature ∷ []) check_sig_failed
                (step_checksig false [] pubkey signature [] bad)))
      ]

  -- The last two instructions compare the hashes and check the signature.
  run_suffix :
      (fuel : ℕ) (pubkey_hash signature pubkey : List ℕ)
      → outcome (
          run crypto sighash
            (suc (suc fuel))
            (0x88 ∷ 0xac ∷ [])
            (pubkey_hash ∷ hash160 crypto pubkey ∷ pubkey ∷ signature ∷ []))
        ≡ some (p2pkh_verdict pubkey_hash signature pubkey)
  unfolding p2pkh_verdict
  run_suffix fuel pubkey_hash signature pubkey =
      let stack = pubkey_hash ∷ hash160 crypto pubkey ∷ pubkey ∷ signature ∷ [] in
      elim (Bool-cases (holds (bytes_discrete (hash160 crypto pubkey) pubkey_hash))) [
        | inl same ↦ rw same (
            ap outcome (
              run-step crypto sighash (suc fuel) 0x88 (0xac ∷ []) stack (0xac ∷ [])
                (pubkey ∷ signature ∷ [])
                (step_equalverify true (0xac ∷ []) pubkey_hash (hash160 crypto pubkey)
                  (pubkey ∷ signature ∷ []) same))
            ∙ run_checksig fuel signature pubkey)
        | inr differ ↦ rw differ (
            ap outcome (
              run-fail crypto sighash (suc fuel) 0x88 (0xac ∷ []) stack equal_verify_failed (
                step_equalverify false (0xac ∷ []) pubkey_hash (hash160 crypto pubkey)
                  (pubkey ∷ signature ∷ []) differ)))
      ]

  outcome-then_finish :
      (r : Option (Result ScriptError Stack)) → then_finish crypto sighash r ≡ outcome r
  outcome-then_finish none = refl
  outcome-then_finish (some (ok stack)) = refl
  outcome-then_finish (some (err e)) = refl

  -- A P2PKH spend is accepted exactly when the key hashes to the expected hash and the signature
  -- verifies under it; a wrong key fails as `EqualVerifyFailed` and a wrong signature as
  -- `CheckSigFailed`, and verification always ends with one of the three.
  pub verify_script-p2pkh :
      (pubkey_hash signature pubkey : List ℕ)
      → length pubkey_hash ≡ 20
      → length signature < 2 ^ 32
      → length pubkey < 2 ^ 32
      → verify_script crypto sighash
          (p2pkh_script_sig signature pubkey)
          (p2pkh_script_pubkey pubkey_hash)
        ≡ some (p2pkh_verdict pubkey_hash signature pubkey)
  unfolding verify_script p2pkh_script_pubkey execute_script
  verify_script-p2pkh pubkey_hash signature pubkey h hs hp =
      let tail = pubkey_hash ++ (0x88 ∷ 0xac ∷ []) in
      let fuel = length tail in
      let script = 0x76 ∷ 0xa9 ∷ 20 ∷ tail in
      let more : suc (suc (suc (suc (suc fuel)))) ≡ suc (suc (length script)) = refl in
      rw (execute-p2pkh_script_sig signature pubkey hs hp) (
        outcome-then_finish (run crypto sighash (length script) script (pubkey ∷ signature ∷ []))
        ∙ ap outcome (
            sym (
              run_fuel crypto sighash (length script) (suc (suc (length script))) script
                (pubkey ∷ signature ∷ []) (omega arith) (omega arith))
            ∙ run_prefix (suc (suc fuel)) pubkey_hash signature pubkey (0x88 ∷ 0xac ∷ []) h)
        ∙ run_suffix fuel pubkey_hash signature pubkey)
