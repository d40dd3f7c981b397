-- ===== src/Tests/Scripts.antt =====
-- The script machine on a P2PKH spend and on broken scripts.
use bitrst.Base.{◌≡◌, refl, [], ◌∷◌, ◌++◌, some, Result, err, arith}
use bitrst.Script.Stack.{ScriptError, unexpected_end, stack_underflow, unknown_opcode}
use bitrst.Script.Interpreter.{
  execute_script, verify_script, step, op_step, op_effect, run, push_next, read_push,
}
use bitrst.Script.Stack.{dup, top}
use bitrst.Script.Template.{push_data, p2pkh_script_sig, p2pkh_script_pubkey}
use bitrst.Script.P2pkh.{p2pkh_verdict, verify_script-p2pkh}
use bitrst.Script.Termination.{verify_script_total}
use bitrst.Script.Push.{run-push_data}
use bitrst.Tests.Data.{toy, digest, parent_id}

verify_script-p2pkh_example :
    verify_script toy parent_id
      (p2pkh_script_sig (1 ∷ 2 ∷ []) (3 ∷ []))
      (p2pkh_script_pubkey (digest 20 (digest 32 (3 ∷ []))))
    ≡ some (p2pkh_verdict toy parent_id (digest 20 (digest 32 (3 ∷ []))) (1 ∷ 2 ∷ []) (3 ∷ []))
verify_script-p2pkh_example =
    verify_script-p2pkh toy parent_id (digest 20 (digest 32 (3 ∷ []))) (1 ∷ 2 ∷ []) (3 ∷ [])
      (unfold bitrst.Wire.Bytes.to_le_bytes in refl) (omega arith) (omega arith)

verify_script_total_example :
    (verdict : Result ScriptError (Unit {0})) × (verify_script toy parent_id
        (0x05 ∷ 0x01 ∷ [])
        (0x76 ∷ [])
      ≡ some verdict)
verify_script_total_example = verify_script_total toy parent_id (0x05 ∷ 0x01 ∷ []) (0x76 ∷ [])

run-push_data_example :
    run toy parent_id 2 (push_data (7 ∷ 8 ∷ []) ++ (0x76 ∷ [])) []
    ≡ run toy parent_id 1 (0x76 ∷ []) ((7 ∷ 8 ∷ []) ∷ [])
run-push_data_example = run-push_data toy parent_id 1 (7 ∷ 8 ∷ []) (0x76 ∷ []) [] (omega arith)

truncated_push : execute_script toy parent_id (0x05 ∷ 0x01 ∷ []) [] ≡ some (err unexpected_end)
unfolding execute_script run step push_next read_push
truncated_push = refl

dup_of_nothing : execute_script toy parent_id (0x76 ∷ []) [] ≡ some (err stack_underflow)
unfolding execute_script run step op_step op_effect dup top
dup_of_nothing = refl

not_an_opcode : execute_script toy parent_id (0xff ∷ []) [] ≡ some (err (unknown_opcode 0xff))
unfolding execute_script run step op_step op_effect
not_an_opcode = refl
