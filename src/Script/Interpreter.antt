-- ===== src/Script/Interpreter.antt =====
-- crates/bitrst-script/src/interpreter.rs and opcodes.rs. The program counter is the part of the
-- script that it has not passed.
use bitrst.Base.{
  ℕ, zero, suc, List, [], ◌∷◌, length, take, drop, Option, none, some, ◌&&◌, leb, ltb, ◌==◌,
  if◌then◌else◌, Result, ok, err, ◌>>=◌, ◌>>◌, reject_if, not,
}
use bitrst.Base.Keys.{bytes_discrete, holds}
use bitrst.Wire.Bytes.{from_le_bytes}
use bitrst.Crypto.{Primitives, hash160, verify_der_signature}
use bitrst.Script.Stack.{
  ScriptError, unexpected_end, unknown_opcode, equal_verify_failed, check_sig_failed, eval_false,
  Stack, push, pop, dup, top_is_true,
}

abbrev pub op_pushdata1 : ℕ
op_pushdata1 = 0x4c

abbrev pub op_pushdata2 : ℕ
op_pushdata2 = 0x4d

abbrev pub op_pushdata4 : ℕ
op_pushdata4 = 0x4e

abbrev pub op_dup : ℕ
op_dup = 0x76

abbrev pub op_equal : ℕ
op_equal = 0x87

abbrev pub op_equalverify : ℕ
op_equalverify = 0x88

abbrev pub op_hash160 : ℕ
op_hash160 = 0xa9

abbrev pub op_checksig : ℕ
op_checksig = 0xac

-- A read answers with what it read and the script behind it.
unfoldable pub read_push : List ℕ → ℕ → Result ScriptError (List ℕ × List ℕ)
read_push script len =
    if leb len (length script) then ok (take len script, drop len script) else err unexpected_end

-- `read_u8`, `read_u16` and `read_u32`: a number of 1, 2 or 4 bytes.
unfoldable pub read_number : ℕ → List ℕ → Result ScriptError (ℕ × List ℕ)
read_number width script =
    if ltb (length script) width
    then err unexpected_end
    else ok (from_le_bytes (take width script), drop width script)

unfoldable pub push_next : List ℕ → ℕ → Stack → Result ScriptError (List ℕ × Stack)
push_next script len stack = do (item, rest) ← read_push script len; ok (rest, push item stack)

unfoldable pub push_prefixed : ℕ → List ℕ → Stack → Result ScriptError (List ℕ × Stack)
push_prefixed width script stack = do
  (len, rest) ← read_number width script
  push_next rest len stack

-- The two operands of an equality, right one first, and the stack below.
unfoldable pub pop_two : Stack → Result ScriptError (List ℕ × List ℕ × Stack)
pop_two stack = do
  (right, stack₁) ← pop stack
  (left, stack₂) ← pop stack₁
  ok (right, left, stack₂)

module _ (crypto : Primitives) (sighash : List ℕ) where
  unfoldable pub op_effect : ℕ → Stack → Result ScriptError Stack
  op_effect opcode stack =
      if opcode == op_dup
      then dup stack
      else (if opcode == op_hash160
          then (do (item, rest) ← pop stack; ok (push (hash160 crypto item) rest))
          else (if opcode == op_equal
              then (do
                (right, left, rest) ← pop_two stack
                ok (push (if holds (bytes_discrete left right) then 1 ∷ [] else []) rest))
              else (if opcode == op_equalverify
                  then (do
                    (right, left, rest) ← pop_two stack
                    reject_if (not (holds (bytes_discrete left right))) equal_verify_failed
                    ok rest)
                  else (if opcode == op_checksig
                      then (do
                        (pubkey, signature, rest) ← pop_two stack
                        reject_if (not (verify_der_signature crypto signature pubkey sighash))
                            check_sig_failed
                        ok (push (1 ∷ []) rest))
                      else (if opcode == 0x00
                          then ok (push [] stack)
                          else (if opcode == 0x51
                              then ok (push (1 ∷ []) stack)
                              else err (unknown_opcode opcode)))))))

  -- The opcodes that read nothing behind them.
  unfoldable pub op_step : ℕ → List ℕ → Stack → Result ScriptError (List ℕ × Stack)
  op_step opcode script stack = do stack' ← op_effect opcode stack; ok (script, stack')

  -- One round of the loop: the opcode, the script behind it, and the stack.
  unfoldable pub step : ℕ → List ℕ → Stack → Result ScriptError (List ℕ × Stack)
  step opcode script stack =
      if leb 1 opcode && leb opcode 75
      then push_next script opcode stack
      else (if opcode == op_pushdata1
          then push_prefixed 1 script stack
          else (if opcode == op_pushdata2
              then push_prefixed 2 script stack
              else (if opcode == op_pushdata4
                  then push_prefixed 4 script stack
                  else op_step opcode script stack)))

  -- `while pc < script.len()`; `none` means that the fuel ran out.
  unfoldable pub run : ℕ → List ℕ → Stack → Option (Result ScriptError Stack)
  run fuel [] stack = some (ok stack)
  run zero (opcode ∷ script) stack = none
  run (suc fuel) (opcode ∷ script) stack = elim (step opcode script stack) [
    | ok (rest, stack') ↦ run fuel rest stack'
    | err e ↦ some (err e)
  ]

  -- Every round takes the opcode at least, so the length is fuel enough.
  unfoldable pub execute_script : List ℕ → Stack → Option (Result ScriptError Stack)
  execute_script script stack = run (length script) script stack

  unfoldable pub finish_script : Stack → Result ScriptError (Unit {0})
  finish_script stack = do truthy ← top_is_true stack; if truthy then ok tt else err eval_false

  abbrev pub then_run :
      Option (Result ScriptError Stack) → List ℕ → Option (Result ScriptError Stack)
  then_run none script = none
  then_run (some (err e)) script = some (err e)
  then_run (some (ok stack)) script = execute_script script stack

  abbrev pub then_finish :
      Option (Result ScriptError Stack) → Option (Result ScriptError (Unit {0}))
  then_finish none = none
  then_finish (some (err e)) = some (err e)
  then_finish (some (ok stack)) = some (finish_script stack)

  unfoldable pub verify_script : List ℕ → List ℕ → Option (Result ScriptError (Unit {0}))
  verify_script script_sig script_pubkey =
      then_finish (then_run (execute_script script_sig []) script_pubkey)
