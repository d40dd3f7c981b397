-- ===== src/Script/Stack.antt =====
-- crates/bitrst-script/src/stack.rs. The top of the stack is the head of the list.
use bitrst.Base.{
  ℕ, List, [], ◌∷◌, length, Bool, true, false, ◌&&◌, ◌==◌, if◌then◌else◌, Result, ok, err, ◌>>=◌,
}

-- `ScriptError` of crates/bitrst-script/src/interpreter.rs
pub data ScriptError : Type 0 where
  unexpected_end stack_underflow : ScriptError
  unknown_opcode : ℕ → ScriptError
  equal_verify_failed check_sig_failed eval_false : ScriptError

abbrev pub Stack : Type 0
Stack = List (List ℕ)

unfoldable pub push : List ℕ → Stack → Stack
push item stack = item ∷ stack

unfoldable pub pop : Stack → Result ScriptError (List ℕ × Stack)
pop [] = err stack_underflow
pop (item ∷ stack) = ok (item, stack)

unfoldable pub top : Stack → Result ScriptError (List ℕ)
top [] = err stack_underflow
top (item ∷ stack) = ok item

unfoldable pub dup : Stack → Result ScriptError Stack
unfolding push top
dup stack = do item ← top stack; ok (push item stack)

-- The first byte that is not 0 decides; a last byte of 0x80 is negative zero.
unfoldable pub script_bool : List ℕ → Bool
script_bool [] = false
script_bool (byte ∷ bytes) =
    let rest = script_bool bytes in
    if byte == 0 then rest else (if (length bytes == 0) && (byte == 0x80) then false else true)

unfoldable pub top_is_true : Stack → Result ScriptError Bool
unfolding top
top_is_true stack = do item ← top stack; ok (script_bool item)
