-- ===== src/Script/Template.antt =====
-- crates/bitrst-script/src/p2pkh.rs: pushes and the P2PKH scripts.
use bitrst.Base.{ℕ, ◌%◌, ◌^◌, List, [], ◌∷◌, ◌++◌, length, leb, ◌==◌, if◌then◌else◌}
use bitrst.Wire.Bytes.{to_le_bytes}
use bitrst.Script.Interpreter.{op_dup, op_hash160, op_equalverify, op_checksig}

unfoldable pub push_data : List ℕ → List ℕ
push_data bytes =
    let len = length bytes in
    if len == 0
    then 0x00 ∷ []
    else (if leb len 75
        then (len % 2 ^ 8) ∷ bytes
        else (if leb len 255
            then 0x4c ∷ (len % 2 ^ 8) ∷ bytes
            else (if leb len 65535
                then 0x4d ∷ (to_le_bytes 2 (len % 2 ^ 16) ++ bytes)
                else 0x4e ∷ (to_le_bytes 4 (len % 2 ^ 32) ++ bytes))))

unfoldable pub p2pkh_script_pubkey : List ℕ → List ℕ
p2pkh_script_pubkey pubkey_hash =
    op_dup ∷ op_hash160 ∷ 20 ∷ (pubkey_hash ++ (op_equalverify ∷ op_checksig ∷ []))

unfoldable pub p2pkh_script_sig : List ℕ → List ℕ → List ℕ
p2pkh_script_sig signature_with_hashtype pubkey =
    push_data signature_with_hashtype ++ push_data pubkey
