-- ===== src/Net/Utf8.antt =====
-- `String::from_utf8` as a test: what crates/bitrst-net/src/codec/wire_helpers.rs asks of a string.
use bitrst.Base.{
  ℕ, ◌-◌, List, [], ◌∷◌, Option, none, some, Bool, false, ◌&&◌, ltb, leb, ◌==◌, if◌then◌else◌,
}

-- The continuation bytes that are missing, and the bounds of the next one.
pub record Pending : Type 0 where
  pub missing : ℕ
  pub low : ℕ
  pub high : ℕ

abbrev between : ℕ → ℕ → ℕ → Bool
between low high byte = leb low byte && leb byte high

abbrev pub expect : ℕ → ℕ → ℕ → Option Pending
expect missing low high = some (record { missing = missing; low = low; high = high })

unfoldable pub first_byte : ℕ → Option Pending
first_byte byte =
    if ltb byte 0x80
    then expect 0 0x80 0xbf
    else (if between 0xc2 0xdf byte
        then expect 1 0x80 0xbf
        else (if byte == 0xe0
            then expect 2 0xa0 0xbf
            else (if byte == 0xed
                then expect 2 0x80 0x9f
                else (if between 0xe1 0xef byte
                    then expect 2 0x80 0xbf
                    else (if byte == 0xf0
                        then expect 3 0x90 0xbf
                        else (if between 0xf1 0xf3 byte
                            then expect 3 0x80 0xbf
                            else (if byte == 0xf4 then expect 3 0x80 0x8f else none)))))))

unfoldable pub next_byte : Pending → ℕ → Option Pending
next_byte pending byte =
    if pending.missing == 0
    then first_byte byte
    else (if between pending.low pending.high byte
        then expect (pending.missing - 1) 0x80 0xbf
        else none)

unfoldable pub valid_after : Option Pending → List ℕ → Bool
valid_after none bytes = false
valid_after (some pending) [] = pending.missing == 0
valid_after (some pending) (byte ∷ bytes) = valid_after (next_byte pending byte) bytes

unfoldable pub is_utf8 : List ℕ → Bool
is_utf8 bytes = valid_after (expect 0 0x80 0xbf) bytes
