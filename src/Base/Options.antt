-- ===== src/Base/Options.antt =====
-- `?` on an `Option`: the rest runs on the value, and a missing value ends the function.
use mathlib.Core.Path.{◌≡◌, refl}
use mathlib.Core.Option.{Option, none, some}
use native.Mathlib.Omega.{arith}

infixl 10 ◌>>=◌
abbrev pub ◌>>=◌ {ℓ κ} : {A : Type ℓ} {B : Type κ} → Option A → (A → Option B) → Option B
none >>= rest = none
some value >>= rest = rest value

-- A value that comes out was made from one that went in.
pub >>=-eq-some {ℓ κ} :
    {A : Type ℓ} {B : Type κ} (o : Option A) (rest : A → Option B) (b : B)
    → (o >>= rest) ≡ some b
    → (a : A) × (o ≡ some a) × (rest a ≡ some b)
>>=-eq-some none rest b h = absurd (ground arith)
>>=-eq-some (some a) rest b h = (a, refl, h)
