-- ===== src/Common/Text/Hex.antt =====
-- `hex.EncodeToString`.
use Prim.Native.Nat.{ℕ, ◌+◌, ◌-◌, ◌*◌, ◌/◌, ◌%◌, ◌≤◌}
use mathlib.Core.Path.{◌≡◌, refl}
use mathlib.Core.List.{[], ◌∷◌}
use native.Mathlib.Omega.{arith}
use vex_pay.Common.Tests.{ltb, if◌then◌else◌}
use vex_pay.Common.Lists.{All, length}
use vex_pay.Common.Text.{Str}

-- the digit of a number below 16
unfoldable pub hex_digit : ℕ → ℕ
hex_digit n = if ltb n 10 then b'0' + n else b'a' + (n - 10)

unfoldable pub hex : Str → Str
hex [] = []
hex (c ∷ s) = hex_digit (c / 16 % 16) ∷ hex_digit (c % 16) ∷ hex s

-- a digit or a small letter
abbrev pub IsHexDigit : ℕ → Type 0
IsHexDigit c = (48 ≤ c) × (c ≤ 102)

pub hex-IsHexDigit : (s : Str) → All IsHexDigit (hex s)
unfolding hex hex_digit
hex-IsHexDigit [] = tt
hex-IsHexDigit (c ∷ s) = (ground arith, (ground arith, hex-IsHexDigit s))

pub length-hex : (s : Str) → length (hex s) ≡ 2 * length s
unfolding hex
length-hex [] = refl
length-hex (c ∷ s) = omega (arith, length-hex s)
