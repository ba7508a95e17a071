-- ===== src/Invoice/Ids.antt =====
-- internal/invoice/id.go: the ids of new invoices. The 16 random bytes are an argument.
use vex_pay.Common.{
  ℕ, ◌/◌, ◌%◌, ◌<◌, ◌≤◌, ◌≡◌, refl, [], ◌∷◌, ◌++◌, arith, length, length-append, All, All-append,
  ◌⊎◌,
}
use vex_pay.Common.Text.{Str, codes}
use vex_pay.Common.Text.Hex.{hex, hex_digit, length-hex}

-- `newInvoiceID`
unfoldable pub new_invoice_id : Str → Str
new_invoice_id random = codes "inv_" ++ hex random

-- what a random source gives
abbrev pub IsByte : ℕ → Type 0
IsByte c = c < 256

-- a digit, a small letter or the underscore
abbrev pub IsUrlSafe : ℕ → Type 0
IsUrlSafe c = ((b'0' ≤ c) × (c ≤ b'9')) ⊎ ((b'a' ≤ c) × (c ≤ b'z')) ⊎ (c ≡ b'_')

hex_digit-IsUrlSafe : (n : ℕ) → n < 16 → IsUrlSafe (hex_digit n)
unfolding hex_digit
hex_digit-IsUrlSafe n h = ground arith

hex-IsUrlSafe : (s : Str) → All IsUrlSafe (hex s)
unfolding hex
hex-IsUrlSafe [] = tt
hex-IsUrlSafe (c ∷ s) = (
  hex_digit-IsUrlSafe (c / 16 % 16) (omega arith),
  (hex_digit-IsUrlSafe (c % 16) (omega arith), hex-IsUrlSafe s),
)

prefix-IsUrlSafe : All IsUrlSafe (codes "inv_")
prefix-IsUrlSafe = ground arith

hex_digit_injective : (a b : ℕ) → a < 16 → b < 16 → hex_digit a ≡ hex_digit b → a ≡ b
unfolding hex_digit
hex_digit_injective a b ha hb h = ground arith

nibbles_injective :
    (a b : ℕ) → a < 256 → b < 256 → a / 16 % 16 ≡ b / 16 % 16 → a % 16 ≡ b % 16 → a ≡ b
nibbles_injective a b ha hb h k = omega arith

hex_injective : (s t : Str) → All IsByte s → All IsByte t → hex s ≡ hex t → s ≡ t
unfolding hex
hex_injective [] [] hs ht h = refl
hex_injective [] (d ∷ t) hs ht h = absurd (cc h)
hex_injective (c ∷ s) [] hs ht h = absurd (cc h)
hex_injective (c ∷ s) (d ∷ t) (hc, hs) (hd, ht) h =
    let high : hex_digit (c / 16 % 16) ≡ hex_digit (d / 16 % 16) = cc h in
    let low : hex_digit (c % 16) ≡ hex_digit (d % 16) = cc h in
    let rest : hex s ≡ hex t = cc h in
    let same =
      nibbles_injective c d hc hd
        (hex_digit_injective (c / 16 % 16) (d / 16 % 16) (omega arith) (omega arith) high)
        (hex_digit_injective (c % 16) (d % 16) (omega arith) (omega arith) low) in
    cc (same, hex_injective s t hs ht rest)

-- Different random bytes give different ids, and 16 bytes give an id of 36 bytes; every byte of an
-- id is a digit, a small letter or an underscore.
pub new_invoice_id_injective :
    (s t : Str)
    → All IsByte s
    → All IsByte t
    → (new_invoice_id s ≡ new_invoice_id t → s ≡ t)
      × (length s ≡ 16 → length (new_invoice_id s) ≡ 36)
      × All IsUrlSafe (new_invoice_id s)
unfolding new_invoice_id
new_invoice_id_injective s t hs ht = (
  λ h. hex_injective s t hs ht (cc h),
  λ h. omega (arith, length-append (codes "inv_") (hex s), length-hex s),
  All-append IsUrlSafe (codes "inv_") (hex s) prefix-IsUrlSafe (hex-IsUrlSafe s),
)
