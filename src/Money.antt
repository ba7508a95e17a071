-- ===== src/Money.antt =====
-- internal/money: exact amounts in an asset's smallest unit. The proofs are in the child modules.
mod Scale
pub mod RoundTrip
pub mod Parsing
pub mod Tests
use vex_pay.Common.{
  ℕ, ◌+◌, ◌-◌, ◌≡◌, Bool, true, false, ◌&&◌, ◌||◌, not, Option, none, some, [], ◌∷◌, ◌++◌, ltb, leb,
  ◌==◌, if◌then◌else◌, length, take, drop, replicate, Error, Result, ok, err, empty_amount,
  too_precise, invalid_amount, unknown_asset, ◌>>=◌, ◌>>◌, fail_if, or_err,
}
use vex_pay.Common.Int.{ℤ, pos, neg, abs, is_zero, is_neg, Sign, cmp_ℤ, ◌+ℤ◌, ◌-ℤ◌}
use vex_pay.Common.Text.{Str, codes, str_eq, is_empty, Cut, cut}
use vex_pay.Common.Text.Space.{trim_space}
use vex_pay.Common.Text.Decimal.{digits, set_string}

pub record Asset : Type 0 where
  pub symbol : Str
  pub decimals : ℕ

-- `units` is a pointer, nil in the zero value
pub record Amount : Type 0 where
  pub asset : Asset
  pub units : Option ℤ

abbrev pub btc : Asset
btc = record { symbol = codes "BTC"; decimals = 8 }

abbrev pub tbtc : Asset
tbtc = record { symbol = codes "tBTC"; decimals = 8 }

abbrev pub eth : Asset
eth = record { symbol = codes "ETH"; decimals = 18 }

abbrev pub usdt : Asset
usdt = record { symbol = codes "USDT"; decimals = 6 }

abbrev pub usdc : Asset
usdc = record { symbol = codes "USDC"; decimals = 6 }

-- the `registry` map, read in the order of its lines
unfoldable pub lookup : Str → Result Asset
lookup symbol =
    if str_eq symbol btc.symbol
    then ok btc
    else if str_eq symbol tbtc.symbol
    then ok tbtc
    else if str_eq symbol eth.symbol
    then ok eth
    else if str_eq symbol usdt.symbol
    then ok usdt
    else if str_eq symbol usdc.symbol
    then ok usdc
    else err unknown_asset

-- `a == b` on the struct
unfoldable pub asset_eq : Asset → Asset → Bool
asset_eq a b = str_eq a.symbol b.symbol && a.decimals == b.decimals

abbrev pub zero_asset : Asset
zero_asset = record { symbol = []; decimals = 0 }

-- `money.Amount{}`
abbrev pub no_amount : Amount
no_amount = record { asset = zero_asset; units = none }

unfoldable pub from_units : Asset → ℤ → Amount
from_units asset units = record { asset = asset; units = some units }

unfoldable pub zero_amount : Asset → Amount
zero_amount asset = record { asset = asset; units = some (pos 0) }

unfoldable pub must_units : Amount → ℤ
must_units a = elim a.units [ none ↦ pos 0 | some u ↦ u ]

unfoldable pub is_zero_amount : Amount → Bool
is_zero_amount a = elim a.units [ none ↦ true | some u ↦ is_zero u ]

unfoldable pub cmp : Amount → Amount → Sign
unfolding must_units
cmp a b = cmp_ℤ (must_units a) (must_units b)

unfoldable pub add : Amount → Amount → Amount
unfolding must_units
add a b = record { asset = a.asset; units = some (must_units a +ℤ must_units b) }

unfoldable pub sub : Amount → Amount → Amount
unfolding must_units
sub a b = record { asset = a.asset; units = some (must_units a -ℤ must_units b) }

-- `strings.HasPrefix(s, "-")` and `s = s[1:]`
pub strip_minus : Str → Bool × Str
strip_minus [] = (false, [])
strip_minus (c ∷ s) = if c == b'-' then (true, s) else (false, c ∷ s)

-- from the cut to the amount: digits, padding, sign
pub scale : Asset → Bool → Cut → Result Amount
scale asset minus parts = do
  fail_if (parts.found && ltb asset.decimals (length parts.after)) too_precise
  let text = parts.before ++ parts.after ++ replicate (asset.decimals - length parts.after) b'0'
  fail_if (is_empty text) invalid_amount
  units ← or_err (set_string text) invalid_amount
  ok (record { asset = asset; units = some (if minus then neg units else units) })

unfoldable pub parse_decimal : Asset → Str → Result Amount
unfolding strip_minus scale
parse_decimal asset s = do
  let t = trim_space s
  fail_if (is_empty t) empty_amount
  let (minus, u) = strip_minus t
  scale asset minus (cut b'.' u)

-- leading zeros up to one digit before the point
pad : ℕ → Str → Str
pad decimals s =
    if leb (length s) decimals then replicate (decimals - length s + 1) b'0' ++ s else s

-- the magnitude with its point
point : ℕ → Str → Str
point decimals s = let split = length s - decimals in take split s ++ b'.' ∷ drop split s

-- `String` without the sign
magnitude : ℕ → Str → Str
unfolding pad point
magnitude decimals s = if decimals == 0 then s else point decimals (pad decimals s)

unfoldable pub string : Amount → Str
unfolding must_units magnitude
string a =
    let units = must_units a in
    let out = magnitude a.asset.decimals (digits (abs units)) in
    if is_neg units then b'-' ∷ out else out
