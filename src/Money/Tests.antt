-- ===== src/Money/Tests.antt =====
-- internal/money at concrete inputs: the tests of money_test.go, and an instance of each theorem.
use vex_pay.Common.{◌≡◌, refl, some, arith, ok, err, too_precise, ◌++◌}
use vex_pay.Common.Int.{pos, negsuc, less, ◌<ℤ◌}
use vex_pay.Common.Text.{codes, str_eq, cut}
use vex_pay.Common.Text.Space.{trim_space}
use vex_pay.Common.Text.Decimal.{digits, value, set_string}
use vex_pay.Money.{
  Amount, btc, eth, usdt, from_units, must_units, lookup, parse_decimal, string, cmp, add, sub,
}
use vex_pay.Money.RoundTrip.{parse_decimal-string, parse_decimal-double_minus}
use vex_pay.Money.Parsing.{parse_decimal-exact, parse_decimal-too_precise, cmp-sub, sub-add}

parse_test : parse_decimal btc (codes " 1.5 ") ≡ ok (from_units btc (pos 150000000))
unfolding parse_decimal trim_space cut set_string value from_units
parse_test = refl

parse_negative_test : parse_decimal btc (codes "-0.00000001") ≡ ok (from_units btc (negsuc 0))
unfolding parse_decimal trim_space cut set_string value from_units
parse_negative_test = refl

parse_precise_test : parse_decimal usdt (codes "1.1234567") ≡ err too_precise
unfolding parse_decimal trim_space cut set_string value
parse_precise_test = refl

-- a lone point and a lone minus are read as zero
parse_point_test : parse_decimal btc (codes ".") ≡ ok (from_units btc (pos 0))
unfolding parse_decimal trim_space cut set_string value from_units
parse_point_test = refl

string_test : string (from_units btc (pos 10000)) ≡ codes "0.00010000"
unfolding string from_units digits
string_test = refl

lookup_test : lookup (codes "ETH") ≡ ok eth
unfolding lookup str_eq
lookup_test = refl

abbrev debt : Amount
debt = record { asset = btc; units = some (negsuc 149999999) }

parse_decimal-string_example :
    parse_decimal btc (string debt) ≡ ok (from_units btc (must_units debt))
parse_decimal-string_example = parse_decimal-string debt

parse_decimal-double_minus_example :
    parse_decimal btc (codes "--" ++ string (from_units btc (pos 5))) ≡ ok (from_units btc (pos 5))
parse_decimal-double_minus_example = parse_decimal-double_minus btc 4

parse_decimal-exact_example :
    parse_decimal btc (codes "12.5") ≡ ok (from_units btc (pos 1250000000))
unfolding value
parse_decimal-exact_example =
    parse_decimal-exact btc (codes "12") (codes "5") 12 5 (omega arith) (omega arith) (omega arith)
      (omega arith) refl refl

parse_decimal-too_precise_test : parse_decimal usdt (codes "x.1234567") ≡ err too_precise
parse_decimal-too_precise_test =
    parse_decimal-too_precise usdt (codes "x") (codes "1234567") (omega arith) (omega arith)
      (omega arith) (omega arith)

sub-add_test : sub (add debt debt) debt ≡ from_units btc (must_units debt)
sub-add_test = sub-add debt debt

debt_below : ◌≡◌ (cmp debt (from_units btc (pos 0))) less
unfolding cmp from_units
debt_below = refl

cmp-sub_test : must_units (sub debt (from_units btc (pos 0))) <ℤ pos 0
cmp-sub_test = (cmp-sub debt (from_units btc (pos 0))).0.0 debt_below
