-- ===== src/Rates/Tests.antt =====
-- internal/rates at concrete inputs.
use vex_pay.Common.{◌≡◌, refl, none, some, [], ◌∷◌, ok, err, provider_failed, if◌then◌else◌}
use vex_pay.Common.Int.{pos}
use vex_pay.Common.Text.{codes, str_eq}
use vex_pay.Common.Text.Decimal.{digits}
use vex_pay.Common.Text.Space.{trim_space}
use vex_pay.Common.Dict.{get, put}
use vex_pay.Common.Int.Machine.{time_sub}
use vex_pay.Common.Http.{HttpGet}
use vex_pay.Rates.CoinGecko.{GeckoLibraries, gecko_price, price_text, gecko_price-exact}
use vex_pay.Money.{btc, tbtc, from_units}
use vex_pay.Rates.{Oracle, Texts, price, crypto_amount, new_oracle, to_lower, cache_key, cached}
use vex_pay.Rates.Rational.{Rat, float_string, quo, scaled, pow10, ceil_rat}
use vex_pay.Rates.Fresh.{Quoted, price-fresh, price-IsSoundCache, IsSoundCache}
use vex_pay.Rates.Rounding.{Charged, crypto_amount-IsWorth}

-- a reader that knows one text, and no letters outside ASCII
abbrev texts : Texts
texts = record {
  lower_unicode = λ s. s;
  rat_set_string =
      λ s. if str_eq s (codes "100") then some (record { num = pos 100; den_pred = 0 }) else none;
}

-- one provider fails, one answers zero, the third knows the price 60000.005
abbrev third : Rat
third = record { num = pos 60000005; den_pred = 999 }

abbrev oracle : Oracle Unit
oracle = new_oracle (pos 0) (
    (λ w a f. err provider_failed)
    ∷ (λ w a f. ok (record { num = pos 0; den_pred = 0 }))
    ∷ (λ w a f. ok third)
    ∷ [])

float_string_test : float_string 8 third ≡ codes "60000.00500000"
unfolding float_string digits
float_string_test = refl

to_lower_test : to_lower texts (codes "EUR") ≡ codes "eur"
unfolding to_lower
to_lower_test = refl

crypto_amount_test :
    crypto_amount texts oracle tt (pos 0) (pos 5) btc (codes "EUR") (codes " 100 ") [] ≡ (
      ok (record { asset = btc; units = some (pos 166667) }, codes "60000.00500000"),
      (codes "BTC/eur", record { price = third; at = pos 5 }) ∷ [],
    )
unfolding crypto_amount price cached get new_oracle to_lower trim_space str_eq quo scaled pow10
    ceil_rat float_string digits put cache_key from_units time_sub
crypto_amount_test = refl

empty-IsSoundCache : IsSoundCache []
unfolding get
empty-IsSoundCache key e h = cc

price-fresh_example : Quoted texts oracle tt (pos 0) (pos 5) btc (codes "EUR") []
price-fresh_example = price-fresh texts oracle tt (pos 0) (pos 5) btc (codes "EUR") []

price-IsSoundCache_example :
    IsSoundCache (price texts oracle tt (pos 0) (pos 5) btc (codes "EUR") []).1
price-IsSoundCache_example =
    (price-IsSoundCache texts oracle tt (pos 0) (pos 5) btc (codes "EUR") [] empty-IsSoundCache).0

crypto_amount-IsWorth_example :
    Charged texts oracle tt (pos 0) (pos 5) btc (codes "EUR") (codes " 100 ") []
crypto_amount-IsWorth_example =
    crypto_amount-IsWorth texts oracle tt (pos 0) (pos 5) btc (codes "EUR") (codes " 100 ") []
      empty-IsSoundCache

-- the answer of the service for bitcoin in euros
abbrev gecko_libraries : GeckoLibraries
gecko_libraries = record {
  texts = texts;
  decode = λ s. some ((codes "bitcoin", (codes "eur", codes "100") ∷ []) ∷ []);
  query_escape = λ s. s;
}

abbrev gecko_http : HttpGet (Unit {0})
gecko_http w url = ok (record { status = 200; body = codes "{}" })

gecko_price-exact_example :
    gecko_price gecko_libraries gecko_http [] tt tbtc (codes "EUR")
    ≡ ok (record { num = pos 100; den_pred = 0 })
unfolding get str_eq price_text to_lower
gecko_price-exact_example =
    (gecko_price-exact gecko_libraries gecko_http [] tt tbtc (codes "EUR")
        (record { num = pos 100; den_pred = 0 })).1
      (record {
        id = codes "bitcoin";
        page = codes "{}";
        table = (codes "bitcoin", (codes "eur", codes "100") ∷ []) ∷ [];
        text = codes "100";
        known = refl;
        answered = refl;
        decoded = refl;
        listed = refl;
        number = refl;
      })
