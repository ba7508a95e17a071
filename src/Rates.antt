-- ===== src/Rates.antt =====
-- internal/rates/rates.go: the price oracle. A provider asks the world for a price; what
-- `strings.ToLower` does outside ASCII and how `big.Rat` reads a text are parameters, so what is
-- shown holds for every such table and reader.
pub mod Rational
pub mod Fresh
pub mod Rounding
pub mod CoinGecko
pub mod Tests
use vex_pay.Common.{
  ℕ, suc, ◌+◌, ◌-◌, ◌*◌, ◌^◌, ltb, leb, Bool, true, false, ◌&&◌, not, Option, none, some, List, [],
  ◌∷◌, ◌++◌, if◌then◌else◌, Result, ok, err, Error, no_rate, invalid_fiat, or_err,
}
use vex_pay.Common.Int.{ℤ, pos, negsuc, ltb_ℤ, leb_ℤ, ◌-ℤ◌}
use vex_pay.Common.Int.Machine.{time_sub}
use vex_pay.Common.Text.{Str, str_eq}
use vex_pay.Common.Text.Space.{trim_space}
use vex_pay.Common.Dict.{Dict, get, put}
use vex_pay.Common.Act.{Act, pure, lift, ◌>>=◌, ◌>>◌}
use vex_pay.Money.{Asset, Amount, from_units}
use vex_pay.Invoice.{Time}
use vex_pay.Invoice.Service.{Pricer}
use vex_pay.Rates.Rational.{Rat, is_pos, quo, scaled, pow10, ceil_rat, float_string}

abbrev pub Provider : Type 0 → Type 0
Provider W = W → Asset → Str → Result Rat

pub record CacheEntry : Type 0 where
  pub price : Rat
  pub at : Time

abbrev pub Cache : Type 0
Cache = Dict CacheEntry

-- what is set once; the cache is the oracle's state
pub record Oracle (W : Type 0) : Type 0 where
  pub providers : List (Provider W)
  pub ttl : ℤ

abbrev pub minute : ℤ
minute = pos (60 * 10 ^ 9)

unfoldable pub new_oracle : {W : Type 0} → ℤ → List (Provider W) → Oracle W
new_oracle ttl providers = record {
  providers = providers;
  ttl = if leb_ℤ ttl (pos 0) then minute else ttl;
}

is_ascii : Str → Bool
is_ascii [] = true
is_ascii (c ∷ s) = ltb c 128 && is_ascii s

lower_ascii : Str → Str
lower_ascii [] = []
lower_ascii (c ∷ s) = (if leb b'A' c && leb c b'Z' then c + 32 else c) ∷ lower_ascii s

-- what the standard library reads from tables and by its own grammar
pub record Texts : Type 0 where
  pub lower_unicode : Str → Str
  pub rat_set_string : Str → Option Rat

-- `strings.ToLower`
unfoldable pub to_lower : Texts → Str → Str
unfolding is_ascii lower_ascii
to_lower texts s = if is_ascii s then lower_ascii s else texts.lower_unicode s

unfoldable pub cache_key : Asset → Str → Str
cache_key asset fiat = asset.symbol ++ b'/' ∷ fiat

-- the loop over the providers: the first positive price
pub ask : {W : Type 0} → List (Provider W) → W → Asset → Str → Option Rat
ask [] w asset fiat = none
ask (p ∷ ps) w asset fiat =
    let rest = ask ps w asset fiat in
    elim (p w asset fiat) [
      | err e ↦ rest
      | ok price ↦ if not (is_pos price) then rest else some price
    ]

module _ {W : Type 0} (o : Oracle W) where
  -- the price that the cache holds, while it is fresh
  unfoldable pub cached : Time → Str → Cache → Option Rat
  cached now key cache = elim (get cache key) [
    | none ↦ none
    | some e ↦ if ltb_ℤ (time_sub now e.at) o.ttl then some e.price else none
  ]

  -- `now` is the clock at the look-up, `later` when the answer is stored; `fiat` is in lower case
  pub price_of : W → Time → Time → Asset → Str → Act Cache Rat
  price_of w now later asset fiat cache =
      let key = cache_key asset fiat in
      elim (cached now key cache) [
        | some price ↦ (ok price, cache)
        | none ↦ elim (ask o.providers w asset fiat) [
          | none ↦ (err no_rate, cache)
          | some price ↦ (ok price, put cache key (record { price = price; at = later }))
        ]
      ]

-- the fiat amount, which must be positive
pub read_fiat : Texts → Str → Result Rat
read_fiat texts text = elim (texts.rat_set_string (trim_space text)) [
  | none ↦ err invalid_fiat
  | some fiat ↦ if not (is_pos fiat) then err invalid_fiat else ok fiat
]

-- `ceil((fiat / price) * 10^decimals)`
pub units_for : Asset → Rat → Rat → ℤ
units_for asset fiat price = ceil_rat (scaled (quo fiat price) (pow10 asset.decimals))

module _ {W : Type 0} (texts : Texts) (o : Oracle W) where
  unfoldable pub price : W → Time → Time → Asset → Str → Act Cache Rat
  unfolding ask price_of
  price w now later asset fiat = price_of o w now later asset (to_lower texts fiat)

  unfoldable pub crypto_amount : W → Time → Time → Asset → Str → Str → Act Cache (Amount × Str)
  unfolding read_fiat units_for
  crypto_amount w now later asset currency text = do
    price ← price w now later asset currency
    fiat ← lift (read_fiat texts text)
    pure (from_units asset (units_for asset fiat price), float_string 8 price)

  unfoldable pub oracle_pricer : W → Time → Time → Pricer Cache
  oracle_pricer w now later = record { crypto_amount = crypto_amount w now later }
