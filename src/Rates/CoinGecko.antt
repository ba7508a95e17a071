-- ===== src/Rates/CoinGecko.antt =====
-- internal/rates/coingecko.go: the provider of prices. The HTTP client, the JSON decoder, which keeps
-- a number as its text, and `url.QueryEscape` are parameters.
use vex_pay.Common.{
  true, ◌==◌, Bool-cases, inl, inr, ok-injective, ◌≡◌, refl, ap, ◌∙◌, Option, none, some, [], ◌∷◌,
  ◌++◌, if◌then◌else◌, arith, ok, or_err, ◌>>=◌, Error, no_coin_id, no_price, invalid_price,
  bind_steps, ◌↔◌,
}
use vex_pay.Common.Http.{Reply, HttpGet, get_ok, get_json}
use vex_pay.Common.Text.{Str, codes, is_empty}
use vex_pay.Common.Dict.{Dict, get}
use vex_pay.Money.{Asset}
use vex_pay.Rates.{Texts, to_lower, Provider}
use vex_pay.Rates.Rational.{Rat}

-- `coinGeckoIDs`
abbrev pub coin_gecko_ids : Dict Str
coin_gecko_ids =
    (codes "BTC", codes "bitcoin")
    ∷ (codes "tBTC", codes "bitcoin")
    ∷ (codes "ETH", codes "ethereum")
    ∷ (codes "USDT", codes "tether")
    ∷ (codes "USDC", codes "usd-coin")
    ∷ []

-- `NewCoinGecko`: an empty address is replaced
unfoldable pub gecko_url : Str → Str
gecko_url base_url = if is_empty base_url then codes "https://api.coingecko.com" else base_url

-- from coins to currencies to the texts of prices
abbrev pub PriceTable : Type 0
PriceTable = Dict (Dict Str)

pub record GeckoLibraries : Type 0 where
  pub texts : Texts
  pub decode : Str → Option PriceTable
  pub query_escape : Str → Str

-- `body[id][fiat]`: a missing coin has no prices
unfoldable pub price_text : PriceTable → Str → Str → Option Str
price_text table id fiat = elim (get table id) [ none ↦ none | some prices ↦ get prices fiat ]

module _ {W : Type 0} (lib : GeckoLibraries) (http : HttpGet W) (base_url : Str) where
  unfoldable pub price_url : Str → Str → Str
  price_url id fiat =
      gecko_url base_url
      ++ codes "/api/v3/simple/price?ids="
      ++ lib.query_escape id
      ++ codes "&vs_currencies="
      ++ lib.query_escape fiat

  -- `Price`
  unfoldable pub gecko_price : Provider W
  gecko_price w asset currency = do
    id ← or_err (get coin_gecko_ids asset.symbol) no_coin_id
    let fiat = to_lower lib.texts currency
    table ← get_json http lib.decode w (price_url id fiat)
    text ← or_err (price_text table id fiat) no_price
    or_err (lib.texts.rat_set_string text) invalid_price

-- what the answer takes: a known coin, a page that decodes, a price in it, and a number
pub record Listed {W : Type 0} (lib : GeckoLibraries) (http : HttpGet W) (base_url : Str) (w : W)
    (asset : Asset) (currency : Str) (price : Rat) : Type 0 where
  pub id : Str
  pub page : Str
  pub table : PriceTable
  pub text : Str
  pub known : get coin_gecko_ids asset.symbol ≡ some id
  pub answered :
      http w (price_url lib http base_url id (to_lower lib.texts currency))
      ≡ ok (record { status = 200; body = page })
  pub decoded : lib.decode page ≡ some table
  pub listed : price_text table id (to_lower lib.texts currency) ≡ some text
  pub number : lib.texts.rat_set_string text ≡ some price

or_err_ok : {A : Type 0} (o : Option A) (e : Error) (a : A) → or_err o e ≡ ok a → o ≡ some a
or_err_ok none e a h = absurd (cc h)
or_err_ok (some x) e a h = cc h

same_reply :
    (reply : Reply) (page : Str)
    → (reply.status == 200) ≡ true
    → reply.body ≡ page
    → reply ≡ record { status = 200; body = page }
same_reply reply page good body =
    let status : reply.status ≡ 200 = ground arith in rw⁻¹ (status, body) refl

get_ok-answered :
    {W : Type 0} (http : HttpGet W) (w : W) (url page : Str)
    → get_ok http w url ≡ ok page
    → http w url ≡ ok (record { status = 200; body = page })
unfolding get_ok
get_ok-answered http w url page h =
    let (reply, (answered, counts)) = bind_steps _ page (http w url) h in
    elim (Bool-cases (reply.status == 200)) [
      | inr other ↦ absurd (cc (rw other at counts))
      | inl good ↦ answered ∙ ap ok (same_reply reply page good (ok-injective (rw good at counts)))
    ]

module _ {W : Type 0} (lib : GeckoLibraries) (http : HttpGet W) (base_url : Str) where
  gecko_price-Listed :
      (w : W) (asset : Asset) (currency : Str) (price : Rat)
      → gecko_price lib http base_url w asset currency ≡ ok price
      → Listed lib http base_url w asset currency price
  unfolding gecko_price get_json
  gecko_price-Listed w asset currency price h =
      let fiat = to_lower lib.texts currency in
      let (id, (known, h1)) =
        bind_steps _ price (or_err (get coin_gecko_ids asset.symbol) no_coin_id) h in
      let (table, (fetched, h2)) =
        bind_steps _ price (get_json http lib.decode w (price_url lib http base_url id fiat)) h1 in
      let (text, (listed, number)) =
        bind_steps _ price (or_err (price_text table id fiat) no_price) h2 in
      let (page, (answered, decoded)) =
        bind_steps _ table (get_ok http w (price_url lib http base_url id fiat)) fetched in
      record {
        id = id;
        page = page;
        table = table;
        text = text;
        known = or_err_ok _ _ id known;
        answered = get_ok-answered http w (price_url lib http base_url id fiat) page answered;
        decoded = or_err_ok _ _ table decoded;
        listed = or_err_ok _ _ text listed;
        number = or_err_ok _ _ price number;
      }

  Listed-gecko_price :
      (w : W) (asset : Asset) (currency : Str) (price : Rat)
      → Listed lib http base_url w asset currency price
      → gecko_price lib http base_url w asset currency ≡ ok price
  unfolding gecko_price get_json get_ok
  Listed-gecko_price w asset currency price h =
      rw (h.known, h.answered, h.decoded, h.listed, h.number) refl

  -- The provider answers a price exactly if the asset is one of its coins, the service answered with
  -- status 200 and a table that lists the coin in the currency in lower case, and the text of that
  -- entry is a number, which is the price.
  pub gecko_price-exact :
      (w : W) (asset : Asset) (currency : Str) (price : Rat)
      → (gecko_price lib http base_url w asset currency ≡ ok price)
        ↔ Listed lib http base_url w asset currency price
  gecko_price-exact w asset currency price =
      (gecko_price-Listed w asset currency price, Listed-gecko_price w asset currency price)
