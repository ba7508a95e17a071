-- ===== src/Chain/Bitcoin/Mempool.antt =====
-- internal/chain/btc/backend.go: the requests of `MempoolBackend`. The HTTP client and the JSON
-- decoder are parameters.
use vex_pay.Common.{Option, List, ◌++◌, Result}
use vex_pay.Common.Int.{ℤ}
use vex_pay.Common.Http.{HttpGet, get_json}
use vex_pay.Common.Text.{Str, codes}
use vex_pay.Chain.Bitcoin.{Explorer, EsploraAddress, EsploraTx}

pub record EsploraJson : Type 0 where
  pub address : Str → Option EsploraAddress
  pub height : Str → Option ℤ
  pub txs : Str → Option (List EsploraTx)

module _ {W : Type 0} (http : HttpGet W) (json : EsploraJson) (base_url : Str) where
  -- `tipHeight`
  unfoldable pub tip_height : W → Result ℤ
  tip_height w = get_json http json.height w (base_url ++ codes "/api/blocks/tip/height")

  -- `getJSON` at the two paths that `AddressStatus` asks for
  unfoldable pub get_address : W → Str → Result EsploraAddress
  get_address w address =
      get_json http json.address w (base_url ++ codes "/api/address/" ++ address)

  unfoldable pub get_txs : W → Str → Result (List EsploraTx)
  get_txs w address =
      get_json http json.txs w (base_url ++ codes "/api/address/" ++ address ++ codes "/txs")

  -- `NewMempoolBackend`
  unfoldable pub mempool_backend : Explorer W
  unfolding tip_height get_address get_txs
  mempool_backend = record { address = get_address; tip_height = tip_height; txs = get_txs }
