-- ===== src/Chain/Bitcoin.antt =====
-- internal/chain/btc: the Bitcoin adapter (btc.go) over a block explorer (backend.go). The explorer's
-- answers and the derivation of addresses from an extended public key are parameters.
pub mod Depth
pub mod Mempool
pub mod Tests
use vex_pay.Common.{
  ℕ, Bool, true, false, not, Option, none, some, List, [], ◌∷◌, ◌++◌, if◌then◌else◌, Result, ok,
  err, Error, ◌>>=◌, xpub_required,
}
use vex_pay.Common.Int.{ℤ, pos, leb_ℤ, ltb_ℤ, is_zero, ◌+ℤ◌, ◌-ℤ◌}
use vex_pay.Common.Int.Machine.{wrap64}
use vex_pay.Common.Text.{Str, codes, str_eq, is_empty}
use vex_pay.Money.{Asset, Amount, btc, tbtc, from_units, zero_amount, is_zero_amount, string}
use vex_pay.Chain.{WalletConfig, ReceiveTarget, Observation, Adapter, address_per_invoice}

pub record AddressStatus : Type 0 where
  -- `none` for a nil pointer
  pub received_sats : Option ℤ
  pub confirmations : ℤ
  pub tx_id : Str

abbrev pub Backend : Type 0 → Type 0
Backend W = W → Str → Result AddressStatus

-- the answers of the explorer; sums and heights are 64-bit integers
pub record EsploraAddress : Type 0 where
  pub chain_funded : ℤ
  pub mempool_funded : ℤ

pub record EsploraTx : Type 0 where
  pub tx_id : Str
  pub vout : List Str
  pub confirmed : Bool
  pub block_height : ℤ

pub record Explorer (W : Type 0) : Type 0 where
  pub address : W → Str → Result EsploraAddress
  pub tip_height : W → Result ℤ
  pub txs : W → Str → Result (List EsploraTx)

-- `paysAddress`, over the addresses of the outputs
unfoldable pub pays_address : List Str → Str → Bool
pays_address [] address = false
pays_address (v ∷ vs) address =
    let rest = pays_address vs address in if str_eq v address then true else rest

-- the confirmations of a transaction, never negative
unfoldable pub depth : ℤ → EsploraTx → ℤ
depth tip tx =
    if tx.confirmed
    then (let n = wrap64 (wrap64 (tip -ℤ tx.block_height) +ℤ pos 1) in
        if ltb_ℤ n (pos 0) then pos 0 else n)
    else pos 0

-- the loop over the transactions, newest first
unfoldable pub read_txs : ℤ → Str → List EsploraTx → AddressStatus → AddressStatus
read_txs tip address [] status = status
read_txs tip address (tx ∷ txs) status =
    let rest = read_txs tip address txs status in
    if not (pays_address tx.vout address)
    then rest
    else record status { tx_id = tx.tx_id; confirmations = depth tip tx }

-- the status before transactions are read
abbrev pub unconfirmed : ℤ → AddressStatus
unconfirmed total = record { received_sats = some total; confirmations = pos 0; tx_id = [] }

module _ {W : Type 0} (explorer : Explorer W) (w : W) (address : Str) where
  unfoldable pub funded_status : ℤ → Result AddressStatus
  funded_status total = do
    tip ← explorer.tip_height w
    txs ← explorer.txs w address
    ok (read_txs tip address txs (unconfirmed total))

  unfoldable pub status_of : ℤ → Result AddressStatus
  status_of total = if is_zero total then ok (unconfirmed total) else funded_status total

unfoldable pub address_status : {W : Type 0} → Explorer W → Backend W
address_status explorer w address = do
  answer ← explorer.address w address
  status_of explorer w address (wrap64 (answer.chain_funded +ℤ answer.mempool_funded))

pub record Network : Type 0 where
  pub id : Str
  pub asset : Asset

abbrev pub mainnet : Network
mainnet = record { id = codes "bitcoin"; asset = btc }

abbrev pub testnet : Network
testnet = record { id = codes "bitcoin-testnet"; asset = tbtc }

-- `New`: a count that is not positive is replaced
unfoldable pub default_confs : Network → ℤ → ℤ
default_confs net confs =
    if leb_ℤ confs (pos 0) then (if str_eq net.id mainnet.id then pos 2 else pos 1) else confs

-- `derive` gives the address of an index below the account key
unfoldable pub btc_derive :
    (Str → ℕ → Result Str) → WalletConfig → ℕ → Amount → Result ReceiveTarget
btc_derive derive cfg index requested = if is_empty cfg.xpub then err xpub_required else (do
  address ← derive cfg.xpub index
  ok (record {
    address = address;
    exact_amount = requested;
    strategy = address_per_invoice;
    derivation_index = index;
  }))

unfoldable pub observed : Asset → AddressStatus → Observation
observed asset st =
    let received : Amount = elim st.received_sats [
      | none ↦ zero_amount asset
      | some sats ↦ from_units asset sats
    ] in
    record {
      seen = not (is_zero_amount received);
      received = received;
      confirmations = st.confirmations;
      tx_hash = st.tx_id;
    }

unfoldable pub btc_check :
    {W : Type 0} → Network → Backend W → W → ReceiveTarget → Result Observation
btc_check net backend w target = do st ← backend w target.address; ok (observed net.asset st)

unfoldable pub btc_uri : ReceiveTarget → Str
btc_uri target =
    codes "bitcoin:" ++ target.address ++ codes "?amount=" ++ string target.exact_amount

unfoldable pub btc_adapter :
    {W : Type 0} → Network → (Str → ℕ → Result Str) → Backend W → ℤ → Adapter W
unfolding default_confs btc_derive btc_check btc_uri
btc_adapter net derive backend confs = record {
  chain = net.id;
  asset = net.asset;
  required_confirmations = default_confs net confs;
  derive_receive_target = btc_derive derive;
  check_payment = btc_check net backend;
  payment_uri = btc_uri;
}
