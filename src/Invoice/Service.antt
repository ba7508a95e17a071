-- ===== src/Invoice/Service.antt =====
-- internal/invoice/service.go: creating invoices and advancing them from observations. The clock,
-- new ids and the world that adapters observe are arguments.
pub mod Sync
pub mod Create
pub mod Safety
pub mod Rounds
pub mod Idempotent
pub mod Pricing
pub mod Outcome
use vex_pay.Common.{
  ℕ, suc, ◌*◌, ◌^◌, Bool, true, false, ◌&&◌, ◌||◌, not, Option, none, some, List, [], ◌∷◌, ◌++◌,
  if◌then◌else◌, Error, Result, ok, err, merchant_required, asset_mismatch, not_positive,
  fiat_disabled, amount_required, derive_failed, check_failed, fail_if,
}
use vex_pay.Common.Int.{ℤ, pos, Sign, less, same, more, leb_ℤ, ◌+ℤ◌}
use vex_pay.Common.Text.{Str, is_empty}
use vex_pay.Common.Dict.{Dict}
use vex_pay.Common.Act.{Act, pure, lift, ◌>>=◌, ◌>>◌}
use vex_pay.Money.{Asset, Amount, asset_eq, is_zero_amount, zero_amount, cmp}
use vex_pay.Chain.{WalletConfig, ReceiveTarget, Observation, Adapter, Registry, find_adapter}
use vex_pay.Invoice.{
  Invoice, StatusChange, Status, pending, Time, status_eq, is_terminal, is_settled, decide,
}
use vex_pay.Invoice.Repository.{Repository}

-- a fiat price to a crypto amount and the locked rate; `P` is the pricer's own state
pub record Pricer (P : Type 0) : Type 0 where
  pub crypto_amount : Asset → Str → Str → Act P (Amount × Str)

-- `emitter` tells whether one is set
pub record Service (S P W : Type 0) : Type 0 where
  pub repo : Repository S
  pub registry : Registry W
  pub emitter : Bool
  pub pricer : Option (Pricer P)
  pub expiry : ℤ

-- what the service's operations change; `events` holds what was emitted, oldest first
pub record State (S P : Type 0) : Type 0 where
  pub store : S
  pub prices : P
  pub events : List StatusChange

pub record CreateParams : Type 0 where
  pub merchant_id : Str
  pub chain : Str
  pub wallet : WalletConfig
  pub amount : Amount
  pub fiat_currency : Str
  pub fiat_amount : Str
  pub rate : Str
  pub metadata : Dict Str

-- 15 minutes
abbrev pub default_expiry : ℤ
default_expiry = pos (900 * 10 ^ 9)

-- `NewService`: the options with the default expiry filled in
unfoldable pub new_service :
    {S P W : Type 0} → Repository S → Registry W → Bool → Option (Pricer P) → ℤ → Service S P W
new_service repo registry emitter pricer expiry = record {
  repo = repo;
  registry = registry;
  emitter = emitter;
  pricer = pricer;
  expiry = if leb_ℤ expiry (pos 0) then default_expiry else expiry;
}

module _ {S P A : Type 0} where
  abbrev pub in_store : Act S A → Act (State S P) A
  in_store m st = let (r, s) = m st.store in (r, record st { store = s })

  abbrev pub in_prices : Act P A → Act (State S P) A
  in_prices m st = let (r, p) = m st.prices in (r, record st { prices = p })

-- an error is wrapped, and is an error still
abbrev pub wrap : {A : Type 0} → Error → Result A → Result A
wrap e (ok a) = ok a
wrap e (err _) = err e

unfoldable pub new_invoice :
    {W : Type 0}
    → Adapter W
    → ReceiveTarget
    → CreateParams
    → Amount
    → Str
    → Str
    → Time
    → ℤ
    → Invoice
new_invoice adapter target p amount rate id now expiry = record {
  id = id;
  merchant_id = p.merchant_id;
  chain = p.chain;
  asset = adapter.asset;
  amount = amount;
  fiat_currency = p.fiat_currency;
  fiat_amount = p.fiat_amount;
  rate = if is_empty rate then p.rate else rate;
  receive_address = target.address;
  payment_uri = adapter.payment_uri target;
  strategy = target.strategy;
  derivation_index = target.derivation_index;
  status = pending;
  received = zero_amount adapter.asset;
  confirmations = pos 0;
  required_confs = adapter.required_confirmations;
  tx_hash = [];
  metadata = p.metadata;
  created_at = now;
  expires_at = now +ℤ expiry;
  paid_at = none;
  updated_at = now;
}

-- the crypto-priced branch of `resolveAmount`
check_amount : Asset → Amount → Result (Amount × Str)
check_amount asset amount =
    if not (asset_eq amount.asset asset)
    then err asset_mismatch
    else elim (cmp amount (zero_amount asset)) [ more ↦ ok (amount, []) | _ ↦ err not_positive ]

unfoldable pub target_of : Invoice → ReceiveTarget
target_of inv = record {
  address = inv.receive_address;
  exact_amount = inv.amount;
  strategy = inv.strategy;
  derivation_index = inv.derivation_index;
}

-- `Record what we observed regardless of whether status moved.`
unfoldable pub observe : Invoice → Observation → Invoice
observe inv obs =
    if obs.seen
    then record inv {
      received = obs.received;
      confirmations = obs.confirmations;
      tx_hash = if is_empty obs.tx_hash then inv.tx_hash else obs.tx_hash;
    }
    else inv

-- the new status, and the time of payment when it settles
unfoldable pub move : Invoice → Status → Time → Invoice
move inv next now = if status_eq next inv.status then inv else record inv {
  status = next;
  paid_at = elim inv.paid_at [
    | none ↦ if is_settled next then some now else none
    | some t ↦ some t
  ];
}

-- what one `Sync` makes of an invoice, in memory
unfoldable pub advance : Invoice → Observation → Time → Invoice
unfolding observe move
advance inv obs now = move (record (observe inv obs) { updated_at = now }) (decide inv obs now) now

-- the result of `Sync`, the caller's invoice, which is changed in place, and the state
pub record Synced (S P : Type 0) : Type 0 where
  pub result : Result Bool
  pub invoice : Invoice
  pub state : State S P

module _ {S P W : Type 0} (svc : Service S P W) where
  unfoldable pub resolve_amount : Asset → CreateParams → Act (State S P) (Amount × Str)
  unfolding check_amount
  resolve_amount asset p =
      if not (is_zero_amount p.amount)
      then lift (check_amount asset p.amount)
      else if not (is_empty p.fiat_currency) && not (is_empty p.fiat_amount)
      then elim svc.pricer [
        | none ↦ lift (err fiat_disabled)
        | some pricer ↦ in_prices (pricer.crypto_amount asset p.fiat_currency p.fiat_amount)
      ]
      else lift (err amount_required)

  -- the end of `Create`, from the derivation index on
  unfoldable pub issue :
      Adapter W → Time → Str → CreateParams → Amount × Str → Act (State S P) Invoice
  issue adapter now id p priced = do
    idx ← in_store (svc.repo.next_derivation_index p.merchant_id)
    target ← lift (wrap derive_failed (adapter.derive_receive_target p.wallet idx priced.0))
    let inv = new_invoice adapter target p priced.0 priced.1 id now svc.expiry
    in_store (svc.repo.create inv)
    pure inv

  -- `Create` without an interruption; it holds no lock, so another operation may come between the
  -- counting of the index and the storing of the invoice
  unfoldable pub create : Time → Str → CreateParams → Act (State S P) Invoice
  unfolding resolve_amount new_invoice issue
  create now id p = do
    lift (fail_if (is_empty p.merchant_id) merchant_required)
    adapter ← lift (find_adapter svc.registry p.chain)
    priced ← resolve_amount adapter.asset p
    issue adapter now id p priced

  unfoldable pub get_invoice : Str → State S P → Result Invoice
  get_invoice id st = svc.repo.get id st.store

  unfoldable pub list_invoices : Str → ℤ → ℤ → State S P → Result (List Invoice)
  list_invoices merchant limit offset st = svc.repo.list_by_merchant merchant limit offset st.store

  -- the end of `Sync`, from the observation on
  unfoldable pub conclude : Invoice → Observation → Time → State S P → Synced S P
  conclude inv obs now st =
      let inv' = advance inv obs now in
      let changed = not (status_eq (decide inv obs now) inv.status) in
      let (r, store) = svc.repo.update inv' st.store in
      elim r [
        | err e ↦ record { result = err e; invoice = inv'; state = record st { store = store } }
        | ok _ ↦ record {
          result = ok changed;
          invoice = inv';
          state = record st {
            store = store;
            events =
                if changed && svc.emitter
                then st.events ++ record { invoice = inv'; previous = inv.status } ∷ []
                else st.events;
          };
        }
      ]

  unfoldable pub sync : W → Time → Invoice → State S P → Synced S P
  unfolding conclude target_of
  sync w now inv st =
      if is_terminal inv.status
      then record { result = ok false; invoice = inv; state = st }
      else elim (find_adapter svc.registry inv.chain) [
        | err e ↦ record { result = err e; invoice = inv; state = st }
        | ok adapter ↦ elim (adapter.check_payment w (target_of inv)) [
          | err e ↦ record { result = err check_failed; invoice = inv; state = st }
          | ok obs ↦ conclude inv obs now st
        ]
      ]

  -- the loop of `ProcessOpen`: a failed sync is logged. The clock and the world move between
  -- rounds, so each round has its own.
  pub rounds : (ℕ → W) → (ℕ → Time) → ℕ → List Invoice → State S P → State S P
  rounds w now i [] st = st
  rounds w now i (inv ∷ todo) st = rounds w now (suc i) todo (sync (w i) (now i) inv st).state

  unfoldable pub process_open : (ℕ → W) → (ℕ → Time) → Act (State S P) (Unit {0})
  unfolding rounds
  process_open w now st = elim (svc.repo.list_open st.store) [
    | err e ↦ (err e, st)
    | ok todo ↦ (ok tt, rounds w now 0 todo st)
  ]
