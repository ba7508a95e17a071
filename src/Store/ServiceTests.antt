-- ===== src/Store/ServiceTests.antt =====
-- internal/invoice/service.go over both repositories at concrete inputs: one waiting invoice on the
-- sandbox chain, paid in full, and a new one.
use vex_pay.Common.{
  arith, some-injective, ◌≡◌, refl, ap, subst, ◌∙◌, true, none, some, [], ◌∷◌, ok, ok-injective,
  some-injective, inl, inr, ℕ,
}
use vex_pay.Common.Int.{pos, ◌+ℤ◌}
use vex_pay.Common.Text.{Str, codes, str_eq}
use vex_pay.Common.Dict.{get, put}
use vex_pay.Money.{Amount, tbtc, from_units, must_units, asset_eq, is_zero_amount, zero_amount, cmp}
use vex_pay.Chain.{Adapter, Registry, ReceiveTarget, Observation, find_adapter}
use vex_pay.Chain.Mock.{Ledger, mock_adapter, mock_check, chain_id}
use vex_pay.Invoice.{Invoice, status_eq, decide, is_settled}
use vex_pay.Invoice.Repository.{SameTerms, SameTerms-refl}
use vex_pay.Invoice.Memory.{MemRepository, new_mem_repository, mem_create, mem_repository}
use vex_pay.Invoice.Service.{
  State, CreateParams, target_of, advance, new_invoice, resolve_amount, sync, create,
}
use vex_pay.Store.RoundTrip.{IsPrintable, IsStorable}
use vex_pay.Store.Sqlite.{Database, new_database, sql_create, sql_repository}
use vex_pay.Store.Agrees.{Agree-new, create-Agree}
use vex_pay.Store.Sample.{sample_codec, IsOrder, sample_laws}
use vex_pay.Store.Behind.{over, Alike, SameSync, Keeps, sync-Alike}
use vex_pay.Store.Issued.{create-Alike}
use vex_pay.Store.Tests.{order_invoice, order_invoice-IsStorable}

abbrev registry : Registry Ledger
registry = (chain_id, mock_adapter (λ w. w) (pos 1)) ∷ []

abbrev sandbox_invoice : Invoice
sandbox_invoice = record order_invoice { chain = chain_id }

sandbox_invoice-IsStorable : IsStorable IsOrder sandbox_invoice
sandbox_invoice-IsStorable = record {
  amount = order_invoice-IsStorable.amount;
  received = order_invoice-IsStorable.received;
  metadata = order_invoice-IsStorable.metadata;
  created = order_invoice-IsStorable.created;
  expires = order_invoice-IsStorable.expires;
  updated = order_invoice-IsStorable.updated;
  paid = order_invoice-IsStorable.paid;
}

abbrev ledger : Ledger
ledger =
    (
      codes "x",
      record {
        received = record { asset = tbtc; units = some (pos 100) };
        confirmations = pos 1;
        tx_hash = codes "t";
      },
    )
    ∷ []

abbrev in_memory : State MemRepository (Unit {0})
in_memory = record {
  store = (mem_create sandbox_invoice new_mem_repository).1;
  prices = tt;
  events = [];
}

abbrev in_sqlite : State Database (Unit {0})
in_sqlite = record {
  store = (sql_create sample_codec sandbox_invoice new_database).1;
  prices = tt;
  events = [];
}

alike : Alike sample_codec IsOrder sample_laws in_memory in_sqlite
unfolding get
alike = record {
  store =
      (create-Agree sample_codec IsOrder sample_laws sandbox_invoice new_mem_repository new_database
        (Agree-new sample_codec IsOrder sample_laws) (refl, sandbox_invoice-IsStorable)).1;
  prices = refl;
  events = refl;
}

abbrev seen_payment : Observation
seen_payment = record {
  seen = true;
  received = record { asset = tbtc; units = some (pos 100) };
  confirmations = pos 1;
  tx_hash = codes "t";
}

paid-IsStorable : IsStorable IsOrder (advance sandbox_invoice seen_payment (pos 5000))
unfolding advance from_units must_units decide status_eq str_eq cmp is_zero_amount is_settled
paid-IsStorable = record {
  amount = refl;
  received = refl;
  metadata = inr refl;
  created = (ground arith, ground arith);
  expires = (ground arith, ground arith);
  updated = (ground arith, ground arith);
  paid = λ t h. subst IsPrintable (some-injective h) (ground arith, ground arith);
}

keeps :
    Keeps sample_codec IsOrder sample_laws {P = Unit {0}} registry true none
      (pos 9)
      ledger
      (pos 5000)
      sandbox_invoice
unfolding find_adapter get str_eq mock_adapter mock_check target_of
keeps adapter obs known seen =
    let same =
      ap (λ (a : Adapter Ledger). a.check_payment ledger (target_of sandbox_invoice))
        (ok-injective known) in
    subst (λ o. IsStorable IsOrder (advance sandbox_invoice o (pos 5000)))
      (ok-injective (same ∙ seen)) paid-IsStorable

same_terms : (old : Invoice) → some sandbox_invoice ≡ some old → SameTerms old sandbox_invoice
same_terms old there =
    subst (λ inv. SameTerms inv sandbox_invoice) (some-injective there)
      (SameTerms-refl sandbox_invoice)

sync-Alike_example :
    SameSync sample_codec IsOrder sample_laws registry true none
      (pos 9)
      (sync
        (over registry true none (pos 9) mem_repository)
        ledger
        (pos 5000)
        sandbox_invoice
        in_memory)
      (sync
        (over registry true none (pos 9) (sql_repository sample_codec))
        ledger
        (pos 5000)
        sandbox_invoice
        in_sqlite)
unfolding mem_create put get str_eq
sync-Alike_example =
    sync-Alike sample_codec IsOrder sample_laws registry true none (pos 9) ledger (pos 5000)
      sandbox_invoice in_memory in_sqlite alike keeps same_terms

abbrev new_params : CreateParams
new_params = record {
  merchant_id = codes "m";
  chain = chain_id;
  wallet = record { xpub = []; address = []; view_key = []; primary_address = [] };
  amount = record { asset = tbtc; units = some (pos 100) };
  fiat_currency = [];
  fiat_amount = [];
  rate = [];
  metadata = [];
}

new_invoice-IsStorable :
    (priced : Amount × Str) (target : ReceiveTarget)
    → ok (new_params.amount, []) ≡ ok priced
    → IsStorable IsOrder (
        new_invoice
          (mock_adapter (λ w. w) (pos 1))
          target
          new_params
          priced.0
          priced.1
          (codes "inv_2")
          (pos 6000)
          (pos 9))
unfolding new_invoice mock_adapter zero_amount from_units must_units ◌+ℤ◌
new_invoice-IsStorable priced target resolves = record {
  amount =
      subst (λ (q : Amount × Str). q.0 ≡ from_units tbtc (must_units q.0)) (ok-injective resolves)
        refl;
  received = refl;
  metadata = inl refl;
  created = (ground arith, ground arith);
  expires = (ground arith, ground arith);
  updated = (ground arith, ground arith);
  paid = λ t h. absurd (cc h);
}

new_fits :
    (adapter : Adapter Ledger) (priced : Amount × Str) (index : ℕ) (target : ReceiveTarget)
    → find_adapter registry chain_id ≡ ok adapter
    → (resolve_amount
        (over registry true none (pos 9) mem_repository)
        adapter.asset
        new_params
        in_memory).0
      ≡ ok priced
    → adapter.derive_receive_target new_params.wallet index priced.0 ≡ ok target
    → IsStorable IsOrder
        (new_invoice adapter target new_params priced.0 priced.1 (codes "inv_2") (pos 6000) (pos 9))
unfolding find_adapter get str_eq mock_adapter resolve_amount asset_eq is_zero_amount cmp
    zero_amount
new_fits adapter priced index target known =
    subst
      (λ (a : Adapter Ledger).
        (resolve_amount (over registry true none (pos 9) mem_repository) a.asset new_params
            in_memory).0
          ≡ ok priced
        → a.derive_receive_target new_params.wallet index priced.0 ≡ ok target
        → IsStorable IsOrder
            (new_invoice a target new_params priced.0 priced.1 (codes "inv_2") (pos 6000) (pos 9)))
      (ok-injective known) (λ resolves derives. new_invoice-IsStorable priced target resolves)

create-Alike_example :
    ((create
        (over registry true none (pos 9) mem_repository)
        (pos 6000)
        (codes "inv_2")
        new_params
        in_memory).0
      ≡ (create
          (over registry true none (pos 9) (sql_repository sample_codec))
          (pos 6000)
          (codes "inv_2")
          new_params
          in_sqlite).0)
    × Alike sample_codec IsOrder sample_laws
        (create
          (over registry true none (pos 9) mem_repository)
          (pos 6000)
          (codes "inv_2")
          new_params
          in_memory).1
        (create
          (over registry true none (pos 9) (sql_repository sample_codec))
          (pos 6000)
          (codes "inv_2")
          new_params
          in_sqlite).1
unfolding mem_create put get str_eq
create-Alike_example =
    create-Alike sample_codec IsOrder sample_laws registry true none (pos 9) (pos 6000)
      (codes "inv_2") new_params in_memory in_sqlite alike refl new_fits
