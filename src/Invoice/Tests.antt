-- ===== src/Invoice/Tests.antt =====
-- internal/invoice at concrete inputs: a service over the repository in memory and the sandbox
-- chain, with one invoice of 100 units that needs one confirmation.
use vex_pay.Common.{◌≡◌, ◌≢◌, refl, true, false, none, some, [], ◌∷◌, arith, ok}
use vex_pay.Common.Int.{pos, same}
use vex_pay.Common.Text.{codes, str_eq}
use vex_pay.Common.Dict.{get, put}
use vex_pay.Money.{tbtc, cmp, is_zero_amount, zero_amount}
use vex_pay.Chain.{Observation, address_per_invoice, find_adapter}
use vex_pay.Chain.Mock.{Ledger, mock_adapter, chain_id}
use vex_pay.Invoice.{Invoice, pending, paid, expired, decide, is_terminal, is_settled, status_eq}
use vex_pay.Invoice.Repository.{SameTerms}
use vex_pay.Invoice.Memory.{MemRepository, mem_repository}
use vex_pay.Invoice.Memory.Laws.{IsConsistent, mem_laws}
use vex_pay.Invoice.Lifecycle.{
  IsCovered, IsSound, decide_settled, decide_open, advance-IsSound, advance-SameTerms,
}
use vex_pay.Invoice.Service.{Service, State, advance, sync, target_of}
use vex_pay.Invoice.Service.Sync.{Observes, moved, sync-events, sync-sync_quiet}
use vex_pay.Invoice.Service.Idempotent.{ChangesNothing, sync_idempotent}
use vex_pay.Invoice.Service.Rounds.{sync-stores}

abbrev pub sample : Invoice
sample = record {
  id = codes "a";
  merchant_id = codes "m";
  chain = chain_id;
  asset = tbtc;
  amount = record { asset = tbtc; units = some (pos 100) };
  fiat_currency = [];
  fiat_amount = [];
  rate = [];
  receive_address = codes "x";
  payment_uri = codes "u";
  strategy = address_per_invoice;
  derivation_index = 0;
  status = pending;
  received = record { asset = tbtc; units = some (pos 0) };
  confirmations = pos 0;
  required_confs = pos 1;
  tx_hash = [];
  metadata = [];
  created_at = pos 1000;
  expires_at = pos 2000;
  paid_at = none;
  updated_at = pos 1000;
}

abbrev settled_sample : Invoice
settled_sample = record sample {
  status = paid;
  paid_at = some (pos 1500);
  received = sample.amount;
  confirmations = pos 1;
}

abbrev pub payment : Observation
payment = record {
  seen = true;
  received = record { asset = tbtc; units = some (pos 100) };
  confirmations = pos 1;
  tx_hash = codes "t";
}

abbrev excess : Observation
excess = record payment { received = record { asset = tbtc; units = some (pos 101) } }

abbrev nothing : Observation
nothing = record {
  seen = false;
  received = record { asset = tbtc; units = some (pos 0) };
  confirmations = pos 0;
  tx_hash = [];
}

abbrev pub mock_service : Service MemRepository (Unit {0}) Ledger
mock_service = record {
  repo = mem_repository;
  registry = (chain_id, mock_adapter (λ w. w) (pos 1)) ∷ [];
  emitter = true;
  pricer = none;
  expiry = pos 900;
}

abbrev pub store_of : Invoice → MemRepository
store_of inv = record { by_id = (inv.id, inv) ∷ []; seq = []; order = inv.id ∷ [] }

abbrev pub state_of : Invoice → State MemRepository (Unit {0})
state_of inv = record { store = store_of inv; prices = tt; events = [] }

abbrev pub paid_ledger : Ledger
paid_ledger =
    (codes "x", record { received = payment.received; confirmations = pos 1; tx_hash = codes "t" })
    ∷ []

pub consistent : (inv : Invoice) → IsConsistent (store_of inv)
unfolding get
consistent inv = record { indexed = (refl, refl, tt); ordered = refl }

pub sees_payment : Observes mock_service paid_ledger sample payment
unfolding is_terminal find_adapter get str_eq mock_adapter target_of
sees_payment = record {
  adapter = mock_adapter (λ w. w) (pos 1);
  still_open = refl;
  known = refl;
  shown = refl;
}

sees_nothing : Observes mock_service [] sample nothing
unfolding is_terminal find_adapter get str_eq mock_adapter zero_amount target_of
sees_nothing = record {
  adapter = mock_adapter (λ w. w) (pos 1);
  still_open = refl;
  known = refl;
  shown = refl;
}

decide_test : decide sample payment (pos 3000) ≡ paid
unfolding decide is_zero_amount cmp
decide_test = refl

sync_test : moved (sync mock_service paid_ledger (pos 1500) sample (state_of sample)).result ≡ true
unfolding sync is_terminal find_adapter get put str_eq mock_adapter mem_repository decide
    is_zero_amount cmp status_eq advance
sync_test = refl

covered : IsCovered sample payment
unfolding is_zero_amount cmp
covered = record { seen = refl; nonzero = refl; enough = λ h. cc }

is_covered_same : cmp payment.received sample.amount ≡ same
unfolding cmp
is_covered_same = refl

decide_settled_example : decide sample payment (pos 3000) ≡ paid
decide_settled_example =
    (decide_settled sample payment (pos 3000)).0.1 (covered, omega arith, is_covered_same)

not-IsCovered : ¬ IsCovered sample nothing
not-IsCovered h = cc (h.seen)

decide_open_example : decide sample nothing (pos 3000) ≡ expired
decide_open_example = (decide_open sample nothing (pos 3000)).0.1 (omega arith, not-IsCovered)

sound : IsSound sample
unfolding is_settled
sound = record {
  paid_when_settled = refl;
  enough_when_settled = λ h. absurd (cc);
  deep_when_settled = λ h. absurd (cc);
}

pub still_open : is_terminal sample.status ≡ false
unfolding is_terminal
still_open = refl

advance-IsSound_example : IsSound (advance sample payment (pos 1500))
advance-IsSound_example = advance-IsSound sample payment (pos 1500) sound still_open

advance-SameTerms_example : SameTerms sample (advance sample excess (pos 1500))
advance-SameTerms_example = advance-SameTerms sample excess (pos 1500)

sync-events_example :
    (sync mock_service paid_ledger (pos 1500) sample (state_of sample)).invoice.status ≢ pending
sync-events_example =
    (sync-events mock_service paid_ledger (pos 1500) sample (state_of sample)).1 sync_test

sync-sync_quiet_test :
    let once = sync mock_service paid_ledger (pos 1500) sample (state_of sample) in
    let twice = sync mock_service paid_ledger (pos 1500) once.invoice once.state in
    (moved twice.result ≡ false) × (twice.state.events ≡ once.state.events)
sync-sync_quiet_test = sync-sync_quiet mock_service paid_ledger (pos 1500) sample (state_of sample)

get_sample : mem_repository.get sample.id (store_of sample) ≡ ok sample
unfolding mem_repository get str_eq
get_sample = refl

sync_idempotent_example :
    let once = sync mock_service paid_ledger (pos 1500) sample (state_of sample) in
    ChangesNothing mock_service once
      (sync mock_service paid_ledger (pos 1500) once.invoice once.state)
sync_idempotent_example =
    sync_idempotent mock_service IsConsistent mem_laws paid_ledger (pos 1500) sample sample
      (state_of sample) (consistent sample) get_sample (ground arith)

-- a copy that is out of date: the stored version is paid, and the sandbox ledger is empty again
stored_paid : mem_repository.get sample.id (store_of settled_sample) ≡ ok settled_sample
unfolding mem_repository get str_eq
stored_paid = refl

sync-stores_example :
    mem_repository.get
      (codes "a")
      (sync mock_service [] (pos 1500) sample (state_of settled_sample)).state.store
    ≡ ok (advance sample nothing (pos 1500))
sync-stores_example =
    (sync-stores mock_service IsConsistent mem_laws [] (pos 1500) sample settled_sample nothing
      (state_of settled_sample) (consistent settled_sample) stored_paid (ground arith)
      sees_nothing).0

-- so the paid invoice is pending again
reopened : (advance sample nothing (pos 1500)).status ≡ pending
unfolding advance decide status_eq
reopened = refl
