-- ===== src/Webhook/Tests.antt =====
-- internal/webhook at concrete inputs, with a digest of one byte in place of HMAC-SHA256.
use vex_pay.Common.{
  some, true, ◌≤◌, ◌↔◌, ℕ, suc, ◌+◌, ◌%◌, ◌<◌, ◌≡◌, refl, inl, none, [], ◌∷◌, arith, length, ok,
  err, ltb, if◌then◌else◌, signature_mismatch,
}
use vex_pay.Common.Int.{pos, ◌+ℤ◌, ◌-ℤ◌}
use vex_pay.Common.Int.Machine.{time_sub, wrap64}
use vex_pay.Common.Text.{Str, codes, str_eq, cut}
use vex_pay.Common.Text.Space.{trim_space}
use vex_pay.Common.Text.Split.{split}
use vex_pay.Common.Text.Decimal.{digits, int_string, set_string, value}
use vex_pay.Common.Text.Hex.{hex, hex_digit}
use vex_pay.Money.{tbtc}
use vex_pay.Chain.{address_per_invoice}
use vex_pay.Invoice.{Invoice, pending, paid}
use vex_pay.Webhook.InFlight.{
  Job, Fleet, spawn, emit_async, turn, work, close_returns, Works, idle, worked, Reach, started,
  emitted, remaining,
}
use vex_pay.Webhook.Drain.{Works-terminates, alone, alone-attempts}
use vex_pay.Webhook.Signer.{
  sign, verify, read_header, unix_of, time_unix, seconds, parse_int, compute_mac, age_of,
}
use vex_pay.Webhook.Verify.{IsSigned, verify-sign, verify-IsSigned, verify-far_future}
use vex_pay.Webhook.Dispatcher.{
  Endpoint, Dispatcher, new_dispatcher, deliver_once, attempts, deliver_with_retry, default_backoff,
}
use vex_pay.Webhook.Delivery.{Outcome, deliver_with_retry-Outcome, default_backoff-doubles}

abbrev total : Str → ℕ
total [] = 0
total (c ∷ s) = c + total s

abbrev digest : Str → Str → Str
digest key message = (total key + total message) % 256 ∷ []

digest_pos : (key message : Str) → 0 < length (digest key message)
digest_pos key message = omega arith

abbrev secret : Str
secret = codes "s3"

abbrev body : Str
body = codes "{}"

-- 2 seconds after the epoch
sign_test : sign digest secret (pos 2500000000) body ≡ codes "t=2,v1=fe"
unfolding sign unix_of int_string digits compute_mac hex hex_digit
sign_test = refl

verify_wrong :
    verify digest secret (codes " v1=00 , x, t=2") body (pos 0) (pos 0) ≡ err signature_mismatch
unfolding verify read_header split trim_space cut str_eq parse_int set_string time_sub time_unix
    age_of wrap64 compute_mac int_string digits hex hex_digit value
verify_wrong = refl

verify-sign_example :
    verify digest secret (sign digest secret (pos 2500000000) body) body (pos 0) (pos 0) ≡ ok tt
unfolding unix_of
verify-sign_example =
    verify-sign digest secret body (pos 2500000000) (pos 0) (pos 0) digest_pos refl
      (inl (omega arith))

verify-IsSigned_example :
    IsSigned digest secret (sign digest secret (pos 2500000000) body) body (pos 0) (pos 0)
verify-IsSigned_example =
    verify-IsSigned digest secret (sign digest secret (pos 2500000000) body) body (pos 0) (pos 0)
      (omega arith) verify-sign_example

-- a header that is stamped 300 years ahead, under a tolerance of five minutes
verify-far_future_example :
    verify digest secret
      (sign digest secret (pos 9467280000000000000) body)
      body
      (pos 300000000000)
      (pos 0)
    ≡ ok tt
unfolding unix_of time_unix wrap64 seconds ◌+ℤ◌ ◌-ℤ◌
verify-far_future_example =
    verify-far_future digest secret body (pos 9467280000000000000) (pos 300000000000) (pos 0)
      digest_pos refl (omega arith) (omega arith)

-- an endpoint that refuses the first two requests; its state counts them
abbrev flaky : Dispatcher ℕ
flaky = new_dispatcher (λ r n. (ok (if ltb n 2 then 503 else 204), suc n)) (λ m. none) (pos 0) none

abbrev endpoint : Endpoint
endpoint = record { url = codes "u"; secret = secret }

deliver_with_retry-Outcome_example :
    Outcome digest flaky endpoint body
      (λ i. pos i)
      flaky.max_attempts
      1
      0
      (deliver_with_retry digest flaky endpoint body (λ i. pos i) 0)
deliver_with_retry-Outcome_example =
    deliver_with_retry-Outcome digest flaky endpoint body (λ i. pos i) 0

default_backoff-doubles_test : default_backoff 6 ≡ pos 30000000000
default_backoff-doubles_test = default_backoff-doubles 6 (omega arith)

-- an event, for an endpoint that refuses all of two attempts
abbrev event_invoice : Invoice
event_invoice = record {
  id = codes "a";
  merchant_id = codes "m";
  chain = codes "mock";
  asset = tbtc;
  amount = record { asset = tbtc; units = some (pos 100) };
  fiat_currency = [];
  fiat_amount = [];
  rate = [];
  receive_address = codes "x";
  payment_uri = codes "u";
  strategy = address_per_invoice;
  derivation_index = 0;
  status = paid;
  received = record { asset = tbtc; units = some (pos 100) };
  confirmations = pos 1;
  required_confs = pos 1;
  tx_hash = [];
  metadata = [];
  created_at = pos 1000;
  expires_at = pos 2000;
  paid_at = some (pos 1500);
  updated_at = pos 1500;
}

abbrev refusing : Dispatcher ℕ
refusing = record {
  do_request = λ r n. (ok 503, suc n);
  resolver = λ m. some endpoint;
  max_attempts = 2;
  backoff = λ i. pos 0;
}

abbrev job_with : ℕ → ℕ → Job
job_with attempt left = record { endpoint = endpoint; body = body; attempt = attempt; left = left }

abbrev under_way : Fleet ℕ
under_way = record { wg = 1; jobs = job_with 1 2 ∷ []; world = 0 }

abbrev half_way : Fleet ℕ
half_way = record { wg = 1; jobs = job_with 2 1 ∷ []; world = 1 }

under_way_reached : Reach digest refusing 0 under_way
unfolding emit_async spawn
under_way_reached =
    emitted (λ e. ok body) (codes "evt") (record { invoice = event_invoice; previous = pending })
      (pos 0) started

one_turn : Works digest refusing 1 under_way half_way
unfolding work turn deliver_once
one_turn = worked (pos 0) [] (job_with 1 2) [] refl idle

Works-terminates_example :
    (1 ≤ remaining under_way.jobs) × ((close_returns half_way ≡ true) ↔ (half_way.jobs ≡ []))
Works-terminates_example =
    Works-terminates digest refusing 0 1 under_way half_way under_way_reached one_turn

alone-attempts_test :
    alone digest refusing 3 (λ i. pos i) (job_with 1 2) 0
    ≡ some (attempts digest refusing 2 1 endpoint body (λ i. pos i) 0).world
alone-attempts_test =
    alone-attempts digest refusing 2 3 1 endpoint body (λ i. pos i) 0 (omega arith)
