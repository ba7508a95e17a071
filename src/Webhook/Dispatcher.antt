-- ===== src/Webhook/Dispatcher.antt =====
-- internal/webhook/dispatcher.go and event.go. The HTTP client and the JSON encoder are parameters:
-- the client answers a request with a status, or fails, and may change the endpoint's state `W`.
use vex_pay.Common.{
  ℕ, zero, suc, ◌-◌, ◌*◌, ◌%◌, ◌^◌, ltb, leb, Bool, true, false, ◌||◌, Option, none, some, List, [],
  ◌∷◌, ◌++◌, if◌then◌else◌, Result, ok, err,
}
use vex_pay.Common.Int.{ℤ, pos, negsuc, ltb_ℤ}
use vex_pay.Common.Text.{Str, codes, is_empty}
use vex_pay.Common.Text.Hex.{hex}
use vex_pay.Invoice.{StatusChange, Time, status_text}
use vex_pay.Invoice.View.{View, new_view}
use vex_pay.Webhook.Signer.{sign}

pub record Endpoint : Type 0 where
  pub url : Str
  pub secret : Str

pub record Event : Type 0 where
  pub id : Str
  pub type : Str
  pub created : Time
  pub data_view : View

-- `newEventID` from 12 random bytes
unfoldable pub new_event_id : Str → Str
new_event_id random = codes "evt_" ++ hex random

-- `id` comes from `new_event_id`
unfoldable pub new_event : Str → StatusChange → Time → Event
new_event id change now = record {
  id = id;
  type = codes "invoice." ++ status_text change.invoice.status;
  created = now;
  data_view = new_view change.invoice;
}

-- a POST with its headers
pub record Request : Type 0 where
  pub url : Str
  pub content_type : Str
  pub user_agent : Str
  pub signature : Str
  pub body : Str

-- `Duration(1<<uint(attempt-1)) * Second`, at most 30 seconds. The shift and the product have 64
-- bits; `attempt` is at least 1.
unfoldable pub int64_of : ℕ → ℤ
int64_of n = if ltb n (2 ^ 63) then pos n else negsuc (2 ^ 64 - n - 1)

unfoldable pub default_backoff : ℕ → ℤ
unfolding int64_of
default_backoff attempt =
    let d = int64_of (2 ^ (attempt - 1) * 10 ^ 9 % 2 ^ 64) in
    if ltb_ℤ (pos (30 * 10 ^ 9)) d then pos (30 * 10 ^ 9) else d

pub record Dispatcher (W : Type 0) : Type 0 where
  pub do_request : Request → W → Result ℕ × W
  pub resolver : Str → Option Endpoint
  pub max_attempts : ℕ
  pub backoff : ℕ → ℤ

unfoldable pub new_dispatcher :
    {W : Type 0}
    → (Request → W → Result ℕ × W)
    → (Str → Option Endpoint)
    → ℤ
    → Option (ℕ → ℤ)
    → Dispatcher W
new_dispatcher client resolver attempts backoff = record {
  do_request = client;
  resolver = resolver;
  max_attempts = elim attempts [ pos zero ↦ 5 | pos (suc n) ↦ suc n | negsuc _ ↦ 5 ];
  backoff = elim backoff [ none ↦ default_backoff | some f ↦ f ];
}

-- what a delivery does: whether it arrived, the waits in their order, the endpoint's state
pub record Delivery (W : Type 0) : Type 0 where
  pub delivered : Bool
  pub waits : List ℤ
  pub world : W

module _ {W : Type 0} (hmac : Str → Str → Str) (d : Dispatcher W) where
  unfoldable pub request : Endpoint → Str → Time → Request
  request ep body now = record {
    url = ep.url;
    content_type = codes "application/json";
    user_agent = codes "VexPay-Webhooks/1";
    signature = sign hmac ep.secret now body;
    body = body;
  }

  -- `true` for a status of 200 to 299
  unfoldable pub deliver_once : Endpoint → Str → Time → W → Bool × W
  deliver_once ep body now w =
      let (r, w') = d.do_request (request ep body now) w in
      elim r [
        | err e ↦ (false, w')
        | ok status ↦ (if ltb status 200 || leb 300 status then false else true, w')
      ]

  -- the loop, with `left` attempts to go; `now i` is the clock at attempt `i`
  unfoldable pub attempts : ℕ → ℕ → Endpoint → Str → (ℕ → Time) → W → Delivery W
  attempts zero i ep body now w = record { delivered = false; waits = []; world = w }
  attempts (suc left) i ep body now w =
      let (arrived, w') = deliver_once ep body (now i) w in
      let rest = attempts left (suc i) ep body now w' in
      let pause = if ltb 1 i then d.backoff (i - 1) ∷ [] else [] in
      if arrived
      then record { delivered = true; waits = pause; world = w' }
      else record rest { waits = pause ++ rest.waits }

  unfoldable pub deliver_with_retry : Endpoint → Str → (ℕ → Time) → W → Delivery W
  deliver_with_retry ep body now w = attempts d.max_attempts 1 ep body now w

  -- `Emit`: nothing without an endpoint; `marshal` may fail. The delivery runs on its own, so the
  -- caller never waits for it.
  unfoldable pub emit :
      (Event → Result Str) → Str → StatusChange → (ℕ → Time) → W → Option (Delivery W)
  emit marshal id change now w = elim (d.resolver change.invoice.merchant_id) [
    | none ↦ none
    | some ep ↦ if is_empty ep.url then none else elim (marshal (new_event id change (now 0))) [
      | err e ↦ none
      | ok body ↦ some (deliver_with_retry ep body now w)
    ]
  ]
