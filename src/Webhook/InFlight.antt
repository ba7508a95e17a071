-- ===== src/Webhook/InFlight.antt =====
-- internal/webhook/dispatcher.go: the deliveries that `Emit` starts, each on its own goroutine, in any
-- interleaving, and `Close`, which waits for them by the `WaitGroup`.
use vex_pay.Common.{
  ℕ, zero, suc, ◌+◌, ◌-◌, ◌≡◌, Bool, Option, none, some, List, [], ◌∷◌, ◌++◌, if◌then◌else◌, Result,
  ok, err, ◌==◌,
}
use vex_pay.Common.Text.{Str, is_empty}
use vex_pay.Invoice.{StatusChange, Time}
use vex_pay.Webhook.Dispatcher.{Endpoint, Event, new_event, Dispatcher, deliver_once}

-- a goroutine inside the loop of `deliverWithRetry`, before attempt number `attempt`
pub record Job : Type 0 where
  pub endpoint : Endpoint
  pub body : Str
  pub attempt : ℕ
  pub left : ℕ

-- the counter of the `WaitGroup`, the goroutines and what the endpoints have
pub record Fleet (W : Type 0) : Type 0 where
  pub wg : ℕ
  pub jobs : List Job
  pub world : W

-- `Close` returns at a counter of 0
unfoldable pub close_returns : {W : Type 0} → Fleet W → Bool
close_returns f = f.wg == 0

-- the attempts that are left, and one turn to end, for each goroutine
abbrev pub remaining : List Job → ℕ
remaining [] = 0
remaining (job ∷ jobs) = job.left + 1 + remaining jobs

module _ {W : Type 0} (hmac : Str → Str → Str) (d : Dispatcher W) where
  -- a goroutine as it starts
  abbrev pub job_of : Endpoint → Str → Job
  job_of ep body = record { endpoint = ep; body = body; attempt = 1; left = d.max_attempts }

  -- `wg.Add(1)` and the `go` statement
  unfoldable pub spawn : Endpoint → Str → Fleet W → Fleet W
  spawn ep body f = record f { wg = f.wg + 1; jobs = f.jobs ++ job_of ep body ∷ [] }

  -- `Emit`, up to the `go` statement
  unfoldable pub emit_async : (Event → Result Str) → Str → StatusChange → Time → Fleet W → Fleet W
  emit_async marshal id change now f = elim (d.resolver change.invoice.merchant_id) [
    | none ↦ f
    | some ep ↦
        if is_empty ep.url
        then f
        else elim (marshal (new_event id change now)) [ err e ↦ f | ok body ↦ spawn ep body f ]
  ]

  -- one turn of the loop: `none` when the goroutine ends
  unfoldable pub turn : Time → Job → W → Option Job × W
  turn now job w = elim job.left [
    | zero ↦ (none, w)
    | suc left ↦
        let (arrived, w') = deliver_once hmac d job.endpoint job.body now w in
        (if arrived then none else some (record job { attempt = suc job.attempt; left = left }), w')
  ]

  -- the turn of one goroutine among the others; its end is `wg.Done()`
  unfoldable pub work : Time → List Job → Job → List Job → Fleet W → Fleet W
  work now before job after f =
      let (next, w) = turn now job f.world in
      elim next [
        | none ↦ record { wg = f.wg - 1; jobs = before ++ after; world = w }
        | some job' ↦ record { wg = f.wg; jobs = before ++ job' ∷ after; world = w }
      ]

  -- `n` turns of whichever goroutines are scheduled
  pub data Works : ℕ → Fleet W → Fleet W → Type 0 where
    idle : {f : Fleet W} → Works 0 f f
    worked :
        {n : ℕ} {f g : Fleet W} (now : Time) (before : List Job) (job : Job) (after : List Job)
        → f.jobs ≡ before ++ job ∷ after
        → Works n (work now before job after f) g
        → Works (suc n) f g

  -- what can happen from the start on: events and turns in any order
  pub data Reach (start : W) : Fleet W → Type 0 where
    started : Reach start (record { wg = 0; jobs = []; world = start })
    emitted :
        {f : Fleet W} (marshal : Event → Result Str) (id : Str) (change : StatusChange) (now : Time)
        → Reach start f
        → Reach start (emit_async marshal id change now f)
    scheduled :
        {f : Fleet W} (now : Time) (before : List Job) (job : Job) (after : List Job)
        → f.jobs ≡ before ++ job ∷ after
        → Reach start f
        → Reach start (work now before job after f)
