-- ===== src/Webhook/Drain.antt =====
-- internal/webhook/dispatcher.go: the `WaitGroup` and the deliveries under way, together and alone.
use vex_pay.Common.{
  ℕ, zero, suc, ◌+◌, ◌≤◌, ◌<◌, ◌≡◌, refl, ap, ◌∙◌, ◌⊎◌, ◌↔◌, true, Option, none, some, List, [],
  ◌∷◌, ◌++◌, arith, Bool-cases, Option-cases, inl, inr, Result, Result-cases, length, length-append,
  eqb_iff, some-injective,
}
use vex_pay.Common.Text.{Str, is_empty}
use vex_pay.Invoice.{StatusChange, Time}
use vex_pay.Webhook.Dispatcher.{Endpoint, Event, new_event, Dispatcher, deliver_once, attempts}
use vex_pay.Webhook.InFlight.{
  Job, Fleet, job_of, spawn, emit_async, turn, work, close_returns, Works, idle, worked, Reach,
  started, emitted, scheduled, remaining,
}

remaining-append : (a b : List Job) → remaining (a ++ b) ≡ remaining a + remaining b
remaining-append [] b = omega arith
remaining-append (job ∷ a) b = omega (arith, remaining-append a b)

length_zero : (xs : List Job) → (length xs ≡ 0) ↔ (xs ≡ [])
length_zero [] = ground arith
length_zero (x ∷ xs) = ground arith

left_cases : (n : ℕ) → (n ≡ 0) ⊎ ((m : ℕ) × (n ≡ suc m))
left_cases zero = inl refl
left_cases (suc m) = inr (m, refl)

module _ {W : Type 0} (hmac : Str → Str → Str) (d : Dispatcher W) where
  turn-left :
      (now : Time) (job next : Job) (w : W)
      → (turn hmac d now job w).0 ≡ some next
      → next.left + 1 ≡ job.left
  unfolding turn
  turn-left now job next w h = elim (left_cases job.left) [
    | inl done ↦ absurd (cc (rw done at h))
    | inr (left, more) ↦ elim (Bool-cases (deliver_once hmac d job.endpoint job.body now w).0) [
      | inl arrived ↦ absurd (cc (rw (more, arrived) at h))
      | inr failed ↦
          let same = ap (λ j. j.left) (some-injective (rw (more, failed) at h)) in
          omega (arith, same, more)
    ]
  ]

  work-remaining :
      (now : Time) (before : List Job) (job : Job) (after : List Job) (f : Fleet W)
      → f.jobs ≡ before ++ job ∷ after
      → remaining (work hmac d now before job after f).jobs + 1 ≤ remaining f.jobs
  unfolding work
  work-remaining now before job after f h = elim (Option-cases (turn hmac d now job f.world).0) [
    | inl ended ↦
        rw (ended, h, work)
          (omega (arith, remaining-append before after, remaining-append before (job ∷ after)))
    | inr (next, goes_on) ↦
        rw (goes_on, h, work)
          (omega (
            arith,
            turn-left now job next f.world goes_on,
            remaining-append before (next ∷ after),
            remaining-append before (job ∷ after),
          ))
  ]

  work-counts :
      (now : Time) (before : List Job) (job : Job) (after : List Job) (f : Fleet W)
      → f.jobs ≡ before ++ job ∷ after
      → f.wg ≡ length f.jobs
      → (work hmac d now before job after f).wg ≡ length (work hmac d now before job after f).jobs
  unfolding work
  work-counts now before job after f h counts =
      let total : f.wg ≡ length before + (length after + 1) =
        counts ∙ ap length h ∙ length-append before (job ∷ after) ∙ omega arith in
      elim (Option-cases (turn hmac d now job f.world).0) [
        | inl ended ↦ rw (ended, work) (omega (arith, total, length-append before after))
        | inr (next, goes_on) ↦
            rw (goes_on, work) (omega (arith, total, length-append before (next ∷ after)))
      ]

  emit_async-counts :
      (marshal : Event → Result Str) (id : Str) (change : StatusChange) (now : Time) (f : Fleet W)
      → f.wg ≡ length f.jobs
      → (emit_async hmac d marshal id change now f).wg
        ≡ length (emit_async hmac d marshal id change now f).jobs
  unfolding emit_async spawn
  emit_async-counts marshal id change now f counts =
      elim (Option-cases (d.resolver change.invoice.merchant_id)) [
        | inl nobody ↦ rw (nobody, emit_async) counts
        | inr (ep, resolves) ↦ elim (Bool-cases (is_empty ep.url)) [
          | inl no_url ↦ rw (resolves, no_url, emit_async) counts
          | inr url ↦ elim (Result-cases (marshal (new_event id change now))) [
            | inl (e, fails) ↦ rw (resolves, url, fails, emit_async) counts
            | inr (body, written) ↦
                rw (resolves, url, written, emit_async)
                  (omega (arith, counts, length-append f.jobs (job_of hmac d ep body ∷ [])))
          ]
        ]
      ]

  -- the counter of the `WaitGroup` is the number of goroutines
  Reach-counts : (start : W) {f : Fleet W} → Reach hmac d start f → f.wg ≡ length f.jobs
  Reach-counts start started = refl
  Reach-counts start (emitted {f = f} marshal id change now h) =
      emit_async-counts marshal id change now f (Reach-counts start h)
  Reach-counts start (scheduled {f = f} now before job after e h) =
      work-counts now before job after f e (Reach-counts start h)

  Works-counts :
      {n : ℕ} {f g : Fleet W} → Works hmac d n f g → f.wg ≡ length f.jobs → g.wg ≡ length g.jobs
  Works-counts idle counts = counts
  Works-counts (worked {f = f} now before job after e rest) counts =
      Works-counts rest (work-counts now before job after f e counts)

  Works-remaining :
      {n : ℕ} {f g : Fleet W} → Works hmac d n f g → n + remaining g.jobs ≤ remaining f.jobs
  Works-remaining idle = omega arith
  Works-remaining (worked {f = f} now before job after e rest) =
      omega (arith, Works-remaining rest, work-remaining now before job after f e)

  close_returns-empty :
      (f : Fleet W) → f.wg ≡ length f.jobs → (close_returns f ≡ true) ↔ (f.jobs ≡ [])
  unfolding close_returns
  close_returns-empty f counts = ground (arith, counts, length_zero f.jobs, eqb_iff f.wg 0)

  -- Whatever events came before and however the goroutines are scheduled, once no event comes any
  -- more they make at most as many turns as they have attempts left, with one each to end, and
  -- `Close` returns exactly when none of them is left.
  pub Works-terminates :
      (start : W) (n : ℕ) (f g : Fleet W)
      → Reach hmac d start f
      → Works hmac d n f g
      → (n ≤ remaining f.jobs) × ((close_returns g ≡ true) ↔ (g.jobs ≡ []))
  Works-terminates start n f g reached works = (
    omega (arith, Works-remaining works),
    close_returns-empty g (Works-counts works (Reach-counts start reached)),
  )

  -- a delivery alone: its turns until the goroutine ends, on fuel
  abbrev pub alone : ℕ → (ℕ → Time) → Job → W → Option W
  alone zero now job w = none
  alone (suc fuel) now job w =
      let (next, w') = turn hmac d (now job.attempt) job w in
      elim next [ none ↦ some w' | some job' ↦ alone fuel now job' w' ]

  -- The goroutine of one delivery, if no other is scheduled, ends after at most one turn more than its
  -- attempts, and leaves the endpoint as the loop of `deliverWithRetry` leaves it.
  pub alone-attempts :
      (left fuel i : ℕ) (ep : Endpoint) (body : Str) (now : ℕ → Time) (w : W)
      → left < fuel
      → alone fuel now (record { endpoint = ep; body = body; attempt = i; left = left }) w
        ≡ some (attempts hmac d left i ep body now w).world
  unfolding turn attempts
  alone-attempts left zero i ep body now w h = absurd (omega arith)
  alone-attempts zero (suc fuel) i ep body now w h = refl
  alone-attempts (suc left) (suc fuel) i ep body now w h =
      elim (Bool-cases (deliver_once hmac d ep body (now i) w).0) [
        | inl arrived ↦ rw (arrived, alone, turn) refl
        | inr failed ↦
            rw (failed, alone, turn)
              (alone-attempts left fuel (suc i) ep body now
                (deliver_once hmac d ep body (now i) w).1 (omega arith))
      ]
