-- ===== src/Webhook/Delivery.antt =====
-- internal/webhook/dispatcher.go, `deliverWithRetry`: how often and how long the dispatcher tries.
use vex_pay.Common.{
  ℕ, zero, suc, ◌+◌, ◌-◌, ◌*◌, ◌%◌, ◌^◌, ◌≤◌, ◌<◌, ◌≡◌, refl, sym, ap, ◌⊎◌, inl, inr, true, false,
  List, [], ◌∷◌, ◌++◌, append-nil, arith, Bool-cases, ltb, min, if◌then◌else◌,
}
use native.Mathlib.Nat.{add-zero, pow-le-pow_right}
use vex_pay.Common.Int.{ℤ, pos, ltb_ℤ}
use vex_pay.Common.Text.{Str}
use vex_pay.Invoice.{Time}
use vex_pay.Webhook.Dispatcher.{
  Endpoint, Dispatcher, Delivery, deliver_once, attempts, deliver_with_retry, default_backoff,
  int64_of,
}

module _ {W : Type 0} (hmac : Str → Str → Str) (d : Dispatcher W) (ep : Endpoint) (body : Str)
    (now : ℕ → Time) where
  -- attempts `i`, `i + 1`, … fail, `n` in all, and lead from one state of the endpoint to another
  pub data Fail : ℕ → ℕ → W → W → Type 0 where
    none_tried : {i : ℕ} {w : W} → Fail i 0 w w
    one_more :
        {i n : ℕ} {w w' w'' : W}
        → deliver_once hmac d ep body (now i) w ≡ (false, w')
        → Fail (suc i) n w' w''
        → Fail i (suc n) w w''

  abbrev pub pause : ℕ → List ℤ
  pause i = if ltb 1 i then d.backoff (i - 1) ∷ [] else []

  -- the waits before attempts `i` to `i + n - 1`; there is none before attempt 1
  abbrev pub pauses : ℕ → ℕ → List ℤ
  pauses i zero = []
  pauses i (suc n) = pause i ++ pauses (suc i) n

  -- `n` failures and then success; or as many failures as there are attempts
  abbrev pub Outcome : ℕ → ℕ → W → Delivery W → Type 0
  Outcome left i w out =
      ((n : ℕ) × (w' : W) × (n < left)
        × Fail i n w w'
        × (out.delivered ≡ true)
        × (out.waits ≡ pauses i (suc n))
        × (deliver_once hmac d ep body (now (i + n)) w' ≡ (true, out.world)))
      ⊎ (Fail i left w out.world × (out.delivered ≡ false) × (out.waits ≡ pauses i left))

  attempts-Outcome : (left i : ℕ) (w : W) → Outcome left i w (attempts hmac d left i ep body now w)
  unfolding attempts
  attempts-Outcome zero i w = inr (none_tried, refl, refl)
  attempts-Outcome (suc left) i w =
      let tried = deliver_once hmac d ep body (now i) w in
      elim (Bool-cases tried.0) [
        | inl arrived ↦
            let here : deliver_once hmac d ep body (now (i + 0)) w ≡ (true, tried.1) =
              rw (add-zero i) (ap (λ b. (b, tried.1)) arrived) in
            inl (
              0,
              w,
              omega arith,
              none_tried,
              rw arrived refl,
              rw arrived (sym (append-nil _)),
              rw arrived here,
            )
        | inr failed ↦
            let first : tried ≡ (false, tried.1) = ap (λ b. (b, tried.1)) failed in
            elim (attempts-Outcome left (suc i) tried.1) [
              | inl (n, w', fewer, fails, done, waits, last) ↦
                  let shift : suc i + n ≡ i + suc n = omega arith in
                  inl (
                    suc n,
                    w',
                    omega arith,
                    one_more first fails,
                    rw failed done,
                    rw failed (ap (λ s. pause i ++ s) waits),
                    rw (failed, ← shift) last,
                  )
              | inr (fails, done, waits) ↦ inr (
                rw failed (one_more first fails),
                rw failed done,
                rw failed (ap (λ s. pause i ++ s) waits),
              )
            ]
      ]

  -- The delivery is retried until the endpoint answers with a 2xx status, and no further: fewer
  -- attempts than the limit fail and the next one arrives, or all attempts up to the limit fail. It
  -- waits for the back-off before every attempt but the first.
  pub deliver_with_retry-Outcome :
      (w : W) → Outcome d.max_attempts 1 w (deliver_with_retry hmac d ep body now w)
  unfolding deliver_with_retry
  deliver_with_retry-Outcome w = attempts-Outcome d.max_attempts 1 w

capped_seconds :
    (x : ℕ)
    → x ≤ 2 ^ 33
    → (let d = int64_of (x * 10 ^ 9 % 2 ^ 64) in
        if ltb_ℤ (pos (30 * 10 ^ 9)) d then pos (30 * 10 ^ 9) else d)
      ≡ pos (min x 30 * 10 ^ 9)
unfolding int64_of
capped_seconds x h = ground arith

-- The default back-off doubles from one second on, up to 30 seconds, for the first 34 attempts.
pub default_backoff-doubles :
    (attempt : ℕ)
    → attempt ≤ 34
    → default_backoff attempt ≡ pos (min (2 ^ (attempt - 1)) 30 * 10 ^ 9)
unfolding default_backoff
default_backoff-doubles attempt h =
    capped_seconds (2 ^ (attempt - 1)) (pow-le-pow_right (omega arith) {j = 33} (omega arith))
