-- ===== src/Config/Valid.antt =====
-- internal/config/config.go: what a configuration satisfies that `Load` returns.
use vex_pay.Common.{
  ◌≡◌, subst, ◌↔◌, false, ◌&&◌, Option, is_some, arith, Bool-cases, Option-cases, Result-cases, inl,
  inr, ok, ok-injective, bind_steps, ◌>>=◌,
}
use vex_pay.Common.Int.{ℤ, pos, ltb_ℤ, ◌≤ℤ◌, ◌<ℤ◌}
use vex_pay.Common.Text.{Str, codes, is_empty}
use vex_pay.Common.Text.Prefix.{cut_prefix}
use vex_pay.Webhook.Signer.{parse_int}
use vex_pay.Config.{
  Config, default_config, is_production, validate, duration_env, confirmations_env, overlay,
  validated, load,
}

-- what `Validate` is for
pub record IsSafeConfig (c : Config) : Type 0 where
  pub has_addr : is_empty c.addr ≡ false
  pub has_url : is_empty c.public_url ≡ false
  pub expires : pos 0 <ℤ c.invoice_expiry
  pub has_secret : (is_production c && is_empty c.admin_session_secret) ≡ false
  pub no_plain_http :
      (is_production c && is_some (cut_prefix (codes "http://") c.public_url)) ≡ false

-- `Validate` accepts exactly the configurations that listen somewhere, have a public address and a
-- positive expiry, and in production have a session secret and no plain http address.
pub validate-IsSafeConfig : (c : Config) → (validate c ≡ ok tt) ↔ IsSafeConfig c
unfolding validate
validate-IsSafeConfig c = ground arith

module _ (parse_duration : Str → Option ℤ) (env : Str → Str) where
  confirmations_env-positive :
      (key : Str) (default n : ℤ)
      → pos 1 ≤ℤ default
      → confirmations_env parse_duration env key default ≡ ok n
      → pos 1 ≤ℤ n
  unfolding confirmations_env
  confirmations_env-positive key default n h e = elim (Bool-cases (is_empty (env key))) [
    | inl unset ↦ subst (λ x. pos 1 ≤ℤ x) (ok-injective (rw (unset, confirmations_env) at e)) h
    | inr given ↦ elim (Option-cases (parse_int (env key))) [
      | inl bad ↦ absurd (cc (rw (given, bad, confirmations_env) at e))
      | inr (x, reads) ↦ elim (Bool-cases (ltb_ℤ x (pos 1))) [
        | inl low ↦ absurd (cc (rw (given, reads, low, confirmations_env) at e))
        | inr high ↦
            subst (λ y. pos 1 ≤ℤ y) (ok-injective (rw (given, reads, high, confirmations_env) at e))
              (ground (arith, high))
      ]
    ]
  ]

  validated-ok :
      (c c' : Config) → validated parse_duration env c ≡ ok c' → IsSafeConfig c × (c ≡ c')
  unfolding validated
  validated-ok c c' h =
      let (_, (valid, e)) = bind_steps (λ _. ok c) c' (validate c) h in
      ((validate-IsSafeConfig c).0 valid, ok-injective e)

  overlay-confirmations :
      (expiry timeout interval n ttl : ℤ)
      → pos 1 ≤ℤ n
      → pos 1 ≤ℤ (overlay parse_duration env expiry timeout interval n ttl).sandbox_confirmations
  unfolding overlay
  overlay-confirmations expiry timeout interval n ttl h = h

  -- Whatever the environment holds and however durations are read: a configuration that `Load`
  -- returns passes `Validate`, so that in production it has a session secret and no plain http
  -- address, and it asks for at least one confirmation in the sandbox.
  pub load-IsSafeConfig :
      (c : Config)
      → load parse_duration env ≡ ok c
      → IsSafeConfig c × (pos 1 ≤ℤ c.sandbox_confirmations)
  unfolding load
  load-IsSafeConfig c h =
      elim (Result-cases
        (duration_env parse_duration env (codes "INVOICE_EXPIRY") default_config.invoice_expiry)) [
          | inl (e, failed) ↦ absurd (cc (rw (failed, load, ◌>>=◌) at h))
          | inr (expiry, expiry_read) ↦
              elim (Result-cases (
                duration_env parse_duration env (codes "REQUEST_TIMEOUT")
                  default_config.request_timeout)) [
                    | inl (e, failed) ↦ absurd (cc (rw (expiry_read, failed, load, ◌>>=◌) at h))
                    | inr (timeout, timeout_read) ↦
                        elim (Result-cases (
                          duration_env parse_duration env (codes "WATCH_INTERVAL")
                            default_config.watch_interval)) [
                              | inl (e, failed) ↦
                                  absurd
                                    (cc (rw (expiry_read, timeout_read, failed, load, ◌>>=◌) at h))
                              | inr (interval, interval_read) ↦
                                  elim (Result-cases (
                                    confirmations_env parse_duration env
                                      (codes "SANDBOX_CONFIRMATIONS")
                                      default_config.sandbox_confirmations)) [
                                        | inl (e, failed) ↦ absurd (
                                            cc (
                                              rw
                                                (
                                                  expiry_read, timeout_read, interval_read, failed,
                                                  load, ◌>>=◌,
                                                )
                                                at h))
                                        | inr (confs, confs_read) ↦
                                            elim (Result-cases (
                                              duration_env parse_duration env
                                                (codes "RATE_CACHE_TTL")
                                                default_config.rate_cache_ttl)) [
                                                  | inl (e, failed) ↦ absurd (
                                                      cc (
                                                        rw
                                                          (
                                                            expiry_read, timeout_read,
                                                            interval_read, confs_read, failed, load,
                                                            ◌>>=◌,
                                                          )
                                                          at h))
                                                  | inr (ttl, ttl_read) ↦
                                                      let (safe, same) =
                                                        validated-ok
                                                          (overlay parse_duration env expiry timeout
                                                            interval confs ttl)
                                                          c
                                                          (rw
                                                            (
                                                            expiry_read, timeout_read,
                                                            interval_read, confs_read, ttl_read,
                                                            load, ◌>>=◌,
                                                            )
                                                            at h) in
                                                      subst
                                                        (λ x.
                                                          IsSafeConfig x
                                                          × (pos 1 ≤ℤ x.sandbox_confirmations))
                                                        same
                                                        (
                                                          safe,
                                                          overlay-confirmations expiry timeout
                                                            interval confs ttl
                                                            (confirmations_env-positive
                                                            (codes "SANDBOX_CONFIRMATIONS") (pos 1)
                                                            confs (omega arith) confs_read),
                                                        )
                                                ]
                                      ]
                            ]
                  ]
        ]
