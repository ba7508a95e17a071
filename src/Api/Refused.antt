-- ===== src/Api/Refused.antt =====
-- internal/api: the routes of server.go below /v1/ for a request without a key.
use vex_pay.Common.{◌≡◌, refl, ◌⊎◌, inl, inr, true, false, ◌&&◌, none, is_some, arith, Bool-cases}
use vex_pay.Common.Text.{codes, str_eq, str_eq_iff, is_empty}
use vex_pay.Common.Text.Prefix.{cut_prefix}
use vex_pay.Auth.{Principal, authenticate}
use vex_pay.Api.{HttpRequest, Response, Deps, Site, Moment, extract_api_key}
use vex_pay.Api.Sandbox.{handle_sandbox_pay}
use vex_pay.Api.Invoices.{handle_invoices_collection, handle_invoice_item}
use vex_pay.Api.Serve.{authed, serve}

module _ {S P W : Type 0} (deps : Deps S P W) where
  -- the endpoints that ask for a key: those of invoices, and the simulator where it is switched on
  abbrev pub IsGuarded : HttpRequest → Type 0
  IsGuarded r =
      (r.path ≡ codes "/v1/invoices")
      ⊎ (is_some (cut_prefix (codes "/v1/invoices/") r.path) ≡ true)
      ⊎ ((deps.sandbox ≡ true) × (is_some (cut_prefix (codes "/v1/sandbox/pay/") r.path) ≡ true))

  -- an answer without effect: 401 from the endpoints that ask for a key, 404 from every other path
  pub record Refused (r : HttpRequest) (site : Site S P W) (out : Response × Site S P W)
      : Type 0 where
    pub unauthorized : IsGuarded r → out.0.status ≡ 401
    pub unrouted : ¬ IsGuarded r → out.0.status ≡ 404
    pub unchanged : out.1 ≡ site

  authed-Refused :
      (next : Principal → HttpRequest → Site S P W → Response × Site S P W) (r : HttpRequest)
      (site : Site S P W)
      → authenticate deps.hash_key deps.auth (extract_api_key r) ≡ none
      → IsGuarded r
      → Refused r site (authed deps next r site)
  unfolding authed
  authed-Refused next r site nobody guarded = elim (Bool-cases (is_empty (extract_api_key r))) [
    | inl no_key ↦
        rw no_key (record {
          unauthorized = λ h. refl;
          unrouted = λ h. absurd (h guarded);
          unchanged = refl;
        })
    | inr key ↦
        rw (key, nobody)
          (record {
            unauthorized = λ h. refl;
            unrouted = λ h. absurd (h guarded);
            unchanged = refl;
          })
  ]

  not-IsGuarded :
      (r : HttpRequest)
      → str_eq r.path (codes "/v1/invoices") ≡ false
      → is_some (cut_prefix (codes "/v1/invoices/") r.path) ≡ false
      → (deps.sandbox && is_some (cut_prefix (codes "/v1/sandbox/pay/") r.path)) ≡ false
      → ¬ IsGuarded r
  not-IsGuarded r not_all not_one nothing (inl all) =
      cc ((str_eq_iff r.path (codes "/v1/invoices")).1 all)
  not-IsGuarded r not_all not_one nothing (inr (inl one)) = cc
  not-IsGuarded r not_all not_one nothing (inr (inr (on, below))) =
      ground (arith, on, below, nothing)

  -- Without a key that authenticates, a request that comes to the routes below /v1/ is refused: with
  -- 401 at the endpoints of invoices and, where it is switched on, of the simulator, with 404 at any
  -- other path, and nothing changes.
  pub serve-Refused :
      (moment : Moment) (r : HttpRequest) (site : Site S P W)
      → authenticate deps.hash_key deps.auth (extract_api_key r) ≡ none
      → Refused r site (serve deps moment r site)
  unfolding serve
  serve-Refused moment r site nobody = elim (Bool-cases (str_eq r.path (codes "/v1/invoices"))) [
    | inl all ↦
        rw (all, serve)
          (authed-Refused (handle_invoices_collection deps moment) r site nobody
            (inl ((str_eq_iff r.path (codes "/v1/invoices")).0 all)))
    | inr not_all ↦ elim (Bool-cases (is_some (cut_prefix (codes "/v1/invoices/") r.path))) [
      | inl one ↦
          rw (not_all, one, serve)
            (authed-Refused (λ p q s. (handle_invoice_item deps p q s, s)) r site nobody
              (inr (inl one)))
      | inr not_one ↦
          elim (Bool-cases
            (deps.sandbox && is_some (cut_prefix (codes "/v1/sandbox/pay/") r.path))) [
              | inl simulator ↦
                  rw (not_all, not_one, simulator, serve)
                    (authed-Refused (handle_sandbox_pay deps moment) r site nobody
                      (inr (inr (ground (arith, simulator)))))
              | inr nothing ↦
                  rw (not_all, not_one, nothing, serve)
                    (record {
                      unauthorized = λ h. absurd (not-IsGuarded r not_all not_one nothing h);
                      unrouted = λ h. refl;
                      unchanged = refl;
                    })
            ]
    ]
  ]
