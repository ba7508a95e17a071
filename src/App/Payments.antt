-- ===== src/App/Payments.antt =====
-- internal/app/app.go and internal/api: a simulated payment in the gateway that `Build` makes, from the
-- request to the stored invoice.
use vex_pay.Common.{
  ◌≡◌, refl, ap, sym, subst, ◌∙◌, true, false, ◌&&◌, none, some, ◌++◌, is_some, arith, ok,
}
use vex_pay.Common.Int.{pos, ltb_ℤ}
use vex_pay.Common.Text.{Str, codes, str_eq}
use vex_pay.Common.Text.Space.{trim_space}
use vex_pay.Common.Text.Prefix.{cut_prefix}
use vex_pay.Chain.{find_adapter}
use vex_pay.Chain.Mock.{chain_id}
use vex_pay.Auth.{Principal, authenticate}
use vex_pay.Config.{Config}
use vex_pay.Invoice.{Invoice}
use vex_pay.Invoice.Service.{new_service, advance}
use vex_pay.Store.Open.{Store}
use vex_pay.Api.{HttpRequest, Response, Deps, Site, Moment, extract_api_key}
use vex_pay.Api.Sandbox.{handle_sandbox_pay}
use vex_pay.Api.Serve.{authed, serve}
use vex_pay.Api.Handler.{Outside, dashboard, route, handler, handler-route}
use vex_pay.Api.Settles.{
  HasSandbox, IsPayable, IsPayRequest, Settled, in_full, handle_sandbox_pay-Settled,
}
use vex_pay.App.{World, Prices, AppLibraries, App, build_deps, build_on}
use vex_pay.App.Wiring.{wanted-sandbox, build_on-handler}

module _ {S P W : Type 0} (deps : Deps S P W) where
  authed-next :
      (next : Principal → HttpRequest → Site S P W → Response × Site S P W) (p : Principal)
      (r : HttpRequest) (site : Site S P W)
      → authenticate deps.hash_key deps.auth (extract_api_key r) ≡ some p
      → authed deps next r site ≡ next p r site
  unfolding authed authenticate trim_space
  authed-next next p r site known = ground arith

  route-pay :
      (outside : Outside S P W) (moment : Moment) (p : Principal) (id : Str) (r : HttpRequest)
      (site : Site S P W)
      → deps.sandbox ≡ true
      → authenticate deps.hash_key deps.auth (extract_api_key r) ≡ some p
      → r.path ≡ codes "/v1/sandbox/pay/" ++ id
      → route deps outside moment r site ≡ handle_sandbox_pay deps moment p r site
  unfolding route dashboard serve str_eq cut_prefix
  route-pay outside moment p id r site on known path =
      let not_health : str_eq r.path (codes "/healthz") ≡ false = rw path refl in
      let not_ready : str_eq r.path (codes "/readyz") ≡ false = rw path refl in
      let not_version : str_eq r.path (codes "/version") ≡ false = rw path refl in
      let not_files : cut_prefix (codes "/dashboard/") r.path ≡ none = rw path refl in
      let not_dashboard : str_eq r.path (codes "/dashboard") ≡ false = rw path refl in
      let not_all : str_eq r.path (codes "/v1/invoices") ≡ false = rw path refl in
      let not_one : is_some (cut_prefix (codes "/v1/invoices/") r.path) ≡ false = rw path refl in
      let pays : is_some (cut_prefix (codes "/v1/sandbox/pay/") r.path) ≡ true = rw path refl in
      let next = authed-next (handle_sandbox_pay deps moment) p r site known in
      ground (
        arith, not_health, not_ready, not_version, not_files, not_dashboard, not_all, not_one, pays,
        on, next,
      )

  -- a request to pay passes the routes, the key check and the middleware
  handler-pay :
      (outside : Outside S P W) (moment : Moment) (p : Principal) (id : Str) (r : HttpRequest)
      (site : Site S P W)
      → deps.sandbox ≡ true
      → authenticate deps.hash_key deps.auth (extract_api_key r) ≡ some p
      → r.path ≡ codes "/v1/sandbox/pay/" ++ id
      → (ltb_ℤ (pos 0) deps.config.request_timeout
          && ltb_ℤ deps.config.request_timeout outside.took)
        ≡ false
      → handler deps outside moment r site ≡ handle_sandbox_pay deps moment p r site
  handler-pay outside moment p id r site on known path in_time =
      let routed = route-pay outside moment p id r site on known path in
      handler-route deps outside moment r site ∙ rw in_time routed

module _ {X S : Type 0} (lib : AppLibraries X) (cfg : Config) (store : Store S) (random : Str)
    (app : App X S) (made : build_on lib cfg store random ≡ ok app)
    (on : cfg.enable_sandbox ≡ true) where
  app-HasSandbox : HasSandbox app.handler (λ w. w.ledger) cfg.sandbox_confirmations
  unfolding build_deps new_service
  app-HasSandbox =
      let deps = build_on-handler lib cfg store random app made in
      record {
        known =
            ap (λ d. find_adapter d.invoices.registry chain_id) deps
            ∙ wanted-sandbox lib cfg store random app made on;
        writes = λ f w. ap (λ d. (d.in_ledger f w).ledger) deps;
      }

  app-sandbox : app.handler.sandbox ≡ true
  unfolding build_deps
  app-sandbox = ap (λ d. d.sandbox) (build_on-handler lib cfg store random app made) ∙ on

  -- In a gateway built with the sandbox enabled, a request in time to the simulator with an accepted
  -- sandbox key and no body, for a waiting invoice of the key's merchant on the sandbox chain, is
  -- answered with the invoice, its terms as they were and paid in full, and that is what the store is told to keep, provided
  -- that the store succeeds.
  pub build_on-Settled :
      (outside : Outside S (Prices X) (World X)) (moment : Moment) (p : Principal) (r : HttpRequest)
      (inv : Invoice) (site : Site S (Prices X) (World X))
      → authenticate app.handler.hash_key app.handler.auth (extract_api_key r) ≡ some p
      → (ltb_ℤ (pos 0) app.handler.config.request_timeout
          && ltb_ℤ app.handler.config.request_timeout outside.took)
        ≡ false
      → IsPayable app.handler (λ w. w.ledger) cfg.sandbox_confirmations p inv site
      → IsPayRequest app.handler (λ w. w.ledger) cfg.sandbox_confirmations inv r
      → (app.handler.invoices.repo.update (advance inv (in_full inv) moment.now) site.state.store).0
        ≡ ok tt
      → Settled app.handler
          (λ w. w.ledger)
          cfg.sandbox_confirmations
          inv
          site
          (handler app.handler outside moment r site)
  build_on-Settled outside moment p r inv site known in_time payable request saved =
      subst (Settled app.handler (λ w. w.ledger) cfg.sandbox_confirmations inv site)
        (sym (
          handler-pay app.handler outside moment p inv.id r site app-sandbox known request.path
            in_time))
        (handle_sandbox_pay-Settled app.handler (λ w. w.ledger) cfg.sandbox_confirmations moment p r
          inv site app-HasSandbox payable request saved)
