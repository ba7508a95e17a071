-- ===== src/Api/Handler.antt =====
-- internal/api: `Handler` and the routes of server.go with the middleware of middleware.go around
-- them. The multiplexer, `http.TimeoutHandler` and the file server are libraries.
use vex_pay.Common.{◌≡◌, not, ◌&&◌, Option, none, some, if◌then◌else◌, arith, Error}
use vex_pay.Common.Int.{ℤ, pos, leb_ℤ, ltb_ℤ}
use vex_pay.Common.Text.{Str, codes, str_eq}
use vex_pay.Common.Text.Prefix.{cut_prefix}
use vex_pay.Auth.{authenticate}
use vex_pay.Invoice.Service.{Service}
use vex_pay.Api.{
  HttpRequest, Response, respond, redirect, write_error, Deps, Site, Moment, extract_api_key,
}
use vex_pay.Api.Probes.{BuildInfo, handle_version, handle_health, handle_ready}
use vex_pay.Api.Serve.{serve}
use vex_pay.Api.Refused.{serve-Refused}

-- what a handler comes to
pub data Ran : Type 0 where
  answered : Response → Ran
  panicked : Ran

-- what lies outside of the code, at one request: the build, the file server, what the context
-- says to a ping, the time that the request takes, and how the service appears to a request whose
-- context has ended: any call of a store or a chain may fail then
pub record Outside (S P W : Type 0) : Type 0 where
  pub build : BuildInfo
  pub dashboard_file : Str → Response
  pub ping_context : Option Error
  pub took : ℤ
  pub late : Service S P W → Service S P W

module _ {S P W : Type 0} where
  -- `withRecover`: what the handler changed before it panicked stays
  unfoldable pub with_recover :
      (HttpRequest → Site S P W → Ran × Site S P W)
      → HttpRequest
      → Site S P W
      → Response × Site S P W
  with_recover next r site =
      let (ran, site') = next r site in
      elim ran [
        | answered response ↦ (response, site')
        | panicked ↦ (write_error 500 (codes "internal server error"), site')
      ]

  -- `withRequestTimeout`: the library answers in place of a handler that takes longer. It ends the
  -- context of the request, and `late` is the handler as it goes on under that context.
  unfoldable pub with_request_timeout :
      ℤ
      → ℤ
      → (HttpRequest → Site S P W → Response × Site S P W)
      → (HttpRequest → Site S P W → Response × Site S P W)
      → HttpRequest
      → Site S P W
      → Response × Site S P W
  with_request_timeout limit took late next r site =
      if leb_ℤ limit (pos 0)
      then next r site
      else if ltb_ℤ limit took
      then (write_error 503 (codes "request timeout"), (late r site).1)
      else next r site

module _ {S P W : Type 0} (deps : Deps S P W) (outside : Outside S P W) where
  -- the routes below /dashboard
  unfoldable pub dashboard : HttpRequest → Option Response
  dashboard r =
      if not deps.config.enable_dashboard
      then none
      else elim (cut_prefix (codes "/dashboard/") r.path) [
        | some file ↦ some (outside.dashboard_file file)
        | none ↦
            if str_eq r.path (codes "/dashboard")
            then some (respond 301 (redirect (codes "/dashboard/")))
            else none
      ]

  -- `routes`
  unfoldable pub route : Moment → HttpRequest → Site S P W → Response × Site S P W
  route moment r site =
      if str_eq r.path (codes "/healthz")
      then (handle_health deps r, site)
      else if str_eq r.path (codes "/readyz")
      then (handle_ready deps outside.ping_context r site, site)
      else if str_eq r.path (codes "/version")
      then (handle_version outside.build r, site)
      else elim (dashboard r) [ some response ↦ (response, site) | none ↦ serve deps moment r site ]

  pub route-unchanged :
      (moment : Moment) (r : HttpRequest) (site : Site S P W)
      → authenticate deps.hash_key deps.auth (extract_api_key r) ≡ none
      → (route moment r site).1 ≡ site
  unfolding route
  route-unchanged moment r site nobody =
      ground (arith, (serve-Refused deps moment r site nobody).unchanged)

module _ {S P W : Type 0} (deps : Deps S P W) (outside : Outside S P W) where
  -- the routes, with the middleware that answers a panic
  unfoldable pub recovered : Deps S P W → Moment → HttpRequest → Site S P W → Response × Site S P W
  recovered deps' moment = with_recover (λ r site.
      let (response, site') = route deps' outside moment r site in (answered response, site'))

  -- `Handler`
  unfoldable pub handler : Moment → HttpRequest → Site S P W → Response × Site S P W
  unfolding recovered
  handler moment =
      with_request_timeout deps.config.request_timeout outside.took
        (recovered (record deps { invoices = outside.late deps.invoices }) moment)
        (recovered deps moment)

  -- A request whose time runs out is answered with 503, and what its route changes is changed as far
  -- as the ended context lets it; any other is answered as its route answers.
  pub handler-route :
      (moment : Moment) (r : HttpRequest) (site : Site S P W)
      → handler moment r site ≡ (
          if ltb_ℤ (pos 0) deps.config.request_timeout
            && ltb_ℤ deps.config.request_timeout outside.took
          then (
            write_error 503 (codes "request timeout"),
            (route (record deps { invoices = outside.late deps.invoices }) outside moment r site).1,
          )
          else route deps outside moment r site)
  unfolding handler with_request_timeout with_recover
  handler-route moment r site = ground arith

  -- Without a key that authenticates no request changes anything, whatever its path and whether or
  -- not its time runs out.
  pub handler-unchanged :
      (moment : Moment) (r : HttpRequest) (site : Site S P W)
      → authenticate deps.hash_key deps.auth (extract_api_key r) ≡ none
      → (handler moment r site).1 ≡ site
  handler-unchanged moment r site nobody = ground (
    arith,
    handler-route moment r site,
    route-unchanged deps outside moment r site nobody,
    route-unchanged (record deps { invoices = outside.late deps.invoices }) outside moment r site
        nobody,
  )
