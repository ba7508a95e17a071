-- ===== src/Api/Guarded.antt =====
-- internal/api: the routes of server.go for a request without a key.
use vex_pay.Common.{◌≡◌, ◌⊎◌, true, Bool, is_some}
use vex_pay.Common.Text.{Str, codes}
use vex_pay.Common.Text.Prefix.{cut_prefix}
use vex_pay.Api.{HttpRequest, Response, Deps, Site}
use vex_pay.Api.Probes.{handle_version, handle_health, handle_ready}
use vex_pay.Api.Refused.{IsGuarded}
use vex_pay.Api.Handler.{Outside}

abbrev is_below_v1 : Str → Bool
is_below_v1 path = is_some (cut_prefix (codes "/v1/") path)

module _ {S P W : Type 0} (deps : Deps S P W) (outside : Outside S P W) where
  -- the paths of the probes, and of the dashboard where it is switched on
  abbrev pub IsOpen : HttpRequest → Type 0
  IsOpen r =
      (r.path ≡ codes "/healthz")
      ⊎ (r.path ≡ codes "/readyz")
      ⊎ (r.path ≡ codes "/version")
      ⊎ ((deps.config.enable_dashboard ≡ true)
          × ((r.path ≡ codes "/dashboard")
              ⊎ (is_some (cut_prefix (codes "/dashboard/") r.path) ≡ true)))

  -- what a request without a key comes to: the probes answer it, the endpoints that ask for a key
  -- refuse it with 401, a path that has no route with 404; and nothing changes
  pub record Kept (r : HttpRequest) (site : Site S P W) (out : Response × Site S P W) : Type 0 where
    pub health : r.path ≡ codes "/healthz" → out.0 ≡ handle_health deps r
    pub ready : r.path ≡ codes "/readyz" → out.0 ≡ handle_ready deps outside.ping_context r site
    pub version : r.path ≡ codes "/version" → out.0 ≡ handle_version outside.build r
    pub unauthorized : IsGuarded deps r → out.0.status ≡ 401
    pub unrouted : ¬ IsOpen r → ¬ IsGuarded deps r → out.0.status ≡ 404
    pub unchanged : out.1 ≡ site
