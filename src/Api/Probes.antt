-- ===== src/Api/Probes.antt =====
-- internal/api/server.go: the probes, the version and the dashboard; internal/version; the
-- file server of internal/dashboard is a parameter.
use vex_pay.Common.{not, Option, [], ◌∷◌, ◌++◌, if◌then◌else◌, ok, err, Error}
use vex_pay.Common.Text.{Str, codes, str_eq}
use vex_pay.Api.{HttpRequest, Response, respond, object, method_not_allowed, Deps, Site}

-- the variables that a build sets
pub record BuildInfo : Type 0 where
  pub version : Str
  pub commit : Str
  pub build_date : Str

abbrev pub unset_build : BuildInfo
unset_build = record {
  version = codes "0.0.0-dev";
  commit = codes "unknown";
  build_date = codes "unknown";
}

-- `version.String`
unfoldable pub version_string : BuildInfo → Str
version_string b =
    b.version ++ codes " (" ++ b.commit ++ codes ", built " ++ b.build_date ++ codes ")"

unfoldable pub handle_version : BuildInfo → HttpRequest → Response
handle_version b r =
    if not (str_eq r.method (codes "GET"))
    then method_not_allowed (codes "GET")
    else respond 200 (
        object (
          (codes "version", b.version)
          ∷ (codes "commit", b.commit)
          ∷ (codes "built", b.build_date)
          ∷ []))

module _ {S P W : Type 0} (deps : Deps S P W) where
  unfoldable pub handle_health : HttpRequest → Response
  handle_health r =
      if not (str_eq r.method (codes "GET"))
      then method_not_allowed (codes "GET")
      else respond 200 (object ((codes "status", codes "ok") ∷ (codes "env", deps.config.env) ∷ []))

  -- `context` is what the request's context says when the store is asked
  unfoldable pub handle_ready : Option Error → HttpRequest → Site S P W → Response
  handle_ready context r site =
      if not (str_eq r.method (codes "GET"))
      then method_not_allowed (codes "GET")
      else elim (deps.store.ping context site.state.store) [
        | err e ↦ respond 503 (
            object
              ((codes "status", codes "unavailable") ∷ (codes "store", codes "unreachable") ∷ []))
        | ok done ↦ respond 200 (object ((codes "status", codes "ready") ∷ []))
      ]
