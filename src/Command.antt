-- ===== src/Command.antt =====
-- cmd/vexpay/main.go: the process, and `Close` of internal/app/app.go. The configuration's environment,
-- the random source and what the server goes through until it stops are parameters.
pub mod Closes
pub mod Tests
use vex_pay.Common.{
  ◌≡◌, ◌≢◌, refl, ap, Bool, true, false, not, ◌||◌, Option, none, some, List, [], ◌∷◌, ◌++◌,
  if◌then◌else◌, arith, Bool-cases, inl, inr, Error, Result, Result-cases, ok, err,
}
use vex_pay.Common.Int.{ℤ}
use vex_pay.Common.Text.{Str, codes, str_eq}
use vex_pay.Config.{Config, load}
use vex_pay.Store.Sqlite.{Database}
use vex_pay.Store.Open.{MemStore, mem_ping, mem_close, sql_ping, sql_close}
use vex_pay.App.{App, AppLibraries, Built, over_memory, over_sqlite, build}
use vex_pay.Api.Probes.{BuildInfo, version_string}

-- how the server stops: it fails, or a signal comes and it is shut down, which may fail
pub data Served : Type 0 where
  server_failed : Error → Served
  signalled : Result (Unit {0}) → Served

-- what a run comes to, and the gateway that it has closed
pub record Finished (X : Type 0) : Type 0 where
  pub answer : Result (Unit {0})
  pub closed : Option (Built X)

-- `Close`: behind the deliveries, which it waits for, the store
unfoldable pub close_app : {X : Type 0} → Built X → Built X
close_app (over_memory state app) = over_memory (app.store.close state).1 app
close_app (over_sqlite db app) = over_sqlite (app.store.close db).1 app

-- the `select` at the end of `run`
unfoldable pub served_answer : Served → Result (Unit {0})
served_answer (server_failed e) = err e
served_answer (signalled answer) = answer

module _ {X : Type 0} (lib : AppLibraries X) (serve : (S : Type 0) → App X S → S → Served × S) where
  -- the server over the store of the gateway; `defer` closes the gateway however the server stops
  unfoldable pub serve_built : Built X → Finished X
  serve_built (over_memory state app) =
      let (served, state') = serve MemStore app state in
      record { answer = served_answer served; closed = some (close_app (over_memory state' app)) }
  serve_built (over_sqlite db app) =
      let (served, db') = serve Database app db in
      record { answer = served_answer served; closed = some (close_app (over_sqlite db' app)) }

  -- `run` behind `config.Load`
  unfoldable pub run_config : Str → Config → Finished X
  run_config random cfg = elim (build lib cfg random) [
    | err e ↦ record { answer = err e; closed = none }
    | ok app ↦ serve_built app
  ]

  -- `run`
  unfoldable pub run : (Str → Option ℤ) → (Str → Str) → Str → Finished X
  run parse_duration env random = elim (load parse_duration env) [
    | err e ↦ record { answer = err e; closed = none }
    | ok cfg ↦ run_config random cfg
  ]

-- what the process does: it prints its version, or runs
pub data Done (X : Type 0) : Type 0 where
  printed : Str → Done X
  ran : Finished X → Done X

-- `main` with the arguments behind the program's name
unfoldable pub main : {X : Type 0} → BuildInfo → List Str → Finished X → Done X
main build [] finished = ran finished
main build (arg ∷ _) finished =
    if str_eq arg (codes "version") || str_eq arg (codes "-v") || str_eq arg (codes "--version")
    then printed (codes "vexpay " ++ version_string build)
    else ran finished
