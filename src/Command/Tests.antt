-- ===== src/Command/Tests.antt =====
-- cmd/vexpay at concrete inputs: the server fails at once, and a version is asked for.
use vex_pay.Common.{◌≡◌, refl, none, [], ◌∷◌, ok, err, query_failed, ◌⊎◌, Error, if◌then◌else◌}
use vex_pay.Common.Text.{Str, codes, str_eq}
use vex_pay.Config.{Config, load}
use vex_pay.Api.Probes.{unset_build, version_string}
use vex_pay.App.{App}
use vex_pay.App.Tests.{offline}
use vex_pay.Command.{Served, server_failed, run, main, printed}
use vex_pay.Command.Closes.{Ends, run-Ends}

abbrev memory_env : Str → Str
memory_env key = if str_eq key (codes "DATABASE_URL") then codes "memory:" else []

-- the server fails at once
abbrev fails_at_once : (S : Type 0) → App (Unit {0}) S → S → Served × S
fails_at_once S app state = (server_failed query_failed, state)

run-Ends_example :
    ((e : Error) × (load (λ s. none) memory_env ≡ err e)
      × (run offline fails_at_once (λ s. none) memory_env []
          ≡ record { answer = err e; closed = none }))
    ⊎ ((cfg : Config) × (load (λ s. none) memory_env ≡ ok cfg)
        × Ends offline fails_at_once cfg [] (run offline fails_at_once (λ s. none) memory_env []))
run-Ends_example = run-Ends offline fails_at_once (λ s. none) memory_env []

version_test :
    main {X = Unit {0}} unset_build (codes "-v" ∷ []) (record { answer = ok tt; closed = none })
    ≡ printed (codes "vexpay 0.0.0-dev (unknown, built unknown)")
unfolding main str_eq version_string
version_test = refl
