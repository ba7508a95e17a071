-- ===== src/Command/Closes.antt =====
-- cmd/vexpay/main.go: how a run ends, and the store that it leaves.
use vex_pay.Common.{
  ◌≡◌, ◌≢◌, refl, ap, sym, ◌∙◌, Option, none, some, inl, inr, ◌⊎◌, Error, Result, Result-cases, ok,
  err, ok-injective, bind_steps, subst,
}
use vex_pay.Common.Int.{ℤ}
use vex_pay.Common.Text.{Str}
use vex_pay.Config.{Config, load}
use vex_pay.Store.Sqlite.{Database}
use vex_pay.Store.Open.{
  MemStore, memory_store, sqlite_store, Opened, mem_ping, mem_close, sql_ping, sql_close, in_memory,
  in_sqlite, open_store,
}
use vex_pay.App.{App, AppLibraries, Built, over_memory, over_sqlite, build_opened, build}
use vex_pay.App.Wiring.{build_on-built}
use vex_pay.Command.{
  Served, server_failed, signalled, Finished, close_app, served_answer, serve_built, run_config,
  run,
}

-- what the store of a gateway answers to a ping
abbrev pub ping_built : {X : Type 0} → Option Error → Built X → Result (Unit {0})
ping_built context (over_memory state app) = app.store.ping context state
ping_built context (over_sqlite db app) = app.store.ping context db

-- the store of a gateway is the one that its kind says
data IsWired {X : Type 0} (lib : AppLibraries X) : Built X → Type 0 where
  wired_memory :
      {state : MemStore} {app : App X MemStore}
      → app.store ≡ memory_store
      → IsWired lib (over_memory state app)
  wired_sqlite :
      {db : Database} {app : App X Database}
      → app.store ≡ sqlite_store lib.codec
      → IsWired lib (over_sqlite db app)

abbrev IsClosed : {X : Type 0} → Built X → Type 0
IsClosed b = (context : Option Error) → ping_built context b ≢ ok tt

memory-closed :
    (context : Option Error) (state : MemStore) → mem_ping context (mem_close state).1 ≢ ok tt
unfolding mem_ping mem_close
memory-closed none state h = cc h
memory-closed (some e) state h = cc h

sqlite-closed : (context : Option Error) (db : Database) → sql_ping context (sql_close db).1 ≢ ok tt
unfolding sql_ping sql_close
sqlite-closed context db h = cc h

-- the answer of a run whose server stopped so: the server's error, or that of its shutdown
pub data IsAnswer : Served → Result (Unit {0}) → Type 0 where
  failed : (e : Error) → IsAnswer (server_failed e) (err e)
  shut : IsAnswer (signalled (ok tt)) (ok tt)
  shut_failed : (e : Error) → IsAnswer (signalled (err e)) (err e)

served_answer-IsAnswer : (served : Served) → IsAnswer served (served_answer served)
unfolding served_answer
served_answer-IsAnswer (server_failed e) = failed e
served_answer-IsAnswer (signalled (ok tt)) = shut
served_answer-IsAnswer (signalled (err e)) = shut_failed e

module _ {X : Type 0} (lib : AppLibraries X) where
  close_app-IsClosed : (b : Built X) → IsWired lib b → IsClosed (close_app b)
  unfolding close_app memory_store sqlite_store
  close_app-IsClosed (over_memory state app) (wired_memory e) context h =
      memory-closed context state ((ap (λ s. s.ping context (s.close state).1) (sym e)) ∙ h)
  close_app-IsClosed (over_sqlite db app) (wired_sqlite e) context h =
      sqlite-closed context db ((ap (λ s. s.ping context (s.close db).1) (sym e)) ∙ h)

  build_opened-IsWired :
      (cfg : Config) (random : Str) (opened : Opened) (b : Built X)
      → build_opened lib cfg random opened ≡ ok b
      → IsWired lib b
  unfolding build_opened
  build_opened-IsWired cfg random (in_memory state) b h =
      subst (IsWired lib) (ok-injective (rw (build_on-built lib cfg memory_store random) at h))
        (wired_memory refl)
  build_opened-IsWired cfg random (in_sqlite db) b h =
      subst (IsWired lib)
        (ok-injective (rw (build_on-built lib cfg (sqlite_store lib.codec) random) at h))
        (wired_sqlite refl)

  build-IsWired :
      (cfg : Config) (random : Str) (b : Built X) → build lib cfg random ≡ ok b → IsWired lib b
  unfolding build
  build-IsWired cfg random b h =
      let (opened, (opens, made)) = bind_steps _ b (open_store lib.connect cfg.database_url) h in
      build_opened-IsWired cfg random opened b made

  module _ (serve : (S : Type 0) → App X S → S → Served × S) where
    -- what a run comes to: an error before there is a gateway, or the gateway that was built, closed
    -- over the store that the server left, with the answer of that server
    pub data Ends (cfg : Config) (random : Str) (out : Finished X) : Type 0 where
      not_built :
          (e : Error)
          → build lib cfg random ≡ err e
          → out.answer ≡ err e
          → out.closed ≡ none
          → Ends cfg random out
      closes_memory :
          (state : MemStore) (app : App X MemStore)
          → build lib cfg random ≡ ok (over_memory state app)
          → IsAnswer (serve MemStore app state).0 out.answer
          → out.closed ≡ some (over_memory (app.store.close (serve MemStore app state).1).1 app)
          → ((context : Option Error)
              → app.store.ping context (app.store.close (serve MemStore app state).1).1 ≢ ok tt)
          → Ends cfg random out
      closes_sqlite :
          (db : Database) (app : App X Database)
          → build lib cfg random ≡ ok (over_sqlite db app)
          → IsAnswer (serve Database app db).0 out.answer
          → out.closed ≡ some (over_sqlite (app.store.close (serve Database app db).1).1 app)
          → ((context : Option Error)
              → app.store.ping context (app.store.close (serve Database app db).1).1 ≢ ok tt)
          → Ends cfg random out

    serve_built-Ends :
        (cfg : Config) (random : Str) (b : Built X)
        → build lib cfg random ≡ ok b
        → IsWired lib b
        → Ends cfg random (serve_built lib serve b)
    unfolding serve_built close_app
    serve_built-Ends cfg random (over_memory state app) made (wired_memory e) =
        let (served, state') = serve MemStore app state in
        closes_memory state app made (served_answer-IsAnswer served) refl
          (close_app-IsClosed (over_memory state' app) (wired_memory e))
    serve_built-Ends cfg random (over_sqlite db app) made (wired_sqlite e) =
        let (served, db') = serve Database app db in
        closes_sqlite db app made (served_answer-IsAnswer served) refl
          (close_app-IsClosed (over_sqlite db' app) (wired_sqlite e))

    run_config-Ends :
        (random : Str) (cfg : Config) → Ends cfg random (run_config lib serve random cfg)
    unfolding run_config
    run_config-Ends random cfg = elim (Result-cases (build lib cfg random)) [
      | inl (e, fails) ↦ rw (fails, run_config) (not_built e fails refl refl)
      | inr (b, made) ↦
          rw (made, run_config)
            (serve_built-Ends cfg random b made (build-IsWired cfg random b made))
    ]

    -- A run that cannot load its configuration answers that error, and one that cannot build the
    -- gateway answers that one. Any other run answers how its server stopped (the server's error, or
    -- what the shutdown after a signal answered), and has closed the store that the server left: no
    -- later ping of it succeeds.
    pub run-Ends :
        (parse_duration : Str → Option ℤ) (env : Str → Str) (random : Str)
        → ((e : Error) × (load parse_duration env ≡ err e)
            × (run lib serve parse_duration env random ≡ record { answer = err e; closed = none }))
          ⊎ ((cfg : Config) × (load parse_duration env ≡ ok cfg)
              × Ends cfg random (run lib serve parse_duration env random))
    unfolding run
    run-Ends parse_duration env random = elim (Result-cases (load parse_duration env)) [
      | inl (e, fails) ↦ inl (e, fails, rw (fails, run) refl)
      | inr (cfg, loads) ↦ inr (cfg, loads, rw (loads, run) (run_config-Ends random cfg))
    ]
