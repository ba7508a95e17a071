-- ===== src/Watcher/Tests.antt =====
-- internal/watcher at concrete inputs: a service whose database is closed, so that every round fails.
use vex_pay.Common.{◌≡◌, refl, true, false, none, [], ◌∷◌, query_failed}
use vex_pay.Common.Int.{pos}
use vex_pay.Invoice.Service.{Service, State, process_open}
use vex_pay.Store.Rows.{Codec}
use vex_pay.Store.Sqlite.{Database, sql_list_open, sql_repository}
use vex_pay.Watcher.{done, tick, watch}
use vex_pay.Watcher.Stops.{watch-returns}

abbrev no_codec : Codec
no_codec = record {
  time_text = λ t. [];
  time_parse = λ s. none;
  json_marshal = λ m. [];
  json_unmarshal = λ s. none;
}

abbrev closed_service : Service Database (Unit {0}) (Unit {0})
closed_service = record {
  repo = sql_repository no_codec;
  registry = [];
  emitter = true;
  pricer = none;
  expiry = pos 900;
}

abbrev closed_state : State Database (Unit {0})
closed_state = record {
  store = record { is_open = false; invoices = []; next_indices = [] };
  prices = tt;
  events = [];
}

watch-returns_example :
    (watch closed_service
      (λ k i. tt)
      (λ k i. pos 0)
      0
      (tick ∷ tick ∷ done ∷ tick ∷ [])
      closed_state).returned
    ≡ true
watch-returns_example =
    (watch-returns closed_service (λ k i. tt) (λ k i. pos 0) 0 (tick ∷ tick ∷ done ∷ tick ∷ [])
      closed_state).0

watch_logs :
    (watch closed_service
      (λ k i. tt)
      (λ k i. pos 0)
      0
      (tick ∷ tick ∷ done ∷ tick ∷ [])
      closed_state).logged
    ≡ query_failed ∷ query_failed ∷ []
unfolding watch process_open sql_repository sql_list_open
watch_logs = refl
