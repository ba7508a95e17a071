-- ===== src/Watcher/Stops.antt =====
-- internal/watcher/watcher.go: when the loop returns and what it has done by then.
use vex_pay.Common.{
  ℕ, zero, suc, ◌≡◌, refl, Bool, true, false, List, [], ◌∷◌, Result-cases, inl, inr,
}
use vex_pay.Invoice.{Time}
use vex_pay.Invoice.Service.{Service, State, process_open}
use vex_pay.Watcher.{Ready, done, tick, watch}

-- the ticks before the end
abbrev pub ticks : List Ready → ℕ
ticks [] = 0
ticks (done ∷ _) = 0
ticks (tick ∷ later) = suc (ticks later)

abbrev pub has_end : List Ready → Bool
has_end [] = false
has_end (done ∷ _) = true
has_end (tick ∷ later) = has_end later

module _ {S P W : Type 0} (svc : Service S P W) (w : ℕ → ℕ → W) (now : ℕ → ℕ → Time) where
  -- `ProcessOpen` for each of `n` rounds, whatever it answers
  abbrev pub open_rounds : ℕ → ℕ → State S P → State S P
  open_rounds k zero st = st
  open_rounds k (suc n) st = open_rounds (suc k) n (process_open svc (w k) (now k) st).1

  -- `Run` returns exactly if the context ends, whatever `ProcessOpen` answers; until then each tick
  -- is one `ProcessOpen`, a failed one no less than the others, and after it there is none.
  pub watch-returns :
      (k : ℕ) (outcomes : List Ready) (st : State S P)
      → ((watch svc w now k outcomes st).returned ≡ has_end outcomes)
        × ((watch svc w now k outcomes st).state ≡ open_rounds k (ticks outcomes) st)
  unfolding watch
  watch-returns k [] st = (refl, refl)
  watch-returns k (done ∷ later) st = (refl, refl)
  watch-returns k (tick ∷ later) st =
      let rest = watch-returns (suc k) later (process_open svc (w k) (now k) st).1 in
      elim (Result-cases (process_open svc (w k) (now k) st).0) [
        | inl (e, failed) ↦ rw (failed, watch) rest
        | inr (u, fine) ↦ rw (fine, watch) rest
      ]
