-- ===== src/Watcher.antt =====
-- internal/watcher/watcher.go: the loop that syncs the open invoices until it is told to stop. What
-- each `select` finds ready is a list of outcomes, so every order of ticks and of the end is one.
pub mod Stops
pub mod Tests
use vex_pay.Common.{
  ℕ, suc, ◌*◌, ◌^◌, Bool, true, false, List, [], ◌∷◌, if◌then◌else◌, Result, ok, err, Error,
}
use vex_pay.Common.Int.{ℤ, pos, leb_ℤ}
use vex_pay.Invoice.{Time}
use vex_pay.Invoice.Service.{Service, State, process_open}

pub record Watcher : Type 0 where
  pub interval : ℤ

-- `New`: 15 seconds for an interval that is not positive
unfoldable pub new_watcher : ℤ → Watcher
new_watcher interval = record {
  interval = if leb_ℤ interval (pos 0) then pos (15 * 10 ^ 9) else interval;
}

-- what a `select` takes: the end of the context, or a tick
pub data Ready : Type 0 where
  done tick : Ready

-- what the loop did: whether it returned, the errors that it logged, the state
pub record Watched (S P : Type 0) : Type 0 where
  pub returned : Bool
  pub logged : List Error
  pub state : State S P

-- `w k` and `now k` are the world and the clock in round `k`, for each invoice of the round
module _ {S P W : Type 0} (svc : Service S P W) (w : ℕ → ℕ → W) (now : ℕ → ℕ → Time) where
  -- the loop of `Run`
  unfoldable pub watch : ℕ → List Ready → State S P → Watched S P
  watch k [] st = record { returned = false; logged = []; state = st }
  watch k (done ∷ _) st = record { returned = true; logged = []; state = st }
  watch k (tick ∷ later) st =
      let (answer, st') = process_open svc (w k) (now k) st in
      let rest = watch (suc k) later st' in
      elim answer [ ok _ ↦ rest | err e ↦ record rest { logged = e ∷ rest.logged } ]
