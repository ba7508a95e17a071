-- ===== src/Invoice/Service/Safety.antt =====
-- The service under every interleaving: the API creates invoices, and it and the watcher fetch
-- copies of stored invoices and sync them later, when the stored version may have moved on. `Create`
-- holds no lock, so counting an index and storing the new invoice are steps of their own too, which
-- any other step may come between.
pub mod Replaces
pub mod Steps
use vex_pay.Common.{
  ℕ, ◌≡◌, ◌≢◌, refl, subst, sym, ap, ◌∙◌, ◌⊎◌, inl, inr, Bool, true, false, Option, none, some,
  List, [], ◌∷◌, arith, if◌then◌else◌, Bool-cases, Result-cases, Result, Error, ok, err,
  ok-injective, not_found, All,
}
use vex_pay.Common.Text.{Str, str_eq, str_eq_iff, is_empty}
use vex_pay.Money.{Amount}
use vex_pay.Chain.{Observation, Adapter, ReceiveTarget}
use vex_pay.Invoice.{Invoice, Time, is_settled, is_terminal}
use vex_pay.Invoice.Repository.{Repository, RepositoryLaws, SameTerms}
use vex_pay.Invoice.Memory.Listing.{Elem}
use vex_pay.Invoice.Service.{Service, State, CreateParams, new_invoice, create, sync, advance}
use vex_pay.Invoice.Service.Create.{IsNew, create-Created}
use vex_pay.Invoice.Service.Sync.{Observes, sync-cases, conclude-invoice, conclude-store}
use vex_pay.Invoice.Lifecycle.{IsSound, advance-IsSound, advance-SameTerms, status_eq_iff}

-- the state, and every copy of an invoice that a request or the watcher has got hold of
pub record Config (S P : Type 0) : Type 0 where
  pub state : State S P
  pub held : List Invoice

module _ {S P W : Type 0} (svc : Service S P W) where
  -- Copies are never thrown away, so a sync may start from one that is out of date.
  pub data Step (c : Config S P) : Config S P → Type 0 where
    create_step :
        (now : Time) (id : Str) (p : CreateParams)
        → svc.repo.get id c.state.store ≡ err not_found
        → Step c (record c { state = (create svc now id p c.state).1 })
    count_step :
        (merchant : Str)
        → Step c (record c {
          state = record c.state {
            store = (svc.repo.next_derivation_index merchant c.state.store).1;
          };
        })
    save_step :
        (a : Adapter W) (target : ReceiveTarget) (p : CreateParams) (amount : Amount) (rate : Str)
        (id : Str) (now : Time)
        → is_empty p.merchant_id ≡ false
        → svc.repo.get id c.state.store ≡ err not_found
        → Step c (record c {
          state = record c.state {
            store =
                (svc.repo.create
                  (new_invoice a target p amount rate id now svc.expiry)
                  c.state.store).1;
          };
        })
    fetch_step :
        (id : Str) (inv : Invoice)
        → svc.repo.get id c.state.store ≡ ok inv
        → Step c (record c { held = inv ∷ c.held })
    sync_step :
        (w : W) (now : Time) (inv : Invoice)
        → Elem inv c.held
        → Step c (record {
          state = (sync svc w now inv c.state).state;
          held = (sync svc w now inv c.state).invoice ∷ c.held;
        })

  pub data Reach (c : Config S P) : Config S P → Type 0 where
    here : Reach c c
    next : {d e : Config S P} → Reach c d → Step d e → Reach c e

  -- a sound copy of an invoice that is stored in some version
  abbrev pub IsVersion : S → Invoice → Type 0
  IsVersion s inv =
      IsSound inv × ((old : Invoice) × (svc.repo.get inv.id s ≡ ok old) × SameTerms old inv)

  -- the store is good, and every invoice that is stored or held is sound
  pub record IsSafe (Good : S → Type 0) (c : Config S P) : Type 0 where
    pub good : Good c.state.store
    pub stored : (id : Str) (inv : Invoice) → svc.repo.get id c.state.store ≡ ok inv → IsSound inv
    pub held : All (IsVersion c.state.store) c.held
