-- ===== src/Invoice/Service/Idempotent.antt =====
-- `Sync` run twice on a copy of a stored invoice, with one clock and one world.
use vex_pay.Common.{◌≡◌, sym, subst, ◌∙◌, ap, inl, inr, Bool-cases, false, ok}
use vex_pay.Common.Text.{Str, str_eq, str_eq_iff}
use vex_pay.Chain.{Observation}
use vex_pay.Invoice.{Invoice, Time}
use vex_pay.Invoice.Repository.{RepositoryLaws, SameTerms, SameTerms-refl}
use vex_pay.Invoice.Service.{Service, State, Synced, advance, sync}
use vex_pay.Invoice.Service.Sync.{Observes, moved, sync-cases, sync-sync_quiet, Observes-same}
use vex_pay.Invoice.Service.Rounds.{sync-stores, sync-frame}
use vex_pay.Invoice.Lifecycle.{advance-SameTerms, advance-advance}

module _ {S P W : Type 0} (svc : Service S P W) where
  -- the second of two syncs reports no change, emits nothing, and leaves the caller's invoice and
  -- every stored one as the first left them
  pub record ChangesNothing (once twice : Synced S P) : Type 0 where
    pub reports : moved twice.result ≡ false
    pub events : twice.state.events ≡ once.state.events
    pub invoice : twice.invoice ≡ once.invoice
    pub stored : (id : Str) → svc.repo.get id twice.state.store ≡ svc.repo.get id once.state.store

  module _ (Good : S → Type 0) (laws : RepositoryLaws svc.repo Good) where
    -- a sync that sees the chain show what the invoice was made of already
    again-Observes :
        (w : W) (now : Time) (inv : Invoice) (obs : Observation) (st : State S P)
        → Good st.store
        → svc.repo.get (advance inv obs now).id st.store ≡ ok (advance inv obs now)
        → Observes svc w (advance inv obs now) obs
        → ((sync svc w now (advance inv obs now) st).invoice ≡ advance inv obs now)
          × ((id : Str)
              → svc.repo.get id (sync svc w now (advance inv obs now) st).state.store
                ≡ svc.repo.get id st.store)
    again-Observes w now inv obs st good there seen =
        let adv = advance inv obs now in
        let settled = advance-advance inv obs now in
        let (stores, leaves, answers) =
          sync-stores svc Good laws w now adv adv obs st good there (SameTerms-refl adv) seen in
        (
          leaves ∙ settled,
          λ id. elim (Bool-cases (str_eq adv.id id)) [
            | inr other ↦ (sync-frame svc Good laws w now adv st good).1 id other
            | inl this ↦
                subst
                  (λ j.
                    svc.repo.get j (sync svc w now adv st).state.store ≡ svc.repo.get j st.store)
                  ((str_eq_iff adv.id id).0 this) (stores ∙ ap ok settled ∙ sym there)
          ],
        )

    again :
        (w : W) (now : Time) (inv : Invoice) (obs : Observation) (st : State S P)
        → Good st.store
        → svc.repo.get (advance inv obs now).id st.store ≡ ok (advance inv obs now)
        → Observes svc w inv obs
        → ((sync svc w now (advance inv obs now) st).invoice ≡ advance inv obs now)
          × ((id : Str)
              → svc.repo.get id (sync svc w now (advance inv obs now) st).state.store
                ≡ svc.repo.get id st.store)
    again w now inv obs st good there seen = elim (sync-cases svc w now (advance inv obs now) st) [
      | inr (same, kept, quiet) ↦ (same, λ id. ap (λ s. svc.repo.get id s.store) kept)
      | inl (obs', seen', ends) ↦ again-Observes w now inv obs st good there (
          subst (λ o. Observes svc w (advance inv obs now) o)
            (Observes-same svc w inv _ obs obs' (advance-SameTerms inv obs now) seen seen') seen')
    ]

    -- `Sync` is idempotent on a copy of a stored invoice: run again on the invoice and the state that
    -- it left, at the same time and with the same world, it reports no change, emits nothing, and
    -- leaves the invoice and everything that `Get` answers as they were.
    pub sync_idempotent :
        (w : W) (now : Time) (inv old : Invoice) (st : State S P)
        → Good st.store
        → svc.repo.get inv.id st.store ≡ ok old
        → SameTerms old inv
        → ChangesNothing
            (sync svc w now inv st)
            (sync svc w now (sync svc w now inv st).invoice (sync svc w now inv st).state)
    sync_idempotent w now inv old st good there same =
        let once = sync svc w now inv st in
        let (quiet, events) = sync-sync_quiet svc w now inv st in
        elim (sync-cases svc w now inv st) [
          | inr (leaves, kept, silent) ↦ record {
            reports = quiet;
            events = events;
            invoice = rw (kept, leaves) leaves;
            stored = λ id. rw (leaves, kept) (ap (λ s. svc.repo.get id s.store) kept);
          }
          | inl (obs, seen, ends) ↦
              let (stores, leaves, answers) =
                sync-stores svc Good laws w now inv old obs st good there same seen in
              let (keeps, frame) =
                again w now inv obs once.state (sync-frame svc Good laws w now inv st good).0
                  (subst (λ j. svc.repo.get j once.state.store ≡ ok (advance inv obs now))
                    (sym (advance-SameTerms inv obs now).id) stores)
                  seen in
              record {
                reports = quiet;
                events = events;
                invoice = rw leaves keeps;
                stored = λ id. rw leaves (frame id);
              }
        ]
