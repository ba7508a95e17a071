-- ===== src/Invoice/Service/Sync.antt =====
-- What one `Sync` returns, stores and emits.
use vex_pay.Common.{
  ◌≡◌, ◌≢◌, refl, sym, ap, ◌∙◌, ◌⊎◌, inl, inr, Bool, true, false, not, ◌&&◌, [], ◌∷◌, ◌++◌,
  append-nil, arith, if◌then◌else◌, Bool-cases, Result-cases, Result, Error, ok, err, ok-injective,
}
use vex_pay.Chain.{Adapter, Observation, find_adapter}
use vex_pay.Invoice.{Invoice, Time, status_eq, is_terminal, decide}
use vex_pay.Invoice.Repository.{SameTerms, SameTerms-refl}
use vex_pay.Invoice.Service.{Service, State, advance, target_of, conclude, sync}
use vex_pay.Invoice.Lifecycle.{status_eq_iff, advance-status, decide-advance, advance-SameTerms}

abbrev pub moved : Result Bool → Bool
moved (ok changed) = changed
moved (err _) = false

-- an invoice and what the chain shows for it now, if `Sync` comes that far
pub record Observes {S P W : Type 0} (svc : Service S P W) (w : W) (inv : Invoice)
    (obs : Observation) : Type 0 where
  pub adapter : Adapter W
  pub still_open : is_terminal inv.status ≡ false
  pub known : find_adapter svc.registry inv.chain ≡ ok adapter
  pub shown : adapter.check_payment w (target_of inv) ≡ ok obs

target-SameTerms : (inv inv' : Invoice) → SameTerms inv inv' → target_of inv' ≡ target_of inv
unfolding target_of
target-SameTerms inv inv' h = rw (h.receive_address, h.amount, h.strategy, h.derivation_index)

module _ {S P W : Type 0} (svc : Service S P W) where
  -- `Sync` goes through to its end, or leaves the invoice and the state alone.
  pub sync-cases :
      (w : W) (now : Time) (inv : Invoice) (st : State S P)
      → ((obs : Observation) × Observes svc w inv obs
          × (sync svc w now inv st ≡ conclude svc inv obs now st))
        ⊎ (((sync svc w now inv st).invoice ≡ inv)
            × ((sync svc w now inv st).state ≡ st)
            × (moved (sync svc w now inv st).result ≡ false))
  unfolding sync
  sync-cases w now inv st = elim (Bool-cases (is_terminal inv.status)) [
    | inl done ↦ rw done (inr (refl, refl, refl))
    | inr live ↦ elim (Result-cases (find_adapter svc.registry inv.chain)) [
      | inl (e, unknown) ↦ rw (live, unknown) (inr (refl, refl, refl))
      | inr (a, known) ↦ elim (Result-cases (a.check_payment w (target_of inv))) [
        | inl (e, failed) ↦ rw (live, known, failed) (inr (refl, refl, refl))
        | inr (obs, shown) ↦ inl (
          obs,
          record { adapter = a; still_open = live; known = known; shown = shown },
          rw (live, known, shown),
        )
      ]
    ]
  ]

  pub sync-Observes :
      (w : W) (now : Time) (inv : Invoice) (obs : Observation) (st : State S P)
      → Observes svc w inv obs
      → sync svc w now inv st ≡ conclude svc inv obs now st
  unfolding sync
  sync-Observes w now inv obs st h = rw (h.still_open, h.known, h.shown)

  -- the two ends of `Sync`
  conclude-failed :
      (inv : Invoice) (obs : Observation) (now : Time) (st : State S P) (e : Error)
      → (svc.repo.update (advance inv obs now) st.store).0 ≡ err e
      → conclude svc inv obs now st ≡ record {
        result = err e;
        invoice = advance inv obs now;
        state = record st { store = (svc.repo.update (advance inv obs now) st.store).1 };
      }
  unfolding conclude
  conclude-failed inv obs now st e failed = rw (failed, conclude)

  pub conclude-saved :
      (inv : Invoice) (obs : Observation) (now : Time) (st : State S P)
      → (svc.repo.update (advance inv obs now) st.store).0 ≡ ok tt
      → let changed = not (status_eq (decide inv obs now) inv.status) in
        conclude svc inv obs now st ≡ record {
          result = ok changed;
          invoice = advance inv obs now;
          state = record st {
            store = (svc.repo.update (advance inv obs now) st.store).1;
            events =
                if changed && svc.emitter
                then st.events
                  ++ record { invoice = advance inv obs now; previous = inv.status } ∷ []
                else st.events;
          };
        }
  unfolding conclude
  conclude-saved inv obs now st saved = rw (saved, conclude)

  conclude-events :
      (inv : Invoice) (obs : Observation) (now : Time) (st : State S P)
      → (conclude svc inv obs now st).state.events
        ≡ st.events
          ++ (if moved (conclude svc inv obs now st).result && svc.emitter
              then record { invoice = (conclude svc inv obs now st).invoice; previous = inv.status }
                ∷ []
              else [])
  conclude-events inv obs now st =
      elim (Result-cases (svc.repo.update (advance inv obs now) st.store).0) [
        | inl (e, failed) ↦
            rw (conclude-failed inv obs now st e failed) (sym (append-nil st.events))
        | inr (_, saved) ↦
            rw (conclude-saved inv obs now st saved) (ground (arith, append-nil st.events))
      ]

  pub conclude-invoice :
      (inv : Invoice) (obs : Observation) (now : Time) (st : State S P)
      → (conclude svc inv obs now st).invoice ≡ advance inv obs now
  conclude-invoice inv obs now st =
      elim (Result-cases (svc.repo.update (advance inv obs now) st.store).0) [
        | inl (e, failed) ↦ rw (conclude-failed inv obs now st e failed)
        | inr (_, saved) ↦ rw (conclude-saved inv obs now st saved)
      ]

  pub conclude-store :
      (inv : Invoice) (obs : Observation) (now : Time) (st : State S P)
      → (conclude svc inv obs now st).state.store
        ≡ (svc.repo.update (advance inv obs now) st.store).1
  conclude-store inv obs now st =
      elim (Result-cases (svc.repo.update (advance inv obs now) st.store).0) [
        | inl (e, failed) ↦ rw (conclude-failed inv obs now st e failed)
        | inr (_, saved) ↦ rw (conclude-saved inv obs now st saved)
      ]

  conclude-moved :
      (inv : Invoice) (obs : Observation) (now : Time) (st : State S P)
      → moved (conclude svc inv obs now st).result ≡ true
      → (advance inv obs now).status ≢ inv.status
  conclude-moved inv obs now st h =
      elim (Result-cases (svc.repo.update (advance inv obs now) st.store).0) [
        | inl (e, failed) ↦ absurd (cc (rw (conclude-failed inv obs now st e failed) at h))
        | inr (_, saved) ↦
            let changed = rw (conclude-saved inv obs now st saved) at h in
            ground
              (arith, status_eq_iff (decide inv obs now) inv.status, advance-status inv obs now)
      ]

  -- `Sync` emits one event exactly when it reports a change and an emitter is set: the event is a
  -- snapshot of the invoice as it left it, with the status it had before, which is another one.
  -- On every other branch, errors included, nothing is emitted.
  pub sync-events :
      (w : W) (now : Time) (inv : Invoice) (st : State S P)
      → ((sync svc w now inv st).state.events
          ≡ st.events
            ++ (if moved (sync svc w now inv st).result && svc.emitter
                then record { invoice = (sync svc w now inv st).invoice; previous = inv.status }
                  ∷ []
                else []))
        × (moved (sync svc w now inv st).result ≡ true
            → (sync svc w now inv st).invoice.status ≢ inv.status)
  sync-events w now inv st = elim (sync-cases w now inv st) [
    | inl (obs, seen, ends) ↦ rw ends (
      conclude-events inv obs now st,
      λ h. rw (conclude-invoice inv obs now st) (conclude-moved inv obs now st h),
    )
    | inr (same, kept, quiet) ↦ rw (same, kept, quiet) (sym (append-nil st.events), λ h. cc)
  ]

  pub Observes-same :
      (w : W) (inv inv' : Invoice) (obs obs' : Observation)
      → SameTerms inv inv'
      → Observes svc w inv obs
      → Observes svc w inv' obs'
      → obs' ≡ obs
  Observes-same w inv inv' obs obs' same h h' =
      let adapters : ok h'.adapter ≡ ok h.adapter =
        sym h'.known ∙ ap (find_adapter svc.registry) same.chain ∙ h.known in
      ok-injective
        (sym h'.shown ∙ rw (ok-injective adapters, target-SameTerms inv inv' same) h.shown)

  -- what the chain shows is one observation
  pub Observes-obs :
      (w : W) (inv : Invoice) (obs obs' : Observation)
      → Observes svc w inv obs
      → Observes svc w inv obs'
      → obs' ≡ obs
  Observes-obs w inv obs obs' = Observes-same w inv inv obs obs' (SameTerms-refl inv)

  sync-quiet :
      (w : W) (now : Time) (inv : Invoice) (st : State S P)
      → moved (sync svc w now inv st).result ≡ false
      → (sync svc w now inv st).state.events ≡ st.events
  sync-quiet w now inv st h = (sync-events w now inv st).0 ∙ (rw h (append-nil st.events))

  -- deciding again on what was just decided on
  conclude-again :
      (inv : Invoice) (obs obs' : Observation) (now : Time) (st : State S P)
      → obs' ≡ obs
      → moved (conclude svc (advance inv obs now) obs' now st).result ≡ false
  conclude-again inv obs obs' now st e =
      elim (Bool-cases (moved (conclude svc (advance inv obs now) obs' now st).result)) [
        | inr still ↦ still
        | inl change ↦ absurd (
            conclude-moved (advance inv obs now) obs' now st change
              (rw (advance-status, e) (decide-advance inv obs now)))
      ]

  sync-again :
      (w : W) (now : Time) (inv : Invoice) (obs : Observation) (st : State S P)
      → Observes svc w inv obs
      → moved (sync svc w now (advance inv obs now) st).result ≡ false
  sync-again w now inv obs st seen = elim (sync-cases w now (advance inv obs now) st) [
    | inr (same, kept, quiet) ↦ quiet
    | inl (obs', seen', ends) ↦ rw ends (
        conclude-again inv obs obs' now st
          (Observes-same w inv _ obs obs' (advance-SameTerms inv obs now) seen seen'))
  ]

  -- `Sync` run again on the invoice and the state that it left, at the same time and with the same
  -- world, reports no change and emits nothing.
  pub sync-sync_quiet :
      (w : W) (now : Time) (inv : Invoice) (st : State S P)
      → let once = sync svc w now inv st in
        let twice = sync svc w now once.invoice once.state in
        (moved twice.result ≡ false) × (twice.state.events ≡ once.state.events)
  sync-sync_quiet w now inv st =
      let once = sync svc w now inv st in
      let still : moved (sync svc w now once.invoice once.state).result ≡ false =
        elim (sync-cases w now inv st) [
          | inl (obs, seen, ends) ↦
              rw (ends, conclude-invoice inv obs now st) (sync-again w now inv obs _ seen)
          | inr (same, kept, quiet) ↦ rw (same, kept) quiet
        ] in
      (still, sync-quiet w now once.invoice once.state still)
