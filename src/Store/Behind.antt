-- ===== src/Store/Behind.antt =====
-- internal/invoice/service.go: the service over the two repositories, and `Sync` over each.
use vex_pay.Common.{
  ◌≡◌, refl, ap, sym, ◌∙◌, inl, inr, Bool, Option, some, Bool-cases, Result-cases, ok, err,
}
use vex_pay.Common.Int.{ℤ}
use vex_pay.Common.Text.{Str}
use vex_pay.Common.Dict.{Dict, get}
use vex_pay.Chain.{Adapter, Registry, Observation, find_adapter}
use vex_pay.Invoice.{Invoice, Time, is_terminal}
use vex_pay.Invoice.Repository.{Repository, SameTerms, SameTerms-trans}
use vex_pay.Invoice.Memory.{MemRepository, mem_update, mem_repository}
use vex_pay.Invoice.Lifecycle.{advance-SameTerms}
use vex_pay.Invoice.Service.{Service, State, Synced, Pricer, advance, target_of, conclude, sync}
use vex_pay.Store.Rows.{Codec}
use vex_pay.Store.RoundTrip.{CodecLaws, IsStorable}
use vex_pay.Store.Sqlite.{Database, sql_update, sql_repository}
use vex_pay.Store.Agrees.{Agree, update-Agree}

-- a service over any repository
abbrev pub over :
    {S P W : Type 0} → Registry W → Bool → Option (Pricer P) → ℤ → Repository S → Service S P W
over registry emitter pricer expiry repo = record {
  repo = repo;
  registry = registry;
  emitter = emitter;
  pricer = pricer;
  expiry = expiry;
}

module _ (codec : Codec) (Canonical : Dict Str → Type 0) (laws : CodecLaws codec Canonical) where
  -- the stores agree, and the rest is the same
  pub record Alike {P : Type 0} (st : State MemRepository P) (st' : State Database P) : Type 0 where
    pub store : Agree codec Canonical laws st.store st'.store
    pub prices : st.prices ≡ st'.prices
    pub events : st.events ≡ st'.events

  module _ {P W : Type 0} (registry : Registry W) (emitter : Bool) (pricer : Option (Pricer P))
      (expiry : ℤ) where
    -- the same answer, the same copy of the invoice, and alike states
    pub record SameSync (a : Synced MemRepository P) (b : Synced Database P) : Type 0 where
      pub result : a.result ≡ b.result
      pub invoice : a.invoice ≡ b.invoice
      pub state : Alike a.state b.state

    conclude-Alike :
        (inv : Invoice) (obs : Observation) (now : Time) (st : State MemRepository P)
        (st' : State Database P)
        → Alike st st'
        → IsStorable Canonical (advance inv obs now)
        → ((old : Invoice)
            → get st.store.by_id (advance inv obs now).id ≡ some old
            → SameTerms old (advance inv obs now))
        → SameSync
            (conclude (over registry emitter pricer expiry mem_repository) inv obs now st)
            (conclude (over registry emitter pricer expiry (sql_repository codec)) inv obs now st')
    unfolding conclude mem_repository sql_repository
    conclude-Alike inv obs now st st' h fits terms =
        let inv' = advance inv obs now in
        let (same, agree) =
          update-Agree codec Canonical laws inv' st.store st'.store h.store (fits, terms) in
        elim (Result-cases (mem_update inv' st.store).0) [
          | inl (e, failed) ↦
              let failed' : (sql_update codec inv' st'.store).0 ≡ err e = sym same ∙ failed in
              rw (failed, failed', conclude)
                (record {
                  result = refl;
                  invoice = refl;
                  state = record { store = agree; prices = h.prices; events = h.events };
                })
          | inr (u, saved) ↦
              let saved' : (sql_update codec inv' st'.store).0 ≡ ok u = sym same ∙ saved in
              rw (saved, saved', conclude)
                (record {
                  result = refl;
                  invoice = refl;
                  state = record { store = agree; prices = h.prices; events = rw h.events refl };
                })
        ]

    -- what the repository must be able to keep: any copy that this `Sync` may make
    abbrev pub Keeps : W → Time → Invoice → Type 0
    Keeps w now inv =
        (adapter : Adapter W) (obs : Observation)
        → find_adapter registry inv.chain ≡ ok adapter
        → adapter.check_payment w (target_of inv) ≡ ok obs
        → IsStorable Canonical (advance inv obs now)

    -- `Sync` answers the same over SQLite as over the repository in memory, makes the same copy of the
    -- invoice and emits the same events, and the stores agree again, if the columns keep any
    -- copy that it may make and the invoice has the terms of the stored one.
    pub sync-Alike :
        (w : W) (now : Time) (inv : Invoice) (st : State MemRepository P) (st' : State Database P)
        → Alike st st'
        → Keeps w now inv
        → ((old : Invoice) → get st.store.by_id inv.id ≡ some old → SameTerms old inv)
        → SameSync
            (sync (over registry emitter pricer expiry mem_repository) w now inv st)
            (sync (over registry emitter pricer expiry (sql_repository codec)) w now inv st')
    unfolding sync
    sync-Alike w now inv st st' h keeps terms = elim (Bool-cases (is_terminal inv.status)) [
      | inl over_ ↦ rw over_ (record { result = refl; invoice = refl; state = h })
      | inr still ↦ elim (Result-cases (find_adapter registry inv.chain)) [
        | inl (e, unknown) ↦
            rw (still, unknown) (record { result = refl; invoice = refl; state = h })
        | inr (adapter, known) ↦ elim (Result-cases (adapter.check_payment w (target_of inv))) [
          | inl (e, failed) ↦
              rw (still, known, failed) (record { result = refl; invoice = refl; state = h })
          | inr (obs, seen) ↦
              rw (still, known, seen)
                (conclude-Alike inv obs now st st' h (keeps adapter obs known seen) (λ old there.
                  let moved = advance-SameTerms inv obs now in
                  SameTerms-trans old inv (advance inv obs now)
                    (terms old (ap (get st.store.by_id) (sym moved.id) ∙ there)) moved))
        ]
      ]
    ]
