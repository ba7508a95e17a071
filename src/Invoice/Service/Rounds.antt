-- ===== src/Invoice/Service/Rounds.antt =====
-- `Sync` on a stored invoice, and the loop of `ProcessOpen`: each invoice gets its own round.
use native.Mathlib.Nat.{add-zero, zero-add}
use vex_pay.Common.{
  ℕ, zero, suc, ◌+◌, ◌≡◌, refl, subst, sym, ◌∙◌, inl, inr, false, not, some, List, [], ◌∷◌, arith,
  ok, All, get_elem?, some-injective, some-injective,
}
use vex_pay.Common.Text.{Str, str_eq, str_eq_comm}
use vex_pay.Chain.{Observation}
use vex_pay.Invoice.{Invoice, Time, status_eq, decide}
use vex_pay.Invoice.Repository.{Repository, RepositoryLaws, SameTerms, SameTerms-trans}
use vex_pay.Invoice.Service.{Service, State, sync, advance, rounds, process_open}
use vex_pay.Invoice.Service.Sync.{
  Observes, sync-Observes, sync-cases, conclude-store, conclude-saved,
}
use vex_pay.Invoice.Lifecycle.{advance-SameTerms}

-- no two of the invoices share an id
abbrev pub Distinct : List Invoice → Type 0
Distinct [] = Unit {0}
Distinct (x ∷ xs) = All (λ y. str_eq x.id y.id ≡ false) xs × Distinct xs

-- every one is a copy of an invoice that is stored in some version
abbrev pub Stored : {S : Type 0} → Repository S → S → List Invoice → Type 0
Stored repo s = All (λ x. (old : Invoice) × (repo.get x.id s ≡ ok old) × SameTerms old x)

module _ {S P W : Type 0} (svc : Service S P W) (Good : S → Type 0)
    (laws : RepositoryLaws svc.repo Good) where
  -- What a `Sync` that sees the chain leaves in the repository is what it made of the caller's
  -- copy: the stored version counts for nothing but the terms, be its status a terminal one.
  pub sync-stores :
      (w : W) (now : Time) (inv old : Invoice) (obs : Observation) (st : State S P)
      → Good st.store
      → svc.repo.get inv.id st.store ≡ ok old
      → SameTerms old inv
      → Observes svc w inv obs
      → (svc.repo.get inv.id (sync svc w now inv st).state.store ≡ ok (advance inv obs now))
        × ((sync svc w now inv st).invoice ≡ advance inv obs now)
        × ((sync svc w now inv st).result ≡ ok (not (status_eq (decide inv obs now) inv.status)))
  sync-stores w now inv old obs st good there same seen =
      let terms = advance-SameTerms inv obs now in
      let saved =
        laws.update_get old (advance inv obs now) st.store good
          (subst (λ j. svc.repo.get j st.store ≡ ok old) (sym terms.id) there)
          (SameTerms-trans old inv (advance inv obs now) same terms) in
      rw (sync-Observes svc w now inv obs st seen, conclude-saved svc inv obs now st saved.0)
        (
          subst
              (λ j.
                svc.repo.get j (svc.repo.update (advance inv obs now) st.store).1
                ≡ ok (advance inv obs now))
              terms.id saved.1,
          refl,
          refl,
        )

  pub sync-frame :
      (w : W) (now : Time) (inv : Invoice) (st : State S P)
      → Good st.store
      → Good (sync svc w now inv st).state.store
        × ((id : Str)
            → str_eq inv.id id ≡ false
            → svc.repo.get id (sync svc w now inv st).state.store ≡ svc.repo.get id st.store)
  sync-frame w now inv st good = elim (sync-cases svc w now inv st) [
    | inr (same, kept, quiet) ↦ rw kept (good, λ id other. refl)
    | inl (obs, seen, ends) ↦
        let terms = advance-SameTerms inv obs now in
        rw (ends, conclude-store svc inv obs now st)
          (
            laws.update_good (advance inv obs now) st.store good,
            λ id other.
                laws.update_other (advance inv obs now) st.store id good
                  (subst (λ j. str_eq j id ≡ false) (sym terms.id) other),
          )
  ]

  rounds-frame :
      (w : ℕ → W) (now : ℕ → Time) (i : ℕ) (todo : List Invoice) (st : State S P) (id : Str)
      → Good st.store
      → All (λ x. str_eq x.id id ≡ false) todo
      → svc.repo.get id (rounds svc w now i todo st).store ≡ svc.repo.get id st.store
  unfolding rounds
  rounds-frame w now i [] st id good h = refl
  rounds-frame w now i (x ∷ todo) st id good h =
      let (good', others) = sync-frame (w i) (now i) x st good in
      rounds-frame w now (suc i) todo (sync svc (w i) (now i) x st).state id good' h.1
      ∙ others id h.0

  Stored-frame :
      (s s' : S) (x : Invoice) (todo : List Invoice)
      → ((id : Str) → str_eq x.id id ≡ false → svc.repo.get id s' ≡ svc.repo.get id s)
      → All (λ y. str_eq x.id y.id ≡ false) todo
      → Stored svc.repo s todo
      → Stored svc.repo s' todo
  Stored-frame s s' x [] others apart h = tt
  Stored-frame s s' x (y ∷ todo) others apart h =
      ((h.0.0, others y.id apart.0 ∙ h.0.1, h.0.2), Stored-frame s s' x todo others apart.1 h.1)

  apart_symm :
      (x : Invoice) (todo : List Invoice)
      → All (λ y. str_eq x.id y.id ≡ false) todo
      → All (λ y. str_eq y.id x.id ≡ false) todo
  apart_symm x [] h = tt
  apart_symm x (y ∷ todo) h = (str_eq_comm y.id x.id ∙ h.0, apart_symm x todo h.1)

  rounds-head :
      (w : ℕ → W) (now : ℕ → Time) (i : ℕ) (x : Invoice) (todo : List Invoice) (st : State S P)
      (obs : Observation)
      → Good st.store
      → Distinct (x ∷ todo)
      → Stored svc.repo st.store (x ∷ todo)
      → Observes svc (w i) x obs
      → svc.repo.get x.id (rounds svc w now i (x ∷ todo) st).store ≡ ok (advance x obs (now i))
  unfolding rounds
  rounds-head w now i x todo st obs good apart stored seen =
      rounds-frame w now (suc i) todo (sync svc (w i) (now i) x st).state x.id
        (sync-frame (w i) (now i) x st good).0 (apart_symm x todo apart.0)
      ∙ (sync-stores (w i) (now i) x stored.0.0 obs st good stored.0.1 stored.0.2 seen).0

  rounds-each :
      (w : ℕ → W) (now : ℕ → Time) (i k : ℕ) (todo : List Invoice) (st : State S P) (inv : Invoice)
      (obs : Observation)
      → Good st.store
      → Distinct todo
      → Stored svc.repo st.store todo
      → get_elem? todo k ≡ some inv
      → Observes svc (w (i + k)) inv obs
      → svc.repo.get inv.id (rounds svc w now i todo st).store ≡ ok (advance inv obs (now (i + k)))
  unfolding rounds
  rounds-each w now i k [] st inv obs good apart stored at_k seen = absurd (cc)
  rounds-each w now i zero (x ∷ todo) st inv obs good apart stored at_k seen =
      let first = some-injective at_k in
      let seen' =
        subst (λ v. Observes svc (w i) v obs) (sym first)
          (subst (λ n. Observes svc (w n) inv obs) (add-zero i) seen) in
      subst
        (λ v.
          svc.repo.get v.id (rounds svc w now i (x ∷ todo) st).store
          ≡ ok (advance v obs (now (i + 0))))
        first (rw add-zero (rounds-head w now i x todo st obs good apart stored seen'))
  rounds-each w now i (suc k) (x ∷ todo) st inv obs good apart stored at_k seen =
      let shift : i + suc k ≡ suc i + k = omega arith in
      let (good', others) = sync-frame (w i) (now i) x st good in
      rw shift (
        rounds-each w now (suc i) k todo (sync svc (w i) (now i) x st).state inv obs good' apart.1
          (Stored-frame st.store _ x todo others apart.0 stored.1) at_k (rw (← shift) seen))

  -- One bad invoice does not stall the rest: when `ListOpen` returns stored invoices with distinct
  -- ids, `ProcessOpen` succeeds, and every one of them that the chain was seen for in its own round
  -- `k` is stored as that round made it, whatever happened in the rounds before and after.
  pub process_open-each :
      (w : ℕ → W) (now : ℕ → Time) (todo : List Invoice) (st : State S P)
      → Good st.store
      → svc.repo.list_open st.store ≡ ok todo
      → Distinct todo
      → Stored svc.repo st.store todo
      → ((process_open svc w now st).0 ≡ ok tt)
        × ((k : ℕ) (inv : Invoice) (obs : Observation)
            → get_elem? todo k ≡ some inv
            → Observes svc (w k) inv obs
            → svc.repo.get inv.id (process_open svc w now st).1.store
              ≡ ok (advance inv obs (now k)))
  unfolding process_open
  process_open-each w now todo st good listed apart stored =
      rw (listed, process_open)
        (
          refl,
          λ k inv obs at_k seen.
              rw zero-add at
                (rounds-each w now 0 k todo st inv obs good apart stored at_k (rw zero-add seen)),
        )
