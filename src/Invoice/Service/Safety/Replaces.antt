-- ===== src/Invoice/Service/Safety/Replaces.antt =====
-- A store in which one invoice has a newer version keeps a configuration safe.
use vex_pay.Common.{
  ◌≡◌, subst, sym, ◌∙◌, inl, inr, false, List, [], ◌∷◌, Bool-cases, ok, ok-injective, All,
  All-implies,
}
use vex_pay.Common.Text.{Str, str_eq, str_eq_iff}
use vex_pay.Invoice.{Invoice, Time, is_settled}
use vex_pay.Invoice.Repository.{SameTerms, SameTerms-symm, SameTerms-trans}
use vex_pay.Invoice.Memory.Listing.{Elem}
use vex_pay.Invoice.Service.{Service, State, CreateParams}
use vex_pay.Invoice.Service.Create.{IsNew}
use vex_pay.Invoice.Lifecycle.{IsSound}
use vex_pay.Invoice.Service.Safety.{Config, IsVersion, IsSafe}

pub IsNew-IsSound :
    (now : Time) (id : Str) (p : CreateParams) (inv : Invoice) → IsNew now id p inv → IsSound inv
unfolding is_settled
IsNew-IsSound now id p inv h = record {
  paid_when_settled = rw (h.unpaid, h.waiting);
  enough_when_settled = λ settled. absurd (cc (rw h.waiting at settled));
  deep_when_settled = λ settled. absurd (cc (rw h.waiting at settled));
}

pub All-Elem : (P : Invoice → Type 0) (x : Invoice) (xs : List Invoice) → All P xs → Elem x xs → P x
All-Elem P x [] h e = absurd e
All-Elem P x (y ∷ ys) h (inl e) = rw e h.0
All-Elem P x (y ∷ ys) h (inr e) = All-Elem P x ys h.1 e

module _ {S P W : Type 0} (svc : Service S P W) (Good : S → Type 0) where
  -- the store `s'` holds `x` where `s` held an older version of it, or nothing
  pub record Replaces (s s' : S) (x : Invoice) : Type 0 where
    pub good : Good s'
    pub new_one : svc.repo.get x.id s' ≡ ok x
    pub others : (id : Str) → str_eq x.id id ≡ false → svc.repo.get id s' ≡ svc.repo.get id s
    pub older : (old : Invoice) → svc.repo.get x.id s ≡ ok old → SameTerms old x

  Replaces-stored :
      (s s' : S) (x : Invoice)
      → Replaces s s' x
      → IsSound x
      → ((id : Str) (inv : Invoice) → svc.repo.get id s ≡ ok inv → IsSound inv)
      → (id : Str) (inv : Invoice) → svc.repo.get id s' ≡ ok inv
      → IsSound inv
  Replaces-stored s s' x r sound stored id inv e = elim (Bool-cases (str_eq x.id id)) [
    | inl same ↦
        let at_id : svc.repo.get id s' ≡ ok x =
          subst (λ j. svc.repo.get j s' ≡ ok x) ((str_eq_iff x.id id).0 same) r.new_one in
        subst IsSound (ok-injective (sym at_id ∙ e)) sound
    | inr other ↦ stored id inv (sym (r.others id other) ∙ e)
  ]

  Replaces-IsVersion :
      (s s' : S) (x : Invoice)
      → Replaces s s' x
      → (inv : Invoice) → IsVersion svc s inv
      → IsVersion svc s' inv
  Replaces-IsVersion s s' x r inv (sound, (old, e, same)) = elim (Bool-cases (str_eq x.id inv.id)) [
    | inl equal ↦
        let ids = (str_eq_iff x.id inv.id).0 equal in
        let older = r.older old (subst (λ j. svc.repo.get j s ≡ ok old) (sym ids) e) in
        (
          sound,
          (
            x,
            subst (λ j. svc.repo.get j s' ≡ ok x) ids r.new_one,
            SameTerms-trans x old inv (SameTerms-symm old x older) same,
          ),
        )
    | inr other ↦ (sound, (old, r.others inv.id other ∙ e, same))
  ]

  pub frame-IsSafe :
      (c : Config S P) (st : State S P)
      → Good st.store
      → ((id : Str) → svc.repo.get id st.store ≡ svc.repo.get id c.state.store)
      → IsSafe svc Good c
      → IsSafe svc Good (record { state = st; held = c.held })
  frame-IsSafe c st good same h = record {
    good = good;
    stored = λ id inv e. h.stored id inv (sym (same id) ∙ e);
    held =
        All-implies (IsVersion svc c.state.store) (IsVersion svc st.store) c.held
          (λ inv v. (v.0, (v.1.0, same inv.id ∙ v.1.1, v.1.2))) h.held;
  }

  pub replace-IsSafe :
      (c : Config S P) (st : State S P) (x : Invoice)
      → Replaces c.state.store st.store x
      → IsSound x
      → IsSafe svc Good c
      → IsSafe svc Good (record { state = st; held = c.held })
  replace-IsSafe c st x r sound h = record {
    good = r.good;
    stored = Replaces-stored c.state.store st.store x r sound h.stored;
    held =
        All-implies (IsVersion svc c.state.store) (IsVersion svc st.store) c.held
          (Replaces-IsVersion c.state.store st.store x r) h.held;
  }
