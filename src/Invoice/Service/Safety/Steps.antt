-- ===== src/Invoice/Service/Safety/Steps.antt =====
-- Every step of the service keeps a configuration safe.
use vex_pay.Common.{
  ◌≡◌, subst, sym, ap, ◌∙◌, inl, inr, false, ◌∷◌, ok, err, ok-injective, not_found,
}
use vex_pay.Common.Text.{Str}
use vex_pay.Chain.{Observation}
use vex_pay.Invoice.{Invoice, Time, is_terminal}
use vex_pay.Invoice.Repository.{RepositoryLaws, SameTerms, SameTerms-refl, SameTerms-trans}
use vex_pay.Invoice.Memory.Listing.{Elem}
use vex_pay.Invoice.Service.{Service, State, CreateParams, create, sync, advance}
use vex_pay.Invoice.Service.Create.{IsNew, create-Created, new_invoice-IsNew}
use vex_pay.Invoice.Service.Sync.{sync-cases, conclude-invoice, conclude-store}
use vex_pay.Invoice.Lifecycle.{advance-IsSound, advance-SameTerms}
use vex_pay.Invoice.Service.Safety.{
  Config, IsVersion, IsSafe, Step, Reach, create_step, count_step, save_step, fetch_step, sync_step,
  here, next,
}
use vex_pay.Invoice.Service.Safety.Replaces.{
  Replaces, IsNew-IsSound, All-Elem, frame-IsSafe, replace-IsSafe,
}

module _ {S P W : Type 0} (svc : Service S P W) (Good : S → Type 0)
    (laws : RepositoryLaws svc.repo Good) where
  -- the store after a derivation index was used up
  counted : Str → Config S P → S
  counted merchant c = (svc.repo.next_derivation_index merchant c.state.store).1

  create-Replaces :
      (c : Config S P) (merchant : Str) (x : Invoice) (s : S)
      → IsSafe svc Good c
      → svc.repo.get x.id c.state.store ≡ err not_found
      → s ≡ (svc.repo.create x (counted merchant c)).1
      → Replaces svc Good c.state.store s x
  unfolding counted
  create-Replaces c merchant x s h fresh e =
      let good = laws.index_good merchant c.state.store h.good in
      let fresh' = laws.index_get merchant x.id c.state.store h.good ∙ fresh in
      rw e (record {
        good = laws.create_good x (counted merchant c) good fresh';
        new_one = (laws.create_get x (counted merchant c) good fresh').1;
        others = λ id other.
            laws.create_other x (counted merchant c) id good other
            ∙ laws.index_get merchant id c.state.store h.good;
        older = λ old there. absurd (cc (sym fresh ∙ there));
      })

  create-IsSafe :
      (c : Config S P) (now : Time) (id : Str) (p : CreateParams)
      → svc.repo.get id c.state.store ≡ err not_found
      → IsSafe svc Good c
      → IsSafe svc Good (record c { state = (create svc now id p c.state).1 })
  unfolding counted
  create-IsSafe c now id p fresh h =
      let st = (create svc now id p c.state).1 in
      elim (create-Created svc now id p c.state).1 [
        | inl (_, _, inl same) ↦
            frame-IsSafe svc Good c st (subst Good (sym same) h.good)
              (λ j. ap (svc.repo.get j) same) h
        | inl (_, _, inr used) ↦
            frame-IsSafe svc Good c st
              (subst Good (sym used) (laws.index_good p.merchant_id c.state.store h.good))
              (λ j. ap (svc.repo.get j) used ∙ laws.index_get p.merchant_id j c.state.store h.good)
              h
        | inr (inv, new, kept, _) ↦
            replace-IsSafe svc Good c st inv
              (create-Replaces c p.merchant_id inv st.store h
                (subst (λ j. svc.repo.get j c.state.store ≡ err not_found) (sym new.has_id) fresh)
                kept)
              (IsNew-IsSound now id p inv new) h
      ]

  update-Replaces :
      (c : Config S P) (old inv x : Invoice) (s : S)
      → IsSafe svc Good c
      → svc.repo.get inv.id c.state.store ≡ ok old
      → SameTerms old inv
      → SameTerms inv x
      → s ≡ (svc.repo.update x c.state.store).1
      → Replaces svc Good c.state.store s x
  update-Replaces c old inv x s h there same terms e =
      let at_x : svc.repo.get x.id c.state.store ≡ ok old =
        subst (λ j. svc.repo.get j c.state.store ≡ ok old) (sym terms.id) there in
      let kept = SameTerms-trans old inv x same terms in
      subst (λ s'. Replaces svc Good c.state.store s' x) (sym e)
        (record {
          good = laws.update_good x c.state.store h.good;
          new_one = (laws.update_get old x c.state.store h.good at_x kept).1;
          others = λ id other. laws.update_other x c.state.store id h.good other;
          older = λ old' there'. subst (λ v. SameTerms v x) (ok-injective (sym at_x ∙ there')) kept;
        })

  hold-IsSafe :
      (c : Config S P) (st : State S P) (inv : Invoice)
      → IsSafe svc Good (record { state = st; held = c.held })
      → IsVersion svc st.store inv
      → IsSafe svc Good (record { state = st; held = inv ∷ c.held })
  hold-IsSafe c st inv h v = record { good = h.good; stored = h.stored; held = (v, h.held) }

  fetch-IsSafe :
      (c : Config S P) (id : Str) (inv : Invoice)
      → svc.repo.get id c.state.store ≡ ok inv
      → IsSafe svc Good c
      → IsSafe svc Good (record c { held = inv ∷ c.held })
  fetch-IsSafe c id inv e h =
      let ids = laws.get_id id c.state.store inv h.good e in
      hold-IsSafe c c.state inv h (
        h.stored id inv e,
        (inv, subst (λ j. svc.repo.get j c.state.store ≡ ok inv) (sym ids) e, SameTerms-refl inv),
      )

  concluded-IsSafe :
      (c : Config S P) (w : W) (now : Time) (inv : Invoice) (obs : Observation) (st : State S P)
      → IsVersion svc c.state.store inv
      → is_terminal inv.status ≡ false
      → st.store ≡ (svc.repo.update (advance inv obs now) c.state.store).1
      → IsSafe svc Good c
      → IsSafe svc Good (record { state = st; held = advance inv obs now ∷ c.held })
  concluded-IsSafe c w now inv obs st (sound, (old, there, same)) live e h =
      let terms = advance-SameTerms inv obs now in
      let r = update-Replaces c old inv (advance inv obs now) st.store h there same terms e in
      let sound' = advance-IsSound inv obs now sound live in
      hold-IsSafe c st (advance inv obs now) (replace-IsSafe svc Good c st _ r sound' h)
        (sound', (advance inv obs now, r.new_one, SameTerms-refl _))

  sync-IsSafe :
      (c : Config S P) (w : W) (now : Time) (inv : Invoice)
      → Elem inv c.held
      → IsSafe svc Good c
      → IsSafe svc Good (record {
        state = (sync svc w now inv c.state).state;
        held = (sync svc w now inv c.state).invoice ∷ c.held;
      })
  sync-IsSafe c w now inv e h =
      let v = All-Elem (IsVersion svc c.state.store) inv c.held h.held e in
      elim (sync-cases svc w now inv c.state) [
        | inr (same, kept, quiet) ↦ rw (same, kept) (hold-IsSafe c c.state inv h v)
        | inl (obs, seen, ends) ↦
            rw (ends, conclude-invoice svc inv obs now c.state)
              (concluded-IsSafe c w now inv obs _ v seen.still_open
                (conclude-store svc inv obs now c.state) h)
      ]

  count-IsSafe :
      (c : Config S P) (merchant : Str)
      → IsSafe svc Good c
      → IsSafe svc Good (record c { state = record c.state { store = counted merchant c } })
  unfolding counted
  count-IsSafe c merchant h =
      frame-IsSafe svc Good c (record c.state { store = counted merchant c })
        (laws.index_good merchant c.state.store h.good)
        (λ j. laws.index_get merchant j c.state.store h.good) h

  save-IsSafe :
      (c : Config S P) (now : Time) (id : Str) (p : CreateParams) (inv : Invoice)
      → IsNew now id p inv
      → svc.repo.get id c.state.store ≡ err not_found
      → IsSafe svc Good c
      → IsSafe svc Good
          (record c { state = record c.state { store = (svc.repo.create inv c.state.store).1 } })
  save-IsSafe c now id p inv new fresh h =
      let st : State S P = record c.state { store = (svc.repo.create inv c.state.store).1 } in
      let fresh' =
        subst (λ j. svc.repo.get j c.state.store ≡ err not_found) (sym new.has_id) fresh in
      let r : Replaces svc Good c.state.store st.store inv = record {
        good = laws.create_good inv c.state.store h.good fresh';
        new_one = (laws.create_get inv c.state.store h.good fresh').1;
        others = λ j other. laws.create_other inv c.state.store j h.good other;
        older = λ old there. absurd (cc (sym fresh' ∙ there));
      } in
      replace-IsSafe svc Good c st inv r (IsNew-IsSound now id p inv new) h

  Step-IsSafe : {c d : Config S P} → Step svc c d → IsSafe svc Good c → IsSafe svc Good d
  unfolding counted
  Step-IsSafe {c} (create_step now id p fresh) h = create-IsSafe c now id p fresh h
  Step-IsSafe {c} (count_step merchant) h = count-IsSafe c merchant h
  Step-IsSafe {c} (save_step a target p amount rate id now given fresh) h =
      save-IsSafe c now id p _ (new_invoice-IsNew svc a target now id p amount rate given) fresh h
  Step-IsSafe {c} (fetch_step id inv e) h = fetch-IsSafe c id inv e h
  Step-IsSafe {c} (sync_step w now inv e) h = sync-IsSafe c w now inv e h

  -- However creations, whole or in their two steps, fetches and syncs interleave, stale copies
  -- included: from a safe
  -- configuration only safe ones are reached, in which every stored invoice, and every copy, has
  -- a time of payment exactly if it is settled, and if it is settled shows at least the
  -- requested amount and the required confirmations.
  pub Reach-IsSafe : {c d : Config S P} → IsSafe svc Good c → Reach svc c d → IsSafe svc Good d
  Reach-IsSafe h here = h
  Reach-IsSafe h (next r step) = Step-IsSafe step (Reach-IsSafe h r)
