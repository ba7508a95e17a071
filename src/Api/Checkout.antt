-- ===== src/Api/Checkout.antt =====
-- internal/invoice/service.go and internal/api/sandbox.go: an invoice from its creation to its payment
-- in the simulator.
use vex_pay.Common.{
  ◌≡◌, ap, sym, subst, ◌∙◌, inl, inr, true, false, ok, err, not_found, ok-injective,
}
use vex_pay.Common.Int.{ℤ}
use vex_pay.Common.Text.{Str}
use vex_pay.Money.{is_zero_amount}
use vex_pay.Chain.Mock.{Ledger, chain_id}
use vex_pay.Auth.{Principal}
use vex_pay.Invoice.{Invoice, Time, paid, is_terminal}
use vex_pay.Invoice.Repository.{RepositoryLaws, SameTerms}
use vex_pay.Invoice.Lifecycle.{advance-SameTerms}
use vex_pay.Invoice.Service.{Service, State, CreateParams, create, advance}
use vex_pay.Invoice.Service.Create.{IsNew, create-Created}
use vex_pay.Api.{HttpRequest, Deps, Site, Moment}
use vex_pay.Api.Sandbox.{handle_sandbox_pay}
use vex_pay.Api.Settles.{HasSandbox, IsPayable, IsPayRequest, in_full, handle_sandbox_pay-Settled}

module _ {S P W : Type 0} (svc : Service S P W) (Good : S → Type 0)
    (laws : RepositoryLaws svc.repo Good) where
  -- an invoice that is stored as it was made
  pub record IsIssued (now : Time) (id : Str) (params : CreateParams) (inv : Invoice)
      (st : State S P) : Type 0 where
    pub new : IsNew now id params inv
    pub stored : svc.repo.get inv.id st.store ≡ ok inv
    pub good : Good st.store

  create-IsIssued :
      (now : Time) (id : Str) (params : CreateParams) (st : State S P) (inv : Invoice)
      → Good st.store
      → svc.repo.get id st.store ≡ err not_found
      → (create svc now id params st).0 ≡ ok inv
      → IsIssued now id params inv (create svc now id params st).1
  create-IsIssued now id params st inv good fresh made =
      elim (create-Created svc now id params st).1 [
        | inl (e, failed, left) ↦ absurd (cc (failed, made))
        | inr (new, is_new, stores, answers) ↦
            let counted = (svc.repo.next_derivation_index params.merchant_id st.store).1 in
            let good1 = laws.index_good params.merchant_id st.store good in
            let fresh1 : svc.repo.get new.id counted ≡ err not_found =
              laws.index_get params.merchant_id new.id st.store good
              ∙ ap (λ j. svc.repo.get j st.store) is_new.has_id
              ∙ fresh in
            let (fine, there) = laws.create_get new counted good1 fresh1 in
            let same : new ≡ inv = ok-injective (sym (answers fine) ∙ made) in
            let good2 = laws.create_good new counted good1 fresh1 in
            record {
              new = subst (IsNew now id params) same is_new;
              stored =
                  ap (svc.repo.get inv.id) stores
                  ∙ subst (λ x. svc.repo.get x.id (svc.repo.create new counted).1 ≡ ok x) same
                      there;
              good = subst Good (sym stores) good2;
            }
      ]

module _ {S P W : Type 0} (deps : Deps S P W) (ledger : W → Ledger) (required : ℤ)
    (Good : S → Type 0) (laws : RepositoryLaws deps.invoices.repo Good) where
  -- An invoice of some amount that `Create` made on the sandbox chain for the merchant of a sandbox key is,
  -- after one request to the simulator without a body, stored as paid in full with its terms as they
  -- were, however late the request is, over any repository that keeps the laws.
  pub create-Settled :
      (now : Time) (id : Str) (params : CreateParams) (st : State S P) (world : W) (inv : Invoice)
      (moment : Moment) (p : Principal) (r : HttpRequest)
      → HasSandbox deps ledger required
      → Good st.store
      → deps.invoices.repo.get id st.store ≡ err not_found
      → (create deps.invoices now id params st).0 ≡ ok inv
      → params.chain ≡ chain_id
      → params.merchant_id ≡ p.merchant_id
      → p.sandbox ≡ true
      → is_zero_amount inv.amount ≡ false
      → IsPayRequest deps ledger required inv r
      → (inv' : Invoice) × (deps.invoices.repo.get inv.id
            (handle_sandbox_pay deps moment p r (record {
              state = (create deps.invoices now id params st).1;
              world = world;
            })).1.state.store
          ≡ ok inv')
        × SameTerms inv inv'
        × (inv'.status ≡ paid)
        × (inv'.received ≡ inv.amount)
  unfolding is_terminal
  create-Settled now id params st world inv moment p r sandbox good fresh made on_chain own
        sandbox_key nonzero request =
      let issued = create-IsIssued deps.invoices Good laws now id params st inv good fresh made in
      let site : Site S P W = record {
        state = (create deps.invoices now id params st).1;
        world = world;
      } in
      let payable : IsPayable deps ledger required p inv site = record {
        stored = issued.stored;
        own = issued.new.merchant ∙ own;
        sandbox_key = sandbox_key;
        on_sandbox = issued.new.chain ∙ on_chain;
        waits = ap is_terminal issued.new.waiting;
        nonzero = nonzero;
      } in
      let terms = advance-SameTerms inv (in_full inv) moment.now in
      let saved =
        laws.update_get inv (advance inv (in_full inv) moment.now) site.state.store issued.good
          (ap (λ j. deps.invoices.repo.get j site.state.store) terms.id ∙ issued.stored) terms in
      let (inv', answer, same, status, received, stores) =
        handle_sandbox_pay-Settled deps ledger required moment p r inv site sandbox payable request
          saved.0 in
      let kept =
        laws.update_get inv inv' site.state.store issued.good
          (ap (λ j. deps.invoices.repo.get j site.state.store) same.id ∙ issued.stored) same in
      (
        inv',
        ap (deps.invoices.repo.get inv.id) stores
            ∙ subst
                (λ j.
                  deps.invoices.repo.get j (deps.invoices.repo.update inv' site.state.store).1
                  ≡ ok inv')
                same.id kept.1,
        same,
        status,
        received,
      )
