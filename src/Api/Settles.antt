-- ===== src/Api/Settles.antt =====
-- The simulator from the request to the settled invoice: the handler, the ledger, the adapter, `Sync`
-- and the repository together.
use vex_pay.Common.{◌≡◌, some, refl, ap, ◌∙◌, sym, true, false, ◌++◌, arith, ok}
use vex_pay.Common.Int.{ℤ, pos, same}
use vex_pay.Common.Text.{codes, str_eq, str_eq_refl, is_empty, str_eq_iff}
use vex_pay.Common.Text.Prefix.{trim_prefix, cut_prefix-append, contains}
use vex_pay.Money.{Amount, cmp, is_zero_amount}
use vex_pay.Chain.{Observation, find_adapter}
use vex_pay.Chain.Mock.{Ledger, mock_adapter, pay, chain_id}
use vex_pay.Chain.Laws.{mock_check-pay}
use vex_pay.Auth.{Principal}
use vex_pay.Invoice.{Invoice, Time, paid, is_terminal, decide}
use vex_pay.Invoice.Repository.{SameTerms}
use vex_pay.Invoice.View.{new_view}
use vex_pay.Invoice.Lifecycle.{IsCovered, decide_settled, advance-status, advance-SameTerms}
use vex_pay.Invoice.Service.{advance, target_of, get_invoice}
use vex_pay.Invoice.Service.Sync.{Observes, sync-Observes, conclude-saved}
use vex_pay.Api.{HttpRequest, Response, respond, view, Deps, Site, Moment}
use vex_pay.Api.Invoices.{find_invoice, found}
use vex_pay.Api.Sandbox.{
  no_request, paid_amount, paid_confirmations, paid_hash, pay_and_sync, simulate, pay_request,
  pay_invoice, pay_at, handle_sandbox_pay,
}

-- a payment of exactly what the invoice asks for
abbrev pub in_full : Invoice → Observation
in_full inv = record {
  seen = true;
  received = inv.amount;
  confirmations = inv.required_confs;
  tx_hash = codes "sbxtx_" ++ inv.id;
}

cmp_refl : (a : Amount) → cmp a a ≡ same
unfolding cmp
cmp_refl a = ground arith

decide-in_full :
    (inv : Invoice) (now : Time)
    → is_zero_amount inv.amount ≡ false
    → decide inv (in_full inv) now ≡ paid
decide-in_full inv now nonzero =
    let reaches = cmp_refl inv.amount in
    let covered : IsCovered inv (in_full inv) = record {
      seen = refl;
      nonzero = nonzero;
      enough = λ h. cc (sym reaches ∙ h);
    } in
    (decide_settled inv (in_full inv) now).0.1 (covered, omega arith, reaches)

advance-received :
    (inv : Invoice) (now : Time) → (advance inv (in_full inv) now).received ≡ inv.amount
unfolding advance
advance-received inv now = ground arith

module _ {S P W : Type 0} (deps : Deps S P W) (ledger : W → Ledger) (required : ℤ) where
  -- the sandbox chain is set up, and the ledger can be written
  pub record HasSandbox : Type 0 where
    pub known : find_adapter deps.invoices.registry chain_id ≡ ok (mock_adapter ledger required)
    pub writes : (f : Ledger → Ledger) (w : W) → ledger (deps.in_ledger f w) ≡ f (ledger w)

  -- a stored invoice of a sandbox merchant that waits for a payment on the sandbox chain
  pub record IsPayable (p : Principal) (inv : Invoice) (site : Site S P W) : Type 0 where
    pub stored : deps.invoices.repo.get inv.id site.state.store ≡ ok inv
    pub own : inv.merchant_id ≡ p.merchant_id
    pub sandbox_key : p.sandbox ≡ true
    pub on_sandbox : inv.chain ≡ chain_id
    pub waits : is_terminal inv.status ≡ false
    pub nonzero : is_zero_amount inv.amount ≡ false

  -- a request without a body to pay it
  pub record IsPayRequest (inv : Invoice) (r : HttpRequest) : Type 0 where
    pub method : r.method ≡ codes "POST"
    pub path : r.path ≡ codes "/v1/sandbox/pay/" ++ inv.id
    pub no_body : r.content_length ≡ pos 0
    pub named : is_empty inv.id ≡ false
    pub one_part : contains b'/' inv.id ≡ false

  -- the world behind the payment
  abbrev pub paid_world : Invoice → Site S P W → W
  paid_world inv site =
      deps.in_ledger
        (pay inv.receive_address inv.amount inv.required_confs (codes "sbxtx_" ++ inv.id))
        site.world

  Observes-payment :
      (p : Principal) (inv : Invoice) (site : Site S P W)
      → HasSandbox
      → IsPayable p inv site
      → Observes deps.invoices (paid_world inv site) inv (in_full inv)
  unfolding mock_adapter target_of
  Observes-payment p inv site sandbox payable = record {
    adapter = mock_adapter ledger required;
    still_open = payable.waits;
    known = rw payable.on_sandbox sandbox.known;
    shown = rw (sandbox.writes, mock_check-pay, str_eq_refl) refl;
  }

  path_id :
      (inv : Invoice) (r : HttpRequest)
      → IsPayRequest inv r
      → trim_prefix (codes "/v1/sandbox/pay/") r.path ≡ inv.id
  unfolding trim_prefix
  path_id inv r request =
      rw (request.path, cut_prefix-append (codes "/v1/sandbox/pay/") inv.id, trim_prefix) refl

  finds :
      (p : Principal) (inv : Invoice) (site : Site S P W)
      → IsPayable p inv site
      → find_invoice deps p inv.id site ≡ found inv
  unfolding find_invoice get_invoice
  finds p inv site payable =
      let own : str_eq inv.merchant_id p.merchant_id ≡ true =
        (str_eq_iff inv.merchant_id p.merchant_id).1 payable.own in
      rw (payable.stored, own, find_invoice) refl

  reach_payment :
      (moment : Moment) (p : Principal) (r : HttpRequest) (inv : Invoice) (site : Site S P W)
      → IsPayable p inv site
      → IsPayRequest inv r
      → handle_sandbox_pay deps moment p r site
        ≡ pay_and_sync deps moment inv no_request inv.amount site
  unfolding handle_sandbox_pay pay_at pay_invoice pay_request simulate paid_amount
  reach_payment moment p r inv site payable request =
      let posts : str_eq r.method (codes "POST") ≡ true =
        (str_eq_iff r.method (codes "POST")).1 request.method in
      let on_chain : str_eq inv.chain chain_id ≡ true =
        (str_eq_iff inv.chain chain_id).1 payable.on_sandbox in
      let asks : pay_request deps r ≡ some no_request = rw (request.no_body, pay_request) refl in
      rw
        (
          posts,
          path_id inv r request,
          finds p inv site payable,
          payable.sandbox_key,
          request.named,
          request.one_part,
          pay_invoice,
          on_chain,
          asks,
        )
        refl

  -- what the caller sees, and what is stored
  abbrev pub Settled : Invoice → Site S P W → Response × Site S P W → Type 0
  Settled inv site out =
      (inv' : Invoice) × (out.0 ≡ respond 200 (view (new_view inv')))
      × SameTerms inv inv'
      × (inv'.status ≡ paid)
      × (inv'.received ≡ inv.amount)
      × (out.1.state.store ≡ (deps.invoices.repo.update inv' site.state.store).1)

  -- A sandbox merchant who posts an empty body to the simulator for a waiting invoice of theirs on
  -- the sandbox chain gets the invoice back, its terms as they were and paid in full, at once and however late it is, and
  -- that is what the repository is told to store, provided that the repository succeeds.
  pub handle_sandbox_pay-Settled :
      (moment : Moment) (p : Principal) (r : HttpRequest) (inv : Invoice) (site : Site S P W)
      → HasSandbox
      → IsPayable p inv site
      → IsPayRequest inv r
      → (deps.invoices.repo.update (advance inv (in_full inv) moment.now) site.state.store).0
        ≡ ok tt
      → Settled inv site (handle_sandbox_pay deps moment p r site)
  unfolding pay_and_sync paid_confirmations paid_hash
  handle_sandbox_pay-Settled moment p r inv site sandbox payable request saved =
      let synced =
        sync-Observes deps.invoices (paid_world inv site) moment.now inv (in_full inv) site.state
          (Observes-payment p inv site sandbox payable)
        ∙ conclude-saved deps.invoices inv (in_full inv) moment.now site.state saved in
      rw
        (reach_payment moment p r inv site payable request, pay_and_sync, ap (λ s. s.result) synced)
        (
          advance inv (in_full inv) moment.now,
          ap (λ s. respond 200 (view (new_view s.invoice))) synced,
          advance-SameTerms inv (in_full inv) moment.now,
          advance-status inv (in_full inv) moment.now
              ∙ decide-in_full inv moment.now payable.nonzero,
          advance-received inv moment.now,
          ap (λ s. s.state.store) synced,
        )
