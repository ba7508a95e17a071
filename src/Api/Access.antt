-- ===== src/Api/Access.antt =====
-- internal/api: whose invoices the simulator can change, and the bounds of what a query asks for.
use vex_pay.Common.{
  ◌≡◌, refl, ap, subst, ◌∙◌, ◌⊎◌, inl, inr, true, some, not, ◌||◌, arith, Bool-cases, Option-cases,
  Result-cases, ok,
}
use vex_pay.Common.Int.{ℤ, pos, ◌≤ℤ◌}
use vex_pay.Common.Text.{Str, codes, str_eq, str_eq_iff, is_empty}
use vex_pay.Common.Text.Prefix.{contains, trim_prefix}
use vex_pay.Money.{Amount}
use vex_pay.Chain.Mock.{chain_id, pay}
use vex_pay.Auth.{Principal}
use vex_pay.Invoice.{Invoice}
use vex_pay.Invoice.Service.{get_invoice, sync}
use vex_pay.Api.{
  HttpRequest, Response, is_not_found, SandboxPayRequest, Deps, Site, Moment, query_int, clamp_size,
}
use vex_pay.Api.Invoices.{Found, missing, found, find_invoice, list_limit}
use vex_pay.Api.Sandbox.{
  paid_confirmations, paid_hash, paid_amount, pay_and_sync, simulate, pay_request, pay_invoice,
  pay_at, handle_sandbox_pay,
}

found-injective : {a b : Invoice} → found a ≡ found b → a ≡ b
found-injective h = cc

Found-cases :
    (f : Found)
    → ((response : Response) × (f ≡ missing response)) ⊎ ((inv : Invoice) × (f ≡ found inv))
Found-cases (missing response) = inl (response, refl)
Found-cases (found inv) = inr (inv, refl)

module _ {S P W : Type 0} (deps : Deps S P W) where
  -- the ledger after the payment that a request asks for, to the address of a stored invoice of the
  -- caller's, and the state that one `Sync` of that invoice over this ledger leaves
  pub record IsPaidFor (moment : Moment) (p : Principal) (r : HttpRequest) (site site' : Site S P W)
      : Type 0 where
    pub id : Str
    pub inv : Invoice
    pub req : SandboxPayRequest
    pub amount : Amount
    pub stored : deps.invoices.repo.get id site.state.store ≡ ok inv
    pub own : inv.merchant_id ≡ p.merchant_id
    pub sandbox_key : p.sandbox ≡ true
    pub on_sandbox : inv.chain ≡ chain_id
    pub asked : pay_request deps r ≡ some req
    pub reads : paid_amount inv req ≡ ok amount
    pub paid :
        site'.world
        ≡ deps.in_ledger
            (pay inv.receive_address amount (paid_confirmations inv req) (paid_hash inv req))
            site.world
    pub synced : site'.state ≡ (sync deps.invoices site'.world moment.now inv site.state).state

  pub data Changes (moment : Moment) (p : Principal) (r : HttpRequest) (site : Site S P W)
      (out : Response × Site S P W) : Type 0 where
    nothing_changes : out.1 ≡ site → Changes moment p r site out
    one_payment : IsPaidFor moment p r site out.1 → Changes moment p r site out

  find_invoice-found :
      (p : Principal) (id : Str) (site : Site S P W) (inv : Invoice)
      → find_invoice deps p id site ≡ found inv
      → (deps.invoices.repo.get id site.state.store ≡ ok inv) × (inv.merchant_id ≡ p.merchant_id)
  unfolding find_invoice get_invoice
  find_invoice-found p id site inv h =
      elim (Result-cases (deps.invoices.repo.get id site.state.store)) [
        | inl (e, failed) ↦ elim (Bool-cases (is_not_found e)) [
          | inl gone ↦ absurd (cc (rw (failed, gone, find_invoice) at h))
          | inr broken ↦ absurd (cc (rw (failed, broken, find_invoice) at h))
        ]
        | inr (x, there) ↦ elim (Bool-cases (str_eq x.merchant_id p.merchant_id)) [
          | inr other ↦ absurd (cc (rw (there, other, find_invoice) at h))
          | inl own ↦
              let same : x ≡ inv = found-injective (rw (there, own, find_invoice) at h) in
              (
                there ∙ ap ok same,
                subst (λ y. y.merchant_id ≡ p.merchant_id) same
                    ((str_eq_iff x.merchant_id p.merchant_id).0 own),
              )
        ]
      ]

  pay_and_sync-Changes :
      (moment : Moment) (p : Principal) (r : HttpRequest) (id : Str) (inv : Invoice)
      (req : SandboxPayRequest) (amount : Amount) (site : Site S P W)
      → deps.invoices.repo.get id site.state.store ≡ ok inv
      → inv.merchant_id ≡ p.merchant_id
      → p.sandbox ≡ true
      → inv.chain ≡ chain_id
      → pay_request deps r ≡ some req
      → paid_amount inv req ≡ ok amount
      → Changes moment p r site (pay_and_sync deps moment inv req amount site)
  unfolding pay_and_sync
  pay_and_sync-Changes moment p r id inv req amount site stored own sandbox on_chain asks reads =
      let world =
        deps.in_ledger
          (pay inv.receive_address amount (paid_confirmations inv req) (paid_hash inv req))
          site.world in
      let site' : Site S P W = record {
        state = (sync deps.invoices world moment.now inv site.state).state;
        world = world;
      } in
      let effect : IsPaidFor moment p r site site' = record {
        id = id;
        inv = inv;
        req = req;
        amount = amount;
        stored = stored;
        own = own;
        sandbox_key = sandbox;
        on_sandbox = on_chain;
        asked = asks;
        reads = reads;
        paid = refl;
        synced = refl;
      } in
      elim (Result-cases (sync deps.invoices world moment.now inv site.state).result) [
        | inl (e, failed) ↦ rw (failed, pay_and_sync) (one_payment effect)
        | inr (changed, done) ↦ rw (done, pay_and_sync) (one_payment effect)
      ]

  pay_invoice-Changes :
      (moment : Moment) (p : Principal) (r : HttpRequest) (id : Str) (inv : Invoice)
      (site : Site S P W)
      → deps.invoices.repo.get id site.state.store ≡ ok inv
      → inv.merchant_id ≡ p.merchant_id
      → p.sandbox ≡ true
      → Changes moment p r site (pay_invoice deps moment r inv site)
  unfolding pay_invoice simulate pay_and_sync
  pay_invoice-Changes moment p r id inv site stored own sandbox =
      elim (Bool-cases (str_eq inv.chain chain_id)) [
        | inr elsewhere ↦ rw (elsewhere, pay_invoice) (nothing_changes refl)
        | inl on_chain ↦ elim (Option-cases (pay_request deps r)) [
          | inl bad ↦ rw (on_chain, bad, pay_invoice) (nothing_changes refl)
          | inr (req, asks) ↦ elim (Result-cases (paid_amount inv req)) [
            | inl (e, unread) ↦
                rw (on_chain, asks, pay_invoice, unread, simulate) (nothing_changes refl)
            | inr (amount, reads) ↦
                rw (on_chain, asks, pay_invoice, reads, simulate)
                  (pay_and_sync-Changes moment p r id inv req amount site stored own sandbox
                    ((str_eq_iff inv.chain chain_id).0 on_chain) asks reads)
          ]
        ]
      ]

  pay_at-Changes :
      (moment : Moment) (p : Principal) (r : HttpRequest) (id : Str) (site : Site S P W)
      → p.sandbox ≡ true
      → Changes moment p r site (pay_at deps moment p r id site)
  unfolding pay_at
  pay_at-Changes moment p r id site sandbox = elim (Bool-cases (is_empty id || contains b'/' id)) [
    | inl unnamed ↦ rw (unnamed, pay_at) (nothing_changes refl)
    | inr named ↦ elim (Found-cases (find_invoice deps p id site)) [
      | inl (response, nobody) ↦ rw (named, nobody, pay_at) (nothing_changes refl)
      | inr (inv, finds) ↦
          let (stored, own) = find_invoice-found p id site inv finds in
          rw (named, finds, pay_at) (pay_invoice-Changes moment p r id inv site stored own sandbox)
    ]
  ]

  -- The simulator changes nothing; or it makes in the ledger the one payment that the request asks
  -- for, to the address of a stored invoice of the caller's on the sandbox chain, and changes in the
  -- state what one `Sync` of that invoice over this ledger changes, and that only for a caller with
  -- a sandbox key.
  pub handle_sandbox_pay-Changes :
      (moment : Moment) (p : Principal) (r : HttpRequest) (site : Site S P W)
      → Changes moment p r site (handle_sandbox_pay deps moment p r site)
  unfolding handle_sandbox_pay pay_at
  handle_sandbox_pay-Changes moment p r site =
      let id = trim_prefix (codes "/v1/sandbox/pay/") r.path in
      elim (Bool-cases (str_eq r.method (codes "POST"))) [
        | inr other ↦ rw (other, handle_sandbox_pay) (nothing_changes refl)
        | inl posts ↦ elim (Bool-cases (not p.sandbox)) [
          | inl live ↦ rw (posts, live, handle_sandbox_pay) (nothing_changes refl)
          | inr sandbox ↦
              rw (posts, sandbox, handle_sandbox_pay)
                (pay_at-Changes moment p r id site (ground (arith, sandbox)))
        ]
      ]

-- The page size and the size of a picture stay in their ranges whatever the query says.
pub list_limit-clamp_size :
    (r : HttpRequest) (size : ℤ)
    → ((pos 0 ≤ℤ list_limit r) × (list_limit r ≤ℤ pos 100))
      × ((pos 64 ≤ℤ clamp_size size) × (clamp_size size ≤ℤ pos 1024))
unfolding list_limit query_int clamp_size
list_limit-clamp_size r size = ground arith
