-- ===== src/Invoice/Service/Outcome.antt =====
-- `Create`, branch by branch: when each is taken, what it answers and what it leaves.
use vex_pay.Common.{
  ℕ, ◌≡◌, refl, inl, inr, true, false, none, [], arith, Bool-cases, Result-cases, Result, Error, ok,
  err, merchant_required, derive_failed,
}
use vex_pay.Common.Int.{ℤ, pos, ◌+ℤ◌}
use vex_pay.Common.Text.{Str, is_empty}
use vex_pay.Common.Act.{◌>>=◌}
use vex_pay.Money.{Amount, zero_amount}
use vex_pay.Chain.{Adapter, ReceiveTarget, find_adapter}
use vex_pay.Invoice.{Invoice, Time, pending}
use vex_pay.Invoice.Service.{
  Service, State, CreateParams, new_invoice, resolve_amount, issue, create,
}
use vex_pay.Invoice.Service.Pricing.{IsPriced, resolve-IsPriced}

-- an invoice that waits for its first payment to `target`
pub record IsIssuedFor {W : Type 0} (a : Adapter W) (target : ReceiveTarget) (p : CreateParams)
    (priced : Amount × Str) (id : Str) (now : Time) (expiry : ℤ) (inv : Invoice) : Type 0 where
  pub has_id : inv.id ≡ id
  pub merchant : inv.merchant_id ≡ p.merchant_id
  pub chain : inv.chain ≡ p.chain
  pub asset : inv.asset ≡ a.asset
  pub amount : inv.amount ≡ priced.0
  pub fiat : (inv.fiat_currency ≡ p.fiat_currency) × (inv.fiat_amount ≡ p.fiat_amount)
  pub locked_rate : is_empty priced.1 ≡ false → inv.rate ≡ priced.1
  pub given_rate : is_empty priced.1 ≡ true → inv.rate ≡ p.rate
  pub address : inv.receive_address ≡ target.address
  pub uri : inv.payment_uri ≡ a.payment_uri target
  pub strategy : inv.strategy ≡ target.strategy
  pub index : inv.derivation_index ≡ target.derivation_index
  pub waits : inv.status ≡ pending
  pub nothing_received : inv.received ≡ zero_amount a.asset
  pub no_depth : inv.confirmations ≡ pos 0
  pub no_transaction : inv.tx_hash ≡ []
  pub unpaid : inv.paid_at ≡ none
  pub depth : inv.required_confs ≡ a.required_confirmations
  pub metadata : inv.metadata ≡ p.metadata
  pub times : (inv.created_at ≡ now) × (inv.updated_at ≡ now) × (inv.expires_at ≡ now +ℤ expiry)

-- what `Create` answers when the repository has answered `saved`: the invoice, or that error
pub data IsAnswer (inv : Invoice) : Result (Unit {0}) → Result Invoice → Type 0 where
  kept : IsAnswer inv (ok tt) (ok inv)
  refused : (e : Error) → IsAnswer inv (err e) (err e)

module _ {S P W : Type 0} (svc : Service S P W) where
  -- the merchant is named, the chain is known, and the price comes to `priced`
  pub record IsAdmitted (p : CreateParams) (st : State S P) (a : Adapter W)
      (priced : Result (Amount × Str)) (st1 : State S P) : Type 0 where
    pub merchant : is_empty p.merchant_id ≡ false
    pub known : find_adapter svc.registry p.chain ≡ ok a
    pub price : IsPriced svc a.asset p st priced st1

  -- the answer of `NextDerivationIndex`, and the store behind it
  abbrev pub counted : CreateParams → State S P → Result ℕ × S
  counted p st1 = svc.repo.next_derivation_index p.merchant_id st1.store

  -- how `Create` may end, with what it answers and the state that it leaves
  pub data Outcome (now : Time) (id : Str) (p : CreateParams) (st : State S P)
      (out : Result Invoice × State S P) : Type 0 where
    no_merchant :
        is_empty p.merchant_id ≡ true → out ≡ (err merchant_required, st) → Outcome now id p st out
    no_chain :
        (e : Error)
        → is_empty p.merchant_id ≡ false
        → find_adapter svc.registry p.chain ≡ err e
        → out ≡ (err e, st)
        → Outcome now id p st out
    unpriced :
        (a : Adapter W) (e : Error) (st1 : State S P)
        → IsAdmitted p st a (err e) st1
        → out ≡ (err e, st1)
        → Outcome now id p st out
    uncounted :
        (a : Adapter W) (priced : Amount × Str) (st1 : State S P) (e : Error)
        → IsAdmitted p st a (ok priced) st1
        → (counted p st1).0 ≡ err e
        → out ≡ (err e, record st1 { store = (counted p st1).1 })
        → Outcome now id p st out
    underived :
        (a : Adapter W) (priced : Amount × Str) (st1 : State S P) (idx : ℕ) (e : Error)
        → IsAdmitted p st a (ok priced) st1
        → (counted p st1).0 ≡ ok idx
        → a.derive_receive_target p.wallet idx priced.0 ≡ err e
        → out ≡ (err derive_failed, record st1 { store = (counted p st1).1 })
        → Outcome now id p st out
    handed_over :
        (a : Adapter W) (priced : Amount × Str) (st1 : State S P) (idx : ℕ) (target : ReceiveTarget)
        (inv : Invoice) (saved : Result (Unit {0}))
        → IsAdmitted p st a (ok priced) st1
        → (counted p st1).0 ≡ ok idx
        → a.derive_receive_target p.wallet idx priced.0 ≡ ok target
        → IsIssuedFor a target p priced id now svc.expiry inv
        → (svc.repo.create inv (counted p st1).1).0 ≡ saved
        → IsAnswer inv saved out.0
        → out.1 ≡ record st1 { store = (svc.repo.create inv (counted p st1).1).1 }
        → Outcome now id p st out

  new_invoice-IsIssuedFor :
      (a : Adapter W) (target : ReceiveTarget) (p : CreateParams) (priced : Amount × Str) (id : Str)
      (now : Time)
      → IsIssuedFor a target p priced id now svc.expiry
          (new_invoice a target p priced.0 priced.1 id now svc.expiry)
  unfolding new_invoice
  new_invoice-IsIssuedFor a target p priced id now = ground arith

  issue-Outcome :
      (a : Adapter W) (now : Time) (id : Str) (p : CreateParams) (priced : Amount × Str)
      (st st1 : State S P)
      → IsAdmitted p st a (ok priced) st1
      → Outcome now id p st (issue svc a now id p priced st1)
  unfolding issue
  issue-Outcome a now id p priced st st1 admitted = elim (Result-cases (counted p st1).0) [
    | inl (e, failed) ↦ rw (failed, ◌>>=◌) (uncounted a priced st1 e admitted failed refl)
    | inr (idx, counts) ↦ elim (Result-cases (a.derive_receive_target p.wallet idx priced.0)) [
      | inl (e, failed) ↦
          rw (counts, failed, ◌>>=◌) (underived a priced st1 idx e admitted counts failed refl)
      | inr (target, derives) ↦
          let inv = new_invoice a target p priced.0 priced.1 id now svc.expiry in
          let new = new_invoice-IsIssuedFor a target p priced id now in
          elim (Result-cases (svc.repo.create inv (counted p st1).1).0) [
            | inl (e, failed) ↦
                rw (counts, derives, failed, ◌>>=◌)
                  (handed_over a priced st1 idx target inv (err e) admitted counts derives new
                    failed (refused e) refl)
            | inr (_, stored) ↦
                rw (counts, derives, stored, ◌>>=◌)
                  (handed_over a priced st1 idx target inv (ok tt) admitted counts derives new
                    stored kept refl)
          ]
    ]
  ]

  -- What `Create` answers and leaves, on every branch and with the condition of the branch. It
  -- refuses a missing merchant, an unknown chain and a price that comes to nothing (a wrong asset, an
  -- amount that is not positive, no pricer or its failure, no price at all) with the store as it
  -- was; when the repository has no index or the adapter no address, what counting left is left;
  -- else the new invoice has been handed to the repository, and is returned exactly if the
  -- repository took it, whose error is returned otherwise.
  pub create-Outcome :
      (now : Time) (id : Str) (p : CreateParams) (st : State S P)
      → Outcome now id p st (create svc now id p st)
  unfolding create
  create-Outcome now id p st = elim (Bool-cases (is_empty p.merchant_id)) [
    | inl missing ↦ rw missing (no_merchant missing refl)
    | inr given ↦ elim (Result-cases (find_adapter svc.registry p.chain)) [
      | inl (e, unknown) ↦ rw (given, unknown) (no_chain e given unknown refl)
      | inr (a, known) ↦
          let st1 = (resolve_amount svc a.asset p st).1 in
          elim (Result-cases (resolve_amount svc a.asset p st).0) [
            | inl (e, fails) ↦
                rw (given, known, fails, ◌>>=◌)
                  (unpriced a e st1
                    (record {
                      merchant = given;
                      known = known;
                      price = rw fails at (resolve-IsPriced svc a.asset p st);
                    })
                    refl)
            | inr (priced, resolves) ↦
                rw (given, known, resolves, ◌>>=◌)
                  (issue-Outcome a now id p priced st st1 (record {
                    merchant = given;
                    known = known;
                    price = rw resolves at (resolve-IsPriced svc a.asset p st);
                  }))
          ]
    ]
  ]
