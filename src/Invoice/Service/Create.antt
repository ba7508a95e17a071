-- ===== src/Invoice/Service/Create.antt =====
-- What `Create` returns, stores and leaves alone, on every branch.
use vex_pay.Common.{
  ◌≡◌, refl, ◌⊎◌, inl, inr, false, none, arith, Bool-cases, Result-cases, Result, Error, ok, err,
  derive_failed,
}
use vex_pay.Common.Text.{Str, is_empty}
use vex_pay.Common.Act.{◌>>=◌}
use vex_pay.Money.{Asset, Amount}
use vex_pay.Chain.{Adapter, ReceiveTarget, find_adapter}
use vex_pay.Invoice.{Invoice, Time, pending}
use vex_pay.Invoice.Service.{
  Service, State, CreateParams, new_invoice, resolve_amount, issue, create,
}

-- an invoice that `Create` has just built
pub record IsNew (now : Time) (id : Str) (p : CreateParams) (inv : Invoice) : Type 0 where
  pub has_id : inv.id ≡ id
  pub merchant : inv.merchant_id ≡ p.merchant_id
  pub merchant_given : is_empty p.merchant_id ≡ false
  pub chain : inv.chain ≡ p.chain
  pub waiting : inv.status ≡ pending
  pub unpaid : inv.paid_at ≡ none
  pub created : inv.created_at ≡ now

module _ {S P W : Type 0} (svc : Service S P W) where
  -- what may come out: a failure, with the store as it was or with one derivation index used up;
  -- or a new invoice that is handed to the repository, and returned unless the repository fails
  abbrev pub Created : Time → Str → CreateParams → State S P → Result Invoice × State S P → Type 0
  Created now id p st out =
      (out.1.events ≡ st.events)
      × (((e : Error) × (out.0 ≡ err e)
            × ((out.1.store ≡ st.store)
                ⊎ (out.1.store ≡ (svc.repo.next_derivation_index p.merchant_id st.store).1)))
          ⊎ ((inv : Invoice) × IsNew now id p inv
              × (out.1.store
                  ≡ (svc.repo.create inv
                      (svc.repo.next_derivation_index p.merchant_id st.store).1).1)
              × ((svc.repo.create inv (svc.repo.next_derivation_index p.merchant_id st.store).1).0
                    ≡ ok tt
                  → out.0 ≡ ok inv)))

  resolve-frame :
      (asset : Asset) (p : CreateParams) (st : State S P)
      → ((resolve_amount svc asset p st).1.store ≡ st.store)
        × ((resolve_amount svc asset p st).1.events ≡ st.events)
  unfolding resolve_amount
  resolve-frame asset p st = ground arith

  pub new_invoice-IsNew :
      (a : Adapter W) (t : ReceiveTarget) (now : Time) (id : Str) (p : CreateParams)
      (amount : Amount) (rate : Str)
      → is_empty p.merchant_id ≡ false
      → IsNew now id p (new_invoice a t p amount rate id now svc.expiry)
  unfolding new_invoice
  new_invoice-IsNew a t now id p amount rate given = record {
    has_id = refl;
    merchant = refl;
    merchant_given = given;
    chain = refl;
    waiting = refl;
    unpaid = refl;
    created = refl;
  }

  issue-Created :
      (a : Adapter W) (now : Time) (id : Str) (p : CreateParams) (priced : Amount × Str)
      (st : State S P)
      → is_empty p.merchant_id ≡ false
      → Created now id p st (issue svc a now id p priced st)
  unfolding issue
  issue-Created a now id p priced st given =
      let counted = svc.repo.next_derivation_index p.merchant_id st.store in
      elim (Result-cases counted.0) [
        | inl (e, failed) ↦ rw (failed, ◌>>=◌) (refl, inl (e, refl, inr refl))
        | inr (idx, counts) ↦ elim (Result-cases (a.derive_receive_target p.wallet idx priced.0)) [
          | inl (e, failed) ↦ rw (counts, failed, ◌>>=◌) (refl, inl (derive_failed, refl, inr refl))
          | inr (target, derives) ↦
              let inv = new_invoice a target p priced.0 priced.1 id now svc.expiry in
              elim (Result-cases (svc.repo.create inv counted.1).0) [
                | inl (e, failed) ↦
                    rw (counts, derives, failed, ◌>>=◌)
                      (
                        refl,
                        inr (
                          inv,
                          new_invoice-IsNew a target now id p priced.0 priced.1 given,
                          refl,
                          λ h. cc,
                        ),
                      )
                | inr (_, stored) ↦
                    rw (counts, derives, stored, ◌>>=◌)
                      (
                        refl,
                        inr (
                          inv,
                          new_invoice-IsNew a target now id p priced.0 priced.1 given,
                          refl,
                          λ h. refl,
                        ),
                      )
              ]
        ]
      ]

  Created-same :
      (now : Time) (id : Str) (p : CreateParams) (st st' : State S P)
      (out : Result Invoice × State S P)
      → st'.store ≡ st.store
      → st'.events ≡ st.events
      → Created now id p st' out
      → Created now id p st out
  Created-same now id p st st' out stores events h = rw (← stores, ← events) h

  -- Whatever `Create` is given, it emits nothing, and it either fails with nothing stored (it may
  -- have used up one derivation index), or stores a new pending invoice of the merchant under the
  -- new id, which it returns unless the repository fails.
  pub create-Created :
      (now : Time) (id : Str) (p : CreateParams) (st : State S P)
      → Created now id p st (create svc now id p st)
  unfolding create
  create-Created now id p st = elim (Bool-cases (is_empty p.merchant_id)) [
    | inl missing ↦ rw missing (refl, inl (_, refl, inl refl))
    | inr given ↦ elim (Result-cases (find_adapter svc.registry p.chain)) [
      | inl (e, unknown) ↦ rw (given, unknown) (refl, inl (e, refl, inl refl))
      | inr (a, known) ↦ elim (Result-cases (resolve_amount svc a.asset p st).0) [
        | inl (e, unpriced) ↦
            rw (given, known, unpriced, ◌>>=◌)
              ((resolve-frame a.asset p st).1, inl (e, refl, inl (resolve-frame a.asset p st).0))
        | inr (priced, resolves) ↦
            rw (given, known, resolves, ◌>>=◌)
              (Created-same now id p st (resolve_amount svc a.asset p st).1
                (issue svc a now id p priced (resolve_amount svc a.asset p st).1)
                (resolve-frame a.asset p st).0 (resolve-frame a.asset p st).1
                (issue-Created a now id p priced (resolve_amount svc a.asset p st).1 given))
      ]
    ]
  ]
