-- ===== src/Store/Issued.antt =====
-- internal/invoice/service.go over internal/store/sqlite.go: `Create` over the two repositories.
use vex_pay.Common.{
  ℕ, ◌≡◌, refl, ap, sym, ◌∙◌, inl, inr, Bool, not, ◌&&◌, Option, none, Bool-cases, Option-cases,
  Error, Result-cases, ok, err, derive_failed,
}
use vex_pay.Common.Int.{ℤ}
use vex_pay.Common.Text.{Str, is_empty}
use vex_pay.Common.Dict.{Dict, get}
use vex_pay.Common.Act.{◌>>=◌}
use vex_pay.Money.{Asset, Amount, is_zero_amount}
use vex_pay.Chain.{Adapter, Registry, ReceiveTarget, find_adapter}
use vex_pay.Invoice.{Time}
use vex_pay.Invoice.Memory.{MemRepository, mem_next_derivation_index, mem_repository}
use vex_pay.Invoice.Service.{
  Service, State, Pricer, CreateParams, new_invoice, resolve_amount, issue, create,
}
use vex_pay.Store.Rows.{Codec}
use vex_pay.Store.RoundTrip.{CodecLaws, IsStorable}
use vex_pay.Store.Sqlite.{Database, sql_next_derivation_index, sql_repository}
use vex_pay.Store.Agrees.{create-Agree, index-Agree}
use vex_pay.Store.Behind.{over, Alike}

mem_index :
    (merchant : Str) (m : MemRepository)
    → (idx : ℕ) × ((mem_next_derivation_index merchant m).0 ≡ ok idx)
unfolding mem_next_derivation_index
mem_index merchant m = (_, refl)

mem_index_by_id :
    (merchant : Str) (m : MemRepository) → (mem_next_derivation_index merchant m).1.by_id ≡ m.by_id
unfolding mem_next_derivation_index
mem_index_by_id merchant m = refl

module _ {S P W : Type 0} (svc : Service S P W) (adapter : Adapter W) (now : Time) (id : Str)
    (p : CreateParams) (priced : Amount × Str) (idx : ℕ) where
  issue-underived :
      (e : Error) (st : State S P)
      → (svc.repo.next_derivation_index p.merchant_id st.store).0 ≡ ok idx
      → adapter.derive_receive_target p.wallet idx priced.0 ≡ err e
      → issue svc adapter now id p priced st ≡ (
        err derive_failed,
        record st { store = (svc.repo.next_derivation_index p.merchant_id st.store).1 },
      )
  unfolding issue
  issue-underived e st counted failed = rw (counted, failed, ◌>>=◌) refl

  issue-derived :
      (target : ReceiveTarget) (st : State S P)
      → (svc.repo.next_derivation_index p.merchant_id st.store).0 ≡ ok idx
      → adapter.derive_receive_target p.wallet idx priced.0 ≡ ok target
      → issue svc adapter now id p priced st ≡ (
          let inv = new_invoice adapter target p priced.0 priced.1 id now svc.expiry in
          let stored =
            svc.repo.create inv (svc.repo.next_derivation_index p.merchant_id st.store).1 in
          (elim stored.0 [ ok _ ↦ ok inv | err e ↦ err e ], record st { store = stored.1 }))
  unfolding issue
  issue-derived target st counted derives =
      let inv = new_invoice adapter target p priced.0 priced.1 id now svc.expiry in
      elim (Result-cases
        (svc.repo.create inv (svc.repo.next_derivation_index p.merchant_id st.store).1).0) [
          | inl (e, failed) ↦ rw (counted, derives, failed, ◌>>=◌) refl
          | inr (_, fine) ↦ rw (counted, derives, fine, ◌>>=◌) refl
        ]

module _ (codec : Codec) (Canonical : Dict Str → Type 0) (laws : CodecLaws codec Canonical) where
  module _ {P W : Type 0} (registry : Registry W) (emitter : Bool) (pricer : Option (Pricer P))
      (expiry : ℤ) where
    -- the same for the end of `Create`
    issue-Alike :
        (adapter : Adapter W) (now : Time) (id : Str) (p : CreateParams) (priced : Amount × Str)
        (st : State MemRepository P) (st' : State Database P)
        → Alike codec Canonical laws st st'
        → get st.store.by_id id ≡ none
        → ((index : ℕ) (target : ReceiveTarget)
            → adapter.derive_receive_target p.wallet index priced.0 ≡ ok target
            → IsStorable Canonical (new_invoice adapter target p priced.0 priced.1 id now expiry))
        → ((issue (over registry emitter pricer expiry mem_repository) adapter now id p priced st).0
            ≡ (issue
                (over registry emitter pricer expiry (sql_repository codec))
                adapter
                now
                id
                p
                priced
                st').0)
          × Alike codec Canonical laws
              (issue
                (over registry emitter pricer expiry mem_repository)
                adapter
                now
                id
                p
                priced
                st).1
              (issue
                (over registry emitter pricer expiry (sql_repository codec))
                adapter
                now
                id
                p
                priced
                st').1
    unfolding issue mem_repository sql_repository new_invoice
    issue-Alike adapter now id p priced st st' h fresh fits =
        let (same, agree) =
          index-Agree codec Canonical laws p.merchant_id st.store st'.store h.store in
        let (idx, counted) = mem_index p.merchant_id st.store in
        let counted' : (sql_next_derivation_index codec p.merchant_id st'.store).0 ≡ ok idx =
          sym same ∙ counted in
        elim (Result-cases (adapter.derive_receive_target p.wallet idx priced.0)) [
          | inl (e, failed) ↦
              let left =
                issue-underived (over registry emitter pricer expiry mem_repository) adapter now id
                  p priced idx e st counted failed in
              let right =
                issue-underived (over registry emitter pricer expiry (sql_repository codec)) adapter
                  now id p priced idx e st' counted' failed in
              rw (left, right)
                (refl, record { store = agree; prices = h.prices; events = h.events })
          | inr (target, derives) ↦
              let inv = new_invoice adapter target p priced.0 priced.1 id now expiry in
              let left =
                issue-derived (over registry emitter pricer expiry mem_repository) adapter now id p
                  priced idx target st counted derives in
              let right =
                issue-derived (over registry emitter pricer expiry (sql_repository codec)) adapter
                  now id p priced idx target st' counted' derives in
              let (same', agree') =
                create-Agree codec Canonical laws inv
                  (mem_next_derivation_index p.merchant_id st.store).1
                  (sql_next_derivation_index codec p.merchant_id st'.store).1 agree
                  (
                    ap (λ m. get m id) (mem_index_by_id p.merchant_id st.store) ∙ fresh,
                    fits idx target derives,
                  ) in
              rw (left, right)
                (
                  ap (λ r. elim r [ ok _ ↦ ok inv | err e ↦ err e ]) same',
                  record { store = agree'; prices = h.prices; events = h.events },
                )
        ]

    resolve-Alike :
        (asset : Asset) (p : CreateParams) (st : State MemRepository P) (st' : State Database P)
        → Alike codec Canonical laws st st'
        → ((resolve_amount (over registry emitter pricer expiry mem_repository) asset p st).0
            ≡ (resolve_amount
                (over registry emitter pricer expiry (sql_repository codec))
                asset
                p
                st').0)
          × Alike codec Canonical laws
              (resolve_amount (over registry emitter pricer expiry mem_repository) asset p st).1
              (resolve_amount
                (over registry emitter pricer expiry (sql_repository codec))
                asset
                p
                st').1
          × ((resolve_amount
                (over registry emitter pricer expiry mem_repository)
                asset
                p
                st).1.store
              ≡ st.store)
    unfolding resolve_amount
    resolve-Alike asset p st st' h = elim (Bool-cases (is_zero_amount p.amount)) [
      | inr given ↦ rw given (refl, h, refl)
      | inl not_given ↦
          elim (Bool-cases (not (is_empty p.fiat_currency) && not (is_empty p.fiat_amount))) [
            | inr neither ↦ rw (not_given, neither) (refl, h, refl)
            | inl fiat ↦ elim (Option-cases pricer) [
              | inl nobody ↦ rw (not_given, fiat, nobody) (refl, h, refl)
              | inr (asked, there) ↦
                  rw (not_given, fiat, there)
                    (
                      ap (λ c. (asked.crypto_amount asset p.fiat_currency p.fiat_amount c).0)
                          h.prices,
                      record {
                        store = h.store;
                        prices =
                            ap (λ c. (asked.crypto_amount asset p.fiat_currency p.fiat_amount c).1)
                              h.prices;
                        events = h.events;
                      },
                      refl,
                    )
            ]
          ]
    ]

    -- `Create` answers the same over SQLite as over the repository in memory, and the stores agree
    -- again, if the new id is free and the new invoice is one that the columns keep.
    pub create-Alike :
        (now : Time) (id : Str) (p : CreateParams) (st : State MemRepository P)
        (st' : State Database P)
        → Alike codec Canonical laws st st'
        → get st.store.by_id id ≡ none
        → ((adapter : Adapter W) (priced : Amount × Str) (index : ℕ) (target : ReceiveTarget)
            → find_adapter registry p.chain ≡ ok adapter
            → (resolve_amount
                (over registry emitter pricer expiry mem_repository)
                adapter.asset
                p
                st).0
              ≡ ok priced
            → adapter.derive_receive_target p.wallet index priced.0 ≡ ok target
            → IsStorable Canonical (new_invoice adapter target p priced.0 priced.1 id now expiry))
        → ((create (over registry emitter pricer expiry mem_repository) now id p st).0
            ≡ (create (over registry emitter pricer expiry (sql_repository codec)) now id p st').0)
          × Alike codec Canonical laws
              (create (over registry emitter pricer expiry mem_repository) now id p st).1
              (create (over registry emitter pricer expiry (sql_repository codec)) now id p st').1
    unfolding create
    create-Alike now id p st st' h fresh fits = elim (Bool-cases (is_empty p.merchant_id)) [
      | inl missing ↦ rw missing (refl, h)
      | inr given ↦ elim (Result-cases (find_adapter registry p.chain)) [
        | inl (e, unknown) ↦ rw (given, unknown) (refl, h)
        | inr (adapter, known) ↦
            let (same, alike, kept) = resolve-Alike adapter.asset p st st' h in
            let priced_mem =
              resolve_amount (over registry emitter pricer expiry mem_repository) adapter.asset p
                st in
            let priced_sql =
              resolve_amount (over registry emitter pricer expiry (sql_repository codec))
                adapter.asset p st' in
            elim (Result-cases priced_mem.0) [
              | inl (e, unpriced) ↦
                  let unpriced' : priced_sql.0 ≡ err e = sym same ∙ unpriced in
                  rw (given, known, unpriced, unpriced', ◌>>=◌) (refl, alike)
              | inr (priced, resolves) ↦
                  let resolves' : priced_sql.0 ≡ ok priced = sym same ∙ resolves in
                  rw (given, known, resolves, resolves', ◌>>=◌)
                    (issue-Alike adapter now id p priced priced_mem.1 priced_sql.1 alike
                      (ap (λ m. get m.by_id id) kept ∙ fresh)
                      (λ index target derives.
                        fits adapter priced index target known resolves derives))
            ]
      ]
    ]
