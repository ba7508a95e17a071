-- ===== src/Store/Keyed.antt =====
-- Lists of invoices with different ids: what stands in the table of internal/store/sqlite.go.
use vex_pay.Common.{
  ◌≡◌, refl, ap, ◌↔◌, inl, inr, false, Option, none, some, List, [], ◌∷◌, ◌++◌, if◌then◌else◌,
  arith, Bool-cases, All,
}
use mathlib.Core.Option
use vex_pay.Common.Text.{Str, str_eq, str_eq_iff, str_eq_refl, str_eq_comm}
use vex_pay.Invoice.{Invoice}
use vex_pay.Invoice.Memory.Listing.{Elem}

-- the invoice with an id
abbrev pub invoice_at : List Invoice → Str → Option Invoice
invoice_at [] id = none
invoice_at (inv ∷ invs) id = if str_eq inv.id id then some inv else invoice_at invs id

-- the later of two versions of an invoice in its place
abbrev pub replace : Invoice → List Invoice → List Invoice
replace new [] = []
replace new (inv ∷ invs) =
    if str_eq inv.id new.id then new ∷ replace new invs else inv ∷ replace new invs

-- no two invoices share an id
abbrev pub IsKeyed : List Invoice → Type 0
IsKeyed [] = Unit {0}
IsKeyed (inv ∷ invs) = (invoice_at invs inv.id ≡ none) × IsKeyed invs

pub Elem-invoice_at :
    (invs : List Invoice) (x : Invoice)
    → IsKeyed invs
    → Elem x invs ↔ (invoice_at invs x.id ≡ some x)
Elem-invoice_at [] x h = ground arith
Elem-invoice_at (inv ∷ invs) x h =
    ground (arith, str_eq_iff inv.id x.id, str_eq_refl x.id, Elem-invoice_at invs x h.1)

invoice_at-append :
    (invs : List Invoice) (new : Invoice) (id : Str)
    → invoice_at (invs ++ new ∷ []) id ≡ elim (invoice_at invs id) [
      | some x ↦ some x
      | none ↦ if str_eq new.id id then some new else none
    ]
invoice_at-append [] new id = ground arith
invoice_at-append (inv ∷ invs) new id = ground (arith, invoice_at-append invs new id)

pub IsKeyed-append :
    (invs : List Invoice) (new : Invoice)
    → invoice_at invs new.id ≡ none
    → IsKeyed invs
    → IsKeyed (invs ++ new ∷ [])
IsKeyed-append [] new fresh h = (refl, tt)
IsKeyed-append (inv ∷ invs) new fresh h = (
  ground (arith, invoice_at-append invs new inv.id, str_eq_comm inv.id new.id),
  IsKeyed-append invs new (ground arith) h.1,
)

invoice_at-replace :
    (invs : List Invoice) (new : Invoice) (id : Str)
    → invoice_at (replace new invs) id ≡ (
        if str_eq new.id id then Option.map (λ x. new) (invoice_at invs id) else invoice_at invs id)
invoice_at-replace [] new id = ground arith
invoice_at-replace (inv ∷ invs) new id = ground (
  arith,
  invoice_at-replace invs new id,
  str_eq_iff inv.id new.id,
  str_eq_iff inv.id id,
  str_eq_iff new.id id,
)

pub IsKeyed-replace :
    (invs : List Invoice) (new : Invoice) → IsKeyed invs → IsKeyed (replace new invs)
IsKeyed-replace [] new h = tt
IsKeyed-replace (inv ∷ invs) new h = elim (Bool-cases (str_eq inv.id new.id)) [
  | inl same ↦ rw same (
    ground (arith, invoice_at-replace invs new new.id, str_eq_iff inv.id new.id),
    IsKeyed-replace invs new h.1,
  )
  | inr other ↦
      rw other (ground (arith, invoice_at-replace invs new inv.id), IsKeyed-replace invs new h.1)
]

pub absent_others :
    (invs : List Invoice) (id : Str)
    → invoice_at invs id ≡ none
    → All (λ x. str_eq x.id id ≡ false) invs
absent_others [] id h = tt
absent_others (inv ∷ invs) id h = (ground arith, absent_others invs id (ground arith))

pub replace_absent :
    (invs : List Invoice) (new : Invoice)
    → All (λ x. str_eq x.id new.id ≡ false) invs
    → replace new invs ≡ invs
replace_absent [] new h = refl
replace_absent (inv ∷ invs) new (here, later) =
    rw here (ap (λ r. inv ∷ r) (replace_absent invs new later))
