-- ===== src/Invoice/Memory/Listing.antt =====
-- What the two lists of the repository in memory hold, and in which order.
use vex_pay.Common.{
  ◌≡◌, refl, ◌↔◌, ◌⊎◌, inl, inr, Bool, true, false, not, none, some, List, [], ◌∷◌, arith,
  if◌then◌else◌, Bool-cases, ok,
}
use vex_pay.Common.Text.{Str, str_eq_iff, str_eq_refl, str_eq_comm}
use vex_pay.Common.Dict.{Dict, get}
use vex_pay.Invoice.{Invoice, is_terminal}
use vex_pay.Invoice.Memory.{MemRepository, mem_get, select, mem_list_open}
use vex_pay.Invoice.Memory.Laws.{Indexed, keys, IsConsistent}

-- `x` is in the list
abbrev pub Elem : Invoice → List Invoice → Type 0
Elem x [] = ⊥
Elem x (y ∷ ys) = (x ≡ y) ⊎ Elem x ys

abbrev values : Dict Invoice → List Invoice
values [] = []
values ((_, v) ∷ m) = v ∷ values m

filter_by : (Invoice → Bool) → List Invoice → List Invoice
filter_by keep [] = []
filter_by keep (x ∷ xs) = let rest = filter_by keep xs in if keep x then x ∷ rest else rest

abbrev Found : Dict Invoice → Dict Invoice → Type 0
Found all [] = Unit {0}
Found all ((k, v) ∷ m) = (get all k ≡ some v) × Found all m

Found-cons :
    (k : Str) (v : Invoice) (all m : Dict Invoice)
    → get m k ≡ none
    → Found all m
    → Found ((k, v) ∷ all) m
unfolding get
Found-cons k v all [] e h = tt
Found-cons k v all ((j, w) ∷ m) e h =
    (ground (arith, str_eq_comm k j), Found-cons k v all m (ground arith) h.1)

Found-self : (m : Dict Invoice) → Indexed m → Found m m
unfolding get
Found-self [] h = tt
Found-self ((k, v) ∷ m) h =
    (ground (arith, str_eq_refl k), Found-cons k v m m h.1 (Found-self m h.2))

select-keys :
    (keep : Invoice → Bool) (all m : Dict Invoice)
    → Found all m
    → select keep all (keys m) ≡ filter_by keep (values m)
unfolding select filter_by
select-keys keep all [] h = refl
select-keys keep all ((k, v) ∷ m) h = rw (h.0, select, select-keys keep all m h.1)

Elem-filter_by :
    (keep : Invoice → Bool) (x : Invoice) (xs : List Invoice)
    → Elem x (filter_by keep xs) ↔ (Elem x xs × (keep x ≡ true))
unfolding filter_by
Elem-filter_by keep x [] = ground arith
Elem-filter_by keep x (y ∷ ys) = elim (Bool-cases (keep y)) [
  | inl kept ↦ rw kept (ground (arith, Elem-filter_by keep x ys))
  | inr dropped ↦ rw dropped (ground (arith, Elem-filter_by keep x ys))
]

Elem-values :
    (m : Dict Invoice) (x : Invoice) → Indexed m → Elem x (values m) ↔ (get m x.id ≡ some x)
unfolding get
Elem-values [] x h = ground arith
Elem-values ((k, v) ∷ m) x h = ground (arith, str_eq_iff k x.id, Elem-values m x h.2)

select-consistent :
    (keep : Invoice → Bool) (r : MemRepository)
    → IsConsistent r
    → select keep r.by_id r.order ≡ filter_by keep (values r.by_id)
select-consistent keep r h =
    rw h.ordered (select-keys keep r.by_id r.by_id (Found-self r.by_id h.indexed))

pub Elem-select :
    (keep : Invoice → Bool) (r : MemRepository) (x : Invoice)
    → IsConsistent r
    → Elem x (select keep r.by_id r.order) ↔ ((mem_get x.id r ≡ ok x) × (keep x ≡ true))
unfolding mem_get
Elem-select keep r x h =
    rw (select-consistent keep r h)
      (ground (arith, Elem-filter_by keep x (values r.by_id), Elem-values r.by_id x h.indexed))

-- `ListOpen` returns exactly the stored invoices whose status is not terminal.
pub mem_list_open-exact :
    (r : MemRepository) (x : Invoice) (open_invoices : List Invoice)
    → IsConsistent r
    → mem_list_open r ≡ ok open_invoices
    → Elem x open_invoices ↔ ((mem_get x.id r ≡ ok x) × (is_terminal x.status ≡ false))
unfolding mem_list_open
mem_list_open-exact r x open_invoices h e =
    ground (arith, Elem-select (λ (inv : Invoice). not (is_terminal inv.status)) r x h)
