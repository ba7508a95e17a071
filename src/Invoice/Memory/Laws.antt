-- ===== src/Invoice/Memory/Laws.antt =====
-- internal/invoice/memrepo.go as an instance of the repository interface.
use vex_pay.Common.{
  ◌≡◌, refl, sym, ◌∙◌, inl, inr, false, none, some, List, [], ◌∷◌, ◌++◌, arith, if◌then◌else◌,
  Bool-cases, Option-cases, ok, err, not_found,
}
use vex_pay.Common.Text.{Str, str_eq, str_eq_iff, str_eq_comm, str_eq_refl}
use vex_pay.Common.Dict.{Dict, get, put, get-put, get-put_ne}
use vex_pay.Invoice.{Invoice}
use vex_pay.Invoice.Repository.{RepositoryLaws}
use vex_pay.Invoice.Memory.{
  MemRepository, new_mem_repository, mem_create, mem_get, mem_update, mem_next_derivation_index,
  mem_repository,
}

-- every entry stands under the invoice's own id, and once
abbrev pub Indexed : Dict Invoice → Type 0
Indexed [] = Unit {0}
Indexed ((k, inv) ∷ m) = (inv.id ≡ k) × (get m k ≡ none) × Indexed m

abbrev pub keys : Dict Invoice → List Str
keys [] = []
keys ((k, _) ∷ m) = k ∷ keys m

-- `order` lists the ids of the map, each once
pub record IsConsistent (r : MemRepository) : Type 0 where
  pub indexed : Indexed r.by_id
  pub ordered : r.order ≡ keys r.by_id

get-Indexed :
    (m : Dict Invoice) (id : Str) (inv : Invoice) → Indexed m → get m id ≡ some inv → inv.id ≡ id
unfolding get
get-Indexed [] id inv h e = cc
get-Indexed ((k, v) ∷ m) id inv h e = ground (arith, str_eq_iff k id, get-Indexed m id inv h.2)

keys-put_new :
    (m : Dict Invoice) (k : Str) (inv : Invoice)
    → get m k ≡ none
    → keys (put m k inv) ≡ keys m ++ k ∷ []
unfolding get put
keys-put_new [] k inv e = refl
keys-put_new ((j, v) ∷ m) k inv e = ground (arith, keys-put_new m k inv)

keys-put_old :
    (m : Dict Invoice) (k : Str) (inv old : Invoice)
    → get m k ≡ some old
    → keys (put m k inv) ≡ keys m
unfolding get put
keys-put_old [] k inv old e = cc
keys-put_old ((j, v) ∷ m) k inv old e = ground (arith, str_eq_iff j k, keys-put_old m k inv old)

put-Indexed : (m : Dict Invoice) (inv : Invoice) → Indexed m → Indexed (put m inv.id inv)
unfolding get put
put-Indexed [] inv h = (refl, refl, tt)
put-Indexed ((j, v) ∷ m) inv h = elim (Bool-cases (str_eq j inv.id)) [
  | inl e ↦ rw e (refl, (rw ((str_eq_iff j inv.id).0 e) at h.1), h.2)
  | inr n ↦
      rw n (h.0, get-put_ne m inv.id j inv (str_eq_comm inv.id j ∙ n) ∙ h.1, put-Indexed m inv h.2)
]

new-IsConsistent : IsConsistent new_mem_repository
new-IsConsistent = record { indexed = tt; ordered = refl }

-- Each method keeps the map and the order of insertion in step: a new invoice that is not there
-- yet, a new version of one that may be there, and a counter.
pub mem_create-IsConsistent :
    (inv : Invoice) (r : MemRepository)
    → IsConsistent r
    → mem_get inv.id r ≡ err not_found
    → IsConsistent (mem_create inv r).1
unfolding mem_create mem_get
mem_create-IsConsistent inv r h fresh = record {
  indexed = put-Indexed r.by_id inv h.indexed;
  ordered = rw (h.ordered) (sym (keys-put_new r.by_id inv.id inv (ground arith)));
}

pub mem_update-IsConsistent :
    (inv : Invoice) (r : MemRepository) → IsConsistent r → IsConsistent (mem_update inv r).1
unfolding mem_update
mem_update-IsConsistent inv r h = elim (Option-cases (get r.by_id inv.id)) [
  | inl absent ↦ rw absent h
  | inr (old, there) ↦ rw there (record {
    indexed = put-Indexed r.by_id inv h.indexed;
    ordered = h.ordered ∙ sym (keys-put_old r.by_id inv.id inv old there);
  })
]

mem_index-IsConsistent :
    (merchant : Str) (r : MemRepository)
    → IsConsistent r
    → IsConsistent (mem_next_derivation_index merchant r).1
unfolding mem_next_derivation_index
mem_index-IsConsistent merchant r h = record { indexed = h.indexed; ordered = h.ordered }

mem_get-some :
    (id : Str) (r : MemRepository) (inv : Invoice)
    → mem_get id r ≡ ok inv
    → get r.by_id id ≡ some inv
unfolding mem_get
mem_get-some id r inv h = ground arith

pub mem_get-create :
    (inv : Invoice) (r : MemRepository) (id : Str)
    → mem_get id (mem_create inv r).1 ≡ (if str_eq inv.id id then ok inv else mem_get id r)
unfolding mem_get mem_create
mem_get-create inv r id = ground (arith, get-put r.by_id inv.id id inv)

mem_create-ok : (inv : Invoice) (r : MemRepository) → (mem_create inv r).0 ≡ ok tt
unfolding mem_create
mem_create-ok inv r = refl

pub mem_get-update :
    (inv old : Invoice) (r : MemRepository) (id : Str)
    → mem_get inv.id r ≡ ok old
    → ((mem_update inv r).0 ≡ ok tt)
      × (mem_get id (mem_update inv r).1 ≡ (if str_eq inv.id id then ok inv else mem_get id r))
unfolding mem_get mem_update
mem_get-update inv old r id e = ground (arith, get-put r.by_id inv.id id inv)

pub mem_update-missing :
    (inv : Invoice) (r : MemRepository)
    → mem_get inv.id r ≡ err not_found
    → mem_update inv r ≡ (err not_found, r)
unfolding mem_get mem_update
mem_update-missing inv r e = ground arith

mem_update_other :
    (inv : Invoice) (r : MemRepository) (id : Str)
    → str_eq inv.id id ≡ false
    → mem_get id (mem_update inv r).1 ≡ mem_get id r
unfolding mem_get mem_update
mem_update_other inv r id n = ground (arith, get-put r.by_id inv.id id inv)

mem_get-index :
    (merchant id : Str) (r : MemRepository)
    → mem_get id (mem_next_derivation_index merchant r).1 ≡ mem_get id r
unfolding mem_get mem_next_derivation_index
mem_get-index merchant id r = refl

-- The repository in memory keeps the promises of `Repository`: what `Create` or `Update` was given
-- last is what `Get` returns, other invoices and the counters apart; an update of an invoice that
-- is not there is `ErrNotFound` and changes nothing.
pub mem_laws : RepositoryLaws mem_repository IsConsistent
unfolding mem_repository
mem_laws = record {
  create_get = λ inv s h fresh.
      (mem_create-ok inv s, ground (arith, mem_get-create inv s inv.id, str_eq_refl inv.id));
  create_other = λ inv s id h n. ground (arith, mem_get-create inv s id);
  create_good = mem_create-IsConsistent;
  get_id = λ id s inv h e. get-Indexed s.by_id id inv h.indexed (mem_get-some id s inv e);
  update_get =
      λ old inv s h e same. ground (arith, mem_get-update inv old s inv.id e, str_eq_refl inv.id);
  update_other = λ inv s id h n. mem_update_other inv s id n;
  update_missing = λ inv s h e. mem_update-missing inv s e;
  update_good = mem_update-IsConsistent;
  index_get = λ merchant id s h. mem_get-index merchant id s;
  index_good = mem_index-IsConsistent;
}
