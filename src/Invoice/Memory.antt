-- ===== src/Invoice/Memory.antt =====
-- internal/invoice/memrepo.go: the repository in memory. The lock makes each method one step.
pub mod Laws
pub mod Listing
pub mod Merchant
pub mod Indices
use vex_pay.Common.{
  ℕ, ◌+◌, ◌%◌, ◌^◌, Bool, true, false, not, ◌&&◌, Option, none, some, List, [], ◌∷◌, ◌++◌, ltb, leb,
  if◌then◌else◌, is_some, length, take, drop, Error, Result, ok, err, not_found, slice_bounds,
  or_err,
}
use vex_pay.Common.Int.{ℤ, pos, negsuc, abs, ltb_ℤ}
use vex_pay.Common.Text.{Str, str_eq}
use vex_pay.Common.Dict.{Dict, get, put}
use vex_pay.Common.Act.{Act}
use vex_pay.Invoice.{Invoice, is_terminal}
use vex_pay.Invoice.Repository.{Repository}

pub record MemRepository : Type 0 where
  pub by_id : Dict Invoice
  pub seq : Dict ℕ
  pub order : List Str

abbrev pub new_mem_repository : MemRepository
new_mem_repository = record { by_id = []; seq = []; order = [] }

unfoldable pub mem_create : Invoice → Act MemRepository (Unit {0})
mem_create inv r =
    (ok tt, record r { by_id = put r.by_id inv.id inv; order = r.order ++ inv.id ∷ [] })

unfoldable pub mem_get : Str → MemRepository → Result Invoice
mem_get id r = or_err (get r.by_id id) not_found

unfoldable pub mem_update : Invoice → Act MemRepository (Unit {0})
mem_update inv r =
    if is_some (get r.by_id inv.id)
    then (ok tt, record r { by_id = put r.by_id inv.id inv })
    else (err not_found, r)

-- The loop over `order`. An id without an entry does not occur (`Memory.Laws`), so no clause
-- stands for the zero invoice that Go would read there.
unfoldable pub select : (Invoice → Bool) → Dict Invoice → List Str → List Invoice
select keep m [] = []
select keep m (id ∷ ids) =
    let rest = select keep m ids in
    elim (get m id) [ none ↦ rest | some inv ↦ if keep inv then inv ∷ rest else rest ]

unfoldable pub mem_list_open : MemRepository → Result (List Invoice)
unfolding select
mem_list_open r = ok (select (λ inv. not (is_terminal inv.status)) r.by_id r.order)

-- `sort.SliceStable`, newest first: `x` stays in front of those that are not newer
unfoldable pub insert_newest : Invoice → List Invoice → List Invoice
insert_newest x [] = x ∷ []
insert_newest x (y ∷ ys) =
    if ltb_ℤ x.created_at y.created_at then y ∷ insert_newest x ys else x ∷ y ∷ ys

unfoldable pub newest_first : List Invoice → List Invoice
unfolding insert_newest
newest_first [] = []
newest_first (x ∷ xs) = insert_newest x (newest_first xs)

-- the two slices; `all[offset:]` panics at a negative offset
unfoldable pub page : ℤ → ℤ → List Invoice → Result (List Invoice)
page limit (negsuc _) all = err slice_bounds
page limit (pos offset) all =
    let rest = drop (if ltb (length all) offset then length all else offset) all in
    let within = ltb_ℤ (pos 0) limit && ltb_ℤ limit (pos (length rest)) in
    ok (if within then take (abs limit) rest else rest)

unfoldable pub mem_list_by_merchant : Str → ℤ → ℤ → MemRepository → Result (List Invoice)
unfolding select page
mem_list_by_merchant merchant limit offset r =
    page limit offset
      (newest_first (select (λ inv. str_eq inv.merchant_id merchant) r.by_id r.order))

-- a missing counter reads as 0; the counter is a `uint32`
unfoldable pub mem_next_derivation_index : Str → Act MemRepository ℕ
mem_next_derivation_index merchant r =
    let idx : ℕ = elim (get r.seq merchant) [ none ↦ 0 | some n ↦ n ] in
    (ok idx, record r { seq = put r.seq merchant ((idx + 1) % 2 ^ 32) })

unfoldable pub mem_repository : Repository MemRepository
unfolding mem_create mem_get mem_update mem_list_open mem_list_by_merchant mem_next_derivation_index
mem_repository = record {
  create = mem_create;
  get = mem_get;
  update = mem_update;
  list_open = mem_list_open;
  list_by_merchant = mem_list_by_merchant;
  next_derivation_index = mem_next_derivation_index;
}
