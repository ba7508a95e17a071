-- ===== src/Invoice/Memory/Merchant.antt =====
-- The listing of a merchant's invoices in the repository in memory.
use vex_pay.Common.{
  ℕ, zero, suc, ◌≤◌, ◌<◌, ◌≡◌, refl, sym, ◌↔◌, ◌⊎◌, inl, inr, List, [], ◌∷◌, arith, ltb,
  if◌then◌else◌, Bool-cases, ok, length, take, drop, All,
}
use vex_pay.Common.Int.{pos, ltb_ℤ, ◌≤ℤ◌}
use vex_pay.Common.Text.{Str, str_eq, str_eq_iff}
use vex_pay.Invoice.{Invoice}
use vex_pay.Invoice.Memory.{
  MemRepository, mem_get, select, insert_newest, newest_first, page, mem_list_by_merchant,
}
use vex_pay.Invoice.Memory.Laws.{IsConsistent}
use vex_pay.Invoice.Memory.Listing.{Elem, Elem-select}

-- no invoice stands in front of a newer one
abbrev pub IsNewestFirst : List Invoice → Type 0
IsNewestFirst [] = Unit {0}
IsNewestFirst (x ∷ xs) = All (λ y. y.created_at ≤ℤ x.created_at) xs × IsNewestFirst xs

All-insert_newest :
    (P : Invoice → Type 0) (x : Invoice) (xs : List Invoice)
    → P x
    → All P xs
    → All P (insert_newest x xs)
unfolding insert_newest
All-insert_newest P x [] px h = (px, tt)
All-insert_newest P x (y ∷ ys) px h = elim (Bool-cases (ltb_ℤ x.created_at y.created_at)) [
  | inl older ↦ rw older (h.0, All-insert_newest P x ys px h.1)
  | inr newer ↦ rw newer (px, h)
]

All-older :
    (x y : Invoice) (ys : List Invoice)
    → y.created_at ≤ℤ x.created_at
    → All (λ z. z.created_at ≤ℤ y.created_at) ys
    → All (λ z. z.created_at ≤ℤ x.created_at) ys
All-older x y [] l h = tt
All-older x y (z ∷ ys) l h = (omega arith, All-older x y ys l h.1)

insert_newest-IsNewestFirst :
    (x : Invoice) (xs : List Invoice) → IsNewestFirst xs → IsNewestFirst (insert_newest x xs)
unfolding insert_newest
insert_newest-IsNewestFirst x [] h = (tt, tt)
insert_newest-IsNewestFirst x (y ∷ ys) h = elim (Bool-cases (ltb_ℤ x.created_at y.created_at)) [
  | inl older ↦ rw older (
    All-insert_newest (λ z. z.created_at ≤ℤ y.created_at) x ys (ground arith) h.0,
    insert_newest-IsNewestFirst x ys h.1,
  )
  | inr newer ↦ rw newer ((ground arith, All-older x y ys (ground arith) h.0), h)
]

newest_first-IsNewestFirst : (xs : List Invoice) → IsNewestFirst (newest_first xs)
unfolding newest_first
newest_first-IsNewestFirst [] = tt
newest_first-IsNewestFirst (x ∷ xs) =
    insert_newest-IsNewestFirst x (newest_first xs) (newest_first-IsNewestFirst xs)

Elem-insert_newest :
    (z x : Invoice) (xs : List Invoice) → Elem z (insert_newest x xs) ↔ ((z ≡ x) ⊎ Elem z xs)
unfolding insert_newest
Elem-insert_newest z x [] = ground arith
Elem-insert_newest z x (y ∷ ys) = elim (Bool-cases (ltb_ℤ x.created_at y.created_at)) [
  | inl older ↦ rw older (ground (arith, Elem-insert_newest z x ys))
  | inr newer ↦ rw newer (ground arith)
]

Elem-newest_first : (z : Invoice) (xs : List Invoice) → Elem z (newest_first xs) ↔ Elem z xs
unfolding newest_first
Elem-newest_first z [] = ground arith
Elem-newest_first z (x ∷ xs) =
    ground (arith, Elem-newest_first z xs, Elem-insert_newest z x (newest_first xs))

drop-length : (n : ℕ) (xs : List Invoice) → length xs ≤ n → drop n xs ≡ drop (length xs) xs
drop-length zero [] l = refl
drop-length zero (x ∷ xs) l = elim l [ ]
drop-length (suc n) [] l = refl
drop-length (suc n) (x ∷ xs) l = drop-length n xs (omega arith)

take-length : (n : ℕ) (xs : List Invoice) → length xs ≤ n → take n xs ≡ xs
take-length zero [] l = refl
take-length zero (x ∷ xs) l = elim l [ ]
take-length (suc n) [] l = refl
take-length (suc n) (x ∷ xs) l = rw (take-length n xs (omega arith))

-- an offset past the end is moved to the end, which drops as much
drop_clamped :
    (offset : ℕ) (all : List Invoice)
    → drop (if ltb (length all) offset then length all else offset) all ≡ drop offset all
drop_clamped offset all = elim (Bool-cases (ltb (length all) offset)) [
  | inl past ↦ rw past (sym (drop-length offset all (ground arith)))
  | inr inside ↦ rw inside refl
]

page-take-drop :
    (limit offset : ℕ) (all : List Invoice)
    → 0 < limit
    → page (pos limit) (pos offset) all ≡ ok (take limit (drop offset all))
unfolding page
page-take-drop limit offset all h =
    rw (drop_clamped offset all) (ground (arith, take-length limit (drop offset all)))

-- The listing of a merchant: there is one list, newest first, that holds exactly the merchant's
-- stored invoices and no other merchant's, and every page with a positive limit is the part of it
-- of that length behind the offset (shorter or empty at the end).
pub mem_list_by_merchant-exact :
    (r : MemRepository) (merchant : Str)
    → IsConsistent r
    → (mine : List Invoice) × IsNewestFirst mine
      × ((x : Invoice) → Elem x mine ↔ ((mem_get x.id r ≡ ok x) × (x.merchant_id ≡ merchant)))
      × ((limit offset : ℕ)
          → 0 < limit
          → mem_list_by_merchant merchant (pos limit) (pos offset) r
            ≡ ok (take limit (drop offset mine)))
unfolding mem_list_by_merchant
mem_list_by_merchant-exact r merchant h =
    let all = select (λ inv. str_eq inv.merchant_id merchant) r.by_id r.order in
    (
      newest_first all,
      newest_first-IsNewestFirst all,
      λ x.
          (ground (
            arith,
            Elem-select (λ (inv : Invoice). str_eq inv.merchant_id merchant) r x h,
            Elem-newest_first x all,
            str_eq_iff x.merchant_id merchant,
          )),
      λ limit offset l. page-take-drop limit offset (newest_first all) l,
    )
