-- ===== src/Store/Order.antt =====
-- internal/store/sqlite.go, `ORDER BY created_at DESC`: the order of the texts that `formatTime` writes,
-- against the order of the instants.
use vex_pay.Common.{
  zero, suc, take, ℕ, ◌+◌, ◌*◌, ◌^◌, ◌<◌, ◌≡◌, refl, ap, ◌∙◌, Bool, true, false, [], ◌∷◌, ◌++◌,
  arith, ok,
}
use vex_pay.Common.Int.{pos, ltb_ℤ}
use vex_pay.Common.Text.{Str, codes, str_eq, str_eq_refl}
use vex_pay.Chain.{str_ltb}
use vex_pay.Common.Dict.{Dict, get, put}
use vex_pay.Invoice.{Invoice}
use vex_pay.Invoice.Memory.{
  new_mem_repository, mem_create, mem_list_by_merchant, select, newest_first, insert_newest, page,
}
use vex_pay.Store.Rows.{Codec, Row, row_of, scan_invoices}
use vex_pay.Store.RoundTrip.{CodecLaws, IsStorable, scan_invoice-row_of}
use vex_pay.Store.Sqlite.{
  new_database, row_at, sql_create, filter_rows, insert_desc, order_desc, limit_offset, page_limit,
  sql_list_by_merchant,
}

-- RFC3339Nano in UTC: the seconds, then the nanoseconds without the zeros at their end and without
-- the point if there are none, then `Z`
pub record IsRfc3339Nano (codec : Codec) (second : ℕ → Str) : Type 0 where
  pub whole : (s : ℕ) → codec.time_text (pos (s * 10 ^ 9)) ≡ second s ++ codes "Z"
  pub part :
      (s n : ℕ)
      → 0 < n
      → n < 10 ^ 9
      → (digits : Str) × (codec.time_text (pos (s * 10 ^ 9 + n))
          ≡ second s ++ b'.' ∷ (digits ++ codes "Z"))

str_ltb-append : (p s t : Str) → str_ltb (p ++ s) (p ++ t) ≡ str_ltb s t
unfolding str_ltb
str_ltb-append [] s t = refl
str_ltb-append (c ∷ p) s t = ground (arith, str_ltb-append p s t)

point-before-zone : (s t : Str) → str_ltb (b'.' ∷ s) (b'Z' ∷ t) ≡ true
unfolding str_ltb
point-before-zone s t = ground arith

-- a later instant of the second has the lesser text
later-text :
    (codec : Codec) (second : ℕ → Str) (s n : ℕ)
    → IsRfc3339Nano codec second
    → 0 < n
    → n < 10 ^ 9
    → str_ltb (codec.time_text (pos (s * 10 ^ 9 + n))) (codec.time_text (pos (s * 10 ^ 9))) ≡ true
later-text codec second s n h more less =
    let (digits, text) = h.part s n more less in
    rw (text, h.whole s, str_ltb-append (second s) (b'.' ∷ (digits ++ codes "Z")) (codes "Z"))
      (point-before-zone (digits ++ codes "Z") [])

str_ltb-asymm : (s t : Str) → str_ltb s t ≡ true → str_ltb t s ≡ false
unfolding str_ltb
str_ltb-asymm [] [] h = ground arith
str_ltb-asymm [] (d ∷ t) h = refl
str_ltb-asymm (c ∷ s) [] h = ground arith
str_ltb-asymm (c ∷ s) (d ∷ t) h = ground (arith, str_ltb-asymm s t)

page_limit_pos : (n : ℕ) → page_limit (pos (suc (suc n))) ≡ pos (suc (suc n))
unfolding page_limit
page_limit_pos n = ground arith

ltb-later : (s n : ℕ) → 0 < n → ltb_ℤ (pos (s * 10 ^ 9)) (pos (s * 10 ^ 9 + n)) ≡ true
ltb-later s n h = ground arith

take_nil : (n : ℕ) → take {A = Row} n [] ≡ []
take_nil zero = refl
take_nil (suc n) = refl

filter_rows-two :
    (keep : Row → Bool) (a b : Row)
    → keep a ≡ true
    → keep b ≡ true
    → filter_rows keep (a ∷ b ∷ []) ≡ a ∷ b ∷ []
unfolding filter_rows
filter_rows-two keep a b ha hb = rw (ha, hb) refl

order_desc-two :
    (a b : Row) → str_ltb a.created_at b.created_at ≡ false → order_desc (a ∷ b ∷ []) ≡ a ∷ b ∷ []
unfolding order_desc insert_desc
order_desc-two a b h = rw h refl

select-two :
    (keep : Invoice → Bool) (a b : Invoice)
    → str_eq a.id b.id ≡ false
    → keep a ≡ true
    → keep b ≡ true
    → select keep ((a.id, a) ∷ (b.id, b) ∷ []) (a.id ∷ b.id ∷ []) ≡ a ∷ b ∷ []
unfolding select get
select-two keep a b other ha hb =
    rw (str_eq_refl a.id, str_eq_refl b.id, other, ha, hb, select, get) refl

newest_first-two :
    (a b : Invoice)
    → ltb_ℤ a.created_at b.created_at ≡ true
    → newest_first (a ∷ b ∷ []) ≡ b ∷ a ∷ []
unfolding newest_first insert_newest
newest_first-two a b h = rw h refl

page-two : (a b : Invoice) (n : ℕ) → page (pos (suc (suc n))) (pos 0) (a ∷ b ∷ []) ≡ ok (a ∷ b ∷ [])
unfolding page
page-two a b n = ground arith

module _ (codec : Codec) (Canonical : Dict Str → Type 0) (laws : CodecLaws codec Canonical) where
  scan_invoices-two :
      (a b : Invoice)
      → IsStorable Canonical a
      → IsStorable Canonical b
      → scan_invoices codec (row_of codec a ∷ row_of codec b ∷ []) ≡ ok (a ∷ b ∷ [])
  unfolding scan_invoices
  scan_invoices-two a b ha hb =
      rw
        (
          scan_invoice-row_of codec Canonical laws a ha,
          scan_invoice-row_of codec Canonical laws b hb,
        )
        refl

  sql-two :
      (a b : Invoice)
      → str_eq a.id b.id ≡ false
      → (sql_create codec b (sql_create codec a new_database).1).1 ≡ record {
        is_open = true;
        invoices = row_of codec a ∷ row_of codec b ∷ [];
        next_indices = [];
      }
  unfolding sql_create row_at row_of
  sql-two a b other = rw (other, sql_create, row_at) refl

  mem-two :
      (a b : Invoice)
      → str_eq a.id b.id ≡ false
      → (mem_create b (mem_create a new_mem_repository).1).1
        ≡ record { by_id = (a.id, a) ∷ (b.id, b) ∷ []; seq = []; order = a.id ∷ b.id ∷ [] }
  unfolding mem_create put
  mem-two a b other = rw (other, put) refl

  sql-page :
      (merchant : Str) (a b : Invoice) (limit : ℕ)
      → str_eq a.merchant_id merchant ≡ true
      → str_eq b.merchant_id merchant ≡ true
      → IsStorable Canonical a
      → IsStorable Canonical b
      → str_ltb (codec.time_text b.created_at) (codec.time_text a.created_at) ≡ true
      → sql_list_by_merchant codec merchant (pos (suc (suc limit))) (pos 0) (record {
        is_open = true;
        invoices = row_of codec a ∷ row_of codec b ∷ [];
        next_indices = [];
      })
        ≡ ok (a ∷ b ∷ [])
  unfolding sql_list_by_merchant limit_offset row_of
  sql-page merchant a b limit ma mb ha hb text =
      rw
        (
          filter_rows-two (λ (row : Row). str_eq row.merchant_id merchant) (row_of codec a)
              (row_of codec b) ma mb,
          order_desc-two (row_of codec a) (row_of codec b)
              (str_ltb-asymm (codec.time_text b.created_at) (codec.time_text a.created_at) text),
          page_limit_pos limit,
          take_nil limit,
        )
        (scan_invoices-two a b ha hb)

  mem-page :
      (merchant : Str) (a b : Invoice) (limit : ℕ)
      → str_eq a.merchant_id merchant ≡ true
      → str_eq b.merchant_id merchant ≡ true
      → str_eq a.id b.id ≡ false
      → ltb_ℤ a.created_at b.created_at ≡ true
      → mem_list_by_merchant merchant
          (pos (suc (suc limit)))
          (pos 0)
          (record { by_id = (a.id, a) ∷ (b.id, b) ∷ []; seq = []; order = a.id ∷ b.id ∷ [] })
        ≡ ok (b ∷ a ∷ [])
  unfolding mem_list_by_merchant
  mem-page merchant a b limit ma mb other older =
      rw
        (
          select-two (λ (inv : Invoice). str_eq inv.merchant_id merchant) a b other ma mb,
          newest_first-two a b older,
        )
        (page-two b a limit)

  -- Of two invoices of a merchant that the columns keep, under different ids and created in this
  -- order in one second, the first at its very start, a page of two or more lists the older first
  -- over SQLite and the newer first over the repository in memory.
  pub sql_list_by_merchant_older_first :
      (second : ℕ → Str) (merchant : Str) (a b : Invoice) (limit s n : ℕ)
      → IsRfc3339Nano codec second
      → str_eq a.merchant_id merchant ≡ true
      → str_eq b.merchant_id merchant ≡ true
      → str_eq a.id b.id ≡ false
      → IsStorable Canonical a
      → IsStorable Canonical b
      → a.created_at ≡ pos (s * 10 ^ 9)
      → b.created_at ≡ pos (s * 10 ^ 9 + n)
      → 0 < n
      → n < 10 ^ 9
      → (sql_list_by_merchant codec merchant
            (pos (suc (suc limit)))
            (pos 0)
            (sql_create codec b (sql_create codec a new_database).1).1
          ≡ ok (a ∷ b ∷ []))
        × (mem_list_by_merchant merchant
              (pos (suc (suc limit)))
              (pos 0)
              (mem_create b (mem_create a new_mem_repository).1).1
            ≡ ok (b ∷ a ∷ []))
  sql_list_by_merchant_older_first second merchant a b limit s n h ma mb other ha hb ca cb more
        less =
      let text : str_ltb (codec.time_text b.created_at) (codec.time_text a.created_at) ≡ true =
        ap (λ t. str_ltb (codec.time_text t) (codec.time_text a.created_at)) cb
        ∙ ap (λ t. str_ltb (codec.time_text (pos (s * 10 ^ 9 + n))) (codec.time_text t)) ca
        ∙ later-text codec second s n h more less in
      let older : ltb_ℤ a.created_at b.created_at ≡ true =
        ap (λ t. ltb_ℤ t b.created_at) ca ∙ ap (ltb_ℤ (pos (s * 10 ^ 9))) cb ∙ ltb-later s n more in
      (
        rw (sql-two a b other) (sql-page merchant a b limit ma mb ha hb text),
        rw (mem-two a b other) (mem-page merchant a b limit ma mb other older),
      )
