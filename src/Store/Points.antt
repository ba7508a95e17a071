-- ===== src/Store/Points.antt =====
-- internal/store/sqlite.go: one row and one counter among the others.
use vex_pay.Common.{ℕ, ◌+◌, ◌%◌, ◌^◌, ◌≡◌, none, some, List, [], ◌∷◌, ◌++◌, if◌then◌else◌, arith}
use mathlib.Core.Option
use vex_pay.Common.Text.{Str, str_eq, str_eq_iff}
use vex_pay.Common.Dict.{Dict, get, put, get-put}
use vex_pay.Store.Rows.{Row}
use vex_pay.Store.Sqlite.{row_at, set_at}

pub row_at-append :
    (rows : List Row) (row : Row) (id : Str)
    → row_at (rows ++ row ∷ []) id ≡ elim (row_at rows id) [
      | some r ↦ some r
      | none ↦ if str_eq row.id id then some row else none
    ]
unfolding row_at
row_at-append [] row id = ground arith
row_at-append (r ∷ rows) row id = ground (arith, row_at-append rows row id)

pub row_at-set_at :
    (f : Row → Row) (k id : Str) (rows : List Row)
    → ((r : Row) → (f r).id ≡ r.id)
    → row_at (set_at f k rows) id
      ≡ (if str_eq k id then Option.map f (row_at rows id) else row_at rows id)
unfolding row_at set_at
row_at-set_at f k id [] keeps = ground arith
row_at-set_at f k id (r ∷ rows) keeps = ground (
  arith,
  row_at-set_at f k id rows keeps,
  keeps r,
  str_eq_iff r.id k,
  str_eq_iff r.id id,
  str_eq_iff k id,
)

-- the counter of a merchant, 0 if there is none
abbrev pub counter : Dict ℕ → Str → ℕ
counter seq merchant = elim (get seq merchant) [ none ↦ 0 | some n ↦ n ]

pub counter-put :
    (seq : Dict ℕ) (m j : Str) (n : ℕ)
    → counter (put seq m n) j ≡ (if str_eq m j then n else counter seq j)
counter-put seq m j n = ground (arith, get-put seq m j n)

pub index-wraps : (n : ℕ) → (n % 2 ^ 32 + 1) % 2 ^ 32 ≡ (n + 1) % 2 ^ 32
index-wraps n = omega arith
