-- ===== src/Invoice/Memory/Indices.antt =====
-- The per-merchant derivation counter of the repository in memory.
use vex_pay.Common.{ℕ, zero, suc, ◌+◌, ◌%◌, ◌^◌, ◌≡◌, ap, ◌∙◌, none, some, arith, ok}
use vex_pay.Common.Text.{Str}
use vex_pay.Common.Dict.{get, put, get-put_self}
use vex_pay.Invoice.Memory.{MemRepository, mem_next_derivation_index}

-- the repository after `n` calls of `NextDerivationIndex` for the merchant
pub after : ℕ → Str → MemRepository → MemRepository
after zero merchant r = r
after (suc n) merchant r = (mem_next_derivation_index merchant (after n merchant r)).1

counter-index :
    (merchant : Str) (r : MemRepository) (k : ℕ)
    → mem_next_derivation_index merchant r
      ≡ (ok k, record r { seq = put r.seq merchant ((k + 1) % 2 ^ 32) })
    → get (mem_next_derivation_index merchant r).1.seq merchant ≡ some ((k + 1) % 2 ^ 32)
counter-index merchant r k e = rw e (get-put_self r.seq merchant ((k + 1) % 2 ^ 32))

index-some :
    (merchant : Str) (r : MemRepository) (k : ℕ)
    → get r.seq merchant ≡ some k
    → mem_next_derivation_index merchant r
      ≡ (ok k, record r { seq = put r.seq merchant ((k + 1) % 2 ^ 32) })
unfolding mem_next_derivation_index
index-some merchant r k e = rw (e, mem_next_derivation_index)

index-none :
    (merchant : Str) (r : MemRepository)
    → get r.seq merchant ≡ none
    → mem_next_derivation_index merchant r
      ≡ (ok 0, record r { seq = put r.seq merchant ((0 + 1) % 2 ^ 32) })
unfolding mem_next_derivation_index
index-none merchant r e = rw (e, mem_next_derivation_index)

after-suc :
    (n : ℕ) (merchant : Str) (r : MemRepository)
    → get r.seq merchant ≡ none
    → get (after (suc n) merchant r).seq merchant ≡ some (suc n % 2 ^ 32)
unfolding after
after-suc zero merchant r e = counter-index merchant r 0 (index-none merchant r e)
after-suc (suc n) merchant r e =
    counter-index merchant (after (suc n) merchant r) (suc n % 2 ^ 32)
      (index-some merchant _ (suc n % 2 ^ 32) (after-suc n merchant r e))
    ∙ ap some (omega arith)

-- The call of `NextDerivationIndex` that follows `n` calls for a merchant without a counter answers
-- `n % 2^32`: the first 2^32 calls answer distinct numbers, and from there on the same numbers come
-- again.
pub nth_index :
    (n : ℕ) (merchant : Str) (r : MemRepository)
    → get r.seq merchant ≡ none
    → (mem_next_derivation_index merchant (after n merchant r)).0 ≡ ok (n % 2 ^ 32)
unfolding after
nth_index zero merchant r e = ap (λ out. out.0) (index-none merchant r e)
nth_index (suc n) merchant r e =
    ap (λ out. out.0) (index-some merchant _ (suc n % 2 ^ 32) (after-suc n merchant r e))
