-- ===== src/Chain/Laws.antt =====
-- Laws of internal/chain/registry.go and of the sandbox ledger in internal/chain/mock.
use vex_pay.Common.{
  ℕ, ◌-◌, ◌≡◌, ◌∙◌, true, some, arith, if◌then◌else◌, length, ok, err, already_registered,
  ok-injective, Option-cases, inl, inr,
}
use vex_pay.Common.Int.{ℤ}
use vex_pay.Common.Text.{Str, str_eq, str_eq_refl}
use vex_pay.Common.Text.Decimal.{digits, value, value-zeros, value-digits}
use vex_pay.Common.Dict.{get, put, get-put}
use vex_pay.Money.{Amount, Asset}
use vex_pay.Chain.{Adapter, Registry, ReceiveTarget, register, find_adapter}
use vex_pay.Chain.Mock.{Ledger, pad_eight, mock_address, mock_check, pay}

module _ {W : Type 0} where
  -- After `Register` succeeds, the chain is answered by the new adapter and every other chain as
  -- before, and a second adapter for the same chain is refused.
  pub find_adapter-register :
      (a b : Adapter W) (r : Registry W) (r' : Registry W) (id : Str)
      → register a r ≡ ok r'
      → b.chain ≡ a.chain
      → (find_adapter r' id ≡ (if str_eq a.chain id then ok a else find_adapter r id))
        × (register b r' ≡ err already_registered)
  unfolding register find_adapter
  find_adapter-register a b r r' id h e = elim (Option-cases (get r a.chain)) [
    | inl fresh ↦
        let stored : put r a.chain a ≡ r' = ok-injective (rw (fresh, register) at h) in
        rw (← stored, e)
          (ground (arith, get-put r a.chain id a, get-put r a.chain a.chain a, str_eq_refl a.chain))
    | inr (old, taken) ↦ absurd (cc (rw (taken, register) at h))
  ]

-- After a simulated payment the sandbox chain shows that payment at its address, and at every
-- other address what it showed before.
pub mock_check-pay :
    (asset : Asset) (ledger : Ledger) (address : Str) (amount : Amount) (confirmations : ℤ)
    (tx : Str) (target : ReceiveTarget)
    → mock_check asset (pay address amount confirmations tx ledger) target ≡ (
        if str_eq address target.address
        then ok
            (record { seen = true; received = amount; confirmations = confirmations; tx_hash = tx })
        else mock_check asset ledger target)
unfolding mock_check pay
mock_check-pay asset ledger address amount confirmations tx target = ground (
  arith,
  get-put ledger address target.address
      (record { received = amount; confirmations = confirmations; tx_hash = tx }),
)

value-pad_eight : (n : ℕ) → value 0 (pad_eight n) ≡ some n
unfolding pad_eight
value-pad_eight n = value-zeros (8 - length (digits n)) (digits n) ∙ value-digits n

pad_eight-mock_address : (i j : ℕ) → mock_address i ≡ mock_address j → pad_eight i ≡ pad_eight j
unfolding mock_address
pad_eight-mock_address i j h = cc

-- No two derivation indices share a sandbox address.
pub mock_address_injective : (i j : ℕ) → mock_address i ≡ mock_address j → i ≡ j
mock_address_injective i j h =
    cc (value-pad_eight i, value-pad_eight j, pad_eight-mock_address i j h)
