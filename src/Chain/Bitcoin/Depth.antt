-- ===== src/Chain/Bitcoin/Depth.antt =====
-- What an observation of the Bitcoin adapter rests on.
use vex_pay.Common.{
  ℕ, ◌+◌, ◌<◌, leb, ◌&&◌, ◌≡◌, refl, ap, sym, subst, ◌∙◌, ◌⊎◌, inl, inr, true, false, not, some,
  List, [], ◌∷◌, All, if◌then◌else◌, arith, Bool-cases, Result-cases, ok, ok-injective, ◌>>=◌, ◌^◌,
  ◌-◌,
}
use vex_pay.Common.Int.{ℤ, pos, negsuc, ltb_ℤ, is_zero, ◌+ℤ◌, ◌-ℤ◌}
use vex_pay.Common.Int.Machine.{wrap64}
use vex_pay.Common.Text.{Str}
use vex_pay.Money.{Asset, from_units, is_zero_amount}
use vex_pay.Chain.{Observation, ReceiveTarget}
use vex_pay.Chain.Bitcoin.{
  AddressStatus, EsploraAddress, EsploraTx, Explorer, Network, pays_address, depth, read_txs,
  address_status, observed, btc_check, unconfirmed, funded_status, status_of,
}

-- `tx` is the first of a list that pays the address; the explorer lists the newest first
pub data IsNewest (address : Str) (tx : EsploraTx) : List EsploraTx → Type 0 where
  here :
      {txs : List EsploraTx} → pays_address tx.vout address ≡ true → IsNewest address tx (tx ∷ txs)
  older :
      {x : EsploraTx} {txs : List EsploraTx}
      → pays_address x.vout address ≡ false
      → IsNewest address tx txs
      → IsNewest address tx (x ∷ txs)

read_txs-cases :
    (tip : ℤ) (address : Str) (txs : List EsploraTx) (status : AddressStatus)
    → (All (λ x. pays_address x.vout address ≡ false) txs
        × (read_txs tip address txs status ≡ status))
      ⊎ ((tx : EsploraTx) × IsNewest address tx txs
          × (read_txs tip address txs status
              ≡ record status { tx_id = tx.tx_id; confirmations = depth tip tx }))
unfolding read_txs
read_txs-cases tip address [] status = inl (tt, refl)
read_txs-cases tip address (x ∷ txs) status = elim (Bool-cases (pays_address x.vout address)) [
  | inl pays ↦ inr (x, here pays, rw (pays, read_txs) refl)
  | inr other ↦ elim (read_txs-cases tip address txs status) [
    | inl (none_pays, same) ↦ inl ((other, none_pays), rw (other, read_txs) same)
    | inr (tx, newest, e) ↦ inr (tx, older other newest, rw (other, read_txs) e)
  ]
]

module _ {W : Type 0} (explorer : Explorer W) (w : W) (address : Str) where
  -- no confirmations and no id, for an address that holds nothing or that no listed transaction
  -- pays; else those of the newest transaction that pays it
  abbrev pub IsDeep : ℤ → ℤ → Str → Type 0
  IsDeep total confirmations tx_id =
      ((is_zero total ≡ true) × (confirmations ≡ pos 0) × (tx_id ≡ []))
      ⊎ ((is_zero total ≡ false)
          × (tip : ℤ) × (txs : List EsploraTx) × (explorer.tip_height w ≡ ok tip)
          × (explorer.txs w address ≡ ok txs)
          × ((All (λ x. pays_address x.vout address ≡ false) txs
                × (confirmations ≡ pos 0)
                × (tx_id ≡ []))
              ⊎ ((tx : EsploraTx) × IsNewest address tx txs
                  × (tx_id ≡ tx.tx_id)
                  × (confirmations ≡ depth tip tx))))

  read-IsDeep :
      (total tip : ℤ) (txs : List EsploraTx) (st : AddressStatus)
      → is_zero total ≡ false
      → explorer.tip_height w ≡ ok tip
      → explorer.txs w address ≡ ok txs
      → read_txs tip address txs (unconfirmed total) ≡ st
      → (st.received_sats ≡ some total) × IsDeep total st.confirmations st.tx_id
  read-IsDeep total tip txs st funded tops lists e =
      elim (read_txs-cases tip address txs (unconfirmed total)) [
        | inl (none_pays, same) ↦
            let known = sym same ∙ e in
            (
              ap (λ s. s.received_sats) (sym known),
              inr (
                funded,
                tip,
                txs,
                tops,
                lists,
                inl (
                  none_pays,
                  ap (λ s. s.confirmations) (sym known),
                  ap (λ s. s.tx_id) (sym known),
                ),
              ),
            )
        | inr (tx, newest, reads) ↦
            let known = sym reads ∙ e in
            (
              ap (λ s. s.received_sats) (sym known),
              inr (
                funded,
                tip,
                txs,
                tops,
                lists,
                inr (
                  tx,
                  newest,
                  ap (λ s. s.tx_id) (sym known),
                  ap (λ s. s.confirmations) (sym known),
                ),
              ),
            )
      ]

  funded_status-IsDeep :
      (total : ℤ) (st : AddressStatus)
      → is_zero total ≡ false
      → funded_status explorer w address total ≡ ok st
      → (st.received_sats ≡ some total) × IsDeep total st.confirmations st.tx_id
  unfolding funded_status
  funded_status-IsDeep total st funded h = elim (Result-cases (explorer.tip_height w)) [
    | inl (e, failed) ↦ absurd (cc (rw (failed, funded_status, ◌>>=◌) at h))
    | inr (tip, tops) ↦ elim (Result-cases (explorer.txs w address)) [
      | inl (e, failed) ↦ absurd (cc (rw (tops, failed, funded_status, ◌>>=◌) at h))
      | inr (txs, lists) ↦
          read-IsDeep total tip txs st funded tops lists
            (ok-injective (rw (tops, lists, funded_status, ◌>>=◌) at h))
    ]
  ]

  status_of-IsDeep :
      (total : ℤ) (st : AddressStatus)
      → status_of explorer w address total ≡ ok st
      → (st.received_sats ≡ some total) × IsDeep total st.confirmations st.tx_id
  unfolding status_of
  status_of-IsDeep total st h = elim (Bool-cases (is_zero total)) [
    | inl empty ↦
        let known = ok-injective (rw (empty, status_of) at h) in
        (
          ap (λ s. s.received_sats) (sym known),
          inl (empty, ap (λ s. s.confirmations) (sym known), ap (λ s. s.tx_id) (sym known)),
        )
    | inr funded ↦ funded_status-IsDeep total st funded (rw (funded, status_of) at h)
  ]

  -- the answer for the address, its sum, and the confirmations
  abbrev pub IsBacked : Asset → Observation → Type 0
  IsBacked asset obs =
      (answer : EsploraAddress) × (explorer.address w address ≡ ok answer)
      × (obs.received ≡ from_units asset (wrap64 (answer.chain_funded +ℤ answer.mempool_funded)))
      × (obs.seen ≡ not (is_zero_amount obs.received))
      × IsDeep (wrap64 (answer.chain_funded +ℤ answer.mempool_funded)) obs.confirmations obs.tx_hash

  address_status-IsBacked :
      (asset : Asset) (st : AddressStatus)
      → address_status explorer w address ≡ ok st
      → IsBacked asset (observed asset st)
  unfolding address_status observed
  address_status-IsBacked asset st h = elim (Result-cases (explorer.address w address)) [
    | inl (e, failed) ↦ absurd (cc (rw (failed, address_status, ◌>>=◌) at h))
    | inr (answer, reads) ↦
        let (sats, deep) = status_of-IsDeep _ st (rw (reads, address_status, ◌>>=◌) at h) in
        (answer, reads, rw (sats, observed) refl, refl, deep)
  ]

-- Whatever the Bitcoin adapter observes is what the explorer answers: the funds of the address, on
-- chain and waiting together; a payment is seen exactly if they are not zero; and the confirmations
-- and the id are those of the newest listed transaction that pays the address. They are zero and
-- empty when there are no funds or no listed transaction pays it.
pub btc_check-IsBacked :
    {W : Type 0} (net : Network) (explorer : Explorer W) (w : W) (target : ReceiveTarget)
    (obs : Observation)
    → btc_check net (address_status explorer) w target ≡ ok obs
    → IsBacked explorer w target.address net.asset obs
unfolding btc_check
btc_check-IsBacked net explorer w target obs h =
    elim (Result-cases (address_status explorer w target.address)) [
      | inl (e, failed) ↦ absurd (cc (rw (failed, btc_check, ◌>>=◌) at h))
      | inr (st, answers) ↦
          subst (IsBacked explorer w target.address net.asset)
            (ok-injective (rw (answers, btc_check, ◌>>=◌) at h))
            (address_status-IsBacked explorer w target.address net.asset st answers)
    ]

wrap64-pos : (n : ℕ) → n < 2 ^ 63 → wrap64 (pos n) ≡ pos n
unfolding wrap64
wrap64-pos n h = ground arith

wrap64-negsuc : (n : ℕ) → n < 2 ^ 63 → wrap64 (negsuc n) ≡ negsuc n
unfolding wrap64
wrap64-negsuc n h = ground arith

-- the 64-bit distance of two heights, plus one, cut at zero
blocks : ℕ → ℕ → ℤ
blocks t h =
    let n = wrap64 (wrap64 (pos t -ℤ pos h) +ℤ pos 1) in if ltb_ℤ n (pos 0) then pos 0 else n

blocks-exact :
    (t h : ℕ) → t < 2 ^ 62 → h < 2 ^ 62 → blocks t h ≡ (if leb h t then pos (t - h + 1) else pos 0)
unfolding blocks ◌-ℤ◌ ◌+ℤ◌
blocks-exact t h bt bh = elim (Bool-cases (leb h t)) [
  | inl below ↦
      let small = wrap64-pos (t - h) (omega arith) in
      let small' = wrap64-pos (t - h + 1) (omega arith) in ground (arith, below, small, small')
  | inr above ↦
      let small = wrap64-negsuc (h - t - 1) (omega arith) in
      ground
        (arith, above, small, wrap64-negsuc (h - t - 2) (omega arith), wrap64-pos 0 (omega arith))
]

-- The confirmations of a transaction, for heights below 2^62: one in the newest block and one more
-- for every block on top of it; none for a transaction that is not in a block, or whose block is
-- above the tip that the explorer named before.
pub depth-exact :
    (t h : ℕ) (tx : EsploraTx)
    → t < 2 ^ 62
    → h < 2 ^ 62
    → tx.block_height ≡ pos h
    → depth (pos t) tx ≡ (if tx.confirmed && leb h t then pos (t - h + 1) else pos 0)
unfolding depth blocks
depth-exact t h tx bt bh at_h = elim (Bool-cases tx.confirmed) [
  | inl mined ↦ rw (mined, at_h) (blocks-exact t h bt bh)
  | inr waits ↦ rw waits refl
]
