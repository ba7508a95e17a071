-- ===== src/Invoice/Lifecycle.antt =====
-- The state machine of an invoice: what `decide` returns, and what one `Sync` keeps.
use vex_pay.Common.{refl, sym, ap, ◌∙◌, ◌≡◌, ◌≢◌, ◌↔◌, true, false, arith, is_some}
use vex_pay.Common.Int.{◌≤ℤ◌, ◌<ℤ◌, less, same, more}
use vex_pay.Money.{cmp, is_zero_amount}
use vex_pay.Chain.{Observation}
use vex_pay.Invoice.{
  Invoice, Status, pending, underpaid, confirming, paid, overpaid, expired, Time, status_eq,
  is_terminal, is_settled, decide,
}
use vex_pay.Invoice.Repository.{SameTerms}
use vex_pay.Invoice.Service.{observe, move, advance}

-- The status texts are told apart: Go's `==` on them is equality of the constants.
pub status_eq_iff : (a b : Status) → (status_eq a b ≡ true) ↔ (a ≡ b)
unfolding status_eq
status_eq_iff pending b = ground arith
status_eq_iff underpaid b = ground arith
status_eq_iff confirming b = ground arith
status_eq_iff paid b = ground arith
status_eq_iff overpaid b = ground arith
status_eq_iff expired b = ground arith

-- what the chain shows pays the invoice in full
pub record IsCovered (inv : Invoice) (obs : Observation) : Type 0 where
  pub seen : obs.seen ≡ true
  pub nonzero : is_zero_amount obs.received ≡ false
  pub enough : cmp obs.received inv.amount ≢ less

-- `decide` fails closed: it settles an invoice exactly when a payment is seen, is not zero, is at
-- least the requested amount and has the required confirmations; and then it tells an exact
-- payment from a larger one.
pub decide_settled :
    (inv : Invoice) (obs : Observation) (now : Time)
    → ((decide inv obs now ≡ paid) ↔ (
        IsCovered inv obs
        × (inv.required_confs ≤ℤ obs.confirmations)
        × (cmp obs.received inv.amount ≡ same)))
      × ((decide inv obs now ≡ overpaid) ↔ (
          IsCovered inv obs
          × (inv.required_confs ≤ℤ obs.confirmations)
          × (cmp obs.received inv.amount ≡ more)))
unfolding decide
decide_settled inv obs now = ground arith

-- `decide` gives an invoice up exactly after its window, when what is seen does not cover it; a
-- covered invoice waits for its confirmations however late it is.
pub decide_open :
    (inv : Invoice) (obs : Observation) (now : Time)
    → ((decide inv obs now ≡ expired) ↔ ((inv.expires_at <ℤ now) × (¬ IsCovered inv obs)))
      × ((decide inv obs now ≡ confirming)
          ↔ (IsCovered inv obs × (obs.confirmations <ℤ inv.required_confs)))
unfolding decide
decide_open inv obs now = ground arith

-- the states in which a payment is recorded, and what is recorded then
pub record IsSound (inv : Invoice) : Type 0 where
  pub paid_when_settled : is_some inv.paid_at ≡ is_settled inv.status
  pub enough_when_settled : is_settled inv.status ≡ true → cmp inv.received inv.amount ≢ less
  pub deep_when_settled : is_settled inv.status ≡ true → inv.required_confs ≤ℤ inv.confirmations

-- One round of `Sync` keeps an open invoice sound, or settles it soundly: a time of payment is
-- set exactly with a settled status, and then the recorded amount and depth are enough.
pub advance-IsSound :
    (inv : Invoice) (obs : Observation) (now : Time)
    → IsSound inv
    → is_terminal inv.status ≡ false
    → IsSound (advance inv obs now)
unfolding advance decide is_settled is_terminal
advance-IsSound inv obs now h still = ground arith

-- `Sync` changes only what was observed, the status and its times: the terms of the invoice stay.
pub advance-SameTerms :
    (inv : Invoice) (obs : Observation) (now : Time) → SameTerms inv (advance inv obs now)
unfolding advance
advance-SameTerms inv obs now = ground arith

decide_terms :
    (inv : Invoice) (obs : Observation) (now : Time) (inv' : Invoice)
    → SameTerms inv inv'
    → decide inv' obs now ≡ decide inv obs now
unfolding decide
decide_terms inv obs now inv' h = rw (h.amount, h.expires_at, h.required_confs)

-- The status after a round is the one decided on, and that depends on the terms alone: deciding
-- again on the same observation at the same time changes nothing.
pub advance-status :
    (inv : Invoice) (obs : Observation) (now : Time)
    → (advance inv obs now).status ≡ decide inv obs now
unfolding advance
advance-status inv obs now = ground (arith, status_eq_iff (decide inv obs now) inv.status)

pub decide-advance :
    (inv : Invoice) (obs : Observation) (now : Time)
    → decide (advance inv obs now) obs now ≡ (advance inv obs now).status
unfolding advance
decide-advance inv obs now = ground (
  arith,
  status_eq_iff (decide inv obs now) inv.status,
  decide_terms inv obs now (advance inv obs now) (advance-SameTerms inv obs now),
)

-- an invoice with an observation recorded
abbrev record_of : Invoice → Observation → Time → Invoice
record_of inv obs now = record (observe inv obs) { updated_at = now }

-- recording does not look at what a move writes
record-move :
    (x : Invoice) (obs : Observation) (next : Status) (now : Time)
    → record_of (move x next now) obs now ≡ move (record_of x obs now) next now
unfolding observe move
record-move x obs next now = ground arith

record-record :
    (inv : Invoice) (obs : Observation) (now : Time)
    → record_of (record_of inv obs now) obs now ≡ record_of inv obs now
unfolding observe
record-record inv obs now = ground arith

move_same :
    (inv : Invoice) (next : Status) (now : Time) → next ≡ inv.status → move inv next now ≡ inv
unfolding move
move_same inv next now e = rw ((status_eq_iff next inv.status).1 e) refl

advance-move :
    (inv : Invoice) (obs : Observation) (now : Time)
    → advance inv obs now ≡ move (record_of inv obs now) (decide inv obs now) now
unfolding advance observe move
advance-move inv obs now = refl

record-advance :
    (inv : Invoice) (obs : Observation) (now : Time)
    → record_of (advance inv obs now) obs now ≡ advance inv obs now
record-advance inv obs now =
    ap (λ x. record_of x obs now) (advance-move inv obs now)
    ∙ record-move (record_of inv obs now) obs (decide inv obs now) now
    ∙ ap (λ x. move x (decide inv obs now) now) (record-record inv obs now)
    ∙ sym (advance-move inv obs now)

-- Taking in the same observation again at the same time makes no difference.
pub advance-advance :
    (inv : Invoice) (obs : Observation) (now : Time)
    → advance (advance inv obs now) obs now ≡ advance inv obs now
advance-advance inv obs now =
    let adv = advance inv obs now in
    advance-move adv obs now
    ∙ ap (λ x. move x (decide adv obs now) now) (record-advance inv obs now)
    ∙ move_same adv (decide adv obs now) now (decide-advance inv obs now)
