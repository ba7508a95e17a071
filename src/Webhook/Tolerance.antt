-- ===== src/Webhook/Tolerance.antt =====
-- internal/webhook/signer.go: the age of a timestamp and the tolerance of `Verify`.
use vex_pay.Common.{◌^◌, ◌≡◌, refl, ◌⊎◌, inl, inr, false, ◌&&◌, arith}
use vex_pay.Common.Int.{
  ℤ, pos, negsuc, ltb_ℤ, neg, ◌≤ℤ◌, ◌<ℤ◌, ◌+ℤ◌, ◌-ℤ◌, eq_of_parts, +ℤ_parts, -ℤ_parts,
}
use vex_pay.Common.Int.Machine.{min_int64, max_int64, time_sub, wrap64}
use vex_pay.Invoice.{Time}
use vex_pay.Webhook.Signer.{time_unix, age_of}

-- the age that `Verify` works out is within the tolerance, or the tolerance is switched off
abbrev pub IsTimely : ℤ → ℤ → Time → Type 0
IsTimely unix tolerance now =
    (tolerance ≤ℤ pos 0) ⊎ (age_of (time_sub now (time_unix unix)) ≤ℤ tolerance)

pub IsTimely-late :
    (unix tolerance : ℤ) (now : Time)
    → IsTimely unix tolerance now
    → (ltb_ℤ (pos 0) tolerance && ltb_ℤ tolerance (age_of (time_sub now (time_unix unix)))) ≡ false
IsTimely-late unix tolerance now (inl off) = ground arith
IsTimely-late unix tolerance now (inr young) = ground arith

pub late-IsTimely :
    (unix tolerance : ℤ) (now : Time)
    → (ltb_ℤ (pos 0) tolerance && ltb_ℤ tolerance (age_of (time_sub now (time_unix unix)))) ≡ false
    → IsTimely unix tolerance now
late-IsTimely unix tolerance now h = ground arith

far_sub : (t u : ℤ) → t +ℤ pos (2 ^ 63) ≤ℤ u → time_sub t u ≡ min_int64
unfolding time_sub
far_sub t u h =
    ground (arith, +ℤ_parts t (pos (2 ^ 63)), -ℤ_parts t u, eq_of_parts (t -ℤ u) min_int64)

pub far_age : (t u : ℤ) → t +ℤ pos (2 ^ 63) ≤ℤ u → age_of (time_sub t u) ≡ min_int64
unfolding age_of wrap64 ◌-ℤ◌
far_age t u h = rw (far_sub t u h) refl

-- the tolerance is switched off, or the time is at most the tolerance away from the clock, or so
-- far ahead that the age overflows
abbrev pub IsNear : Time → ℤ → Time → Type 0
IsNear ts tolerance now =
    (tolerance ≤ℤ pos 0)
    ⊎ ((now ≤ℤ ts +ℤ tolerance) × (ts ≤ℤ now +ℤ tolerance))
    ⊎ (now +ℤ pos (2 ^ 63) ≤ℤ ts)

-- the age of a difference of 64 bits is its distance from zero, but for the lowest one
age_of-near :
    (d tolerance : ℤ)
    → age_of d ≤ℤ tolerance
    → (d ≤ℤ min_int64) ⊎ ((d ≤ℤ tolerance) × (neg d ≤ℤ tolerance))
unfolding age_of wrap64 ◌-ℤ◌ ◌+ℤ◌
age_of-near (pos n) tolerance h = ground arith
age_of-near (negsuc n) tolerance h = ground arith

age-IsNear :
    (ts now tolerance : ℤ)
    → tolerance <ℤ max_int64
    → age_of (time_sub now ts) ≤ℤ tolerance
    → IsNear ts tolerance now
unfolding time_sub
age-IsNear ts now tolerance short h = ground (
  arith,
  +ℤ_parts ts tolerance,
  +ℤ_parts now tolerance,
  +ℤ_parts now (pos (2 ^ 63)),
  -ℤ_parts now ts,
  age_of-near (time_sub now ts) tolerance h,
)

pub timely-IsNear :
    (unix tolerance : ℤ) (now : Time)
    → tolerance <ℤ max_int64
    → IsTimely unix tolerance now
    → IsNear (time_unix unix) tolerance now
timely-IsNear unix tolerance now short (inl off) = inl off
timely-IsNear unix tolerance now short (inr young) =
    age-IsNear (time_unix unix) now tolerance short young
