-- ===== src/Webhook/Verify.antt =====
-- internal/webhook/signer.go: `Verify`, on headers of `Sign` and on any header.
use vex_pay.Common.{
  ℕ, suc, ◌^◌, ◌≤◌, ◌<◌, ◌≡◌, ◌≢◌, refl, ap, ◌∙◌, sym, inl, inr, Bool, true, false, ◌||◌, not, some,
  [], ◌∷◌, ◌++◌, arith, length, All, All-implies, Error, Bool-cases, Option-cases, ok,
  outside_tolerance, signature_mismatch, fail_if, ◌>>◌,
}
use vex_pay.Common.Int.{ℤ, pos, negsuc, ◌≤ℤ◌, ◌<ℤ◌, ◌+ℤ◌}
use vex_pay.Common.Int.Machine.{in_int64, max_int64}
use vex_pay.Common.Text.{Str, codes, str_eq, str_eq_refl, str_eq_iff, is_empty, Lacks, cut}
use vex_pay.Common.Text.Space.{trim_space-plain, IsPlain}
use vex_pay.Common.Text.Split.{split, split-append, split-Lacks}
use vex_pay.Common.Text.Decimal.{
  digits, int_string, set_string, set_string-int_string, digits-IsDigit, IsDigit, length-digits_pos,
}
use vex_pay.Common.Text.Hex.{hex-IsHexDigit, length-hex, IsHexDigit}
use vex_pay.Invoice.{Time}
use vex_pay.Webhook.Signer.{
  unix_of, time_unix, parse_int, Fields, read_part, read_parts, read_header, compute_mac, sign,
  verify_fields, verify,
}
use vex_pay.Webhook.Tolerance.{
  IsTimely, IsNear, IsTimely-late, late-IsTimely, timely-IsNear, far_age,
}

-- `-` to `z`: visible and no comma
abbrev IsTame : ℕ → Type 0
IsTame c = (45 ≤ c) × (c ≤ 122)

tame-IsPlain : (s : Str) → All IsTame s → All IsPlain s
tame-IsPlain s h = All-implies IsTame IsPlain s (λ c ok_c. omega (arith, ok_c)) h

tame-Lacks : (s : Str) → All IsTame s → Lacks b',' s
tame-Lacks s h = All-implies IsTame (λ c. c ≢ b',') s (λ c ok_c. omega (arith, ok_c)) h

digits-IsTame : (s : Str) → All IsDigit s → All IsTame s
digits-IsTame s h = All-implies IsDigit IsTame s (λ c ok_c. omega (arith, ok_c)) h

hex-IsTame : (s : Str) → All IsHexDigit s → All IsTame s
hex-IsTame s h = All-implies IsHexDigit IsTame s (λ c ok_c. omega (arith, ok_c)) h

int_string-IsTame : (x : ℤ) → All IsTame (int_string x)
unfolding int_string
int_string-IsTame (pos n) = digits-IsTame (digits n) (digits-IsDigit n)
int_string-IsTame (negsuc n) =
    (omega arith, digits-IsTame (digits (suc n)) (digits-IsDigit (suc n)))

not_empty : (s : Str) → 0 < length s → is_empty s ≡ false
not_empty [] h = absurd (omega arith)
not_empty (c ∷ s) h = refl

int_string-not_empty : (x : ℤ) → is_empty (int_string x) ≡ false
unfolding int_string
int_string-not_empty (pos n) = not_empty (digits n) (length-digits_pos n)
int_string-not_empty (negsuc n) = refl

-- The two parts of a header are read as the fields that they name.
read_part-t :
    (s : Str) (f : Fields) → All IsTame s → read_part (codes "t=" ++ s) f ≡ record f { t = s }
unfolding read_part cut str_eq
read_part-t s f h =
    rw (trim_space-plain (b't' ∷ b'=' ∷ s) (omega arith, (omega arith, tame-IsPlain s h))) refl

read_part-v1 :
    (s : Str) (f : Fields) → All IsTame s → read_part (codes "v1=" ++ s) f ≡ record f { v1 = s }
unfolding read_part cut str_eq
read_part-v1 s f h =
    rw
      (trim_space-plain (b'v' ∷ b'1' ∷ b'=' ∷ s)
        (omega arith, (omega arith, (omega arith, tame-IsPlain s h))))
      refl

read_header-parts :
    (s m : Str)
    → All IsTame s
    → All IsTame m
    → read_header (codes "t=" ++ (s ++ (codes ",v1=" ++ m))) ≡ record { t = s; v1 = m }
unfolding read_header read_parts
read_header-parts s m hs hm =
    let first : Lacks b',' (codes "t=" ++ s) = (omega arith, (omega arith, tame-Lacks s hs)) in
    let second : Lacks b',' (codes "v1=" ++ m) =
      (omega arith, (omega arith, (omega arith, tame-Lacks m hm))) in
    let pieces : split b',' (codes "t=" ++ (s ++ (codes ",v1=" ++ m)))
        ≡ (codes "t=" ++ s) ∷ (codes "v1=" ++ m) ∷ [] =
      split-append b',' (codes "t=" ++ s) (codes "v1=" ++ m) first
      ∙ ap (λ rest. (codes "t=" ++ s) ∷ rest) (split-Lacks b',' (codes "v1=" ++ m) second) in
    ap (λ parts. read_parts parts (record { t = []; v1 = [] })) pieces
    ∙ ap (read_part (codes "v1=" ++ m)) (read_part-t s (record { t = []; v1 = [] }) hs)
    ∙ read_part-v1 m (record { t = s; v1 = [] }) hm

parse_int-of : (s : Str) (x : ℤ) → set_string s ≡ some x → in_int64 x ≡ true → parse_int s ≡ some x
unfolding parse_int
parse_int-of s x reads fits = rw (reads, parse_int) (rw fits refl)

parse_int-some :
    (s : Str) (x : ℤ) → parse_int s ≡ some x → (set_string s ≡ some x) × (in_int64 x ≡ true)
unfolding parse_int
parse_int-some s x h = ground arith

last_checks :
    (late same : Bool) (e e' : Error)
    → (fail_if late e >> fail_if (not same) e') ≡ ok tt
    → (late ≡ false) × (same ≡ true)
last_checks late same e e' h = ground arith

module _ (hmac : Str → Str → Str) where
  compute_mac-IsTame :
      (secret : Str) (unix : ℤ) (body : Str) → All IsTame (compute_mac hmac secret unix body)
  unfolding compute_mac
  compute_mac-IsTame secret unix body = hex-IsTame _ (hex-IsHexDigit _)

  compute_mac-not_empty :
      (secret : Str) (unix : ℤ) (body : Str)
      → ((key message : Str) → 0 < length (hmac key message))
      → is_empty (compute_mac hmac secret unix body) ≡ false
  unfolding compute_mac
  compute_mac-not_empty secret unix body digest = not_empty _ (
      omega (
        arith,
        length-hex (hmac secret (int_string unix ++ b'.' ∷ body)),
        digest secret (int_string unix ++ b'.' ∷ body),
      ))

  read_header-sign :
      (secret : Str) (ts : Time) (body : Str)
      → read_header (sign hmac secret ts body)
        ≡ record { t = int_string (unix_of ts); v1 = compute_mac hmac secret (unix_of ts) body }
  unfolding sign
  read_header-sign secret ts body =
      read_header-parts (int_string (unix_of ts)) (compute_mac hmac secret (unix_of ts) body)
        (int_string-IsTame (unix_of ts)) (compute_mac-IsTame secret (unix_of ts) body)

  -- What `Sign` writes, `Verify` accepts under the same secret and for the same body, as long as
  -- the second of the signing has 64 bits and its age is within the tolerance, if there is one.
  pub verify-sign :
      (secret body : Str) (ts : Time) (tolerance : ℤ) (now : Time)
      → ((key message : Str) → 0 < length (hmac key message))
      → in_int64 (unix_of ts) ≡ true
      → IsTimely (unix_of ts) tolerance now
      → verify hmac secret (sign hmac secret ts body) body tolerance now ≡ ok tt
  unfolding verify verify_fields
  verify-sign secret body ts tolerance now digest fits timely =
      rw
        (
          read_header-sign secret ts body,
          int_string-not_empty (unix_of ts),
          compute_mac-not_empty secret (unix_of ts) body digest,
          parse_int-of (int_string (unix_of ts)) (unix_of ts) (set_string-int_string (unix_of ts))
              fits,
          IsTimely-late (unix_of ts) tolerance now timely,
          str_eq_refl (compute_mac hmac secret (unix_of ts) body),
        )
        refl

  -- a MAC over the body and a timestamp of the header that is near the clock
  pub record IsSigned (secret header body : Str) (tolerance : ℤ) (now : Time) : Type 0 where
    pub unix : ℤ
    pub reads : set_string (read_header header).t ≡ some unix
    pub fits : in_int64 unix ≡ true
    pub mac : (read_header header).v1 ≡ compute_mac hmac secret unix body
    pub timely : IsNear (time_unix unix) tolerance now

  -- `Verify` fails closed, for a tolerance below the longest duration: whatever header it accepts
  -- names a timestamp of 64 bits and carries exactly the MAC of that timestamp and the body under
  -- the secret. With a positive tolerance the time that `time.Unix` makes of the timestamp is at
  -- most the tolerance before or behind the clock, or 2^63 nanoseconds (292 years) or more ahead.
  pub verify-IsSigned :
      (secret header body : Str) (tolerance : ℤ) (now : Time)
      → tolerance <ℤ max_int64
      → verify hmac secret header body tolerance now ≡ ok tt
      → IsSigned secret header body tolerance now
  unfolding verify verify_fields
  verify-IsSigned secret header body tolerance now short h =
      let f = read_header header in
      elim (Bool-cases (is_empty f.t || is_empty f.v1)) [
        | inl malformed ↦ absurd (cc (rw malformed at h))
        | inr present ↦ elim (Option-cases (parse_int f.t)) [
          | inl no_number ↦ absurd (cc (rw (present, no_number) at h))
          | inr (unix, parses) ↦
              let h' = rw (present, parses) at h in
              let (reads, fits) = parse_int-some f.t unix parses in
              let (timely, signed) = last_checks _ _ outside_tolerance signature_mismatch h' in
              record {
                unix = unix;
                reads = reads;
                fits = fits;
                mac = sym ((str_eq_iff (compute_mac hmac secret unix body) f.v1).0 signed);
                timely =
                    timely-IsNear unix tolerance now short
                      (late-IsTimely unix tolerance now timely);
              }
        ]
      ]

  -- The tolerance does not bound timestamps of the far future: one that lies 2^63 nanoseconds (292
  -- years) or more ahead of the clock makes the age overflow, and is accepted whatever the
  -- tolerance.
  pub verify-far_future :
      (secret body : Str) (ts : Time) (tolerance : ℤ) (now : Time)
      → ((key message : Str) → 0 < length (hmac key message))
      → in_int64 (unix_of ts) ≡ true
      → now +ℤ pos (2 ^ 63) ≤ℤ time_unix (unix_of ts)
      → pos 0 ≤ℤ tolerance
      → verify hmac secret (sign hmac secret ts body) body tolerance now ≡ ok tt
  verify-far_future secret body ts tolerance now digest fits ahead bound =
      verify-sign secret body ts tolerance now digest fits
        (inr (rw (far_age now (time_unix (unix_of ts)) ahead) (omega arith)))
