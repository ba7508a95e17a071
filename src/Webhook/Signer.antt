-- ===== src/Webhook/Signer.antt =====
-- internal/webhook/signer.go. HMAC-SHA256 is a parameter: its key, its message and its digest are
-- bytes. Times are nanoseconds since the epoch.
use vex_pay.Common.{
  ◌+◌, ◌*◌, ◌/◌, ◌^◌, ◌&&◌, ◌||◌, not, Option, none, some, List, [], ◌∷◌, ◌++◌, if◌then◌else◌,
  Result, malformed_header, invalid_timestamp, outside_tolerance, signature_mismatch, fail_if,
  or_err, ◌>>=◌, ◌>>◌,
}
use vex_pay.Common.Int.{ℤ, pos, negsuc, neg, ltb_ℤ, ◌+ℤ◌, ◌-ℤ◌}
use vex_pay.Common.Text.{Str, codes, str_eq, is_empty, cut}
use vex_pay.Common.Text.Space.{trim_space}
use vex_pay.Common.Text.Split.{split}
use vex_pay.Common.Text.Decimal.{set_string, int_string}
use vex_pay.Common.Text.Hex.{hex}
use vex_pay.Common.Int.Machine.{wrap64, in_int64, time_sub}
use vex_pay.Invoice.{Time}

-- `ts.Unix()`: whole seconds, rounded down
unfoldable pub unix_of : Time → ℤ
unix_of (pos n) = pos (n / 10 ^ 9)
unix_of (negsuc n) = negsuc (n / 10 ^ 9)

-- `time.Unix(unix, 0)` counts seconds from year 1, in 64 bits
abbrev pub unix_to_internal : ℤ
unix_to_internal = pos 62135596800

-- a number of seconds in nanoseconds
unfoldable pub seconds : ℤ → Time
seconds (pos n) = pos (n * 10 ^ 9)
seconds (negsuc n) = neg (pos ((n + 1) * 10 ^ 9))

unfoldable pub time_unix : ℤ → Time
time_unix unix = seconds (wrap64 (unix +ℤ unix_to_internal) -ℤ unix_to_internal)

-- `strconv.ParseInt(s, 10, 64)`
unfoldable pub parse_int : Str → Option ℤ
parse_int s = elim (set_string s) [ none ↦ none | some x ↦ if in_int64 x then some x else none ]

-- what the loop over the parts has read
pub record Fields : Type 0 where
  pub t : Str
  pub v1 : Str

unfoldable pub read_part : Str → Fields → Fields
read_part part f =
    let c = cut b'=' (trim_space part) in
    if not c.found
    then f
    else if str_eq c.before (codes "t")
    then record f { t = c.after }
    else if str_eq c.before (codes "v1")
    then record f { v1 = c.after }
    else f

unfoldable pub read_parts : List Str → Fields → Fields
read_parts [] f = f
read_parts (part ∷ parts) f = read_parts parts (read_part part f)

unfoldable pub read_header : Str → Fields
unfolding read_part read_parts
read_header header = read_parts (split b',' header) (record { t = []; v1 = [] })

-- `-x` in 64 bits
unfoldable pub age_of : ℤ → ℤ
age_of age = if ltb_ℤ age (pos 0) then wrap64 (neg age) else age

module _ (hmac : Str → Str → Str) where
  unfoldable pub compute_mac : Str → ℤ → Str → Str
  compute_mac secret unix body = hex (hmac secret (int_string unix ++ b'.' ∷ body))

  unfoldable pub sign : Str → Time → Str → Str
  sign secret ts body =
      codes "t="
      ++ (int_string (unix_of ts) ++ (codes ",v1=" ++ compute_mac secret (unix_of ts) body))

  -- the checks behind the reading of the header
  unfoldable pub verify_fields : Str → Str → ℤ → Time → Fields → Result (Unit {0})
  verify_fields secret body tolerance now f = do
    fail_if (is_empty f.t || is_empty f.v1) malformed_header
    unix ← or_err (parse_int f.t) invalid_timestamp
    fail_if (ltb_ℤ (pos 0) tolerance && ltb_ℤ tolerance (age_of (time_sub now (time_unix unix))))
        outside_tolerance
    fail_if (not (str_eq (compute_mac secret unix body) f.v1)) signature_mismatch

  unfoldable pub verify : Str → Str → Str → ℤ → Time → Result (Unit {0})
  unfolding verify_fields
  verify secret header body tolerance now =
      verify_fields secret body tolerance now (read_header header)
