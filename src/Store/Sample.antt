-- ===== src/Store/Sample.antt =====
-- A text of times and of one map for the tests of internal/store: what is needed of the libraries can
-- be had.
use vex_pay.Common.{
  length, ◌⊎◌, inl, inr, ap, ◌∙◌, ◌≢◌, All-append, ℕ, zero, suc, ◌+◌, ◌*◌, ◌/◌, ◌%◌, ◌^◌, ◌<◌, ◌≡◌,
  refl, false, Option, none, some, [], ◌∷◌, ◌++◌, if◌then◌else◌, arith, All,
}
use vex_pay.Common.Int.{pos, negsuc}
use vex_pay.Common.Text.{Str, codes, str_eq, Lacks, cut, cut-append, cut-Lacks, is_empty}
use vex_pay.Common.Text.Decimal.{
  IsDigit, digits, value, value-digits, digits-IsDigit, length-digits_pos,
}
use vex_pay.Common.Dict.{Dict}
use vex_pay.Invoice.{Time}
use vex_pay.Store.Rows.{Codec}
use vex_pay.Store.RoundTrip.{CodecLaws}
use vex_pay.Store.Order.{IsRfc3339Nano}

digits-Lacks : (b : ℕ) (s : Str) → b < b'0' → All IsDigit s → Lacks b s
digits-Lacks b [] h d = tt
digits-Lacks b (c ∷ s) h (here, d) = (ground arith, digits-Lacks b s h d)

-- the seconds, and the nanoseconds behind a point if there are any; a time before the epoch, which
-- no test uses, ends in a dash
abbrev fraction_text : ℕ → Str
fraction_text zero = codes "Z"
fraction_text (suc n) = b'.' ∷ (digits (suc n) ++ codes "Z")

abbrev sample_text : Time → Str
sample_text (pos x) = digits (x / 10 ^ 9) ++ fraction_text (x % 10 ^ 9)
sample_text (negsuc n) = digits n ++ b'-' ∷ []

abbrev read_instant : Option ℕ → Option ℕ → Option Time
read_instant (some s) (some n) = some (pos (s * 10 ^ 9 + n))
read_instant _ _ = none

abbrev read_before_epoch : Option ℕ → Option Time
read_before_epoch none = none
read_before_epoch (some n) = some (negsuc n)

abbrev sample_time : Str → Option Time
sample_time s =
    let dash = cut b'-' s in
    let point = cut b'.' s in
    if dash.found
    then read_before_epoch (value 0 dash.before)
    else if point.found
    then read_instant (value 0 point.before) (value 0 (cut b'Z' point.after).before)
    else read_instant (value 0 (cut b'Z' s).before) (some 0)

fraction-Lacks_dash : (n : ℕ) → Lacks b'-' (fraction_text n)
fraction-Lacks_dash zero = (ground arith, tt)
fraction-Lacks_dash (suc n) = (
  ground arith,
  All-append (λ c. c ≢ b'-') (digits (suc n)) (codes "Z")
      (digits-Lacks b'-' (digits (suc n)) (omega arith) (digits-IsDigit (suc n)))
      (ground arith, tt),
)

digits-Lacks_zone : (s : Str) → All IsDigit s → Lacks b'Z' s
digits-Lacks_zone [] d = tt
digits-Lacks_zone (c ∷ s) (here, d) = (ground arith, digits-Lacks_zone s d)

read-fraction : (s n : ℕ) → sample_time (digits s ++ fraction_text n) ≡ some (pos (s * 10 ^ 9 + n))
read-fraction s zero =
    let d = digits-IsDigit s in
    rw
      (
        cut-Lacks b'-' (digits s ++ codes "Z") (
            All-append (λ c. c ≢ b'-') (digits s) (codes "Z")
              (digits-Lacks b'-' (digits s) (omega arith) d) (ground arith, tt)),
        cut-Lacks b'.' (digits s ++ codes "Z") (
            All-append (λ c. c ≢ b'.') (digits s) (codes "Z")
              (digits-Lacks b'.' (digits s) (omega arith) d) (ground arith, tt)),
        cut-append b'Z' (digits s) [] (digits-Lacks_zone (digits s) d),
        value-digits s,
      )
      refl
read-fraction s (suc n) =
    let d = digits-IsDigit s in
    let e = digits-IsDigit (suc n) in
    rw
      (
        cut-Lacks b'-' (digits s ++ fraction_text (suc n)) (
            All-append (λ c. c ≢ b'-') (digits s) (fraction_text (suc n))
              (digits-Lacks b'-' (digits s) (omega arith) d) (fraction-Lacks_dash (suc n))),
        cut-append b'.' (digits s) (digits (suc n) ++ codes "Z")
            (digits-Lacks b'.' (digits s) (omega arith) d),
        cut-append b'Z' (digits (suc n)) [] (digits-Lacks_zone (digits (suc n)) e),
        value-digits s,
        value-digits (suc n),
      )
      refl

sample_time-sample_text : (t : Time) → sample_time (sample_text t) ≡ some t
sample_time-sample_text (pos x) =
    read-fraction (x / 10 ^ 9) (x % 10 ^ 9) ∙ ap (λ n. some (pos n)) (omega arith)
sample_time-sample_text (negsuc n) =
    rw
      (
        cut-append b'-' (digits n) []
            (digits-Lacks b'-' (digits n) (omega arith) (digits-IsDigit n)),
        value-digits n,
      )
      refl

is_empty-append : (s t : Str) → 0 < length s → is_empty (s ++ t) ≡ false
is_empty-append [] t h = absurd (omega arith)
is_empty-append (c ∷ s) t h = refl

sample_text_written : (t : Time) → is_empty (sample_text t) ≡ false
sample_text_written (pos x) = is_empty-append _ _ (length-digits_pos (x / 10 ^ 9))
sample_text_written (negsuc n) = is_empty-append _ _ (length-digits_pos n)

-- the metadata of the one order, and its JSON
abbrev pub order_seven : Dict Str
order_seven = (codes "order", codes "7") ∷ []

abbrev order_json : Str
order_json = codes "{\"order\":\"7\"}"

abbrev pub sample_codec : Codec
sample_codec = record {
  time_text = sample_text;
  time_parse = sample_time;
  json_marshal = λ m. order_json;
  json_unmarshal = λ s. if str_eq s order_json then some order_seven else none;
}

abbrev pub IsOrder : Dict Str → Type 0
IsOrder m = (m ≡ []) ⊎ (m ≡ order_seven)

pub sample_laws : CodecLaws sample_codec IsOrder
unfolding str_eq
sample_laws = record {
  time_round = λ t printable. sample_time-sample_text t;
  time_written = sample_text_written;
  json_round = λ e m h. elim h [ inl none_of ↦ absurd (cc none_of) | inr seven ↦ rw seven refl ];
  json_written = λ e m. refl;
}

div-whole : (s n : ℕ) → n < 10 ^ 9 → (s * 10 ^ 9 + n) / 10 ^ 9 ≡ s
div-whole s n h = omega arith

mod-whole : (s n : ℕ) → n < 10 ^ 9 → (s * 10 ^ 9 + n) % 10 ^ 9 ≡ n
mod-whole s n h = omega arith

whole_text : (s : ℕ) → sample_text (pos (s * 10 ^ 9)) ≡ digits s ++ codes "Z"
whole_text s =
    let quotient : s * 10 ^ 9 / 10 ^ 9 ≡ s = omega arith in
    let rest : s * 10 ^ 9 % 10 ^ 9 ≡ 0 = omega arith in rw (quotient, rest) refl

part_text :
    (s n : ℕ)
    → 0 < n
    → n < 10 ^ 9
    → sample_text (pos (s * 10 ^ 9 + n)) ≡ digits s ++ b'.' ∷ (digits n ++ codes "Z")
part_text s zero more less = absurd (omega arith)
part_text s (suc n) more less = rw (div-whole s (suc n) less, mod-whole s (suc n) less) refl

pub sample_times : IsRfc3339Nano sample_codec digits
sample_times = record {
  whole = whole_text;
  part = λ s n more less. (digits n, part_text s n more less);
}
