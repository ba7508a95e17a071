-- ===== src/Rates/Fresh.antt =====
-- internal/rates/rates.go, `price`: where a price of the oracle comes from.
use vex_pay.Common.{
  ◌≡◌, refl, ◌⊎◌, inl, inr, true, false, none, some, List, [], ◌∷◌, Bool-cases, Option-cases,
  Result-cases, ok, err, no_rate, ok-injective, some-injective, All, ap, subst, ltb→lt, lt→ltb, sym,
  ◌∙◌,
}
use vex_pay.Common.Int.{◌<ℤ◌, ltb_ℤ}
use vex_pay.Common.Text.{Str, str_eq}
use vex_pay.Common.Dict.{get, put, get-put}
use vex_pay.Common.Int.Machine.{time_sub}
use vex_pay.Money.{Asset}
use vex_pay.Invoice.{Time}
use vex_pay.Rates.{
  Provider, CacheEntry, Cache, Oracle, Texts, to_lower, cache_key, ask, cached, price_of, price,
}
use vex_pay.Rates.Rational.{Rat, is_pos}

-- a provider fails, or names a price that is not positive
abbrev pub IsUseless : {W : Type 0} → W → Asset → Str → Provider W → Type 0
IsUseless w asset fiat p = (r : Rat) → p w asset fiat ≡ ok r → is_pos r ≡ false

-- `r` is the positive price of the first provider that names one
pub data IsFirstPrice {W : Type 0} (w : W) (asset : Asset) (fiat : Str) (r : Rat)
    : List (Provider W) → Type 0 where
  here :
      {p : Provider W} {ps : List (Provider W)}
      → p w asset fiat ≡ ok r
      → is_pos r ≡ true
      → IsFirstPrice w asset fiat r (p ∷ ps)
  later :
      {p : Provider W} {ps : List (Provider W)}
      → IsUseless w asset fiat p
      → IsFirstPrice w asset fiat r ps
      → IsFirstPrice w asset fiat r (p ∷ ps)

-- every price of the cache is positive
abbrev pub IsSoundCache : Cache → Type 0
IsSoundCache cache = (key : Str) (e : CacheEntry) → get cache key ≡ some e → is_pos e.price ≡ true

module _ {W : Type 0} (w : W) (asset : Asset) (fiat : Str) where
  ask-IsFirstPrice :
      (ps : List (Provider W)) (r : Rat)
      → ask ps w asset fiat ≡ some r
      → IsFirstPrice w asset fiat r ps
  unfolding ask
  ask-IsFirstPrice [] r h = cc
  ask-IsFirstPrice (p ∷ ps) r h = elim (Result-cases (p w asset fiat)) [
    | inl (e, failed) ↦ later (λ q a. cc) (ask-IsFirstPrice ps r (rw failed at h))
    | inr (q, named) ↦ elim (Bool-cases (is_pos q)) [
      | inl positive ↦
          let same : q ≡ r = some-injective (rw (named, positive) at h) in
          here (named ∙ ap ok same) (subst (λ x. is_pos x ≡ true) same positive)
      | inr useless ↦
          later (λ x a. subst (λ y. is_pos y ≡ false) (ok-injective (sym named ∙ a)) useless)
            (ask-IsFirstPrice ps r (rw (named, useless) at h))
    ]
  ]

  ask-none : (ps : List (Provider W)) → ask ps w asset fiat ≡ none → All (IsUseless w asset fiat) ps
  unfolding ask
  ask-none [] h = tt
  ask-none (p ∷ ps) h = elim (Result-cases (p w asset fiat)) [
    | inl (e, failed) ↦ (λ q a. cc, ask-none ps (rw failed at h))
    | inr (q, named) ↦ elim (Bool-cases (is_pos q)) [
      | inl positive ↦ absurd (cc (rw (named, positive) at h))
      | inr useless ↦ (
        λ x a. subst (λ y. is_pos y ≡ false) (ok-injective (sym named ∙ a)) useless,
        ask-none ps (rw (named, useless) at h),
      )
    ]
  ]

  IsFirstPrice-positive :
      {r : Rat} {ps : List (Provider W)} → IsFirstPrice w asset fiat r ps → is_pos r ≡ true
  IsFirstPrice-positive (here _ p) = p
  IsFirstPrice-positive (later _ h) = IsFirstPrice-positive h

module _ {W : Type 0} (texts : Texts) (o : Oracle W) where
  -- a price of the cache that is younger than the time to live
  abbrev pub IsFresh : Time → Str → Cache → Rat → Type 0
  IsFresh now key cache r =
      (e : CacheEntry) × (get cache key ≡ some e) × (time_sub now e.at <ℤ o.ttl) × (e.price ≡ r)

  cached-IsFresh :
      (now : Time) (key : Str) (cache : Cache) (r : Rat)
      → cached o now key cache ≡ some r
      → IsFresh now key cache r
  unfolding cached
  cached-IsFresh now key cache r h = elim (Option-cases (get cache key)) [
    | inl absent ↦ absurd (cc (rw (absent, cached) at h))
    | inr (e, there) ↦ elim (Bool-cases (ltb_ℤ (time_sub now e.at) o.ttl)) [
      | inl young ↦ (e, there, ltb→lt _ _ young, some-injective (rw (there, young, cached) at h))
      | inr old ↦ absurd (cc (rw (there, old, cached) at h))
    ]
  ]

  not_cached :
      (now : Time) (key : Str) (cache : Cache) (r : Rat)
      → cached o now key cache ≡ none
      → ¬ IsFresh now key cache r
  unfolding cached
  not_cached now key cache r h (e, there, young, _) = cc (rw (there, lt→ltb _ _ young, cached) at h)

  -- an answer of the cache, of a provider, or none
  abbrev pub Quoted : W → Time → Time → Asset → Str → Cache → Type 0
  Quoted w now now' asset currency cache =
      let fiat = to_lower texts currency in
      let key = cache_key asset fiat in
      let out = price texts o w now now' asset currency cache in
      ((r : Rat) × (out ≡ (ok r, cache)) × IsFresh now key cache r)
      ⊎ (((r : Rat) → ¬ IsFresh now key cache r)
          × (((r : Rat) × (out ≡ (ok r, put cache key (record { price = r; at = now' })))
                × IsFirstPrice w asset fiat r o.providers)
              ⊎ ((out ≡ (err no_rate, cache)) × All (IsUseless w asset fiat) o.providers)))

  -- The oracle fails closed. It answers either the price that the cache holds for the asset and the
  -- currency and that is younger than the time to live; or, when there is no such price, the
  -- positive price of the first provider that names one, which it stores with the time; or it fails
  -- with the cache as it was, when there is neither.
  pub price-fresh :
      (w : W) (now now' : Time) (asset : Asset) (currency : Str) (cache : Cache)
      → Quoted w now now' asset currency cache
  unfolding price price_of
  price-fresh w now now' asset currency cache =
      let fiat = to_lower texts currency in
      let key = cache_key asset fiat in
      elim (Option-cases (cached o now key cache)) [
        | inr (r, hit) ↦ inl (r, rw (hit, price, price_of) refl, cached-IsFresh now key cache r hit)
        | inl miss ↦ elim (Option-cases (ask o.providers w asset fiat)) [
          | inl nobody ↦ inr (
            λ r. not_cached now key cache r miss,
            inr (rw (miss, nobody, price, price_of) refl, ask-none w asset fiat o.providers nobody),
          )
          | inr (r, named) ↦ inr (
            λ q. not_cached now key cache q miss,
            inl (
              r,
              rw (miss, named, price, price_of) refl,
              ask-IsFirstPrice w asset fiat o.providers r named,
            ),
          )
        ]
      ]

  put-IsSoundCache :
      (cache : Cache) (key : Str) (e : CacheEntry)
      → IsSoundCache cache
      → is_pos e.price ≡ true
      → IsSoundCache (put cache key e)
  put-IsSoundCache cache key e sound p j x h = elim (Bool-cases (str_eq key j)) [
    | inl same ↦ subst (λ y. is_pos y.price ≡ true) (some-injective (rw (get-put, same) at h)) p
    | inr other ↦ sound j x (rw (get-put, other) at h)
  ]

  -- Every price that the oracle answers is positive, and its cache only ever holds positive prices.
  pub price-IsSoundCache :
      (w : W) (now now' : Time) (asset : Asset) (currency : Str) (cache : Cache)
      → IsSoundCache cache
      → IsSoundCache (price texts o w now now' asset currency cache).1
        × ((r : Rat) → (price texts o w now now' asset currency cache).0 ≡ ok r → is_pos r ≡ true)
  price-IsSoundCache w now now' asset currency cache sound =
      elim (price-fresh w now now' asset currency cache) [
        | inl (r, e, fresh) ↦
            let (entry, there, _, same) = fresh in
            rw e (
              sound,
              λ q h. subst (λ y. is_pos y ≡ true) (same ∙ ok-injective h) (sound _ entry there),
            )
        | inr (_, inl (r, e, first)) ↦
            let positive = IsFirstPrice-positive w asset _ first in
            rw e (
              put-IsSoundCache cache _ _ sound positive,
              λ q h. subst (λ y. is_pos y ≡ true) (ok-injective h) positive,
            )
        | inr (_, inr (e, _)) ↦ rw e (sound, λ q h. cc)
      ]
