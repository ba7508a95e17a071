-- ===== src/Auth/Laws.antt =====
-- internal/auth/auth.go: which keys authenticate.
use vex_pay.Common.{
  ◌≡◌, refl, Bool, true, false, none, some, [], ◌∷◌, arith, if◌then◌else◌, All, All-implies,
  All-append,
}
use vex_pay.Common.Text.{Str, codes, str_eq, str_eq_iff, str_eq_refl, is_empty}
use vex_pay.Common.Text.Space.{trim_space, trim_space-plain, IsPlain}
use vex_pay.Common.Text.Hex.{hex, hex-IsHexDigit, IsHexDigit}
use vex_pay.Common.Dict.{put}
use vex_pay.Auth.{Key, KeyStore, add_key, find_key, new_key, generate_key, authenticate}

find_key-put :
    (keys : KeyStore) (j h : Str) (k : Key)
    → find_key (put keys j k) h ≡ (
        if str_eq j h
        then some (record { merchant_id = k.merchant_id; sandbox = k.sandbox })
        else find_key keys h)
unfolding find_key put
find_key-put [] j h k = refl
find_key-put ((i, w) ∷ keys) j h k =
    ground (arith, str_eq_iff j h, str_eq_iff i j, str_eq_iff i h, find_key-put keys j h k)

module _ (hash_key : Str → Str) where
  -- Adding a key decides for the texts whose hash is that key's, and for no other text: whoever
  -- else could authenticate still can, as the same merchant.
  pub authenticate-add_key :
      (store : KeyStore) (k : Key) (raw : Str)
      → authenticate hash_key (add_key k store) raw ≡ (
          if is_empty (trim_space raw)
          then none
          else if str_eq k.hash (hash_key (trim_space raw))
          then some (record { merchant_id = k.merchant_id; sandbox = k.sandbox })
          else authenticate hash_key store raw)
  unfolding authenticate add_key
  authenticate-add_key store k raw =
      ground (arith, find_key-put store k.hash (hash_key (trim_space raw)) k)

  hex-IsPlain : (s : Str) → All IsPlain (hex s)
  hex-IsPlain s =
      All-implies IsHexDigit IsPlain (hex s) (λ c h. omega (arith, h)) (hex-IsHexDigit s)

  generated-IsPlain :
      (random merchant : Str) (sandbox : Bool)
      → All IsPlain (generate_key hash_key random merchant sandbox).0
  unfolding generate_key
  generated-IsPlain random merchant true =
      All-append IsPlain (codes "vpk_test_") (hex random) (omega arith) (hex-IsPlain random)
  generated-IsPlain random merchant false =
      All-append IsPlain (codes "vpk_live_") (hex random) (omega arith) (hex-IsPlain random)

  -- A generated key, once its record is stored, authenticates as the merchant and in the mode that
  -- it was generated for, whatever keys were stored before.
  pub authenticate-generate_key :
      (store : KeyStore) (random merchant : Str) (sandbox : Bool)
      → let (raw, key) = generate_key hash_key random merchant sandbox in
        authenticate hash_key (add_key key store) raw
        ≡ some (record { merchant_id = merchant; sandbox = sandbox })
  unfolding generate_key new_key
  authenticate-generate_key store random merchant true =
      rw
        (
          authenticate-add_key store,
          trim_space-plain _ (generated-IsPlain random merchant true),
          str_eq_refl,
        )
        refl
  authenticate-generate_key store random merchant false =
      rw
        (
          authenticate-add_key store,
          trim_space-plain _ (generated-IsPlain random merchant false),
          str_eq_refl,
        )
        refl
