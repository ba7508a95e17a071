-- ===== src/Auth.antt =====
-- internal/auth/auth.go. SHA-256 in hexadecimal is a parameter, `hash`; the random part of a new
-- key is an argument.
pub mod Laws
use vex_pay.Common.{Bool, true, false, Option, none, some, List, [], ◌∷◌, ◌++◌, if◌then◌else◌}
use vex_pay.Common.Text.{Str, codes, str_eq, is_empty}
use vex_pay.Common.Text.Space.{trim_space}
use vex_pay.Common.Text.Hex.{hex}
use vex_pay.Common.Dict.{Dict, put}

pub record Principal : Type 0 where
  pub merchant_id : Str
  pub sandbox : Bool

pub record Key : Type 0 where
  pub hash : Str
  pub merchant_id : Str
  pub sandbox : Bool

-- from the hash of a key to the key
abbrev pub KeyStore : Type 0
KeyStore = Dict Key

abbrev pub new_store : KeyStore
new_store = []

unfoldable pub add_key : Key → KeyStore → KeyStore
add_key k store = put store k.hash k

-- the loop over the map
unfoldable pub find_key : KeyStore → Str → Option Principal
find_key [] h = none
find_key ((hash, k) ∷ keys) h =
    let rest = find_key keys h in
    if str_eq hash h
    then some (record { merchant_id = k.merchant_id; sandbox = k.sandbox })
    else rest

module _ (hash_key : Str → Str) where
  unfoldable pub new_key : Str → Str → Bool → Key
  new_key raw merchant_id sandbox = record {
    hash = hash_key raw;
    merchant_id = merchant_id;
    sandbox = sandbox;
  }

  -- `GenerateKey` from 24 random bytes
  unfoldable pub generate_key : Str → Str → Bool → Str × Key
  generate_key random merchant_id sandbox =
      let prefix = if sandbox then codes "vpk_test_" else codes "vpk_live_" in
      let raw = prefix ++ hex random in (raw, new_key raw merchant_id sandbox)

  unfoldable pub authenticate : KeyStore → Str → Option Principal
  authenticate store raw =
      let trimmed = trim_space raw in
      if is_empty trimmed then none else find_key store (hash_key trimmed)
