-- ===== src/Config/Tests.antt =====
-- internal/config at concrete inputs.
use vex_pay.Common.{◌≡◌, refl, Option, none, ok, err, invalid_config, if◌then◌else◌, []}
use vex_pay.Common.Int.{ℤ, pos, ◌≤ℤ◌}
use vex_pay.Common.Text.{Str, codes, str_eq}
use vex_pay.Config.{default_config, load, validate, trim_slashes, confirmations_env, is_production}
use vex_pay.Config.Valid.{IsSafeConfig, load-IsSafeConfig, validate-IsSafeConfig}

abbrev unread : Str → Option ℤ
unread _ = none

abbrev no_variables : Str → Str
no_variables _ = []

load_defaults : load unread no_variables ≡ ok default_config
unfolding load trim_slashes confirmations_env validate is_production str_eq
load_defaults = refl

-- production without a session secret
load_production :
    load unread (λ k. if str_eq k (codes "ENV") then codes "production" else [])
    ≡ err invalid_config
unfolding load trim_slashes confirmations_env validate is_production str_eq
load_production = refl

load-IsSafeConfig_example :
    IsSafeConfig default_config × (pos 1 ≤ℤ default_config.sandbox_confirmations)
load-IsSafeConfig_example = load-IsSafeConfig unread no_variables default_config load_defaults

validate-IsSafeConfig_test : IsSafeConfig default_config
unfolding validate is_production str_eq
validate-IsSafeConfig_test = (validate-IsSafeConfig default_config).0 refl
