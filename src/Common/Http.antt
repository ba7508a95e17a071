-- ===== src/Common/Http.antt =====
-- What the clients of other services do alike: a GET whose answer counts only with status 200. The
-- exchange itself is a parameter, `W` the world that answers.
use Prim.Native.Nat.{ℕ}
use mathlib.Core.Bool.{not}
use mathlib.Core.Option.{Option}
use vex_pay.Common.Tests.{◌==◌}
use vex_pay.Common.Results.{Result, ok, fail_if, or_err, ◌>>=◌, ◌>>◌, bad_status, decode_failed}
use vex_pay.Common.Text.{Str}

pub record Reply : Type 0 where
  pub status : ℕ
  pub body : Str

abbrev pub HttpGet : Type 0 → Type 0
HttpGet W = W → Str → Result Reply

unfoldable pub get_ok : {W : Type 0} → HttpGet W → W → Str → Result Str
get_ok http w url = do
  reply ← http w url
  fail_if (not (reply.status == 200)) bad_status
  ok reply.body

unfoldable pub get_json :
    {W : Type 0} {A : Type 0} → HttpGet W → (Str → Option A) → W → Str → Result A
get_json http decode w url = do body ← get_ok http w url; or_err (decode body) decode_failed
