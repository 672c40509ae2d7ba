-- ===== src/Autonomy/Limits.antt =====
-- What a configuration that `from_env` accepts keeps to.
use ai_cat_controller.Base.{
  ◌≡◌, refl, inl, inr, ◌⊎◌, String, false, Option, none, some, arith, ◌&&◌,
}
use ai_cat_controller.Base.Int.{ℤ, pos, ◌≤ℤ◌}
use ai_cat_controller.Errors.{Exception}
use ai_cat_controller.Exec.{Result, ok, err}
use ai_cat_controller.Autonomy.Setup.{
  AutonomyConfig, Environ, bounded_float, checked, from_env, parsed, parsed_port, read_port,
}

abbrev pub IsWithin : ℤ → ℤ → ℤ → Type 0
IsWithin low high n = (low ≤ℤ n) × (n ≤ℤ high)

-- the safe pauses, and no speech through both ways at once
abbrev pub IsSound : AutonomyConfig → Type 0
IsSound c =
    IsWithin (pos 1) (pos 65535) c.api_port
    × IsWithin (pos 15000) (pos 3600000) c.minimum_interval
    × IsWithin (pos 15000) (pos 3600000) c.maximum_interval
    × (c.minimum_interval ≤ℤ c.maximum_interval)
    × (c.cloud_speech_enabled && c.local_speech_enabled ≡ false)

checked-IsWithin :
    (name : String) (low high n : ℤ) (v : Option ℤ)
    → checked name low high v ≡ ok n
    → IsWithin low high n
checked-IsWithin name low high n none h = absurd (ground arith)
checked-IsWithin name low high n (some v) h = (ground arith, ground arith)

Result-cases :
    {A : Type 0} (r : Result A) → ((e : Exception) × (r ≡ err e)) ⊎ ((a : A) × (r ≡ ok a))
Result-cases (err e) = inl (e, refl)
Result-cases (ok a) = inr (a, refl)

bounded_float-cases :
    (env : Environ) (name : String) (default low high : ℤ)
    → ((e : Exception) × (bounded_float env name default low high ≡ err e))
      ⊎ ((n : ℤ) × (bounded_float env name default low high ≡ ok n) × IsWithin low high n)
unfolding bounded_float
bounded_float-cases env name default low high =
    let v = parsed env (env.get name) default in
    elim (Result-cases (checked name low high v)) [
      | inl (e, h) ↦ inl (e, h)
      | inr (n, h) ↦ inr (n, h, checked-IsWithin name low high n v h)
    ]

read_port-cases :
    (env : Environ)
    → ((e : Exception) × (read_port env ≡ err e))
      ⊎ ((n : ℤ) × (read_port env ≡ ok n) × IsWithin (pos 1) (pos 65535) n)
unfolding read_port
read_port-cases env =
    let v = parsed_port env (env.get "AI_CAT_API_PORT") in
    elim (Result-cases (checked "AI_CAT_API_PORT" (pos 1) (pos 65535) v)) [
      | inl (e, h) ↦ inl (e, h)
      | inr (n, h) ↦ inr (n, h, checked-IsWithin "AI_CAT_API_PORT" (pos 1) (pos 65535) n v h)
    ]

-- A configuration that is accepted, whatever the environment says, has a port of the range, intervals from
-- 15 seconds to an hour in their order, and not both ways of speech.
pub from_env-IsSound : (env : Environ) (c : AutonomyConfig) → from_env env ≡ ok c → IsSound c
unfolding from_env
from_env-IsSound env c h = ground (
  arith,
  read_port-cases env,
  bounded_float-cases env "AI_CAT_AUTONOMY_MIN_INTERVAL_SECONDS" (pos 180000) (pos 15000)
      (pos 3600000),
  bounded_float-cases env "AI_CAT_AUTONOMY_MAX_INTERVAL_SECONDS" (pos 180000) (pos 15000)
      (pos 3600000),
)
