-- ===== src/Autonomy/Setup.antt =====
-- `_bounded_float` and `AutonomyConfig.from_env`. Numbers are in thousandths.
use ai_cat_controller.Base.{String, Bool, not, Option, none, some, ◌==◌, ◌&&◌, if◌then◌else◌}
use ai_cat_controller.Base.Int.{ℤ, pos, leb_ℤ, ltb_ℤ}
use ai_cat_controller.Errors.{value_error}
use ai_cat_controller.Exec.{Result, ok, err}

pub record AutonomyConfig : Type 0 where
  pub api_port : ℤ
  pub api_key : String
  pub initial_delay : ℤ
  pub minimum_interval : ℤ
  pub maximum_interval : ℤ
  pub phrase_probability : ℤ
  pub cloud_speech_enabled : Bool
  pub local_speech_enabled : Bool
  pub local_speech_asset_root : String
  pub local_speech_marker_path : String
  pub local_speech_player_path : String
  pub local_speech_motion_settle : ℤ

-- The environment's texts, Python's reading of numbers, and `lower`.
pub record Environ : Type 0 where
  pub get : String → Option String
  pub parse_int : String → Option ℤ
  pub parse_float : String → Option ℤ
  pub lower : String → String

abbrev pub text_or : Environ → String → String → String
text_or env name default = elim (env.get name) [ none ↦ default | some value ↦ value ]

abbrev pub checked : String → ℤ → ℤ → Option ℤ → Result ℤ
checked name minimum maximum none = err (value_error name)
checked name minimum maximum (some v) =
    if leb_ℤ minimum v && leb_ℤ v maximum then ok v else err (value_error name)

abbrev pub parsed : Environ → Option String → ℤ → Option ℤ
parsed env none default = some default
parsed env (some text) default = env.parse_float text

-- The message is the name of the variable. A default is in its range, and is read back from its text.
unfoldable pub bounded_float : Environ → String → ℤ → ℤ → ℤ → Result ℤ
bounded_float env name default minimum maximum =
    checked name minimum maximum (parsed env (env.get name) default)

abbrev pub parsed_port : Environ → Option String → Option ℤ
parsed_port env none = some (pos 8000)
parsed_port env (some text) = env.parse_int text

unfoldable pub read_port : Environ → Result ℤ
read_port env =
    checked "AI_CAT_API_PORT" (pos 1) (pos 65535) (parsed_port env (env.get "AI_CAT_API_PORT"))

abbrev pub is_enabled : Environ → String → Bool
is_enabled env name = env.lower (text_or env name "false") == "true"

infixl 5 ◌>>=◌ ◌>>◌
abbrev pub ◌>>=◌ : {A B : Type 0} → Result A → (A → Result B) → Result B
◌>>=◌ (ok a) f = f a
◌>>=◌ (err e) f = err e

abbrev pub ◌>>◌ : {A B : Type 0} → Result A → Result B → Result B
r >> s = r >>= λ _. s

abbrev pub require : Bool → String → Result (Unit {0})
require b message = if b then ok tt else err (value_error message)

unfoldable pub from_env : Environ → Result AutonomyConfig
from_env env = do
  port ← read_port env
  require (not (is_enabled env "AI_CAT_API_KEY_ENABLED" && text_or env "AI_CAT_API_KEY" "" == ""))
      "AI_CAT_API_KEY is required"
  initial ←
      bounded_float env "AI_CAT_AUTONOMY_INITIAL_DELAY_SECONDS" (pos 45000) (pos 0) (pos 600000)
  low ←
      bounded_float env "AI_CAT_AUTONOMY_MIN_INTERVAL_SECONDS" (pos 180000) (pos 15000)
        (pos 3600000)
  high ←
      bounded_float env "AI_CAT_AUTONOMY_MAX_INTERVAL_SECONDS" (pos 180000) (pos 15000)
        (pos 3600000)
  require (not (ltb_ℤ high low)) "AI_CAT_AUTONOMY_MAX_INTERVAL_SECONDS"
  require
      (not (
        is_enabled env "AI_CAT_AUTONOMY_CLOUD_SPEECH_ENABLED"
        && is_enabled env "AI_CAT_AUTONOMY_LOCAL_SPEECH_ENABLED"))
      "cloud and local autonomy speech cannot both be enabled"
  probability ← bounded_float env "AI_CAT_AUTONOMY_PHRASE_PROBABILITY" (pos 1000) (pos 0) (pos 1000)
  settle ←
      bounded_float env "AI_CAT_AUTONOMY_LOCAL_SPEECH_MOTION_SETTLE_SECONDS" (pos 2200) (pos 0)
        (pos 10000)
  ok (record {
    api_port = port;
    api_key = text_or env "AI_CAT_API_KEY" "";
    initial_delay = initial;
    minimum_interval = low;
    maximum_interval = high;
    phrase_probability = probability;
    cloud_speech_enabled = is_enabled env "AI_CAT_AUTONOMY_CLOUD_SPEECH_ENABLED";
    local_speech_enabled = is_enabled env "AI_CAT_AUTONOMY_LOCAL_SPEECH_ENABLED";
    local_speech_asset_root =
        text_or env "AI_CAT_AUTONOMY_LOCAL_SPEECH_ASSET_ROOT"
          "/opt/ai-cat-controller/assets/local-speech";
    local_speech_marker_path =
        text_or env "AI_CAT_AUTONOMY_LOCAL_SPEECH_MARKER_PATH" "/run/ai-cat/local-speech-active";
    local_speech_player_path =
        text_or env "AI_CAT_AUTONOMY_LOCAL_SPEECH_PLAYER_PATH" "/usr/bin/paplay";
    local_speech_motion_settle = settle;
  })
