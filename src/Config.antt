-- ===== src/Config.antt =====
-- core/config.py and core/security.py: the settings with their validators, and the API key.
pub mod Laws
pub mod Tests
use ai_cat_controller.Base.{
  ℕ, String, Bool, true, false, not, Option, none, some, List, [], ◌∷◌, ◌==◌, ◌&&◌, ◌||◌, member,
  if◌then◌else◌,
}
use ai_cat_controller.Base.Int.{ℤ, pos, negsuc, leb_ℤ, ltb_ℤ}
use ai_cat_controller.Errors.{Exception, ai_cat, value_error, type_error, authentication_error}
use ai_cat_controller.Exec.{Result, ok, err}
use ai_cat_controller.Commands.Factory.{CommandSettings}

pub data HardwareDriver : Type 0 where
  mock local_k1 : HardwareDriver

-- `log_level` is one of five texts. Seconds are counted in milliseconds.
pub record Settings : Type 0 where
  pub hardware_driver : HardwareDriver
  pub api_host : String
  pub api_port : ℤ
  pub log_level : String
  pub api_key_enabled : Bool
  pub api_key : String
  pub command_timeout : ℤ
  pub dialog_start_timeout : ℤ
  pub motion_cooldown : ℤ
  pub enable_tail_motion : Bool
  pub service_status_cache : ℤ
  pub data_path : String
  pub intimacy_daily_cap : ℤ
  pub hardware_binary : String
  pub systemctl_binary : String
  pub dialog_status_path : String
  pub dialog_event_path : String
  pub dialog_text_request_path : String
  pub personality_runtime_path : String
  pub dialog_config_path : String
  pub device_serial_path : String
  pub battery_supply_path : String
  pub charger_supply_path : String
  pub dialog_service : String
  pub wake_service : String
  pub pulseaudio_service : String

unfoldable pub confirmed_service_names : List String
confirmed_service_names =
    "volc-pulseaudio.service" ∷ "volc-conv-ai.service" ∷ "volc-k1-wake-word.service" ∷ []

abbrev within : ℤ → ℤ → ℤ → Bool
within low high x = leb_ℤ low x && leb_ℤ x high

-- The constraints of the `Field`s, and the `Literal` of `log_level`.
unfoldable pub fields_fit : Settings → Bool
fields_fit s =
    within (pos 1) (pos 65535) s.api_port
    && member s.log_level ("DEBUG" ∷ "INFO" ∷ "WARNING" ∷ "ERROR" ∷ "CRITICAL" ∷ [])
    && (ltb_ℤ (pos 0) s.command_timeout && leb_ℤ s.command_timeout (pos 60000))
    && within (pos 5000) (pos 120000) s.dialog_start_timeout
    && within (pos 0) (pos 10000) s.motion_cooldown
    && within (pos 0) (pos 60000) s.service_status_cache
    && within (pos 1) (pos 100) s.intimacy_daily_cap

-- the validators of single fields; `strip` is Python's `str.strip`
unfoldable pub validate_host : (String → String) → String → Option String
validate_host strip value =
    let stripped = strip value in if stripped == "" then none else some stripped

unfoldable pub validate_service_name : String → Bool
unfolding confirmed_service_names
validate_service_name value = member value confirmed_service_names

unfoldable pub validate_systemctl_binary : String → Bool
validate_systemctl_binary value = value == "/usr/bin/systemctl" || value == "/bin/systemctl"

unfoldable pub validate_hardware_binary : String → Bool
validate_hardware_binary value = value == "/usr/bin/ai-toy_app"

abbrev is_local_k1 : HardwareDriver → Bool
is_local_k1 local_k1 = true
is_local_k1 mock = false

-- `validate_security`
unfoldable pub validate_security : Settings → Bool
validate_security s =
    not (s.api_key_enabled && s.api_key == "")
    && not (is_local_k1 s.hardware_driver && not s.api_key_enabled)

abbrev pub texts_fit : Settings → Bool
texts_fit s =
    validate_service_name s.dialog_service
    && validate_service_name s.wake_service
    && validate_service_name s.pulseaudio_service
    && validate_systemctl_binary s.systemctl_binary
    && validate_hardware_binary s.hardware_binary

abbrev invalid : Exception
invalid = value_error "validation error for Settings"

abbrev with_host : Settings → Option String → Result Settings
with_host s none = err invalid
with_host s (some host) =
    let s' = record s { api_host = host } in if validate_security s' then ok s' else err invalid

-- Building a `Settings` from values of the right types: the fields first, then the whole.
unfoldable pub build_settings : (String → String) → Settings → Result Settings
unfolding validate_security
build_settings strip s =
    if fields_fit s && texts_fit s
    then with_host s (validate_host strip s.api_host)
    else err invalid

-- The environment's texts, with the defaults of `from_env`.
pub record Environment : Type 0 where
  pub get : String → Option String

abbrev get_or : Environment → String → String → String
get_or env name default = elim (env.get name) [ none ↦ default | some value ↦ value ]

-- What `model_validate` is given, field by field.
pub record RawSettings : Type 0 where
  pub hardware_driver : String
  pub api_host : String
  pub api_port : String
  pub log_level : String
  pub api_key_enabled : String
  pub api_key : String
  pub command_timeout_seconds : String
  pub dialog_start_timeout_seconds : String
  pub motion_cooldown_seconds : String
  pub enable_tail_motion : String
  pub service_status_cache_seconds : String
  pub data_path : String
  pub intimacy_daily_cap : String
  pub hardware_binary : String
  pub systemctl_binary : String
  pub dialog_status_path : String
  pub dialog_event_path : String
  pub dialog_text_request_path : String
  pub personality_runtime_path : String
  pub dialog_config_path : String
  pub device_serial_path : String
  pub battery_supply_path : String
  pub charger_supply_path : String
  pub dialog_service : String
  pub wake_service : String
  pub pulseaudio_service : String

unfoldable pub raw_settings : (String → String) → Environment → RawSettings
raw_settings upper env = record {
  hardware_driver = get_or env "AI_CAT_HARDWARE_DRIVER" "mock";
  api_host = get_or env "AI_CAT_API_HOST" "127.0.0.1";
  api_port = get_or env "AI_CAT_API_PORT" "8000";
  log_level = upper (get_or env "AI_CAT_LOG_LEVEL" "INFO");
  api_key_enabled = get_or env "AI_CAT_API_KEY_ENABLED" "false";
  api_key = get_or env "AI_CAT_API_KEY" "";
  command_timeout_seconds = get_or env "AI_CAT_COMMAND_TIMEOUT_SECONDS" "12.0";
  dialog_start_timeout_seconds = get_or env "AI_CAT_DIALOG_START_TIMEOUT_SECONDS" "30.0";
  motion_cooldown_seconds = get_or env "AI_CAT_MOTION_COOLDOWN_SECONDS" "0.2";
  enable_tail_motion = get_or env "AI_CAT_ENABLE_TAIL_MOTION" "false";
  service_status_cache_seconds = get_or env "AI_CAT_SERVICE_STATUS_CACHE_SECONDS" "2.0";
  data_path = get_or env "AI_CAT_DATA_PATH" ".data/ai-cat-mock.db";
  intimacy_daily_cap = get_or env "AI_CAT_INTIMACY_DAILY_CAP" "20";
  hardware_binary = get_or env "AI_CAT_HARDWARE_BINARY" "/usr/bin/ai-toy_app";
  systemctl_binary = get_or env "AI_CAT_SYSTEMCTL_BINARY" "/usr/bin/systemctl";
  dialog_status_path = get_or env "AI_CAT_DIALOG_STATUS_PATH" "/run/ai-cat/dialog-status.json";
  dialog_event_path =
      get_or env "AI_CAT_DIALOG_EVENT_PATH" "/var/lib/ai-cat-controller/dialog-events.jsonl";
  dialog_text_request_path =
      get_or env "AI_CAT_DIALOG_TEXT_REQUEST_PATH"
        "/var/lib/ai-cat-controller/dialog-text-request.json";
  personality_runtime_path =
      get_or env "AI_CAT_PERSONALITY_RUNTIME_PATH"
        "/var/lib/ai-cat-controller/personality-runtime.json";
  dialog_config_path = get_or env "AI_CAT_DIALOG_CONFIG_PATH" ".data/dialog-runtime-config.json";
  device_serial_path = get_or env "AI_CAT_DEVICE_SERIAL_PATH" "/proc/device-tree/serial-number";
  battery_supply_path = get_or env "AI_CAT_BATTERY_SUPPLY_PATH" "/sys/class/power_supply/cw-bat";
  charger_supply_path =
      get_or env "AI_CAT_CHARGER_SUPPLY_PATH" "/sys/class/power_supply/ip2317-charger";
  dialog_service = get_or env "AI_CAT_DIALOG_SERVICE" "volc-conv-ai.service";
  wake_service = get_or env "AI_CAT_WAKE_SERVICE" "volc-k1-wake-word.service";
  pulseaudio_service = get_or env "AI_CAT_PULSEAUDIO_SERVICE" "volc-pulseaudio.service";
}

-- The texts of `from_env` converted by pydantic, where it can.
abbrev converted : (String → String) → Option Settings → Result Settings
converted strip none = err invalid
converted strip (some s) = build_settings strip s

unfoldable pub from_env :
    (RawSettings → Option Settings)
    → (String → String)
    → (String → String)
    → Environment
    → Result Settings
unfolding build_settings raw_settings
from_env convert strip upper env = converted strip (convert (raw_settings upper env))

-- `str` of the paths, and the names of the services, as adapters/factory.py reads them
abbrev pub command_settings : Settings → CommandSettings
command_settings s = record {
  hardware_binary = s.hardware_binary;
  systemctl_binary = s.systemctl_binary;
  enable_tail_motion = s.enable_tail_motion;
  dialog_service = s.dialog_service;
  wake_service = s.wake_service;
  pulseaudio_service = s.pulseaudio_service;
}

-- `secrets.compare_digest` on texts: it compares ASCII texts, and raises for any other.
abbrev compare_digest : (String → Bool) → String → String → Result Bool
compare_digest is_ascii a b = if is_ascii a && is_ascii b then ok (a == b) else err type_error

abbrev unauthenticated : Exception
unauthenticated = ai_cat authentication_error "API Key 缺失或无效"

abbrev judged : Result Bool → Result (Unit {0})
judged (err e) = err e
judged (ok same) = if same then ok tt else err unauthenticated

-- `require_api_key`, with the header `X-API-Key`
unfoldable pub require_api_key : (String → Bool) → Settings → Option String → Result (Unit {0})
require_api_key is_ascii s none = if s.api_key_enabled then err unauthenticated else ok tt
require_api_key is_ascii s (some key) =
    if s.api_key_enabled then judged (compare_digest is_ascii key s.api_key) else ok tt
