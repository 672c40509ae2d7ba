-- ===== src/Config/Tests.antt =====
-- The laws of the settings at work, with the defaults and an API key, on the real device.
use ai_cat_controller.Base.{
  ◌≡◌, ◌≢◌, ◌⊎◌, refl, String, Bool, true, false, Option, some, List, [], ◌∷◌,
}
use ai_cat_controller.Base.Int.{pos}
use ai_cat_controller.Exec.{ok}
use ai_cat_controller.Commands.Runner.{validate}
use ai_cat_controller.Commands.Factory.{create_runner}
use ai_cat_controller.Config.{
  HardwareDriver, Settings, fields_fit, validate_host, validate_service_name,
  validate_systemctl_binary, validate_hardware_binary, build_settings, command_settings,
  require_api_key,
}
use ai_cat_controller.Config.Laws.{
  IsSystemctl, IsK1Command, build_settings-IsK1Command, require_api_key-local_k1,
}

abbrev pub settings : Settings
settings = record {
  hardware_driver = HardwareDriver.local_k1;
  api_host = "127.0.0.1";
  api_port = pos 8000;
  log_level = "INFO";
  api_key_enabled = true;
  api_key = "secret";
  command_timeout = pos 12000;
  dialog_start_timeout = pos 30000;
  motion_cooldown = pos 200;
  enable_tail_motion = false;
  service_status_cache = pos 2000;
  data_path = "/var/lib/ai-cat.db";
  intimacy_daily_cap = pos 20;
  hardware_binary = "/usr/bin/ai-toy_app";
  systemctl_binary = "/usr/bin/systemctl";
  dialog_status_path = "/run/ai-cat/dialog-status.json";
  dialog_event_path = "/var/lib/dialog-events.jsonl";
  dialog_text_request_path = "/var/lib/dialog-text-request.json";
  personality_runtime_path = "/var/lib/personality-runtime.json";
  dialog_config_path = "/var/lib/dialog-config.json";
  device_serial_path = "/proc/device-tree/serial-number";
  battery_supply_path = "/sys/class/power_supply/cw-bat";
  charger_supply_path = "/sys/class/power_supply/ip2317-charger";
  dialog_service = "volc-conv-ai.service";
  wake_service = "volc-k1-wake-word.service";
  pulseaudio_service = "volc-pulseaudio.service";
}

abbrev strip : String → String
strip text = text

abbrev is_ascii : String → Bool
is_ascii text = true

settings-eq : build_settings strip settings ≡ ok settings
unfolding build_settings fields_fit validate_host validate_service_name validate_systemctl_binary
    validate_hardware_binary
settings-eq = refl

abbrev query : List String
query = "is-active" ∷ "volc-conv-ai.service" ∷ []

query-eq : validate (create_runner (command_settings settings)) "/usr/bin/systemctl" query ≡ ok tt
unfolding validate create_runner
query-eq = refl

build_settings-IsK1Command_example :
    (IsSystemctl "/usr/bin/systemctl"
      ⊎ (◌≡◌ {A = String} "/usr/bin/systemctl" "/usr/bin/ai-toy_app"))
    × IsK1Command false "/usr/bin/systemctl" query
build_settings-IsK1Command_example =
    build_settings-IsK1Command strip settings settings "/usr/bin/systemctl" query settings-eq
      query-eq

key-eq : require_api_key is_ascii settings (some "secret") ≡ ok tt
unfolding require_api_key
key-eq = refl

require_api_key-local_k1_example :
    (◌≡◌ {A = Option String} (some "secret") (some "secret")) × (◌≢◌ {A = String} "secret" "")
require_api_key-local_k1_example =
    require_api_key-local_k1 strip is_ascii settings settings (some "secret") settings-eq refl
      key-eq
