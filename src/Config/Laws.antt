-- ===== src/Config/Laws.antt =====
-- What valid settings guarantee: of the commands that are run, and of the calls that are answered.
use Prim.Native.String.{◌++◌ as text_append}
use mathlib.Core.Path.{subst}
use ai_cat_controller.Base.{
  sym, ◌∙◌, ◌≡◌, ◌≢◌, ◌⊎◌, inl, inr, String, Bool, true, Option, none, some, List, [], ◌∷◌, arith,
  eq_iff,
}
use ai_cat_controller.Exec.{ok}
use ai_cat_controller.Commands.Runner.{validate}
use ai_cat_controller.Commands.Factory.{create_runner}
use ai_cat_controller.Commands.Allowlist.{IsMotorOf, IsService, IsPermitted, validate-IsPermitted}
use ai_cat_controller.Config.{
  HardwareDriver, Settings, fields_fit, texts_fit, validate_host, validate_service_name,
  validate_systemctl_binary, validate_hardware_binary, validate_security, build_settings,
  command_settings, require_api_key,
}

abbrev pub IsConfirmed : String → Type 0
IsConfirmed name =
    (name ≡ "volc-pulseaudio.service")
    ⊎ (name ≡ "volc-conv-ai.service")
    ⊎ (name ≡ "volc-k1-wake-word.service")

validate_service_name-IsConfirmed :
    (name : String) → validate_service_name name ≡ true → IsConfirmed name
unfolding validate_service_name
validate_service_name-IsConfirmed name h = ground (
  arith,
  eq_iff name "volc-pulseaudio.service",
  eq_iff name "volc-conv-ai.service",
  eq_iff name "volc-k1-wake-word.service",
)

-- Valid settings name confirmed services and binaries alone, and for the real device there is an API
-- key that is asked for.
pub record IsSafe (s : Settings) : Type 0 where
  pub dialog : IsConfirmed s.dialog_service
  pub wake : IsConfirmed s.wake_service
  pub pulseaudio : IsConfirmed s.pulseaudio_service
  pub systemctl :
      (s.systemctl_binary ≡ "/usr/bin/systemctl") ⊎ (s.systemctl_binary ≡ "/bin/systemctl")
  pub hardware : s.hardware_binary ≡ "/usr/bin/ai-toy_app"
  pub key : s.api_key_enabled ≡ true → s.api_key ≢ ""
  pub guarded : s.hardware_driver ≡ HardwareDriver.local_k1 → s.api_key_enabled ≡ true

-- What was tested where settings are built: the host is the stripped one, all else is as given.
pub built :
    (strip : String → String) (s r : Settings)
    → build_settings strip s ≡ ok r
    → (fields_fit s ≡ true)
      × (texts_fit s ≡ true)
      × (validate_security r ≡ true)
      × (r ≡ record s { api_host = strip s.api_host })
      × (r.api_host ≢ "")
unfolding build_settings validate_host
built strip s r h = (
  ground arith,
  ground arith,
  ground arith,
  ground arith,
  ground (arith, eq_iff (strip s.api_host) ""),
)

key_given :
    (is_ascii : String → Bool) (s : Settings) (given : Option String)
    → s.api_key_enabled ≡ true
    → require_api_key is_ascii s given ≡ ok tt
    → given ≡ some s.api_key
unfolding require_api_key
key_given is_ascii s none enabled h = cc
key_given is_ascii s (some key) enabled h = ground (arith, eq_iff key s.api_key)

hardware_lem : (b : String) → validate_hardware_binary b ≡ true → b ≡ "/usr/bin/ai-toy_app"
unfolding validate_hardware_binary
hardware_lem b h = (eq_iff b "/usr/bin/ai-toy_app").0 h

systemctl_lem :
    (b : String)
    → validate_systemctl_binary b ≡ true
    → (b ≡ "/usr/bin/systemctl") ⊎ (b ≡ "/bin/systemctl")
unfolding validate_systemctl_binary
systemctl_lem b h = ground (arith, eq_iff b "/usr/bin/systemctl", eq_iff b "/bin/systemctl")

security_lem :
    (r : Settings)
    → validate_security r ≡ true
    → (r.api_key_enabled ≡ true → r.api_key ≢ "")
      × (r.hardware_driver ≡ HardwareDriver.local_k1 → r.api_key_enabled ≡ true)
unfolding validate_security
security_lem r h = (λ e. ground (arith, eq_iff r.api_key ""), λ e. ground arith)

-- Settings that are built are safe.
pub build_settings-IsSafe :
    (strip : String → String) (s r : Settings) → build_settings strip s ≡ ok r → IsSafe r
build_settings-IsSafe strip s r h =
    let (fields, texts, secure, same, host) = built strip s r h in
    let (key, guarded) = security_lem r secure in
    record {
      dialog = rw same (validate_service_name-IsConfirmed s.dialog_service (ground arith));
      wake = rw same (validate_service_name-IsConfirmed s.wake_service (ground arith));
      pulseaudio = rw same (validate_service_name-IsConfirmed s.pulseaudio_service (ground arith));
      systemctl = rw same (systemctl_lem s.systemctl_binary (ground arith));
      hardware = rw same (hardware_lem s.hardware_binary (ground arith));
      key = key;
      guarded = guarded;
    }

abbrev pub IsSystemctl : String → Type 0
IsSystemctl executable = (executable ≡ "/usr/bin/systemctl") ⊎ (executable ≡ "/bin/systemctl")

-- What may be run on the device at all, whatever the settings: a fixed movement, the start of a
-- confirmed service, a query of one, or one of three signals to one.
abbrev pub IsK1Command : Bool → String → List String → Type 0
IsK1Command tail executable args =
    ((executable ≡ "/usr/bin/ai-toy_app") × IsMotorOf tail args)
    ⊎ (IsSystemctl executable
        × ((service : String) × IsConfirmed service
            × (args ≡ "--no-block" ∷ "start" ∷ service ∷ [])))
    ⊎ ((verb service : String) × IsConfirmed service
        × (args ≡ verb ∷ service ∷ [])
        × ((verb ≡ "is-active") ⊎ (verb ≡ "is-enabled")))
    ⊎ ((name service : String) × IsConfirmed service
        × (args ≡ "kill" ∷ text_append "--signal=" name ∷ service ∷ [])
        × ((name ≡ "SIGHUP") ⊎ (name ≡ "SIGUSR1") ⊎ (name ≡ "SIGUSR2")))

-- With settings that passed their validators, whatever is asked of the runner, it lets through only
-- commands of three fixed binaries: a fixed movement, of the tail where the settings enable it, or the
-- start, a query or one of three signals of a confirmed service.
pub build_settings-IsK1Command :
    (strip : String → String) (s r : Settings) (executable : String) (args : List String)
    → build_settings strip s ≡ ok r
    → validate (create_runner (command_settings r)) executable args ≡ ok tt
    → (IsSystemctl executable ⊎ (executable ≡ "/usr/bin/ai-toy_app"))
      × IsK1Command r.enable_tail_motion executable args
build_settings-IsK1Command strip s r executable args h v =
    let safe = build_settings-IsSafe strip s r h in
    let (binary, permitted) = validate-IsPermitted (command_settings r) executable args v in
    (ground (arith, safe.hardware), go safe permitted)
  where
    confirmed :
        IsSafe r → (service : String) → IsService (command_settings r) service → IsConfirmed service
    confirmed safe service (inl e) = subst IsConfirmed (sym e) safe.pulseaudio
    confirmed safe service (inr (inl e)) = subst IsConfirmed (sym e) safe.dialog
    confirmed safe service (inr (inr e)) = subst IsConfirmed (sym e) safe.wake

    go :
        IsSafe r
        → IsPermitted (command_settings r) executable args
        → IsK1Command r.enable_tail_motion executable args
    go safe (inl (e, motor)) = inl (e ∙ safe.hardware, motor)
    go safe (inr (inl (e, start))) =
        inr (inl (subst IsSystemctl (sym e) safe.systemctl, (r.dialog_service, safe.dialog, start)))
    go safe (inr (inr (inl (verb, service, e, verbs, known)))) =
        inr (inr (inl (verb, service, confirmed safe service known, e, verbs)))
    go safe (inr (inr (inr (name, e, names)))) =
        inr (inr (inr (name, r.dialog_service, safe.dialog, e, names)))

-- On the real device a call is answered only with the API key of the settings, which is not empty.
pub require_api_key-local_k1 :
    (strip : String → String) (is_ascii : String → Bool) (s r : Settings) (given : Option String)
    → build_settings strip s ≡ ok r
    → r.hardware_driver ≡ HardwareDriver.local_k1
    → require_api_key is_ascii r given ≡ ok tt
    → (given ≡ some r.api_key) × (r.api_key ≢ "")
require_api_key-local_k1 strip is_ascii s r given h device passed =
    let safe = build_settings-IsSafe strip s r h in
    let enabled = safe.guarded device in
    (key_given is_ascii r given enabled passed, safe.key enabled)
