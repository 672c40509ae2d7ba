-- ===== src/Commands/Factory.antt =====
-- adapters/factory.py: the runner of the real device, from the settings.
use ai_cat_controller.Base.{String, Bool, List, [], ◌∷◌, if◌then◌else◌}
use ai_cat_controller.Commands.Runner.{CommandRunner}

-- The settings of core/config.py that decide what may be run.
pub record CommandSettings : Type 0 where
  pub hardware_binary : String
  pub systemctl_binary : String
  pub enable_tail_motion : Bool
  pub dialog_service : String
  pub wake_service : String
  pub pulseaudio_service : String

abbrev pub service_names : CommandSettings → List String
service_names s = s.pulseaudio_service ∷ s.dialog_service ∷ s.wake_service ∷ []

abbrev pub hardware_commands : CommandSettings → List (List String)
hardware_commands s =
    ("motor" ∷ "head_lr" ∷ "1" ∷ [])
    ∷ ("motor" ∷ "head_ud" ∷ "2" ∷ [])
    ∷ ("motor" ∷ "stop" ∷ [])
    ∷ (if s.enable_tail_motion then ("motor" ∷ "tail_lr" ∷ "1" ∷ []) ∷ [] else [])

-- `create_adapter` for `local_k1`, up to the runner that it makes
unfoldable pub create_runner : CommandSettings → CommandRunner
create_runner s = record {
  allowed_executables = "/usr/bin/systemctl" ∷ "/bin/systemctl" ∷ s.hardware_binary ∷ [];
  allowed_services = service_names s;
  allowed_service_signals = (s.dialog_service, "SIGHUP" ∷ "SIGUSR1" ∷ "SIGUSR2" ∷ []) ∷ [];
  allowed_commands =
      (s.hardware_binary, hardware_commands s)
      ∷ (s.systemctl_binary, ("--no-block" ∷ "start" ∷ s.dialog_service ∷ []) ∷ [])
      ∷ [];
}
