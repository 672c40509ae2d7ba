-- ===== src/Commands/Tests.antt =====
-- The laws of the command runner at work, with the paths and services of the defaults.
use ai_cat_controller.Base.{◌≡◌, refl, true, String, List, [], ◌∷◌}
use ai_cat_controller.Exec.{ok}
use ai_cat_controller.Commands.Runner.{validate}
use ai_cat_controller.Commands.Factory.{CommandSettings, create_runner}
use ai_cat_controller.Commands.Allowlist.{IsExecutable, IsPermitted, validate-IsPermitted}

abbrev pub settings : CommandSettings
settings = record {
  hardware_binary = "/usr/bin/ai-toy_app";
  systemctl_binary = "/usr/bin/systemctl";
  enable_tail_motion = true;
  dialog_service = "volc-conv-ai.service";
  wake_service = "volc-k1-wake-word.service";
  pulseaudio_service = "volc-pulseaudio.service";
}

abbrev interrupt : List String
interrupt = "kill" ∷ "--signal=SIGUSR2" ∷ "volc-conv-ai.service" ∷ []

interrupt-eq : validate (create_runner settings) "/usr/bin/systemctl" interrupt ≡ ok tt
unfolding validate create_runner
interrupt-eq = refl

validate-IsPermitted_example :
    IsExecutable settings "/usr/bin/systemctl" × IsPermitted settings "/usr/bin/systemctl" interrupt
validate-IsPermitted_example =
    validate-IsPermitted settings "/usr/bin/systemctl" interrupt interrupt-eq

tail-eq :
    validate (create_runner settings) "/usr/bin/ai-toy_app" ("motor" ∷ "tail_lr" ∷ "1" ∷ []) ≡ ok tt
unfolding validate create_runner
tail-eq = refl
