-- ===== src/Autonomy/Tests.antt =====
-- The laws of the autonomous behaviour at work, with the defaults of the environment.
use ai_cat_controller.Base.{
  ◌⊎◌, ◌≡◌, refl, String, true, false, none, some, is_some, List, [], ◌∷◌, ◌++◌, arith, ◌==◌,
  if◌then◌else◌,
}
use ai_cat_controller.Base.Int.{pos}
use ai_cat_controller.Exec.{ok}
use ai_cat_controller.Autonomy.Values.{Value, Members}
use ai_cat_controller.Autonomy.Setup.{AutonomyConfig, Environ, from_env, bounded_float, read_port}
use ai_cat_controller.Autonomy.Client.{
  dialog_status, personality_profile, request, start_head_action, Body, HttpRequest, Transport,
  World, received, request_to, safe_actions,
}
use ai_cat_controller.Autonomy.Speech.{play_command, Ending, Files, play}
use ai_cat_controller.Autonomy.Playing.{IsAsset, play_commands, play_marker}
use ai_cat_controller.Autonomy.Worker.{Outside, Outcome, run_once, behave, phrase_for}
use ai_cat_controller.Autonomy.Allowed.{IsSafe}
use ai_cat_controller.Autonomy.Safety.{run_once-IsSafe, run_once-busy}
use ai_cat_controller.Autonomy.Limits.{IsSound, from_env-IsSound}
use ai_cat_controller.Autonomy.Loop.{Session, loop, run_forever}
use ai_cat_controller.Autonomy.Pauses.{
  IsUniform, IsSpaced, run_forever_terminates, run_forever-IsSpaced,
}

abbrev environ : Environ
environ = record {
  get = λ name. none;
  parse_int = λ t. none;
  parse_float = λ t. none;
  lower = λ t. t;
}

abbrev config : AutonomyConfig
config = record {
  api_port = pos 8000;
  api_key = "";
  initial_delay = pos 45000;
  minimum_interval = pos 180000;
  maximum_interval = pos 180000;
  phrase_probability = pos 1000;
  cloud_speech_enabled = false;
  local_speech_enabled = false;
  local_speech_asset_root = "/opt/ai-cat-controller/assets/local-speech";
  local_speech_marker_path = "/run/ai-cat/local-speech-active";
  local_speech_player_path = "/usr/bin/paplay";
  local_speech_motion_settle = pos 2200;
}

from_env-environ : from_env environ ≡ ok config
unfolding from_env bounded_float read_port
from_env-environ = refl

from_env-IsSound_example : IsSound config
from_env-IsSound_example = from_env-IsSound environ config from_env-environ

abbrev status_of : String → Members
status_of state = Members.member_of "state" (Value.text state) Members.no_members

abbrev envelope : Members → Value
envelope ms = Value.object (Members.member_of "data" (Value.object ms) Members.no_members)

abbrev profile : Members
profile = Members.member_of "active" (Value.boolean true) (
    Members.member_of "native_applied" (Value.boolean true) (
      Members.member_of "autonomy"
        (Value.object (
          Members.member_of "action_weights"
            (Value.object
              (Members.member_of "head/nod" (Value.number (pos 550)) Members.no_members))
            Members.no_members))
        Members.no_members))

abbrev files : Files
files = record {
  resolve = λ path. some path;
  is_relative_to = λ path root. true;
  is_file = λ path. true;
  is_symlink = λ path. false;
  made = ok tt;
  written = ok tt;
}

abbrev outside_with : String → Outside
outside_with state = record {
  net = λ n q.
      Transport.response 200
        (some (envelope (if q.path == "/dialog/status" then status_of state else profile)));
  files = files;
  ending = Ending.exited (pos 0);
  shown = λ v. "";
  choices = λ as_weighed. "head/nod";
  choice = λ phrases. "";
  is_below = true;
  is_stopped = false;
  event_id = "auto-1-aa";
}

abbrev nothing_sent : World
nothing_sent = record { sent = []; commands = []; marker = false }

run_once-IsSafe_example : IsSafe (run_once (outside_with "ready") config nothing_sent).1
run_once-IsSafe_example = run_once-IsSafe (outside_with "ready") config nothing_sent tt

received-thinking :
    received (Transport.response 200 (some (envelope (status_of "thinking"))))
    ≡ ok (status_of "thinking")
unfolding received
received-thinking = refl

run_once-busy_example : run_once (outside_with "thinking") config nothing_sent ≡ (
  ok (Outcome.dialog_busy "thinking"),
  record nothing_sent { sent = request_to config "GET" "/dialog/status" Body.no_body ∷ [] },
)
run_once-busy_example =
    run_once-busy (outside_with "thinking") config (status_of "thinking") nothing_sent
      received-thinking refl

play_marker_example :
    (play config files (Ending.exited (pos 1)) "proud_star" "?" nothing_sent).1.marker ≡ false
play_marker_example = play_marker config files (Ending.exited (pos 1)) "proud_star" "?" nothing_sent

abbrev session : Session
session = record {
  outside = λ now. outside_with "ready";
  took = λ now. 100;
  uniform = λ now low high. low;
  stop_at = 300000;
}

low_is_drawn : IsUniform session
low_is_drawn now low high le = omega arith

run_forever_terminates_example : is_some (run_forever session config 21 nothing_sent) ≡ true
run_forever_terminates_example =
    run_forever_terminates session config from_env-IsSound_example low_is_drawn 20 nothing_sent
      (omega arith)

abbrev nod_request : HttpRequest
nod_request = request_to config "POST" "/motion/head/nod" (Body.motion 350 1800 "auto-1-aa-motion")

abbrev one_run : List HttpRequest
one_run =
    request_to config "GET" "/dialog/status" Body.no_body
    ∷ request_to config "GET" "/personality/runtime" Body.no_body
    ∷ nod_request
    ∷ []

abbrev after_two : World
after_two = record { sent = one_run ++ one_run; commands = []; marker = false }

run_forever-session :
    run_forever session config 3 nothing_sent ≡ some (45000 ∷ 225100 ∷ [], after_two)
unfolding run_forever loop run_once dialog_status personality_profile request received behave
    phrase_for start_head_action safe_actions
run_forever-session = refl

run_forever-IsSpaced_example : IsSpaced (45000 ∷ 225100 ∷ []) × IsSafe after_two
run_forever-IsSpaced_example =
    run_forever-IsSpaced session config from_env-IsSound_example low_is_drawn 3 nothing_sent
      after_two (45000 ∷ 225100 ∷ []) tt run_forever-session

play_commands_example :
    let w =
      (play config files (Ending.exited (pos 0)) "sunny_explorer" "今天也要元气满满呀。" nothing_sent).1 in
    (w.commands ≡ [])
    ⊎ ((asset : String) × IsAsset config files "sunny_explorer" "今天也要元气满满呀。" asset
        × (w.commands ≡ play_command config asset ∷ []))
play_commands_example =
    play_commands config files (Ending.exited (pos 0)) "sunny_explorer" "今天也要元气满满呀。" nothing_sent
