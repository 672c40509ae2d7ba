-- ===== src/Device/Tests.antt =====
-- The laws of the device's adapter at work: motors, one power sample, and a text for the dialog.
use ai_cat_controller.Autonomy.Values.{Value, Members}
use ai_cat_controller.Device.Reports.{
  DialogStatus, Python, StatusFile, payload_status, read_dialog_status, safe_int,
}
use ai_cat_controller.Device.Liveness.{Says, read_dialog_status-IsCurrent}
use ai_cat_controller.Base.{
  ◌≡◌, ◌↔◌, ◌⊎◌, ◌==◌, refl, true, false, not, none, some, String, Option, List, [], ◌∷◌, member,
  if◌then◌else◌,
}
use ai_cat_controller.Base.Int.{ℤ, pos, eqb_ℤ, ◌-ℤ◌}
use ai_cat_controller.Errors.{Exception, ai_cat, device_unavailable}
use ai_cat_controller.Exec.{ok, err}
use ai_cat_controller.Domain.Actions.Schema.{Capability, ActionComponent, Actuator, Direction}
use ai_cat_controller.Commands.Runner.{CommandResult}
use ai_cat_controller.Commands.Factory.{CommandSettings}
use ai_cat_controller.Device.Motors.{Run, is_safe, supports}
use ai_cat_controller.Device.MotorLaws.{component_fits-is_safe}
use ai_cat_controller.Device.Power.{
  Supply, PowerReads, BatteryStatus, read_sysfs_value, read_bounded_int, read_power_status,
  normalized_battery_status,
}
use ai_cat_controller.Device.PowerLaws.{Reads, charging_while_unplugged}
use ai_cat_controller.Device.Readiness.{
  Observation, is_ready, Sees, poll, ensure_dialog_ready, ensure_dialog_ready-Sees,
  ensure_dialog_ready_starts,
}
use ai_cat_controller.Device.Requests.{
  Course, RequestKind, RequestFile, send_dialog, write_dialog_request, signal_dialog,
  signal_or_unlink, send_dialog-err,
}

abbrev settings : CommandSettings
settings = record {
  hardware_binary = "/usr/bin/ai-toy_app";
  systemctl_binary = "/usr/bin/systemctl";
  enable_tail_motion = false;
  dialog_service = "volc-conv-ai.service";
  wake_service = "volc-k1-wake-word.service";
  pulseaudio_service = "volc-pulseaudio.service";
}

abbrev answer : ℤ → CommandResult
answer code = record { returncode = code; stdout = ""; stderr = ""; timed_out = false }

abbrev lower : String → String
lower text = text

-- two runners that differ for the tail alone
abbrev runs : Run
runs executable args = ok (answer (pos 0))

abbrev runs_head : Run
runs_head executable args = ok (answer (if member "tail_lr" args then pos 1 else pos 0))

abbrev component : ActionComponent
component = record {
  capability = Capability.nod_head;
  actuator = Actuator.head_ud;
  direction = Direction.alternate;
  angle_degrees = 45;
  speed = 10;
  duration_ms = 3000;
}

component_fits-is_safe_example : is_safe 10 3000 ≡ true
component_fits-is_safe_example = component_fits-is_safe component refl

nods : supports settings Capability.nod_head ≡ true
unfolding supports
nods = refl

abbrev attribute : Option String → Supply → String → Option String
attribute present Supply.battery name =
    if name == "capacity"
    then some "80"
    else if name == "present"
    then present
    else if name == "voltage_now"
    then some "4000000"
    else some "charging"
attribute present Supply.charger name = some "0"

abbrev number : String → Option ℤ
number text =
    if text == "80"
    then some (pos 80)
    else if text == "1"
    then some (pos 1)
    else if text == "4000000"
    then some (pos 4000000)
    else some (pos 0)

abbrev reads : Option String → PowerReads
reads present = record {
  read_text = attribute present;
  parse_int = number;
  underscored = λ text. text;
  join_sorted = λ names. "";
  round_thousandth = λ uv. uv;
}

abbrev known : PowerReads
known = reads (some "1")

abbrev unknown_presence : PowerReads
unknown_presence = reads none

percent-eq : (read_power_status known).battery_percent ≡ some (pos 80)
unfolding read_power_status read_bounded_int read_sysfs_value
percent-eq = refl

presence-eq : read_bounded_int unknown_presence Supply.battery "present" (pos 0) (pos 1) ≡ none
unfolding read_bounded_int read_sysfs_value
presence-eq = refl

cable-eq : read_bounded_int unknown_presence Supply.charger "online" (pos 0) (pos 1) ≡ some (pos 0)
unfolding read_bounded_int read_sysfs_value
cable-eq = refl

gauge-eq : read_sysfs_value unknown_presence Supply.battery "status" ≡ some "charging"
unfolding read_sysfs_value
gauge-eq = refl

charges : normalized_battery_status unknown_presence "charging" ≡ BatteryStatus.charging
unfolding normalized_battery_status
charges = refl

charging_while_unplugged_example :
    (((read_power_status unknown_presence).charging ≡ some true)
      × ((read_power_status unknown_presence).charger_online ≡ some false))
    ↔ ((read_bounded_int unknown_presence Supply.battery "present" (pos 0) (pos 1) ≡ none)
        × (read_bounded_int unknown_presence Supply.charger "online" (pos 0) (pos 1) ≡ some (pos 0))
        × Reads unknown_presence
            (read_sysfs_value unknown_presence Supply.battery "status")
            BatteryStatus.charging)
charging_while_unplugged_example = charging_while_unplugged unknown_presence

contradiction-eq :
    ((read_power_status unknown_presence).charging ≡ some true)
    × ((read_power_status unknown_presence).charger_online ≡ some false)
contradiction-eq =
    (charging_while_unplugged unknown_presence).1 (presence-eq, cable-eq, rw gauge-eq charges)

-- a battery and a charger, of which the fuel gauge knows nothing
abbrev plugged : PowerReads
plugged = record known { read_text = λ supply name. some "1" }

plugged-eq :
    ((read_power_status plugged).battery_present ≡ some true)
    × ((read_power_status plugged).charger_online ≡ some true)
unfolding read_power_status read_bounded_int read_sysfs_value
plugged-eq = (refl, refl)

abbrev offline : Observation
offline = record { active = "inactive"; state = "offline"; stale = false; updated_at_ms = 0 }

abbrev starting : Observation
starting = record { active = "activating"; state = "offline"; stale = false; updated_at_ms = 0 }

abbrev ready : Observation
ready = record { active = "active"; state = "ready"; stale = false; updated_at_ms = 2000 }

abbrev polls : List Observation
polls = starting ∷ ready ∷ []

ready-eq : (ensure_dialog_ready 1000 offline (ok (answer (pos 0))) polls).1 ≡ ok tt
unfolding ensure_dialog_ready poll
ready-eq = refl

ensure_dialog_ready-Sees_example : (is_ready offline ≡ true) ⊎ Sees 1000 polls
ensure_dialog_ready-Sees_example =
    ensure_dialog_ready-Sees 1000 offline (ok (answer (pos 0))) polls ready-eq

ensure_dialog_ready_starts_example :
    (ensure_dialog_ready 1000 offline (ok (answer (pos 0))) polls).0 ≡ not ("inactive" == "active")
ensure_dialog_ready_starts_example =
    ensure_dialog_ready_starts 1000 offline (ok (answer (pos 0))) polls

abbrev free : RequestFile
free = record { request = none }

abbrev hello : RequestFile
hello = record {
  request = some (record {
    kind = RequestKind.speak;
    request_id = "r1";
    content = "hello";
    created_at_ms = 7;
  });
}

-- a service that cannot be signalled
abbrev deaf : Run
deaf executable args = ok (answer (pos 1))

abbrev course : Course
course = record { ready = ok tt; written = ok tt; unlinked = ok tt; cancelled_writing = false }

deaf-eq :
    send_dialog settings deaf 7 course RequestKind.speak "hello" "r1" free
    ≡ (err (ai_cat device_unavailable "发送对话控制信号失败"), free)
unfolding send_dialog write_dialog_request signal_dialog signal_or_unlink
deaf-eq = refl

send_dialog-err_example :
    (free ≡ free)
    ⊎ (ai_cat device_unavailable "发送对话控制信号失败" ≡ Exception.cancelled)
    ⊎ (course.unlinked ≡ err (ai_cat device_unavailable "发送对话控制信号失败"))
send_dialog-err_example =
    send_dialog-err settings deaf 7 course RequestKind.speak "hello" "r1" free
      (ai_cat device_unavailable "发送对话控制信号失败") free deaf-eq

sent-eq : send_dialog settings runs 7 course RequestKind.speak "hello" "r1" free ≡ (ok tt, hello)
unfolding send_dialog write_dialog_request signal_dialog signal_or_unlink
sent-eq = refl

-- a call that is cancelled while it waits for the signal
abbrev leaving : Run
leaving executable args = err Exception.cancelled

left-eq :
    send_dialog settings leaving 7 course RequestKind.speak "hello" "r1" free
    ≡ (err Exception.cancelled, hello)
unfolding send_dialog write_dialog_request signal_dialog signal_or_unlink
left-eq = refl

abbrev python : Python
python = record {
  number_text = λ n. "";
  str = λ v. elim v [ Value.text t ↦ t | _ ↦ "" ];
  error_text = λ e. "";
  process_exists = λ pid. eqb_ℤ pid (pos 77);
}

abbrev status_members : Members
status_members =
    Members.member_of "state" (Value.text "ready")
      (Members.member_of "pid" (Value.number (pos 77000)) Members.no_members)

abbrev status_file : StatusFile
status_file = StatusFile.parsed (Value.object status_members)

abbrev shown : DialogStatus
shown = payload_status python 90000 status_members "ready"

not_stale : shown.stale ≡ false
unfolding safe_int ◌-ℤ◌
not_stale = refl

read_dialog_status-eq : read_dialog_status python 90000 status_file ≡ ok shown
unfolding read_dialog_status
read_dialog_status-eq = refl

read_dialog_status-IsCurrent_example : Says python 90000 status_file shown
read_dialog_status-IsCurrent_example =
    read_dialog_status-IsCurrent python 90000 status_file shown read_dialog_status-eq not_stale refl
