-- ===== src/Mock.antt =====
-- adapters/mock.py: the adapter that keeps its state in memory. `_run_motion` is cut at its sleep.
pub mod Motions
pub mod Tests
use ai_cat_controller.Base.{
  ℕ, suc, ◌-◌, String, Bool, true, false, not, Option, none, some, List, [], ◌∷◌, map, ◌==◌, eqb,
  filter, if◌then◌else◌,
}

pub data Part : Type 0 where
  head tail : Part

-- A row of `service_states`, with the three values that `__init__` gives it.
pub record ServiceState : Type 0 where
  pub service_name : String
  pub active : Bool
  pub enabled : Bool
  pub error : Option String

pub record MockAiCatAdapter : Type 0 where
  pub connected : Bool
  pub current_action : String
  pub last_action : Option String
  pub dialog_state : String
  pub head_state : String
  pub tail_state : String
  pub action_count : ℕ
  pub last_action_at : Option String
  pub service_states : List ServiceState
  pub generation : ℕ
  pub connected_at : ℕ

-- A call of `_run_motion` that sleeps.
pub record Motion : Type 0 where
  pub generation : ℕ
  pub part : Part

pub record World : Type 0 where
  pub adapter : MockAiCatAdapter
  pub live : List Motion

-- `__init__`, at the time `now`
unfoldable pub initial : List String → ℕ → MockAiCatAdapter
initial service_names now = record {
  connected = false;
  current_action = "idle";
  last_action = none;
  dialog_state = "idle";
  head_state = "idle";
  tail_state = "idle";
  action_count = 0;
  last_action_at = none;
  service_states =
      map (λ name. record { service_name = name; active = true; enabled = true; error = none })
        service_names;
  generation = 0;
  connected_at = now;
}

unfoldable pub connect : ℕ → MockAiCatAdapter → MockAiCatAdapter
connect now a = record a { connected = true; connected_at = now }

abbrev pub set_part : Part → String → MockAiCatAdapter → MockAiCatAdapter
set_part Part.head text a = record a { head_state = text }
set_part Part.tail text a = record a { tail_state = text }

-- `_run_motion` up to its sleep, where `now` is the clock's text
unfoldable pub run_motion : String → Part → String → World → World
run_motion action part now w =
    let a = w.adapter in
    record {
      adapter = set_part part action (record a {
        generation = suc a.generation;
        current_action = action;
        last_action = some action;
        last_action_at = some now;
        action_count = suc a.action_count;
      });
      live = record { generation = suc a.generation; part = part } ∷ w.live;
    }

abbrev pub ended : Motion → MockAiCatAdapter → MockAiCatAdapter
ended m a =
    let after = set_part m.part "idle" (record a { current_action = "idle" }) in
    if eqb m.generation a.generation then after else a

abbrev pub without : ℕ → List Motion → List Motion
without generation live = filter (λ m. not (eqb m.generation generation)) live

-- the `finally` of `_run_motion`, after the sleep or its cancellation
unfoldable pub end_motion : Motion → World → World
end_motion m w = record { adapter = ended m w.adapter; live = without m.generation w.live }

unfoldable pub shake_head : String → World → World
shake_head now w = run_motion "head_shake" Part.head now w

unfoldable pub nod_head : String → World → World
nod_head now w = run_motion "head_nod" Part.head now w

unfoldable pub wag_tail : String → World → World
wag_tail now w = run_motion "tail_wag" Part.tail now w

unfoldable pub stop_motion : MockAiCatAdapter → Bool × MockAiCatAdapter
stop_motion a = (
  not (a.current_action == "idle"),
  record a {
    generation = suc a.generation;
    current_action = "idle";
    head_state = "idle";
    tail_state = "idle";
  },
)

-- the two critical sections of `close`; between them another call may have the lock
unfoldable pub close_end : MockAiCatAdapter → MockAiCatAdapter
close_end a = record a { connected = false }

unfoldable pub wake_dialog : MockAiCatAdapter → MockAiCatAdapter
wake_dialog a = record a { dialog_state = "awake" }

unfoldable pub interrupt_dialog : MockAiCatAdapter → MockAiCatAdapter
interrupt_dialog a = record a { dialog_state = "interrupted" }

unfoldable pub send_text_dialog : MockAiCatAdapter → MockAiCatAdapter
send_text_dialog a = record a { dialog_state = "thinking" }

unfoldable pub speak_text : MockAiCatAdapter → MockAiCatAdapter
speak_text a = record a { dialog_state = "speaking" }

-- The answer of `get_dialog_status`, less its constants.
pub record DialogStatus : Type 0 where
  pub state : String
  pub message : String
  pub session_active : Bool
  pub can_interrupt : Bool
  pub updated_at_ms : ℕ

abbrev state_map : String → String × String
state_map name =
    if name == "idle"
    then ("ready", "等待开始语音测试")
    else if name == "awake"
    then ("listening", "Mock 正在聆听")
    else if name == "interrupted"
    then ("interrupted", "Mock 回答已打断")
    else (name, "Mock 对话状态")

unfoldable pub get_dialog_status : ℕ → MockAiCatAdapter → DialogStatus
get_dialog_status now_ms a =
    let (state, message) = state_map a.dialog_state in
    record {
      state = state;
      message = message;
      session_active = a.dialog_state == "awake";
      can_interrupt = a.dialog_state == "awake";
      updated_at_ms = now_ms;
    }

-- The answer of `get_device_status` is the state, its uptime, and constants of the battery.
pub record MockDeviceStatus : Type 0 where
  pub adapter : MockAiCatAdapter
  pub adapter_uptime : ℕ

unfoldable pub get_device_status : ℕ → MockAiCatAdapter → MockDeviceStatus
get_device_status now a = record { adapter = a; adapter_uptime = now - a.connected_at }

unfoldable pub get_services_status : MockAiCatAdapter → List ServiceState
get_services_status a = a.service_states
