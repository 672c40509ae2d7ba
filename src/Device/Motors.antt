-- ===== src/Device/Motors.antt =====
-- adapters/local_k1.py: the motors. `run` is the command runner, `lower` is Python's `str.lower`, and
-- an intensity counts hundredths.
use Prim.Native.String.{◌++◌ as text_append}
use text.Mathlib.Text.{find?}
use ai_cat_controller.Base.{
  ℕ, String, Bool, true, not, List, [], ◌∷◌, ◌==◌, ◌&&◌, ◌||◌, leb, is_some, if◌then◌else◌,
}
use ai_cat_controller.Base.Int.{pos, eqb_ℤ}
use ai_cat_controller.Errors.{
  Exception, ai_cat, value_error, adapter_not_implemented, device_unavailable, action_conflict,
}
use ai_cat_controller.Exec.{Result, ok, err}
use ai_cat_controller.Domain.Actions.Schema.{Capability}
use ai_cat_controller.Commands.Runner.{CommandResult}
use ai_cat_controller.Commands.Factory.{CommandSettings}

abbrev pub Run : Type 0
Run = String → List String → Result CommandResult

-- `self.capabilities`, with the tail where it is enabled
unfoldable pub supports : CommandSettings → Capability → Bool
supports s Capability.wag_tail = s.enable_tail_motion
supports s _ = true

abbrev tail_reason : String
tail_reason = "当前 K1 样机尾部动作默认禁用；硬件修复并完成低速验收后，设置 AI_CAT_ENABLE_TAIL_MOTION=true 才可开放"

abbrev capability_value : Capability → String
capability_value Capability.battery_status = "battery_status"
capability_value Capability.shake_head = "shake_head"
capability_value Capability.nod_head = "nod_head"
capability_value Capability.wag_tail = "wag_tail"
capability_value Capability.stop_motion = "stop_motion"
capability_value Capability.wake_dialog = "wake_dialog"
capability_value Capability.interrupt_dialog = "interrupt_dialog"
capability_value Capability.text_dialog = "text_dialog"
capability_value Capability.speak_text = "speak_text"

unfoldable pub capability_unavailable_reason : Capability → String
capability_unavailable_reason Capability.wag_tail = tail_reason
capability_unavailable_reason c = text_append "local_k1 适配器不支持 " (capability_value c)

abbrev pub is_safe : ℕ → ℕ → Bool
is_safe intensity duration_ms =
    leb 10 intensity && leb intensity 100 && leb 100 duration_ms && leb duration_ms 3000

abbrev contains : String → String → Bool
contains text part = is_some (find? text part)

abbrev is_busy : (String → String) → CommandResult → Bool
is_busy lower r =
    let combined = lower (text_append r.stdout (text_append "\n" r.stderr)) in
    contains combined "busy" || contains combined "正在执行"

-- the messages of one group of motors
record Messages : Type 0 where
  late : String
  busy : String
  broken : String

abbrev head_messages : Messages
head_messages = record { late = "头部动作执行超时，已请求电机停止"; busy = "头部电机正在执行其他动作"; broken = "头部动作执行失败" }

abbrev tail_messages : Messages
tail_messages = record { late = "尾部动作执行超时，已请求电机停止"; busy = "电机正在执行其他动作"; broken = "尾部动作执行失败" }

abbrev judge : (String → String) → Messages → CommandResult → Result (Unit {0})
judge lower m r =
    if r.timed_out
    then err (ai_cat device_unavailable m.late)
    else if eqb_ℤ r.returncode (pos 0)
    then ok tt
    else if is_busy lower r
    then err (ai_cat action_conflict m.busy)
    else err (ai_cat device_unavailable m.broken)

abbrev judged : (String → String) → Messages → Result CommandResult → Result (Unit {0})
judged lower m (err e) = err e
judged lower m (ok r) = judge lower m r

abbrev speed_of : String → String
speed_of actuator = if actuator == "head_lr" then "1" else "2"

-- `_run_head_motor`
unfoldable pub run_head_motor :
    CommandSettings → (String → String) → Run → String → ℕ → ℕ → Result (Unit {0})
run_head_motor s lower run actuator intensity duration_ms =
    if not (is_safe intensity duration_ms)
    then err (value_error "头部动作参数超出安全预设范围")
    else judged lower head_messages
        (run s.hardware_binary ("motor" ∷ actuator ∷ speed_of actuator ∷ []))

-- `_run_tail_motor`
unfoldable pub run_tail_motor :
    CommandSettings → (String → String) → Run → ℕ → ℕ → Result (Unit {0})
run_tail_motor s lower run intensity duration_ms =
    if not s.enable_tail_motion
    then err (ai_cat adapter_not_implemented tail_reason)
    else if not (is_safe intensity duration_ms)
    then err (value_error "尾部动作参数超出安全预设范围")
    else judged lower tail_messages (run s.hardware_binary ("motor" ∷ "tail_lr" ∷ "1" ∷ []))

-- `shake_head`, `nod_head` and `wag_tail`, by the capability that a sequence names
unfoldable pub move :
    CommandSettings → (String → String) → Run → Capability → ℕ → ℕ → Result (Unit {0})
unfolding run_head_motor run_tail_motor
move s lower run Capability.shake_head i d = run_head_motor s lower run "head_lr" i d
move s lower run Capability.nod_head i d = run_head_motor s lower run "head_ud" i d
move s lower run Capability.wag_tail i d = run_tail_motor s lower run i d
move s lower run _ i d = err Exception.key_error

abbrev stop_judged : (String → String) → Result CommandResult → Result Bool
stop_judged lower (err e) = err e
stop_judged lower (ok r) =
    if r.timed_out
    then err (ai_cat device_unavailable "停止头部动作超时")
    else if not (eqb_ℤ r.returncode (pos 0))
    then err (ai_cat device_unavailable "停止头部动作失败")
    else ok (contains (lower r.stdout) "stop requested")

-- `stop_motion`
unfoldable pub stop_motion : CommandSettings → (String → String) → Run → Result Bool
stop_motion s lower run = stop_judged lower (run s.hardware_binary ("motor" ∷ "stop" ∷ []))
