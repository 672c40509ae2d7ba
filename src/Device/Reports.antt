-- ===== src/Device/Reports.antt =====
-- `get_services_status` and `get_dialog_status` of adapters/local_k1.py: what is read of the services and
-- of the status file of the voice process.
use Prim.Native.String.{◌++◌ as text_append}
use ai_cat_controller.Base.{
  ℕ, ◌/◌, String, Bool, true, false, not, Option, none, some, List, [], ◌∷◌, ◌==◌, ◌&&◌, map, ltb,
  member, suc, if◌then◌else◌,
}
use ai_cat_controller.Base.Int.{ℤ, pos, negsuc, ◌-ℤ◌, ltb_ℤ, pos_part}
use ai_cat_controller.Errors.{Exception, attribute_error}
use ai_cat_controller.Exec.{Result, ok, err}
use ai_cat_controller.Commands.Runner.{CommandResult}
use ai_cat_controller.Autonomy.Values.{Value, Members, get, get_or, is_true}

-- What this part takes from the interpreter: a number as a text, `str` of a JSON value, the text of an
-- exception behind its class, and whether a process is there.
pub record Python : Type 0 where
  pub number_text : ℤ → String
  pub str : Value → String
  pub error_text : Exception → String
  pub process_exists : ℤ → Bool

unfoldable pub normal_status : Python → List String → CommandResult → Option String
normal_status py known r =
    if r.timed_out
    then some "状态检查超时"
    else if member r.stdout known
    then none
    else if not (r.stderr == "")
    then some r.stderr
    else some (text_append "无法识别 systemctl 输出，returncode=" (py.number_text r.returncode))

-- `_query_service`, from how the runner ends
unfoldable pub query_service : Python → Result CommandResult → CommandResult
query_service py (ok r) = r
query_service py (err e) = record {
  returncode = negsuc 0;
  stdout = "";
  stderr = py.error_text e;
  timed_out = false;
}

pub record ServiceStatus : Type 0 where
  pub service_name : String
  pub active : Bool
  pub enabled : Bool
  pub error : Option String

abbrev pub active_values : List String
active_values = "active" ∷ "inactive" ∷ "failed" ∷ "activating" ∷ "deactivating" ∷ []

abbrev pub enabled_values : List String
enabled_values =
    "enabled" ∷ "disabled" ∷ "static" ∷ "masked" ∷ "indirect" ∷ "generated" ∷ "transient" ∷ []

-- `"; ".join(errors) if errors else None`, where every error is a text that is not empty
abbrev pub joined : Option String → Option String → Option String
joined none none = none
joined none (some b) = some b
joined (some a) none = some a
joined (some a) (some b) = some (text_append a (text_append "; " b))

-- `run verb service` is how the runner ends for the command
abbrev pub service_status :
    Python → (String → String → Result CommandResult) → String → ServiceStatus
service_status py run name =
    let active_result = query_service py (run "is-active" name) in
    let enabled_result = query_service py (run "is-enabled" name) in
    record {
      service_name = name;
      active = active_result.stdout == "active";
      enabled = enabled_result.stdout == "enabled";
      error =
          joined (normal_status py active_values active_result)
            (normal_status py enabled_values enabled_result);
    }

unfoldable pub get_services_status :
    Python → (String → String → Result CommandResult) → List String → List ServiceStatus
get_services_status py run service_names = map (service_status py run) service_names

-- `_safe_int`: numbers are in thousandths, and `int` cuts off towards zero
abbrev pub cut : ℤ → ℤ
cut (pos n) = pos (n / 1000)
cut (negsuc n) = pos 0 -ℤ pos (suc n / 1000)

unfoldable pub safe_int : Value → ℤ
safe_int (Value.number n) = cut n
safe_int _ = pos 0

pub record DialogStatus : Type 0 where
  pub state : String
  pub message : String
  pub session_active : Bool
  pub can_interrupt : Bool
  pub follow_up_deadline_ms : ℤ
  pub updated_at_ms : ℤ
  pub sequence : ℤ
  pub stale : Bool
  pub personality_id : Option String
  pub personality_revision : Option String
  pub voice_type : Option String

unfoldable pub unavailable_dialog_status : String → DialogStatus
unavailable_dialog_status message = record {
  state = "unavailable";
  message = message;
  session_active = false;
  can_interrupt = false;
  follow_up_deadline_ms = pos 0;
  updated_at_ms = pos 0;
  sequence = pos 0;
  stale = true;
  personality_id = none;
  personality_revision = none;
  voice_type = none;
}

unfoldable pub offline_dialog_status : DialogStatus
offline_dialog_status = record (unavailable_dialog_status "云端语音未连接，正在等待唤醒词“小安小安”") {
  state = "offline";
  stale = false;
}

-- What reading the file and parsing its JSON come to; the exceptions that are caught have their text.
pub data StatusFile : Type 0 where
  too_large missing : StatusFile
  unreadable : String → StatusFile
  parsed : Value → StatusFile

abbrev pub text_of : Python → String → Members → Option String
text_of py key payload = if is_true (get key payload) then some (py.str (get key payload)) else none

abbrev pub is_stale : Python → ℕ → Members → Bool
is_stale py now_ms payload =
    let pid = safe_int (get_or "pid" (Value.number (pos 0)) payload) in
    let updated_at_ms = safe_int (get_or "updated_at_ms" (Value.number (pos 0)) payload) in
    ltb 30000 (pos_part (pos now_ms -ℤ updated_at_ms))
    && not (ltb_ℤ (pos 0) pid && py.process_exists pid)

abbrev pub payload_status : Python → ℕ → Members → String → DialogStatus
payload_status py now_ms payload state = record {
  state = state;
  message = py.str (get_or "message" (Value.text "") payload);
  session_active = is_true (get_or "session_active" (Value.boolean false) payload);
  can_interrupt = is_true (get_or "can_interrupt" (Value.boolean false) payload);
  follow_up_deadline_ms = safe_int (get_or "follow_up_deadline_ms" (Value.number (pos 0)) payload);
  updated_at_ms = safe_int (get_or "updated_at_ms" (Value.number (pos 0)) payload);
  sequence = safe_int (get_or "sequence" (Value.number (pos 0)) payload);
  stale = is_stale py now_ms payload;
  personality_id = text_of py "personality_id" payload;
  personality_revision = text_of py "personality_revision" payload;
  voice_type = text_of py "voice_type" payload;
}

abbrev pub no_state : DialogStatus
no_state = unavailable_dialog_status "对话状态文件缺少 state"

abbrev pub stated : Python → ℕ → Members → Value → DialogStatus
stated py now_ms payload (Value.text state) =
    if state == "" then no_state else payload_status py now_ms payload state
stated py now_ms payload _ = no_state

abbrev pub read_payload : Python → ℕ → Value → Result DialogStatus
read_payload py now_ms (Value.object payload) = ok (stated py now_ms payload (get "state" payload))
read_payload py now_ms _ = err attribute_error

-- `_read_dialog_status`, at the whole millisecond `now_ms`
unfoldable pub read_dialog_status : Python → ℕ → StatusFile → Result DialogStatus
read_dialog_status py now_ms StatusFile.too_large = ok (unavailable_dialog_status "对话状态文件超过安全大小")
read_dialog_status py now_ms StatusFile.missing = ok offline_dialog_status
read_dialog_status py now_ms (StatusFile.unreadable text) =
    ok (unavailable_dialog_status (text_append "无法读取对话状态: " text))
read_dialog_status py now_ms (StatusFile.parsed value) = read_payload py now_ms value
