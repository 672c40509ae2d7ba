-- ===== src/Dialog/Requests.antt =====
-- `get_status`, `send_text`, `speak` and `shutdown`. A submission holds the lock while it waits for the
-- adapter, so it is cut in three steps, between which no other critical section can be entered.
use ai_cat_controller.Base.{
  String, Bool, true, false, not, Option, none, some, List, [], ◌∷◌, ◌++◌, ◌==◌, ◌&&◌, ◌||◌, member,
  if◌then◌else◌,
}
use ai_cat_controller.Errors.{ai_cat, adapter_not_implemented, action_conflict, cancelled}
use ai_cat_controller.Exec.{Result, ok, err, Exec}
use ai_cat_controller.Domain.Actions.Schema.{Capability}
use ai_cat_controller.Dialog.State.{
  DialogState, Submission, SubmissionKind, SubmissionPhase, World, text_of,
}
use ai_cat_controller.Dialog.Wake.{Answer, interrupt_begin, set_state}

-- What the adapter's `get_dialog_status` answers; `none` is a key that is missing.
pub record Report : Type 0 where
  pub state : Option String
  pub session_active : Bool
  pub message : Option String

-- `status.get("state") in {...}`, with the state that it names
abbrev adopted_text : String → Option DialogState
adopted_text name =
    if name == "ready"
    then some DialogState.ready
    else if name == "interrupted"
    then some DialogState.interrupted
    else if name == "offline"
    then some DialogState.offline
    else if name == "unavailable"
    then some DialogState.unavailable
    else none

abbrev adopted : Option String → Option DialogState
adopted none = none
adopted (some name) = adopted_text name

abbrev described : DialogState → String → Report → Report
described state message r = record r { state = some (text_of state); message = some message }

abbrev adopt : Option DialogState → World → World
adopt none w = w
adopt (some state) w = set_state state w

abbrev seen : Report → World → World
seen r w = if r.session_active then set_state DialogState.awake w else adopt (adopted r.state) w

-- `get_status`, from the adapter's answer on
unfoldable pub get_status : Report → World → Report × World
get_status r w = elim w.service.state [
  | DialogState.waking ↦ (described DialogState.waking "正在请求开始聆听" r, w)
  | DialogState.interrupting ↦ (described DialogState.interrupting "正在请求打断回答" r, w)
  | _ ↦ (r, seen r w)
]

-- `TEXT_DIALOG_READY_STATES`, `SPEAK_READY_STATES` and `DIALOG_STARTABLE_STATES`
unfoldable pub text_dialog_ready_states : List String
text_dialog_ready_states = "ready" ∷ "followup_listening" ∷ "interrupted" ∷ []

unfoldable pub speak_ready_states : List String
speak_ready_states = "ready" ∷ "interrupted" ∷ []

unfoldable pub dialog_startable_states : List String
dialog_startable_states = "starting" ∷ "connecting" ∷ "recovering" ∷ "offline" ∷ "unavailable" ∷ []

abbrev capability_of : SubmissionKind → Capability
capability_of SubmissionKind.text = Capability.text_dialog
capability_of SubmissionKind.speech = Capability.speak_text

abbrev unsupported_message : SubmissionKind → String
unsupported_message SubmissionKind.text = "当前适配器不支持文字提问"
unsupported_message SubmissionKind.speech = "当前适配器不支持主动播报"

abbrev conflict_message : SubmissionKind → String
conflict_message SubmissionKind.text = "当前对话正在进行，请等待回答结束或先打断"
conflict_message SubmissionKind.speech = "当前对话正在进行，本次主动播报已跳过"

abbrev submitting_state : SubmissionKind → DialogState
submitting_state SubmissionKind.text = DialogState.submitting_text
submitting_state SubmissionKind.speech = DialogState.submitting_speech

abbrev submitted_state : SubmissionKind → DialogState
submitted_state SubmissionKind.text = DialogState.thinking
submitted_state SubmissionKind.speech = DialogState.speaking

-- `request_id or f"...-{uuid}"`, where `fresh` is the text made with the random number
abbrev resolved_request_id : Option String → String → String
resolved_request_id none fresh = fresh
resolved_request_id (some id) fresh = if id == "" then fresh else id

-- `send_text` and `speak`, up to the lock, which is free
unfoldable pub submit_begin :
    (Capability → Bool) → SubmissionKind → Option String → String → Exec World Unit
submit_begin supports kind request_id fresh w =
    if not (supports (capability_of kind))
    then (err (ai_cat adapter_not_implemented (unsupported_message kind)), w)
    else (
      ok tt,
      record w {
        submission = some (record {
          kind = kind;
          request_id = resolved_request_id request_id fresh;
          phase = SubmissionPhase.asking;
        });
      },
    )

-- `str(status.get("state", "unavailable"))`
abbrev pub current_state : Report → String
current_state r = elim r.state [ none ↦ "unavailable" | some name ↦ name ]

unfoldable pub admits : SubmissionKind → Report → Bool
unfolding text_dialog_ready_states speak_ready_states dialog_startable_states
admits SubmissionKind.text r =
    member (current_state r) (text_dialog_ready_states ++ dialog_startable_states)
admits SubmissionKind.speech r =
    not r.session_active && member (current_state r) (speak_ready_states ++ dialog_startable_states)

-- the adapter has answered the question for its status
unfoldable pub submit_checked : Submission → Result Report → Exec World Unit
submit_checked q (err e) w = (err e, record w { submission = none })
submit_checked q (ok r) w =
    if admits q.kind r
    then (
      ok tt,
      record w {
        service = record w.service { state = submitting_state q.kind };
        submission = some (record q { phase = SubmissionPhase.sending });
      },
    )
    else (err (ai_cat action_conflict (conflict_message q.kind)), record w { submission = none })

abbrev queued_answer : Submission → Answer
queued_answer q = record { dialog_state = "queued"; request_id = some q.request_id; changed = true }

abbrev pub released : World → World
released w = record w { submission = none }

-- The adapter has taken the request, or not. A cancellation passes the handler by.
unfoldable pub submit_sent : Submission → Result (Unit {0}) → Exec World Answer
submit_sent q (ok _) w = (ok (queued_answer q), set_state (submitted_state q.kind) (released w))
submit_sent q (err e) w = elim e [
  | cancelled ↦ (err cancelled, released w)
  | x ↦ (err x, set_state DialogState.error (released w))
]

abbrev pub is_waking : DialogState → Bool
is_waking DialogState.waking = true
is_waking _ = false

abbrev pub interrupts_for : (Capability → Bool) → Bool → World → World
interrupts_for supports c w = elim c [ true ↦ (interrupt_begin supports none w).1 | false ↦ w ]

-- `shutdown`, up to the first critical section of the `interrupt` that it calls; every exception is
-- logged and dropped
unfoldable pub shutdown : (Capability → Bool) → Result Report → World → World
shutdown supports r w = if not (supports Capability.interrupt_dialog) then w else elim r [
  | err e ↦ w
  | ok r ↦ interrupts_for supports (is_waking w.service.state || r.session_active) w
]
