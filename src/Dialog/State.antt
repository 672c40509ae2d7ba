-- ===== src/Dialog/State.antt =====
-- The state of `DialogService`, with the calls that are under way.
use ai_cat_controller.Base.{
  ℕ, String, Bool, false, Option, none, some, List, [], ◌&&◌, eqb, any, is_none,
}
use ai_cat_controller.Errors.{Exception}

-- the texts that `_state` takes
pub data DialogState : Type 0 where
  idle waking awake error interrupting interrupted : DialogState
  submitting_text thinking submitting_speech speaking : DialogState
  ready offline unavailable : DialogState

abbrev pub text_of : DialogState → String
text_of DialogState.idle = "idle"
text_of DialogState.waking = "waking"
text_of DialogState.awake = "awake"
text_of DialogState.error = "error"
text_of DialogState.interrupting = "interrupting"
text_of DialogState.interrupted = "interrupted"
text_of DialogState.submitting_text = "submitting_text"
text_of DialogState.thinking = "thinking"
text_of DialogState.submitting_speech = "submitting_speech"
text_of DialogState.speaking = "speaking"
text_of DialogState.ready = "ready"
text_of DialogState.offline = "offline"
text_of DialogState.unavailable = "unavailable"

-- How the coroutine of the adapter's `wake_dialog` ends.
pub data WakeOutcome : Type 0 where
  woke : WakeOutcome
  failed : Exception → WakeOutcome
  cancelled : WakeOutcome

-- A call of `wake` that waits for the task it has made, with the task's outcome once it is done;
-- `cancelling` once an interruption has called the task's `cancel`.
pub record WakeCall : Type 0 where
  pub generation : ℕ
  pub request_id : Option String
  pub outcome : Option WakeOutcome
  pub cancelling : Bool

-- A call of `interrupt` between its two critical sections, and the task that it gathers; the calls are
-- told apart by the generations that they begin.
pub record InterruptCall : Type 0 where
  pub generation : ℕ
  pub waits_for : Option ℕ
  pub request_id : Option String

pub record DialogService : Type 0 where
  pub state : DialogState
  pub wake_task : Option ℕ
  pub generation : ℕ

pub data SubmissionKind : Type 0 where
  text speech : SubmissionKind

-- A call of `send_text` or `speak`, which holds the lock while it waits: first for the adapter's
-- status, then for the adapter to take the request.
pub data SubmissionPhase : Type 0 where
  asking sending : SubmissionPhase

pub record Submission : Type 0 where
  pub kind : SubmissionKind
  pub request_id : String
  pub phase : SubmissionPhase

pub record World : Type 0 where
  pub service : DialogService
  pub wakes : List WakeCall
  pub interrupts : List InterruptCall
  pub submission : Option Submission

abbrev pub initial : World
initial = record {
  service = record { state = DialogState.idle; wake_task = none; generation = 0 };
  wakes = [];
  interrupts = [];
  submission = none;
}

abbrev pub is_running : ℕ → WakeCall → Bool
is_running g c = eqb c.generation g && is_none c.outcome

abbrev pub is_live : ℕ → World → Bool
is_live g w = any (is_running g) w.wakes

-- `self._wake_task is not None and not self._wake_task.done()`
abbrev pub wake_is_active : World → Bool
wake_is_active w = elim w.service.wake_task [ none ↦ false | some g ↦ is_live g w ]
