-- ===== src/Motion/State.antt =====
-- The state of `MotionService`, with the tasks that the event loop holds for it.
use ai_cat_controller.Base.{ℕ, String, Bool, false, Option, none, some, List, [], ◌&&◌, eqb, any}
use ai_cat_controller.Domain.Actions.Schema.{Capability}

-- What the service asks of its adapter without waiting.
pub record Adapter : Type 0 where
  pub supports : Capability → Bool
  pub capability_unavailable_reason : Capability → String

pub record MotionConfig : Type 0 where
  pub command_timeout : ℕ
  pub cooldown : ℕ

pub data MotionOutcome : Type 0 where
  completed cancelled timed_out failed : MotionOutcome

-- `motion-{generation}-{monotonic_ns}`, by its two numbers
pub record Token : Type 0 where
  pub generation : ℕ
  pub nanoseconds : ℕ

abbrev pub same_token : Token → Token → Bool
same_token a b = eqb a.generation b.generation && eqb a.nanoseconds b.nanoseconds

-- A future of `_completion_futures`: `none` while it is pending.
pub record Completion : Type 0 where
  pub token : Token
  pub result : Option MotionOutcome

pub record MotionService : Type 0 where
  pub task : Option ℕ
  pub current_action : String
  pub current_request_id : Option String
  pub generation : ℕ
  pub cooldown_until : ℕ
  pub stopping : Bool
  pub last_error : Option String
  pub completion_futures : List Completion

-- Where a task stands: not begun, inside the operation, or asking the adapter to stop after a
-- timeout.
pub data Phase : Type 0 where
  scheduled executing recovering : Phase

-- A task of `_execute` that is not done; `cancelling` once its `cancel` has been called.
pub record Task : Type 0 where
  pub generation : ℕ
  pub action_name : String
  pub timeout : ℕ
  pub token : Option Token
  pub phase : Phase
  pub cancelling : Bool

-- A call of `stop` between its two critical sections, and the task that it waits for.
pub record Stopper : Type 0 where
  pub waits_for : Option ℕ

pub record World : Type 0 where
  pub service : MotionService
  pub live : List Task
  pub stopper : Option Stopper

abbrev pub initial : World
initial = record {
  service = record {
    task = none;
    current_action = "idle";
    current_request_id = none;
    generation = 0;
    cooldown_until = 0;
    stopping = false;
    last_error = none;
    completion_futures = [];
  };
  live = [];
  stopper = none;
}

abbrev pub is_live : ℕ → World → Bool
is_live g w = any (λ t. eqb t.generation g) w.live

-- `self._task is not None and not self._task.done()`
abbrev pub task_is_active : World → Bool
task_is_active w = elim w.service.task [ none ↦ false | some g ↦ is_live g w ]
