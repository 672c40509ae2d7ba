-- ===== src/Product/Actions/Tests.antt =====
-- The laws of preset actions at work: a nod is asked for, asked for again, and recorded.
use ai_cat_controller.Base.{◌≡◌, ap, refl, true, false, none, some, [], ◌∷◌, find}
use ai_cat_controller.Exec.{ok}
use ai_cat_controller.Domain.Actions.{actions, action_by_id, action_is_unlocked}
use ai_cat_controller.Domain.Intimacy.{level_for_points}
use ai_cat_controller.Repository.Schema.{Status, ActionExecution}
use ai_cat_controller.Repository.Samples.{morning, evening, one_pet}
use ai_cat_controller.Repository.Tables.{owned_pet_row, get_owned_pet}
use ai_cat_controller.Repository.Executions.{
  ExecutionRequest, is_execution, new_execution, create_or_find, create_action_execution,
  update_action_execution,
}
use ai_cat_controller.Motion.State.{
  Adapter, MotionConfig, MotionOutcome, Phase, Task, Token, initial,
}
use ai_cat_controller.Motion.Service.{run_sequence, settle, start, unavailable_reason}
use ai_cat_controller.Product.Actions.{
  System, Call, may_execute, perform, execute_known, execute_action, finalize_action,
}
use ai_cat_controller.Product.Actions.Admission.{IsAllowed, execute_action-IsAllowed}
use ai_cat_controller.Product.Actions.Repeats.{execute_action-repeat}
use ai_cat_controller.Product.Actions.Outcomes.{Closes, Reports, finalize_action-settle}

abbrev adapter : Adapter
adapter = record { supports = λ c. true; capability_unavailable_reason = λ c. "" }

abbrev config : MotionConfig
config = record { command_timeout = 5000; cooldown = 1000 }

abbrev call : Call
call = record {
  created = morning;
  updated = evening;
  started = record { time = 2000; nanoseconds = 7 };
  str = λ e. "";
}

abbrev nod : ExecutionRequest
nod = record { user_id = "u1"; pet_id = "p1"; action_id = "head_nod"; request_id = "r1" }

abbrev calm : System
calm = record { db = one_pet; world = initial; finalizers = [] }

abbrev nodding : System
nodding = (execute_action adapter config call nod calm).1

abbrev row : ActionExecution
row = record (new_execution morning nod) { status = Status.running }

nod-eq : execute_action adapter config call nod calm ≡ (ok (row, false), nodding)
unfolding execute_action execute_known perform may_execute action_by_id actions get_owned_pet
    owned_pet_row create_action_execution create_or_find update_action_execution run_sequence start
    unavailable_reason level_for_points action_is_unlocked
nod-eq = refl

execute_action-IsAllowed_example : IsAllowed adapter nod one_pet
execute_action-IsAllowed_example =
    execute_action-IsAllowed adapter config call nod calm (row, false) (ap (λ r. r.0) nod-eq)

execute_action-repeat_example : (execute_action adapter config call nod nodding).1 ≡ nodding
execute_action-repeat_example =
    execute_action-repeat adapter adapter config config call call nod calm nodding (row, false)
      nod-eq

abbrev token : Token
token = record { generation = 1; nanoseconds = 7 }

abbrev task : Task
task = record {
  generation = 1;
  action_name = "head_nod";
  timeout = 5000;
  token = some token;
  phase = Phase.executing;
  cancelling = false;
}

-- the nod runs, and its row says so
abbrev running : System
running = record {
  db = record one_pet { action_executions = row ∷ [] };
  world = record initial {
    service = record initial.service {
      task = some 1;
      current_action = "head_nod";
      generation = 1;
      completion_futures = record { token = token; result = none } ∷ [];
    };
    live = task ∷ [];
  };
  finalizers = ("run_aaaa", some token) ∷ [];
}

finalize_action-settle_example :
    let s' =
      finalize_action call "run_aaaa" token (record running {
        world = settle config task MotionOutcome.completed 3000 running.world;
      }) in
    (y : ActionExecution) × (find (is_execution "run_aaaa") s'.db.action_executions ≡ some y)
    × Reports MotionOutcome.completed y
    × Closes evening.now row y
finalize_action-settle_example =
    finalize_action-settle call config "run_aaaa" task token MotionOutcome.completed 3000 running
      row refl refl refl
