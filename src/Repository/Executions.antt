-- ===== src/Repository/Executions.antt =====
-- `create_action_execution`, `update_action_execution` and `add_feedback`.
pub mod Requests
pub mod Lifecycle
pub mod Tests
use ai_cat_controller.Base.{
  String, Bool, true, false, Option, none, some, ◌==◌, ◌&&◌, find, update_where, if◌then◌else◌,
}
use ai_cat_controller.Exec.{Exec, pure, gets, modify, transaction, ◌>>=◌, ◌>>◌}
use ai_cat_controller.Repository.Schema.{ActionExecution, Status, Feedback, Database}
use ai_cat_controller.Repository.Tables.{
  Env, random_id, owned_pet_row, insert_execution, insert_feedback,
}

-- The keyword arguments of `create_action_execution`.
pub record ExecutionRequest : Type 0 where
  pub user_id : String
  pub pet_id : String
  pub action_id : String
  pub request_id : String

abbrev pub is_execution_of : String → String → ActionExecution → Bool
is_execution_of pet_id request_id x = x.pet_id == pet_id && x.request_id == request_id

abbrev pub new_execution : Env → ExecutionRequest → ActionExecution
new_execution env q = record {
  execution_id = random_id "run" env.fresh;
  pet_id = q.pet_id;
  user_id = q.user_id;
  action_id = q.action_id;
  request_id = q.request_id;
  status = Status.pending;
  result = none;
  error = none;
  created_at = env.now;
  completed_at = none;
}

-- the call from the search for the request on
unfoldable pub create_or_find :
    Env → ExecutionRequest → Option ActionExecution → Exec Database (ActionExecution × Bool)
create_or_find env q (some x) = pure (x, false)
create_or_find env q none = do
  insert_execution (new_execution env q)
  pure (new_execution env q, true)

-- The answer is the row, of which the source shows all but the pet and the user, and `created`.
unfoldable pub create_action_execution :
    Env → ExecutionRequest → Exec Database (ActionExecution × Bool)
create_action_execution env q = transaction (do
  owned_pet_row q.user_id q.pet_id
  existing ← gets (λ db. find (is_execution_of q.pet_id q.request_id) db.action_executions)
  create_or_find env q existing)

abbrev pub is_final : Status → Bool
is_final Status.pending = false
is_final Status.running = false
is_final Status.completed = true
is_final Status.cancelled = true
is_final Status.failed = true
is_final Status.timed_out = true

-- The keyword arguments of `update_action_execution`.
pub record ExecutionUpdate : Type 0 where
  pub status : Status
  pub result : Option String
  pub error : Option String

abbrev pub updated : Env → ExecutionUpdate → ActionExecution → ActionExecution
updated env u x = record x {
  status = u.status;
  result = u.result;
  error = u.error;
  completed_at = if is_final u.status then some env.now else none;
}

abbrev pub is_execution : String → ActionExecution → Bool
is_execution execution_id x = x.execution_id == execution_id

unfoldable pub update_action_execution : Env → String → ExecutionUpdate → Exec Database Unit
update_action_execution env execution_id u = transaction (
    modify (λ db. record db {
      action_executions =
          update_where (is_execution execution_id) (updated env u) db.action_executions;
    }))

abbrev pub feedback_row : Env → String → String → String → String → Feedback
feedback_row env user_id pet_id category content = record {
  feedback_id = random_id "fb" env.fresh;
  pet_id = pet_id;
  user_id = user_id;
  category = category;
  content = content;
  created_at = env.now;
}

unfoldable pub add_feedback : Env → String → String → String → String → Exec Database Feedback
add_feedback env user_id pet_id category content = transaction (do
  owned_pet_row user_id pet_id
  let row = feedback_row env user_id pet_id category content
  insert_feedback row
  pure row)
