-- ===== src/Product/Actions.antt =====
-- `execute_action` and `_finalize_action`: a preset action, from its request to its recorded outcome.
pub mod Admission
pub mod Repeats
pub mod Outcomes
pub mod Tests
use ai_cat_controller.Base.{
  ℕ, String, Bool, true, false, not, Option, none, some, List, [], ◌∷◌, ◌++◌, ◌==◌, filter,
  if◌then◌else◌,
}
use ai_cat_controller.Errors.{
  Exception, ai_cat, resource_not_found, device_unavailable, action_conflict,
  adapter_not_implemented,
}
use ai_cat_controller.Exec.{Result, ok, err, Exec, lift, modify, pure, ◌>>=◌, ◌>>◌}
use ai_cat_controller.Domain.Actions.{action_by_id, action_is_unlocked}
use ai_cat_controller.Domain.Actions.Schema.{Capability, ActionComponent, ActionDefinition}
use ai_cat_controller.Domain.Intimacy.{IntimacyLevel, level_for_points}
use ai_cat_controller.Repository.Schema.{Status, ActionExecution, Database}
use ai_cat_controller.Repository.Tables.{Env, PetRow, get_owned_pet}
use ai_cat_controller.Repository.Executions.{
  ExecutionRequest, ExecutionUpdate, create_action_execution, update_action_execution,
}
use ai_cat_controller.Motion.State.{Adapter, MotionConfig, MotionOutcome, Token, World}
use ai_cat_controller.Motion.Service.{Accepted, MotionStep, Now, run_sequence, unavailable_reason}
use ai_cat_controller.Motion.Stop.{await_execution}

-- The repository's file, the scheduler, and the finalizers that are waiting, each for the
-- outcome of one execution.
pub record System : Type 0 where
  pub db : Database
  pub world : World
  pub finalizers : List (String × Option Token)

abbrev pub on_db : {A : Type 0} → Exec Database A → Exec System A
on_db m s = let (r, d) = m s.db in (r, record s { db = d })

abbrev pub capabilities : List ActionComponent → List Capability
capabilities [] = []
capabilities (c ∷ cs) = c.capability ∷ capabilities cs

abbrev pub steps : List ActionComponent → List MotionStep
steps [] = []
steps (c ∷ cs) =
    record { capability = c.capability; intensity = c.speed; duration_ms = c.duration_ms }
    ∷ steps cs

-- the tests on the pet and on the adapter, in their order
abbrev level_allows : Adapter → ActionDefinition → PetRow → Option IntimacyLevel → Result (Unit {0})
level_allows a action row none = err Exception.index_error
level_allows a action row (some l) =
    if not (action_is_unlocked action row.pet.personality_id l.level)
    then err (ai_cat action_conflict "当前性格或亲密度尚未解锁该动作")
    else elim (unavailable_reason a (capabilities action.components)) [
      | some reason ↦ err (ai_cat adapter_not_implemented reason)
      | none ↦ ok tt
    ]

unfoldable pub may_execute : Adapter → ActionDefinition → PetRow → Result (Unit {0})
may_execute a action row =
    if not row.device.online
    then err (ai_cat device_unavailable "设备离线，无法执行动作")
    else level_allows a action row (level_for_points row.pet.intimacy_points)

-- What a call takes from outside: the clock and digits of its writes, and of the scheduler, and
-- Python's `str` of an exception.
pub record Call : Type 0 where
  pub created : Env
  pub updated : Env
  pub started : Now
  pub str : Exception → String

abbrev pub failed_update : String → ExecutionUpdate
failed_update error = record { status = Status.failed; result = none; error = some error }

abbrev pub running_update : ExecutionUpdate
running_update = record { status = Status.running; result = none; error = none }

-- `run_sequence` and what follows it, raised or not
abbrev pub started_or_failed :
    Call → ActionExecution → World → Result Accepted → Exec System (ActionExecution × Bool)
started_or_failed k x w (err e) s = (
  err e,
  record s {
    db = (update_action_execution k.updated x.execution_id (failed_update (k.str e)) s.db).1;
    world = w;
  },
)
started_or_failed k x w (ok r) s = (
  ok (record x { status = Status.running }, false),
  record {
    db = (update_action_execution k.updated x.execution_id running_update s.db).1;
    world = w;
    finalizers = s.finalizers ++ (x.execution_id, r.execution_token) ∷ [];
  },
)

-- The row of the request, and whether it was made now; only a new one moves anything. The answer is
-- the row and `duplicate`.
unfoldable pub perform :
    Adapter
    → MotionConfig
    → Call
    → ActionDefinition
    → ExecutionRequest
    → ActionExecution × Bool
    → Exec System (ActionExecution × Bool)
perform a c k action q (x, false) s = (ok (x, true), s)
perform a c k action q (x, true) s =
    let (r, w) =
      run_sequence a c action.action_id (steps action.components) (some q.request_id) k.started
        s.world in
    started_or_failed k x w r s

unfoldable pub execute_known :
    Adapter
    → MotionConfig
    → Call
    → ExecutionRequest
    → ActionDefinition
    → Exec System (ActionExecution × Bool)
execute_known a c k q action = do
  row ← on_db (get_owned_pet q.user_id q.pet_id)
  lift (may_execute a action row)
  execution ← on_db (create_action_execution k.created q)
  perform a c k action q execution

abbrev execute_found :
    Adapter
    → MotionConfig
    → Call
    → ExecutionRequest
    → Option ActionDefinition
    → Exec System (ActionExecution × Bool)
execute_found a c k q none s = (err (ai_cat resource_not_found "预设动作不存在"), s)
execute_found a c k q (some action) s = execute_known a c k q action s

unfoldable pub execute_action :
    Adapter → MotionConfig → Call → ExecutionRequest → Exec System (ActionExecution × Bool)
execute_action a c k q = execute_found a c k q (action_by_id q.action_id)

-- the update of `_finalize_action` for an outcome
unfoldable pub outcome_update : MotionOutcome → ExecutionUpdate
outcome_update MotionOutcome.completed = record {
  status = Status.completed;
  result = some "预设动作执行完成";
  error = none;
}
outcome_update MotionOutcome.cancelled = record {
  status = Status.cancelled;
  result = none;
  error = some "动作结果: cancelled";
}
outcome_update MotionOutcome.timed_out = record {
  status = Status.timed_out;
  result = none;
  error = some "动作结果: timed_out";
}
outcome_update MotionOutcome.failed = record {
  status = Status.failed;
  result = none;
  error = some "动作结果: failed";
}

abbrev finalized :
    Call → String → World → Result (Option MotionOutcome) → Database → Option Database
finalized k id w (err e) db =
    some (update_action_execution k.updated id (failed_update (k.str e)) db).1
finalized k id w (ok none) db = none
finalized k id w (ok (some o)) db =
    some (update_action_execution k.updated id (outcome_update o) db).1

-- `_finalize_action` where it can go on, and its end, which takes it out of the set; while the outcome
-- is pending it waits, and nothing changes
unfoldable pub finalize_action : Call → String → Token → System → System
finalize_action k id token s =
    let (r, w) = await_execution token s.world in
    elim (finalized k id w r s.db) [
      | none ↦ s
      | some d ↦ record {
        db = d;
        world = w;
        finalizers = filter (λ f. not (f.0 == id)) s.finalizers;
      }
    ]
