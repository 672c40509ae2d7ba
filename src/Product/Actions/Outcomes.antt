-- ===== src/Product/Actions/Outcomes.antt =====
-- How the outcome of a motion reaches the record of its action, and when it never does.
use ai_cat_controller.Base.{ℕ, ◌≡◌, refl, String, none, some, find, find-update_where, arith}
use ai_cat_controller.Exec.{ok}
use ai_cat_controller.Repository.Schema.{ActionExecution, Database, Status}
use ai_cat_controller.Repository.Tables.{Env}
use ai_cat_controller.Repository.Executions.{
  ExecutionUpdate, is_execution, updated, update_action_execution,
}
use ai_cat_controller.Motion.State.{MotionConfig, MotionOutcome, Task, Token}
use ai_cat_controller.Motion.Service.{settle}
use ai_cat_controller.Motion.Stop.{await_execution}
use ai_cat_controller.Motion.Futures.{future_of, pending, settle_publishes}
use ai_cat_controller.Product.Actions.{System, Call, outcome_update, finalize_action}

update-found :
    (env : Env) (id : String) (u : ExecutionUpdate) (db : Database) (x : ActionExecution)
    → find (is_execution id) db.action_executions ≡ some x
    → find (is_execution id) (update_action_execution env id u db).1.action_executions
      ≡ some (updated env u x)
unfolding update_action_execution
update-found env id u db x h =
    find-update_where (is_execution id) (updated env u) db.action_executions x (λ y. refl) h

finalize-known :
    (k : Call) (id : String) (token : Token) (o : MotionOutcome) (s : System)
    → (await_execution token s.world).0 ≡ ok (some o)
    → (finalize_action k id token s).db
      ≡ (update_action_execution k.updated id (outcome_update o) s.db).1
unfolding finalize_action
finalize-known k id token o s h = ground arith

-- What the row of an action says of an outcome.
abbrev pub Reports : MotionOutcome → ActionExecution → Type 0
Reports MotionOutcome.completed y =
    (y.status ≡ Status.completed) × (y.result ≡ some "预设动作执行完成") × (y.error ≡ none)
Reports MotionOutcome.cancelled y =
    (y.status ≡ Status.cancelled) × (y.result ≡ none) × (y.error ≡ some "动作结果: cancelled")
Reports MotionOutcome.timed_out y =
    (y.status ≡ Status.timed_out) × (y.result ≡ none) × (y.error ≡ some "动作结果: timed_out")
Reports MotionOutcome.failed y =
    (y.status ≡ Status.failed) × (y.result ≡ none) × (y.error ≡ some "动作结果: failed")

-- The row is closed at the time, and is else the one that it was.
abbrev pub Closes : String → ActionExecution → ActionExecution → Type 0
Closes now x y =
    (y.completed_at ≡ some now)
    × (y.execution_id ≡ x.execution_id)
    × (y.pet_id ≡ x.pet_id)
    × (y.user_id ≡ x.user_id)
    × (y.action_id ≡ x.action_id)
    × (y.request_id ≡ x.request_id)
    × (y.created_at ≡ x.created_at)

updated-Reports :
    (env : Env) (o : MotionOutcome) (x : ActionExecution)
    → Reports o (updated env (outcome_update o) x)
      × Closes env.now x (updated env (outcome_update o) x)
unfolding outcome_update
updated-Reports env MotionOutcome.completed x =
    ((refl, refl, refl), (refl, refl, refl, refl, refl, refl, refl))
updated-Reports env MotionOutcome.cancelled x =
    ((refl, refl, refl), (refl, refl, refl, refl, refl, refl, refl))
updated-Reports env MotionOutcome.timed_out x =
    ((refl, refl, refl), (refl, refl, refl, refl, refl, refl, refl))
updated-Reports env MotionOutcome.failed x =
    ((refl, refl, refl), (refl, refl, refl, refl, refl, refl, refl))

-- When the task of an action ends while the outcome is awaited, the finalizer of the action leaves a row
-- that has the status of this very outcome with its result or error, is completed at the time of the
-- update, and keeps its ids, its request and its time of creation.
pub finalize_action-settle :
    (k : Call) (c : MotionConfig) (id : String) (t : Task) (token : Token) (o : MotionOutcome)
    (now : ℕ) (s : System) (x : ActionExecution)
    → t.token ≡ some token
    → future_of token s.world ≡ some (pending token)
    → find (is_execution id) s.db.action_executions ≡ some x
    → let s' = finalize_action k id token (record s { world = settle c t o now s.world }) in
      (y : ActionExecution) × (find (is_execution id) s'.db.action_executions ≡ some y)
      × Reports o y
      × Closes k.updated.now x y
finalize_action-settle k c id t token o now s x has waits row =
    let after : System = record s { world = settle c t o now s.world } in
    let (reports, closes) = updated-Reports k.updated o x in
    (
      updated k.updated (outcome_update o) x,
      rw (finalize-known k id token o after (settle_publishes c t token o now s.world has waits))
          (update-found k.updated id (outcome_update o) s.db x row),
      reports,
      closes,
    )

-- While the outcome of an action's task is pending, the finalizer changes nothing.
pub finalize_action-pending :
    (k : Call) (id : String) (token : Token) (s : System)
    → future_of token s.world ≡ some (pending token)
    → finalize_action k id token s ≡ s
unfolding finalize_action await_execution
finalize_action-pending k id token s h = ground arith
