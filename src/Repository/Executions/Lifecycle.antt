-- ===== src/Repository/Executions/Lifecycle.antt =====
-- A row of `action_executions` has a time of completion exactly when its status is final.
use mathlib.Core.Path.{subst, sym}
use ai_cat_controller.Base.{
  ◌≡◌, refl, inl, inr, Bool, String, List, [], ◌∷◌, arith, All, All-append, is_some, update_where,
}
use ai_cat_controller.Exec.{Result, ok, err}
use ai_cat_controller.Repository.Schema.{ActionExecution, Database}
use ai_cat_controller.Repository.Tables.{Env}
use ai_cat_controller.Repository.Executions.{
  ExecutionRequest, ExecutionUpdate, is_final, is_execution, updated, new_execution,
  create_action_execution, update_action_execution,
}
use ai_cat_controller.Repository.Executions.Requests.{Created, create_action_execution-Created}

abbrev pub IsTimed : ActionExecution → Type 0
IsTimed x = is_some x.completed_at ≡ is_final x.status

abbrev pub AllTimed : Database → Type 0
AllTimed db = All IsTimed db.action_executions

-- A new request keeps it so that a row has a time of completion exactly when its status is final.
pub create_action_execution-AllTimed :
    (env : Env) (q : ExecutionRequest) (db : Database)
    → AllTimed db
    → AllTimed (create_action_execution env q db).1
create_action_execution-AllTimed env q db h =
    go (create_action_execution env q db) (create_action_execution-Created env q db)
  where
    go : (r : Result (ActionExecution × Bool) × Database) → Created env q db r → AllTimed r.1
    go (err _, db') same = subst AllTimed (sym same) h
    go (ok (x, created), db') (row, owned, inl (known, old, same)) = subst AllTimed (sym same) h
    go (ok (x, created), db') (row, owned, inr (fresh, new, made, after)) =
        subst AllTimed (sym after)
          (All-append IsTimed db.action_executions (new_execution env q ∷ []) h (refl, tt))

updated-IsTimed :
    (env : Env) (u : ExecutionUpdate) (x : ActionExecution) → IsTimed (updated env u x)
updated-IsTimed env u x = ground arith

update_where-AllTimed :
    (env : Env) (id : String) (u : ExecutionUpdate) (xs : List ActionExecution)
    → All IsTimed xs
    → All IsTimed (update_where (is_execution id) (updated env u) xs)
update_where-AllTimed env id u [] h = tt
update_where-AllTimed env id u (x ∷ xs) h =
    (ground (arith, updated-IsTimed env u x), update_where-AllTimed env id u xs h.1)

-- An update keeps it so that a row has a time of completion exactly when its status is final.
pub update_action_execution-AllTimed :
    (env : Env) (id : String) (u : ExecutionUpdate) (db : Database)
    → AllTimed db
    → AllTimed (update_action_execution env id u db).1
unfolding update_action_execution
update_action_execution-AllTimed env id u db h =
    update_where-AllTimed env id u db.action_executions h
