-- ===== src/Repository/Executions/Requests.antt =====
-- A request is executed once: what `create_action_execution` answers to it, now and again.
use mathlib.Core.Path.{subst}
use ai_cat_controller.Base.{
  ◌≡◌, ◌⊎◌, ◌++◌, ◌==◌, ◌&&◌, refl, inl, inr, true, false, String, Option, none, some, [], ◌∷◌,
  find, find-append, arith, eq_refl, Bool, Option-cases,
}
use ai_cat_controller.Errors.{integrity_error}
use ai_cat_controller.Exec.{Result, ok, err}
use ai_cat_controller.Repository.Schema.{ActionExecution, Database}
use ai_cat_controller.Repository.Tables.{Env, PetRow, not_owned, owned_pet_row}
use ai_cat_controller.Repository.Interactions.Outcomes.{owned_pet_row-cases}
use ai_cat_controller.Repository.Executions.{
  ExecutionRequest, is_execution_of, new_execution, create_or_find, create_action_execution,
}

module _ (env : Env) (q : ExecutionRequest) (db : Database) where
  abbrev pub seen : Option ActionExecution
  seen = find (is_execution_of q.pet_id q.request_id) db.action_executions

  abbrev pub with_execution : Database
  with_execution = record db {
    action_executions = db.action_executions ++ new_execution env q ∷ [];
  }

  -- A call raises and changes nothing, answers a known request with its row and changes nothing, or
  -- adds one pending row.
  abbrev pub Created : Result (ActionExecution × Bool) × Database → Type 0
  Created (err _, db') = db' ≡ db
  Created (ok (x, created), db') =
      (row : PetRow) × (owned_pet_row q.user_id q.pet_id db ≡ (ok row, db))
      × (((seen ≡ some x) × (created ≡ false) × (db' ≡ db))
          ⊎ ((seen ≡ none) × (x ≡ new_execution env q) × (created ≡ true) × (db' ≡ with_execution)))

  insert-cases :
      (create_or_find env q none db ≡ (err integrity_error, db))
      ⊎ (create_or_find env q none db ≡ (ok (new_execution env q, true), with_execution))
  unfolding create_or_find
  insert-cases = ground arith

  known_request : (x : ActionExecution) → create_or_find env q (some x) db ≡ (ok (x, false), db)
  unfolding create_or_find
  known_request x = refl

  -- A call raises and changes nothing, answers a known request with its row and changes nothing, or
  -- adds one pending row; where it answers, the user owns the pet.
  pub create_action_execution-Created : Created (create_action_execution env q db)
  unfolding create_action_execution
  create_action_execution-Created = elim (owned_pet_row-cases q.user_id q.pet_id db) [
    | inr missing ↦
        let eq : create_action_execution env q db ≡ (err not_owned, db) = ground arith in rw eq refl
    | inl (row, owned) ↦ elim (Option-cases seen) [
      | inr (x, known) ↦
          let eq : create_action_execution env q db ≡ (ok (x, false), db) =
            ground (arith, known_request x) in
          rw eq (row, owned, inl (known, refl, refl))
      | inl fresh ↦ elim insert-cases [
        | inl raised ↦
            let eq : create_action_execution env q db ≡ (err integrity_error, db) = ground arith in
            rw eq refl
        | inr done ↦
            let eq : create_action_execution env q db
                ≡ (ok (new_execution env q, true), with_execution) =
              ground arith in
            rw eq (row, owned, inr (fresh, refl, refl, refl))
      ]
    ]
  ]

repeat_of_seen :
    (env : Env) (q : ExecutionRequest) (db : Database) (row : PetRow) (x : ActionExecution)
    → owned_pet_row q.user_id q.pet_id db ≡ (ok row, db)
    → find (is_execution_of q.pet_id q.request_id) db.action_executions ≡ some x
    → create_action_execution env q db ≡ (ok (x, false), db)
unfolding create_action_execution create_or_find
repeat_of_seen env q db row x owned seen = ground arith

owned_elsewhere :
    (env : Env) (q : ExecutionRequest) (db : Database) (row : PetRow)
    → owned_pet_row q.user_id q.pet_id db ≡ (ok row, db)
    → owned_pet_row q.user_id q.pet_id (with_execution env q db) ≡ (ok row, with_execution env q db)
unfolding owned_pet_row
owned_elsewhere env q db row h = ground arith

is_execution_of_self : (p r : String) → (p == p && r == r) ≡ true
is_execution_of_self p r = rw (eq_refl p, eq_refl r)

-- A request that has been answered is answered by the same row again, as not created, and the
-- second call changes nothing.
pub create_action_execution-repeat :
    (env env' : Env) (q : ExecutionRequest) (db db' : Database) (x : ActionExecution)
    (created : Bool)
    → create_action_execution env q db ≡ (ok (x, created), db')
    → create_action_execution env' q db' ≡ (ok (x, false), db')
create_action_execution-repeat env env' q db db' x created h =
    let (row, owned, how) = subst (Created env q db) h (create_action_execution-Created env q db) in
    elim how [
      | inl (known, old, same) ↦ rw same (repeat_of_seen env' q db row x owned known)
      | inr (fresh, new, made, after) ↦
          rw (after, new)
            (repeat_of_seen env' q (with_execution env q db) row (new_execution env q)
              (owned_elsewhere env q db row owned)
              (find-append (is_execution_of q.pet_id q.request_id) db.action_executions
                (new_execution env q) fresh (is_execution_of_self q.pet_id q.request_id)))
    ]
