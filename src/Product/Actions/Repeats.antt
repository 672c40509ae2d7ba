-- ===== src/Product/Actions/Repeats.antt =====
-- A request for an action moves the cat once: asked for again it changes nothing at all.
use mathlib.Core.Path.{subst}
use ai_cat_controller.Base.{
  ◌≡◌, ◌⊎◌, refl, inl, inr, String, Bool, true, false, Option, some, List, [], ◌∷◌, ◌==◌, ◌&&◌,
  find, find-append, update_where, arith, eq_refl, Option-cases, Bool-cases, if◌then◌else◌,
}
use ai_cat_controller.Errors.{Exception, ai_cat, resource_not_found}
use ai_cat_controller.Exec.{Result, ok, err, Exec-cases}
use ai_cat_controller.Domain.Actions.{action_by_id}
use ai_cat_controller.Domain.Actions.Schema.{ActionDefinition}
use ai_cat_controller.Repository.Schema.{ActionExecution, Database}
use ai_cat_controller.Repository.Tables.{Env}
use ai_cat_controller.Repository.Executions.{
  ExecutionRequest, ExecutionUpdate, is_execution, is_execution_of, updated, new_execution,
  create_action_execution, update_action_execution,
}
use ai_cat_controller.Repository.Executions.Requests.{Created, create_action_execution-Created}
use ai_cat_controller.Motion.State.{Adapter, MotionConfig, World}
use ai_cat_controller.Motion.Service.{Accepted}
use ai_cat_controller.Product.Actions.{
  System, Call, started_or_failed, perform, execute_known, execute_action,
}
use ai_cat_controller.Product.Actions.Admission.{get_owned_pet-eq, execute_known-cases}

abbrev known : ExecutionRequest → Database → Option ActionExecution
known q db = find (is_execution_of q.pet_id q.request_id) db.action_executions

find-updated :
    (q : ExecutionRequest) (env : Env) (id : String) (u : ExecutionUpdate)
    (xs : List ActionExecution) (x : ActionExecution)
    → find (is_execution_of q.pet_id q.request_id) xs ≡ some x
    → (y : ActionExecution) × (find
          (is_execution_of q.pet_id q.request_id)
          (update_where (is_execution id) (updated env u) xs)
        ≡ some y)
find-updated q env id u [] x h = cc
find-updated q env id u (z ∷ xs) x h = elim (Bool-cases (is_execution_of q.pet_id q.request_id z)) [
  | inl here ↦ (if is_execution id z then updated env u z else z, ground arith)
  | inr later ↦ let (y, found) = find-updated q env id u xs x (ground arith) in (y, ground arith)
]

known-update :
    (q : ExecutionRequest) (env : Env) (id : String) (u : ExecutionUpdate) (db : Database)
    (x : ActionExecution)
    → known q db ≡ some x
    → (y : ActionExecution) × (known q (update_action_execution env id u db).1 ≡ some y)
unfolding update_action_execution
known-update q env id u db x h = find-updated q env id u db.action_executions x h

-- What a call that answers has found or made is there.
known-created :
    (env : Env) (q : ExecutionRequest) (db d : Database) (x : ActionExecution) (b : Bool)
    → create_action_execution env q db ≡ (ok (x, b), d)
    → known q d ≡ some x
known-created env q db d x b h =
    let (row, owned, how) = subst (Created env q db) h (create_action_execution-Created env q db) in
    elim how [
      | inl (old, fresh, same) ↦ rw same old
      | inr (fresh, new, made, after) ↦
          rw (after, new)
            (find-append (is_execution_of q.pet_id q.request_id) db.action_executions
              (new_execution env q) fresh (self q.pet_id q.request_id))
    ]
  where
    self : (p r : String) → (p == p && r == r) ≡ true
    self p r = rw (eq_refl p, eq_refl r)

create-old :
    (env : Env) (q : ExecutionRequest) (db : Database) (y : ActionExecution)
    → known q db ≡ some y
    → ((e : Exception) × (create_action_execution env q db ≡ (err e, db)))
      ⊎ ((x : ActionExecution) × (create_action_execution env q db ≡ (ok (x, false), db)))
create-old env q db y old = elim (Exec-cases (create_action_execution env q db)) [
  | inl (e, d, h) ↦
      let same : d ≡ db = subst (Created env q db) h (create_action_execution-Created env q db) in
      inl (e, rw (h, same) refl)
  | inr ((x, b), d, h) ↦
      let (row, owned, how) =
        subst (Created env q db) h (create_action_execution-Created env q db) in
      elim how [
        | inl (found, fresh, same) ↦ inr (x, rw (h, fresh, same) refl)
        | inr (fresh, new, made, after) ↦ absurd (ground (arith, old, fresh))
      ]
]

abbrev unknown_action : Exception
unknown_action = ai_cat resource_not_found "预设动作不存在"

module _ (a : Adapter) (c : MotionConfig) (k : Call) (q : ExecutionRequest) where
  started-known :
      (x y : ActionExecution) (w : World) (r : Result Accepted) (s : System)
      → known q s.db ≡ some y
      → (z : ActionExecution) × (known q (started_or_failed k x w r s).1.db ≡ some z)
  started-known x y w (err e) s h = known-update q k.updated x.execution_id _ s.db y h
  started-known x y w (ok r) s h = known-update q k.updated x.execution_id _ s.db y h

  perform-known :
      (action : ActionDefinition) (x y : ActionExecution) (b : Bool) (s : System)
      → known q s.db ≡ some y
      → (z : ActionExecution) × (known q (perform a c k action q (x, b) s).1.db ≡ some z)
  unfolding perform
  perform-known action x y false s h = (y, h)
  perform-known action x y true s h = started-known x y _ _ s h

  abbrev Remembers : Result (ActionExecution × Bool) × System → Type 0
  Remembers (err _, s') = Unit
  Remembers (ok _, s') = (z : ActionExecution) × (known q s'.db ≡ some z)

  Remembers-any :
      (r : Result (ActionExecution × Bool) × System)
      → (z : ActionExecution) × (known q r.1.db ≡ some z)
      → Remembers r
  Remembers-any (err _, s') h = tt
  Remembers-any (ok _, s') h = h

  execute_known-Remembers :
      (action : ActionDefinition) (s : System) → Remembers (execute_known a c k q action s)
  unfolding execute_known
  execute_known-Remembers action s = elim (execute_known-cases a c k q action s) [
    | inl (e, raised) ↦ rw raised tt
    | inr (row, owned, allowed) ↦ elim (Exec-cases (create_action_execution k.created q s.db)) [
      | inl (e, d, made) ↦
          let eq : execute_known a c k q action s ≡ (err e, record s { db = d }) =
            ground (arith, owned, get_owned_pet-eq q.user_id q.pet_id s.db) in
          rw eq tt
      | inr ((x, b), d, made) ↦
          let eq : execute_known a c k q action s
              ≡ perform a c k action q (x, b) (record s { db = d }) =
            ground (arith, owned, get_owned_pet-eq q.user_id q.pet_id s.db) in
          rw eq (
            Remembers-any (perform a c k action q (x, b) (record s { db = d })) (
              perform-known action x x b (record s { db = d })
                (known-created k.created q s.db d x b made)))
    ]
  ]

  perform-old :
      (action : ActionDefinition) (x : ActionExecution) (s : System)
      → perform a c k action q (x, false) s ≡ (ok (x, true), s)
  unfolding perform
  perform-old action x s = refl

  -- a request that has a row changes nothing, whatever the call answers
  execute_known-old :
      (action : ActionDefinition) (s : System) (y : ActionExecution)
      → known q s.db ≡ some y
      → (execute_known a c k q action s).1 ≡ s
  unfolding execute_known
  execute_known-old action s y old = elim (execute_known-cases a c k q action s) [
    | inl (e, raised) ↦ rw raised refl
    | inr (row, owned, allowed) ↦ elim (create-old k.created q s.db y old) [
      | inl (e, raised) ↦
          let eq : execute_known a c k q action s ≡ (err e, s) =
            ground (arith, owned, raised, get_owned_pet-eq q.user_id q.pet_id s.db) in
          rw eq refl
      | inr (x, again) ↦
          let eq : execute_known a c k q action s ≡ (ok (x, true), s) = ground (
            arith,
            owned,
            again,
            perform-old action x s,
            get_owned_pet-eq q.user_id q.pet_id s.db,
          ) in
          rw eq refl
    ]
  ]

  execute_action-Remembers : (s : System) → Remembers (execute_action a c k q s)
  unfolding execute_action
  execute_action-Remembers s = elim (Option-cases (action_by_id q.action_id)) [
    | inl unknown ↦
        let eq : execute_action a c k q s ≡ (err unknown_action, s) = ground arith in rw eq tt
    | inr (action, found) ↦
        let eq : execute_action a c k q s ≡ execute_known a c k q action s = ground arith in
        rw eq (execute_known-Remembers action s)
  ]

  execute_action-old :
      (s : System) (y : ActionExecution) → known q s.db ≡ some y → (execute_action a c k q s).1 ≡ s
  unfolding execute_action
  execute_action-old s y old = elim (Option-cases (action_by_id q.action_id)) [
    | inl unknown ↦
        let eq : execute_action a c k q s ≡ (err unknown_action, s) = ground arith in rw eq refl
    | inr (action, found) ↦
        let eq : execute_action a c k q s ≡ execute_known a c k q action s = ground arith in
        rw eq (execute_known-old action s y old)
  ]

-- A request for an action that has been answered, executed or not, moves nothing when it is made
-- again, and changes neither the scheduler nor the database nor the waiting finalizers, whatever
-- adapter, configuration and time the second call has.
pub execute_action-repeat :
    (a a' : Adapter) (c c' : MotionConfig) (k k' : Call) (q : ExecutionRequest) (s s' : System)
    (r : ActionExecution × Bool)
    → execute_action a c k q s ≡ (ok r, s')
    → (execute_action a' c' k' q s').1 ≡ s'
execute_action-repeat a a' c c' k k' q s s' r h =
    let (x, there) = subst (Remembers a c k q) h (execute_action-Remembers a c k q s) in
    execute_action-old a' c' k' q s' x there
