-- ===== src/Product/Actions/Admission.antt =====
-- When `execute_action` executes: the pet is the user's, online, and has unlocked the action, and
-- the adapter can do all of it.
use ai_cat_controller.Base.{
  ◌≡◌, ◌⊎◌, refl, inl, inr, String, Bool, true, none, some, arith, Option-cases,
}
use ai_cat_controller.Errors.{Exception}
use ai_cat_controller.Exec.{Result, ok, err}
use ai_cat_controller.Domain.Actions.{action_by_id, action_is_unlocked}
use ai_cat_controller.Domain.Actions.Schema.{ActionDefinition}
use ai_cat_controller.Domain.Intimacy.{IntimacyLevel, level_for_points}
use ai_cat_controller.Repository.Schema.{ActionExecution, Database}
use ai_cat_controller.Repository.Tables.{PetRow, not_owned, owned_pet_row, get_owned_pet}
use ai_cat_controller.Repository.Interactions.Outcomes.{owned_pet_row-cases}
use ai_cat_controller.Repository.Executions.{ExecutionRequest}
use ai_cat_controller.Motion.State.{Adapter, MotionConfig}
use ai_cat_controller.Motion.Service.{unavailable_reason}
use ai_cat_controller.Product.Actions.{
  System, Call, capabilities, may_execute, execute_known, execute_action,
}

pub get_owned_pet-eq : (u p : String) (db : Database) → get_owned_pet u p db ≡ owned_pet_row u p db
unfolding get_owned_pet
get_owned_pet-eq u p db = refl

-- The action exists, and the pet and the adapter may execute it.
abbrev pub IsAllowed : Adapter → ExecutionRequest → Database → Type 0
IsAllowed a q db =
    (action : ActionDefinition) × (row : PetRow) × (l : IntimacyLevel) × (action_by_id q.action_id
      ≡ some action)
    × (owned_pet_row q.user_id q.pet_id db ≡ (ok row, db))
    × (row.device.online ≡ true)
    × (level_for_points row.pet.intimacy_points ≡ some l)
    × (action_is_unlocked action row.pet.personality_id l.level ≡ true)
    × (unavailable_reason a (capabilities action.components) ≡ none)

may_execute-ok :
    (a : Adapter) (action : ActionDefinition) (row : PetRow)
    → may_execute a action row ≡ ok tt
    → (row.device.online ≡ true)
      × ((l : IntimacyLevel) × (level_for_points row.pet.intimacy_points ≡ some l)
          × (action_is_unlocked action row.pet.personality_id l.level ≡ true))
      × (unavailable_reason a (capabilities action.components) ≡ none)
unfolding may_execute
may_execute-ok a action row h = elim (Option-cases (level_for_points row.pet.intimacy_points)) [
  | inl e ↦ absurd (ground arith)
  | inr (l, e) ↦ (ground arith, (l, e, ground arith), ground arith)
]

Result-cases :
    (r : Result (Unit {0})) → ((e : Exception) × (r ≡ err e)) ⊎ ((u : Unit {0}) × (r ≡ ok tt))
Result-cases (err e) = inl (e, refl)
Result-cases (ok tt) = inr (tt, refl)

module _ (a : Adapter) (c : MotionConfig) (k : Call) (q : ExecutionRequest) where
  -- either nothing has happened, or the call got past the tests
  pub execute_known-cases :
      (action : ActionDefinition) (s : System)
      → ((e : Exception) × (execute_known a c k q action s ≡ (err e, s)))
        ⊎ ((row : PetRow) × (owned_pet_row q.user_id q.pet_id s.db ≡ (ok row, s.db))
            × (may_execute a action row ≡ ok tt))
  unfolding execute_known
  execute_known-cases action s = elim (owned_pet_row-cases q.user_id q.pet_id s.db) [
    | inr missing ↦
        inl (not_owned, ground (arith, missing, get_owned_pet-eq q.user_id q.pet_id s.db))
    | inl (row, owned) ↦ elim (Result-cases (may_execute a action row)) [
      | inl (e, refused) ↦ inl (e, ground (arith, owned, get_owned_pet-eq q.user_id q.pet_id s.db))
      | inr (u, allowed) ↦ inr (row, owned, allowed)
    ]
  ]

  -- An action is executed, or answered as a duplicate, only where the user owns the pet, the pet is
  -- online and has unlocked the action, and the adapter supports all of its movements.
  pub execute_action-IsAllowed :
      (s : System) (r : ActionExecution × Bool)
      → (execute_action a c k q s).0 ≡ ok r
      → IsAllowed a q s.db
  unfolding execute_action
  execute_action-IsAllowed s r h = elim (Option-cases (action_by_id q.action_id)) [
    | inl unknown ↦ absurd (ground arith)
    | inr (action, known) ↦ elim (execute_known-cases action s) [
      | inl (e, raised) ↦ absurd (ground arith)
      | inr (row, owned, allowed) ↦
          let (online, (l, level, unlocked), able) = may_execute-ok a action row allowed in
          (action, row, l, known, owned, online, level, unlocked, able)
    ]
  ]
