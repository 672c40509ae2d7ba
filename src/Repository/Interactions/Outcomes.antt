-- ===== src/Repository/Interactions/Outcomes.antt =====
-- What one call of `apply_interaction` has done, by how it ended.
use ai_cat_controller.Base.{
  ◌≡◌, ◌⊎◌, ◌++◌, refl, inl, inr, true, false, String, Option, none, some, [], ◌∷◌, find, arith,
  Option-cases,
}
use ai_cat_controller.Base.Int.{ℤ, pos, ◌+ℤ◌, max_ℤ}
use ai_cat_controller.Errors.{integrity_error}
use ai_cat_controller.Exec.{Result, ok, err, or_raise}
use ai_cat_controller.Repository.Schema.{InteractionEvent, Database}
use ai_cat_controller.Repository.Tables.{Env, PetRow, not_owned, owned_row, owned_pet_row}
use ai_cat_controller.Repository.Interactions.{
  Interaction, InteractionResult, is_request, event_count, positive_on, award, set_points, event_of,
  result_of, record_event, apply_new, apply_or_repeat, apply_interaction,
}

-- the delta and the event of a new request on a pet with `points`
abbrev pub delta_of : Env → Interaction → Database → ℤ × Option String
delta_of env i db =
    award i (event_count db i.pet_id i.event_type env.today) (positive_on db i.pet_id env.today)

abbrev pub new_event : Env → Interaction → Database → ℤ → InteractionEvent
new_event env i db points =
    let (delta, reason) = delta_of env i db in
    event_of env i delta reason (max_ℤ (pos 0) (points +ℤ delta))

abbrev pub with_event : InteractionEvent → Database → Database
with_event e db = record (set_points e.pet_id e.points_after db) {
  interaction_events = db.interaction_events ++ e ∷ [];
}

abbrev pub Repeated : Interaction → Database → InteractionResult → Database → Type 0
Repeated i db r db' =
    (row : PetRow) × (e : InteractionEvent) × (owned_pet_row i.user_id i.pet_id db ≡ (ok row, db))
    × (find (is_request i.pet_id i.request_id) db.interaction_events ≡ some e)
    × (r ≡ result_of true e)
    × (db' ≡ db)

abbrev pub Recorded : Env → Interaction → Database → InteractionResult → Database → Type 0
Recorded env i db r db' =
    (row : PetRow) × (owned_pet_row i.user_id i.pet_id db ≡ (ok row, db))
    × (find (is_request i.pet_id i.request_id) db.interaction_events ≡ none)
    × (r ≡ result_of false (new_event env i db row.pet.intimacy_points))
    × (db' ≡ with_event (new_event env i db row.pet.intimacy_points) db)

abbrev pub Outcome : Env → Interaction → Database → Result InteractionResult × Database → Type 0
Outcome env i db (err e, db') = db' ≡ db
Outcome env i db (ok r, db') = Repeated i db r db' ⊎ Recorded env i db r db'

-- A lookup of an owned pet changes nothing.
pub owned_pet_row-cases :
    (u p : String) (db : Database)
    → ((row : PetRow) × (owned_pet_row u p db ≡ (ok row, db)))
      ⊎ (owned_pet_row u p db ≡ (err not_owned, db))
unfolding owned_pet_row
owned_pet_row-cases u p db = go (owned_row db u p)
  where
    go :
        (o : Option PetRow)
        → ((row : PetRow) × (or_raise o not_owned db ≡ (ok row, db)))
          ⊎ (or_raise o not_owned db ≡ (err not_owned, db))
    go none = inr refl
    go (some row) = inl (row, refl)

record_event-cases :
    (env : Env) (i : Interaction) (points delta : ℤ) (reason : Option String) (db : Database)
    → let e = event_of env i delta reason (max_ℤ (pos 0) (points +ℤ delta)) in
      let r = record_event env i points (delta, reason) db in
      (r ≡ (err integrity_error, set_points i.pet_id e.points_after db))
      ⊎ (r ≡ (ok (result_of false e), with_event e db))
unfolding record_event
record_event-cases env i points delta reason db = ground arith

apply_new-cases :
    (env : Env) (i : Interaction) (points : ℤ) (db : Database)
    → let e = new_event env i db points in
      let r = apply_new env i points db in
      (r ≡ (err integrity_error, set_points i.pet_id e.points_after db))
      ⊎ (r ≡ (ok (result_of false e), with_event e db))
unfolding apply_new
apply_new-cases env i points db =
    record_event-cases env i points (delta_of env i db).0 (delta_of env i db).1 db

-- A call raises and changes nothing, repeats the answer of a recorded request and changes nothing,
-- or records one event and sets the points of its pet.
pub apply_interaction-Outcome :
    (env : Env) (i : Interaction) (db : Database) → Outcome env i db (apply_interaction env i db)
unfolding apply_interaction apply_or_repeat
apply_interaction-Outcome env i db = elim (owned_pet_row-cases i.user_id i.pet_id db) [
  | inr missing ↦
      let e : apply_interaction env i db ≡ (err not_owned, db) = ground arith in rw e refl
  | inl (row, owned) ↦
      elim (Option-cases (find (is_request i.pet_id i.request_id) db.interaction_events)) [
        | inr (x, seen) ↦
            let e : apply_interaction env i db ≡ (ok (result_of true x), db) = ground arith in
            rw e (inl (row, x, owned, seen, refl, refl))
        | inl fresh ↦ elim (apply_new-cases env i row.pet.intimacy_points db) [
          | inl raised ↦
              let e : apply_interaction env i db ≡ (err integrity_error, db) = ground arith in
              rw e refl
          | inr done ↦
              let x = new_event env i db row.pet.intimacy_points in
              let e : apply_interaction env i db ≡ (ok (result_of false x), with_event x db) =
                ground arith in
              rw e (inr (row, owned, fresh, refl, refl))
        ]
      ]
]
