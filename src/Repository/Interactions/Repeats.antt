-- ===== src/Repository/Interactions/Repeats.antt =====
-- `apply_interaction` is idempotent for a request, and its answer is what the pet shows afterwards.
use mathlib.Core.Path.{subst}
use ai_cat_controller.Base.{
  ◌≡◌, ◌==◌, ◌&&◌, refl, inl, inr, true, false, String, some, List, [], ◌∷◌, find, find-append,
  update_where, arith, eq_refl, Option-cases,
}
use ai_cat_controller.Base.Int.{ℤ}
use ai_cat_controller.Exec.{Result, ok, err}
use ai_cat_controller.Repository.Schema.{Pet, InteractionEvent, Database}
use ai_cat_controller.Repository.Tables.{Env, PetRow, owned_by, owned_pet_row}
use ai_cat_controller.Repository.Interactions.{
  Interaction, InteractionResult, is_request, is_pet, result_of, apply_or_repeat, apply_interaction,
}
use ai_cat_controller.Repository.Interactions.Outcomes.{
  Outcome, new_event, with_event, apply_interaction-Outcome,
}

abbrev with_points : ℤ → Pet → Pet
with_points points p = record p { intimacy_points = points }

find-set_points :
    (user_id pet_id : String) (points : ℤ) (pets : List Pet) (p : Pet)
    → find (λ p. p.pet_id == pet_id && owned_by user_id p) pets ≡ some p
    → find
        (λ p. p.pet_id == pet_id && owned_by user_id p)
        (update_where (is_pet pet_id) (with_points points) pets)
      ≡ some (with_points points p)
find-set_points user_id pet_id points [] p h = cc
find-set_points user_id pet_id points (x ∷ pets) p h =
    ground (arith, find-set_points user_id pet_id points pets p)

-- the row of an owned pet after a change of its points
abbrev row_with_points : ℤ → PetRow → PetRow
row_with_points points row = record row { pet = with_points points row.pet }

-- The owner still sees the pet after a new event, with the points of that event.
pub owned_pet_row-with_event :
    (user_id : String) (e : InteractionEvent) (db : Database) (row : PetRow)
    → owned_pet_row user_id e.pet_id db ≡ (ok row, db)
    → owned_pet_row user_id e.pet_id (with_event e db)
      ≡ (ok (row_with_points e.points_after row), with_event e db)
unfolding owned_pet_row
owned_pet_row-with_event user_id e db row h =
    elim (Option-cases (find (λ p. p.pet_id == e.pet_id && owned_by user_id p) db.pets)) [
      | inl none_owned ↦ ground arith
      | inr (p, found) ↦
          ground (arith, find-set_points user_id e.pet_id e.points_after db.pets p found)
    ]

repeat_of_seen :
    (env : Env) (i : Interaction) (db : Database) (row : PetRow) (e : InteractionEvent)
    → owned_pet_row i.user_id i.pet_id db ≡ (ok row, db)
    → find (is_request i.pet_id i.request_id) db.interaction_events ≡ some e
    → apply_interaction env i db ≡ (ok (result_of true e), db)
unfolding apply_interaction apply_or_repeat
repeat_of_seen env i db row e owned seen = ground arith

-- the second call names the same user, pet and request, and may differ in all else
abbrev pub SameRequest : Interaction → Interaction → Type 0
SameRequest i j = (j.user_id ≡ i.user_id) × (j.pet_id ≡ i.pet_id) × (j.request_id ≡ i.request_id)

is_request_self :
    (pet_id request_id : String) → (pet_id == pet_id && request_id == request_id) ≡ true
is_request_self pet_id request_id = rw (eq_refl pet_id, eq_refl request_id)

module _ (env env' : Env) (i j : Interaction) (same : SameRequest i j) where
  abbrev Repeats : Result InteractionResult × Database → Type 0
  Repeats (err _, db') = Unit
  Repeats (ok r, db') = apply_interaction env' j db' ≡ (ok (record r { duplicate = true }), db')

  repeat_of_Outcome :
      (db : Database) (r : Result InteractionResult × Database) → Outcome env i db r → Repeats r
  repeat_of_Outcome db (err _, db') h = tt
  repeat_of_Outcome db (ok r, db') (inl (row, e, owned, seen, answer, kept)) =
      rw (answer, kept)
        (repeat_of_seen env' j db row e (rw (same.0, same.1) owned) (rw (same.1, same.2) seen))
  repeat_of_Outcome db (ok r, db') (inr (row, owned, fresh, answer, new)) =
      let e = new_event env i db row.pet.intimacy_points in
      rw (answer, new)
        (repeat_of_seen env' j (with_event e db) (row_with_points e.points_after row) e
          (rw (same.0, same.1) (owned_pet_row-with_event i.user_id e db row owned))
          (rw (same.1, same.2)
            (find-append (is_request i.pet_id i.request_id) db.interaction_events e fresh
              (is_request_self i.pet_id i.request_id))))

-- A request that has been answered is answered the same again, marked as a duplicate, and the
-- second call changes nothing, whatever its event type, limits and time.
pub apply_interaction-repeat :
    (env env' : Env) (i j : Interaction) (db db' : Database) (r : InteractionResult)
    → SameRequest i j
    → apply_interaction env i db ≡ (ok r, db')
    → apply_interaction env' j db' ≡ (ok (record r { duplicate = true }), db')
apply_interaction-repeat env env' i j db db' r same h = subst (Repeats env env' i j same) h (
    repeat_of_Outcome env env' i j same db (apply_interaction env i db)
      (apply_interaction-Outcome env i db))

module _ (env : Env) (i : Interaction) (db : Database) where
  abbrev Shows : Result InteractionResult × Database → Type 0
  Shows (err _, db') = Unit
  Shows (ok r, db') =
      r.duplicate ≡ false
      → (row : PetRow) × (owned_pet_row i.user_id i.pet_id db' ≡ (ok row, db'))
        × (row.pet.intimacy_points ≡ r.points_after)

  Shows-Outcome : (r : Result InteractionResult × Database) → Outcome env i db r → Shows r
  Shows-Outcome (err _, db') h = tt
  Shows-Outcome (ok r, db') (inl (row, e, owned, seen, answer, kept)) = λ new. cc (answer)
  Shows-Outcome (ok r, db') (inr (row, owned, fresh, answer, new)) = λ _.
      let e = new_event env i db row.pet.intimacy_points in
      (
        row_with_points e.points_after row,
        rw new (owned_pet_row-with_event i.user_id e db row owned),
        rw answer refl,
      )

-- After a call that is no repeat the owner sees the points that the call has answered.
pub apply_interaction_shows :
    (env : Env) (i : Interaction) (db db' : Database) (r : InteractionResult)
    → apply_interaction env i db ≡ (ok r, db')
    → r.duplicate ≡ false
    → (row : PetRow) × (owned_pet_row i.user_id i.pet_id db' ≡ (ok row, db'))
      × (row.pet.intimacy_points ≡ r.points_after)
apply_interaction_shows env i db db' r h =
    subst (Shows env i db) h
      (Shows-Outcome env i db (apply_interaction env i db) (apply_interaction-Outcome env i db))
