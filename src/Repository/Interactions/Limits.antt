-- ===== src/Repository/Interactions/Limits.antt =====
-- The daily limits of `apply_interaction`, over every sequence of calls.
use ai_cat_controller.Base.{
  ℕ, ◌≡◌, ◌++◌, sym, inl, inr, Bool, true, String, List, [], ◌∷◌, arith, eq_iff, Bool-cases, All,
  if◌then◌else◌,
}
use ai_cat_controller.Base.Int.{ℤ, pos, ◌+ℤ◌, ◌≤ℤ◌, ltb_ℤ, int_laws}
use mathlib.Core.Path.{subst}
use ai_cat_controller.Exec.{Result, ok, err}
use ai_cat_controller.Repository.Schema.{InteractionEvent, Database}
use ai_cat_controller.Repository.Tables.{Env}
use ai_cat_controller.Repository.Interactions.{
  Interaction, InteractionResult, is_gain_on, day_of, sum_points, positive_on, award,
  apply_interaction,
}
use ai_cat_controller.Repository.Interactions.Outcomes.{
  Outcome, new_event, with_event, apply_interaction-Outcome,
}

-- The calls of a service, one after the other; a call that raises ends only itself.
unfoldable pub serve : List (Env × Interaction) → Database → Database
serve [] db = db
serve ((env, i) ∷ calls) db = serve calls (apply_interaction env i db).1

-- The two readings of the clock in one call fall on the same day.
abbrev pub SameDay : Env → Type 0
SameDay env = day_of env.now ≡ env.today

-- What holds before a call, and of the database with the call's new event, holds after it.
pub outcome_keeps :
    (P : Database → Type 0) (env : Env) (i : Interaction) (db : Database)
    → P db
    → ((points : ℤ) → P (with_event (new_event env i db points) db))
    → P (apply_interaction env i db).1
outcome_keeps P env i db before after =
    go (apply_interaction env i db) (apply_interaction-Outcome env i db)
  where
    go : (r : Result InteractionResult × Database) → Outcome env i db r → P r.1
    go (err e, db') same = subst P (sym same) before
    go (ok r, db') (inl (row, e, owned, seen, answer, same)) = subst P (sym same) before
    go (ok r, db') (inr (row, owned, fresh, answer, new)) =
        subst P (sym new) (after row.pet.intimacy_points)

sum_points-append :
    (p : InteractionEvent → Bool) (xs : List InteractionEvent) (e : InteractionEvent)
    → sum_points p (xs ++ e ∷ []) ≡ sum_points p xs +ℤ (if p e then e.points_delta else pos 0)
sum_points-append p [] e = omega int_laws
sum_points-append p (x ∷ xs) e = rw (sum_points-append p xs e) (omega int_laws)

-- A gain leaves the sum of the day within the cap.
award-le-cap :
    (i : Interaction) (n : ℕ) (gained : ℤ)
    → ltb_ℤ (pos 0) (award i n gained).0 ≡ true
    → gained +ℤ (award i n gained).0 ≤ℤ i.daily_cap
unfolding award
award-le-cap i n gained h = grind int_laws

-- No pet gains more than the cap on any day.
abbrev pub WithinCap : ℤ → Database → Type 0
WithinCap cap db = (pet_id day : String) → positive_on db pet_id day ≤ℤ cap

is_gain_on-true :
    (pet_id day : String) (e : InteractionEvent)
    → is_gain_on pet_id day e ≡ true
    → (e.pet_id ≡ pet_id) × (ltb_ℤ (pos 0) e.points_delta ≡ true) × (day_of e.created_at ≡ day)
is_gain_on-true pet_id day e h =
    ground (arith, eq_iff e.pet_id pet_id, eq_iff (day_of e.created_at) day)

append-WithinCap :
    (cap : ℤ) (events : List InteractionEvent) (e : InteractionEvent) (pet_id day : String)
    → sum_points (is_gain_on pet_id day) events ≤ℤ cap
    → (is_gain_on pet_id day e ≡ true
        → sum_points (is_gain_on pet_id day) events +ℤ e.points_delta ≤ℤ cap)
    → sum_points (is_gain_on pet_id day) (events ++ e ∷ []) ≤ℤ cap
append-WithinCap cap events e pet_id day h gain =
    rw (sum_points-append (is_gain_on pet_id day) events e)
      (elim (Bool-cases (is_gain_on pet_id day e)) [
        | inl counts ↦ rw counts (gain counts)
        | inr other ↦ rw other (omega int_laws)
      ])

with_event-WithinCap :
    (env : Env) (i : Interaction) (db : Database) (points : ℤ)
    → SameDay env
    → WithinCap i.daily_cap db
    → WithinCap i.daily_cap (with_event (new_event env i db points) db)
with_event-WithinCap env i db points same h pet_id day =
    let e = new_event env i db points in
    append-WithinCap i.daily_cap db.interaction_events e pet_id day (h pet_id day) λ counts.
      let (pet, gain, on) = is_gain_on-true pet_id day e counts in
      rw (← pet, ← on, same) (award-le-cap i _ _ gain)

-- A call keeps every pet within the cap on every day.
pub apply_interaction-WithinCap :
    (env : Env) (i : Interaction) (db : Database)
    → SameDay env
    → WithinCap i.daily_cap db
    → WithinCap i.daily_cap (apply_interaction env i db).1
apply_interaction-WithinCap env i db same h =
    outcome_keeps (WithinCap i.daily_cap) env i db h
      (λ points. with_event-WithinCap env i db points same h)

abbrev pub HasCap : ℤ → Env × Interaction → Type 0
HasCap cap (env, i) = SameDay env × (i.daily_cap ≡ cap)

-- Whatever is requested, in any order and on any days, no pet gains more than the cap on a day, where
-- none did before, all calls have the cap and each reads the clock twice on the same day.
pub serve-WithinCap :
    (cap : ℤ) (calls : List (Env × Interaction)) (db : Database)
    → All (HasCap cap) calls
    → WithinCap cap db
    → WithinCap cap (serve calls db)
unfolding serve
serve-WithinCap cap [] db caps h = h
serve-WithinCap cap ((env, i) ∷ calls) db caps h =
    serve-WithinCap cap calls (apply_interaction env i db).1 caps.1 (
      subst (λ c. WithinCap c (apply_interaction env i db).1) caps.0.1
        (apply_interaction-WithinCap env i db caps.0.0
          (subst (λ c. WithinCap c db) (sym caps.0.1) h)))
