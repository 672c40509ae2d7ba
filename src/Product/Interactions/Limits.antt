-- ===== src/Product/Interactions/Limits.antt =====
-- The limits of the table of rules, for everything that is requested of the service.
use mathlib.Core.Path.{subst}
use ai_cat_controller.Base.{
  ◌≡◌, refl, sym, inl, inr, String, Option, none, some, List, [], ◌∷◌, All, arith,
}
use ai_cat_controller.Base.Int.{ℤ}
use ai_cat_controller.Exec.{Exec-cases}
use ai_cat_controller.Domain.Intimacy.{InteractionRule, IntimacyLevel, level_for_points}
use ai_cat_controller.Repository.Schema.{Database}
use ai_cat_controller.Repository.Tables.{Env, get_owned_pet}
use ai_cat_controller.Repository.Interactions.{InteractionResult, apply_interaction}
use ai_cat_controller.Repository.Interactions.Outcomes.{owned_pet_row-cases}
use ai_cat_controller.Repository.Interactions.Limits.{
  SameDay, WithinCap, outcome_keeps, apply_interaction-WithinCap,
}
use ai_cat_controller.Repository.Interactions.Rewards.{WithinCount, with_event-WithinCount}
use ai_cat_controller.Product.Interactions.{
  InteractionRequest, interaction_of, rule_of, with_level, add_ruled, add_interaction,
}

-- The requests to a service, one after the other; one that raises ends only itself.
unfoldable pub serve_requests : ℤ → List (Env × InteractionRequest) → Database → Database
serve_requests cap [] db = db
serve_requests cap ((env, q) ∷ rest) db = serve_requests cap rest (add_interaction cap env q db).1

abbrev after_rule : ℤ → Env → InteractionRequest → Database → Option InteractionRule → Database
after_rule cap env q db none = db
after_rule cap env q db (some r) = (apply_interaction env (interaction_of cap q r) db).1

with_level-state :
    (q : InteractionRequest) (event : InteractionResult) (o : Option IntimacyLevel) (db : Database)
    → (with_level q event o db).1 ≡ db
unfolding with_level get_owned_pet
with_level-state q event none db = refl
with_level-state q event (some level) db = elim (owned_pet_row-cases q.user_id q.pet_id db) [
  | inl (row, owned) ↦ ground (arith, owned)
  | inr missing ↦ ground (arith, missing)
]

-- What follows the call of the repository only reads.
add_ruled-state :
    (cap : ℤ) (env : Env) (q : InteractionRequest) (o : Option InteractionRule) (db : Database)
    → (add_ruled cap env q o db).1 ≡ after_rule cap env q db o
unfolding add_ruled
add_ruled-state cap env q none db = refl
add_ruled-state cap env q (some r) db =
    elim (Exec-cases (apply_interaction env (interaction_of cap q r) db)) [
      | inl (e, d, h) ↦ ground (arith, h)
      | inr (event, d, h) ↦
          ground (arith, h, with_level-state q event (level_for_points event.points_after) d)
    ]

-- What a request keeps that has no rule, or whose event the repository handles.
request_keeps :
    (P : Database → Type 0) (cap : ℤ) (env : Env) (q : InteractionRequest) (db : Database)
    → P db
    → ((r : InteractionRule)
        → rule_of q.event_type ≡ some r
        → P (apply_interaction env (interaction_of cap q r) db).1)
    → P (add_interaction cap env q db).1
unfolding add_interaction
request_keeps P cap env q db before after =
    subst P (sym (add_ruled-state cap env q (rule_of q.event_type) db))
      (go (rule_of q.event_type) after)
  where
    go :
        (o : Option InteractionRule)
        → ((r : InteractionRule)
            → o ≡ some r
            → P (apply_interaction env (interaction_of cap q r) db).1)
        → P (after_rule cap env q db o)
    go none h = before
    go (some r) h = h r refl

abbrev pub IsSameDay : Env × InteractionRequest → Type 0
IsSameDay (env, q) = SameDay env

-- Whatever users request of the service, in any order, no pet gains more on a day than the cap of the
-- settings, where none did before and each call reads the clock twice on the same day.
pub serve_requests-WithinCap :
    (cap : ℤ) (requests : List (Env × InteractionRequest)) (db : Database)
    → All IsSameDay requests
    → WithinCap cap db
    → WithinCap cap (serve_requests cap requests db)
unfolding serve_requests
serve_requests-WithinCap cap [] db days h = h
serve_requests-WithinCap cap ((env, q) ∷ rest) db days h =
    serve_requests-WithinCap cap rest (add_interaction cap env q db).1 days.1 (
      request_keeps (WithinCap cap) cap env q db h
        λ r _. apply_interaction-WithinCap env (interaction_of cap q r) db days.0 h)

-- Whatever users request of the service, in any order, no pet is rewarded on a day for an event more
-- often than the event's rule in the table allows, where none was before and each call reads the
-- clock twice on the same day.
pub serve_requests-WithinCount :
    (cap : ℤ) (r : InteractionRule) (event_type : String)
    (requests : List (Env × InteractionRequest)) (db : Database)
    → rule_of event_type ≡ some r
    → All IsSameDay requests
    → WithinCount event_type r.max_per_day db
    → WithinCount event_type r.max_per_day (serve_requests cap requests db)
unfolding serve_requests
serve_requests-WithinCount cap r event_type [] db rule days h = h
serve_requests-WithinCount cap r event_type ((env, q) ∷ rest) db rule days h =
    serve_requests-WithinCount cap r event_type rest (add_interaction cap env q db).1 rule days.1 (
      request_keeps (WithinCount event_type r.max_per_day) cap env q db h λ r' rule'.
        outcome_keeps (WithinCount event_type r.max_per_day) env (interaction_of cap q r') db h
          λ points.
            with_event-WithinCount event_type r.max_per_day env (interaction_of cap q r') db points
              days.0 (λ same. ground (arith, same, rule, rule')) h)
