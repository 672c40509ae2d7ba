-- ===== src/Repository/Interactions/Tests.antt =====
-- The laws of `apply_interaction` at work on a small database.
use ai_cat_controller.Base.{◌≡◌, refl, true, false, String, List, [], ◌∷◌, arith}
use ai_cat_controller.Base.Int.{ℤ, pos, negsuc}
use ai_cat_controller.Exec.{ok}
use ai_cat_controller.Repository.Schema.{Database}
use ai_cat_controller.Repository.Samples.{morning, evening, one_pet}
use ai_cat_controller.Repository.Tables.{Env, owned_pet_row}
use ai_cat_controller.Repository.Interactions.{
  Interaction, InteractionResult, result_of, apply_or_repeat, apply_new, apply_interaction,
  record_event, award,
}
use ai_cat_controller.Repository.Interactions.Outcomes.{new_event, with_event}
use ai_cat_controller.Repository.Interactions.Limits.{serve, WithinCap, serve-WithinCap}
use ai_cat_controller.Repository.Interactions.Repeats.{apply_interaction-repeat}

abbrev interaction : String → ℤ → String → Interaction
interaction event_type base_points request_id = record {
  user_id = "u1";
  pet_id = "p1";
  event_type = event_type;
  base_points = base_points;
  max_per_day = 2;
  daily_cap = pos 5;
  request_id = request_id;
  metadata_json = "{}";
}

abbrev touch : Interaction
touch = interaction "touch" (pos 4) "r1"

-- the same request for another event
abbrev ignored : Interaction
ignored = interaction "ignored_greeting" (negsuc 0) "r1"

abbrev calls : List (Env × Interaction)
calls =
    (morning, touch)
    ∷ (evening, interaction "touch" (pos 4) "r2")
    ∷ (evening, interaction "touch" (pos 4) "r3")
    ∷ []

serve-WithinCap_example : WithinCap (pos 5) (serve calls one_pet)
serve-WithinCap_example =
    serve-WithinCap (pos 5) calls one_pet ((refl, refl), ((refl, refl), ((refl, refl), tt)))
      (λ pet_id day. omega arith)

abbrev answer : InteractionResult
answer = result_of false (new_event morning touch one_pet (pos 19))

abbrev touched : Database
touched = with_event (new_event morning touch one_pet (pos 19)) one_pet

touch-eq : apply_interaction morning touch one_pet ≡ (ok answer, touched)
unfolding apply_interaction apply_or_repeat apply_new record_event owned_pet_row award
touch-eq = refl

apply_interaction-repeat_example :
    apply_interaction evening ignored touched ≡ (ok (record answer { duplicate = true }), touched)
apply_interaction-repeat_example =
    apply_interaction-repeat morning evening touch ignored one_pet touched answer (refl, refl, refl)
      touch-eq
