-- ===== src/Domain/Actions.antt =====
-- domain/actions.py: the catalogue of preset actions, and when one is unlocked.
pub mod Schema
pub mod Table
use ai_cat_controller.Base.{ℕ, String, Bool, Option, List, [], ◌∷◌, ◌==◌, ◌&&◌, leb, find, member}
use Schema.{ActionDefinition}
use Table.{
  head_shake, head_nod, tail_wag, proud_pose, quiet_companion, greeting_combo, celebration_combo,
}

unfoldable pub actions : List ActionDefinition
actions =
    head_shake ∷ head_nod ∷ tail_wag ∷ proud_pose ∷ quiet_companion ∷ greeting_combo
    ∷ celebration_combo ∷ []

-- `ACTION_BY_ID.get`
unfoldable pub action_by_id : String → Option ActionDefinition
unfolding actions
action_by_id id = find (λ a. a.action_id == id) actions

unfoldable pub action_is_unlocked : ActionDefinition → String → ℕ → Bool
action_is_unlocked action personality_id intimacy_level =
    member personality_id action.personality_ids && leb action.min_intimacy_level intimacy_level
