-- ===== src/Product/Catalog.antt =====
-- `dashboard` and `action_catalog`: what a pet's owner is shown of its level and its actions.
pub mod Agreement
pub mod Tests
use ai_cat_controller.Base.{
  ℕ, String, Bool, Option, none, some, List, [], ◌∷◌, map, filter, is_none,
}
use ai_cat_controller.Errors.{Exception}
use ai_cat_controller.Exec.{Result, ok, err, Exec}
use ai_cat_controller.Domain.Actions.{actions, action_is_unlocked}
use ai_cat_controller.Domain.Actions.Schema.{ActionDefinition}
use ai_cat_controller.Domain.Intimacy.{IntimacyLevel, level_for_points}
use ai_cat_controller.Domain.Personalities.{personality_by_id, style_for_level}
use ai_cat_controller.Domain.Personalities.Schema.{IntimacyVoiceStyle, PersonalityDefinition}
use ai_cat_controller.Motion.State.{Adapter}
use ai_cat_controller.Motion.Service.{unavailable_reason}
use ai_cat_controller.Repository.Schema.{Database}
use ai_cat_controller.Repository.Tables.{PetRow, get_owned_pet}
use ai_cat_controller.Product.Actions.{capabilities}

-- An entry of the catalogue, less its two constants.
pub record CatalogEntry : Type 0 where
  pub action : ActionDefinition
  pub unlocked : Bool
  pub available : Bool
  pub unavailable_reason : Option String

abbrev pub entry_of : Adapter → String → ℕ → ActionDefinition → CatalogEntry
entry_of a personality_id level action =
    let reason = unavailable_reason a (capabilities action.components) in
    record {
      action = action;
      unlocked = action_is_unlocked action personality_id level;
      available = is_none reason;
      unavailable_reason = reason;
    }

abbrev pub catalog_at : Adapter → PetRow → Option IntimacyLevel → Result (List CatalogEntry)
catalog_at a row none = err Exception.index_error
catalog_at a row (some l) = ok (map (entry_of a row.pet.personality_id l.level) actions)

abbrev pub of_row :
    {A : Type 0} → (PetRow → Result A) → Result PetRow × Database → Result A × Database
of_row f (err e, db) = (err e, db)
of_row f (ok row, db) = (f row, db)

unfoldable pub action_catalog : Adapter → String → String → Exec Database (List CatalogEntry)
action_catalog a user_id pet_id db =
    of_row (λ row. catalog_at a row (level_for_points row.pet.intimacy_points))
      (get_owned_pet user_id pet_id db)

-- The answer of `dashboard`; the progress within the level is `level_progress` of the points.
pub record Dashboard : Type 0 where
  pub pet : PetRow
  pub personality : PersonalityDefinition
  pub level : IntimacyLevel
  pub address : String
  pub unlocked_action_ids : List String

abbrev pub id_of : ActionDefinition → String
id_of action = action.action_id

abbrev pub unlocked_ids : PersonalityDefinition → ℕ → List String
unlocked_ids p level =
    map id_of (filter (λ action. action_is_unlocked action p.personality_id level) actions)

abbrev dashboard_with :
    PetRow → PersonalityDefinition → IntimacyLevel → Option IntimacyVoiceStyle → Result Dashboard
dashboard_with row p l none = err Exception.index_error
dashboard_with row p l (some style) = ok (record {
  pet = row;
  personality = p;
  level = l;
  address = style.address;
  unlocked_action_ids = unlocked_ids p l.level;
})

abbrev pub dashboard_at :
    PetRow → Option IntimacyLevel → Option PersonalityDefinition → Result Dashboard
dashboard_at row none p = err Exception.index_error
dashboard_at row (some l) none = err Exception.key_error
dashboard_at row (some l) (some p) = dashboard_with row p l (style_for_level p l.level)

unfoldable pub dashboard : String → String → Exec Database Dashboard
dashboard user_id pet_id db =
    of_row
      (λ row.
        dashboard_at row (level_for_points row.pet.intimacy_points)
          (personality_by_id row.pet.personality_id))
      (get_owned_pet user_id pet_id db)
