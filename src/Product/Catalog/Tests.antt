-- ===== src/Product/Catalog/Tests.antt =====
-- The catalogue of a pet of level 0, with an adapter that cannot move the tail.
use ai_cat_controller.Base.{◌≡◌, refl, true, false, List, map, All}
use ai_cat_controller.Exec.{ok}
use ai_cat_controller.Domain.Actions.{actions}
use ai_cat_controller.Domain.Actions.Schema.{Capability}
use ai_cat_controller.Domain.Intimacy.{level_for_points}
use ai_cat_controller.Motion.State.{Adapter}
use ai_cat_controller.Repository.Samples.{device_row, one_pet, pet_row}
use ai_cat_controller.Repository.Tables.{PetRow, get_owned_pet, owned_pet_row}
use ai_cat_controller.Product.Catalog.{CatalogEntry, action_catalog, entry_of}
use ai_cat_controller.Product.Catalog.Agreement.{Promises, action_catalog-Promises}

abbrev adapter : Adapter
adapter = record {
  supports = λ c. elim c [ Capability.wag_tail ↦ false | _ ↦ true ];
  capability_unavailable_reason = λ c. "";
}

abbrev row : PetRow
row = record { pet = pet_row; device = device_row }

entries : List CatalogEntry
entries = map (entry_of adapter "proud_star" 0) actions

get_owned_pet-one : get_owned_pet "u1" "p1" one_pet ≡ (ok row, one_pet)
unfolding get_owned_pet owned_pet_row
get_owned_pet-one = refl

action_catalog-one : action_catalog adapter "u1" "p1" one_pet ≡ (ok entries, one_pet)
unfolding action_catalog get_owned_pet owned_pet_row level_for_points entries
action_catalog-one = refl

action_catalog-Promises_example : All (Promises adapter row) entries
action_catalog-Promises_example =
    action_catalog-Promises adapter "u1" "p1" one_pet row entries get_owned_pet-one
      action_catalog-one refl
