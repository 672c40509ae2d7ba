-- ===== src/Repository/Pets/Tests.antt =====
-- The laws of binding at work: a device is bound, bound again, asked for by another user, and freed.
use ai_cat_controller.Base.{◌≡◌, refl, true, false, String, [], ◌∷◌, arith, eq_iff}
use ai_cat_controller.Errors.{ai_cat, action_conflict}
use ai_cat_controller.Exec.{ok, err}
use ai_cat_controller.Repository.Schema.{Pet, Database}
use ai_cat_controller.Repository.Samples.{morning, evening, users_only}
use ai_cat_controller.Repository.Tables.{PetRow, owned_pet_row}
use ai_cat_controller.Repository.Pets.{
  BindRequest, pet_id_of, new_device, new_pet, rebound, unowned, upsert_device, update_owner,
  bind_row, bind_pet, unbind_pet,
}
use ai_cat_controller.Repository.Pets.Ownership.{Bound, bind_pet-Bound}
use ai_cat_controller.Repository.Pets.Rebinding.{bind_pet-foreign, bind_pet-unbind_pet}

abbrev uuid5 : String → String
uuid5 name = name

abbrev first : BindRequest
first = record {
  user_id = "u1";
  serial_number = "SN1";
  pet_name = "Xiao An";
  network_name = "home";
  personality_id = "proud_star";
}

abbrev again : BindRequest
again = record first { pet_name = "An An"; personality_id = "calm_guardian" }

abbrev other : BindRequest
other = record first { user_id = "u2" }

abbrev pet : Pet
pet = new_pet uuid5 morning first

abbrev row : PetRow
row = record { pet = pet; device = new_device uuid5 morning first }

abbrev bound : Database
bound = record users_only { devices = row.device ∷ []; pets = pet ∷ [] }

abbrev id : String
id = pet_id_of uuid5 "SN1"

bind_pet-Bound_example :
    Bound uuid5 morning first users_only (bind_pet uuid5 morning first users_only)
bind_pet-Bound_example = bind_pet-Bound uuid5 morning first users_only

first-eq : bind_pet uuid5 morning first users_only ≡ (ok (row, true), bound)
unfolding bind_pet bind_row upsert_device update_owner owned_pet_row
first-eq = refl

abbrev row_again : PetRow
row_again = record row { pet = rebound morning again pet }

again-eq :
    bind_pet uuid5 morning again bound
    ≡ (ok (row_again, false), record bound { pets = row_again.pet ∷ [] })
unfolding bind_pet bind_row upsert_device update_owner owned_pet_row
again-eq = refl

bind_pet-foreign_example :
    bind_pet uuid5 evening other bound ≡ (err (ai_cat action_conflict "该设备已经绑定到其他用户"), bound)
bind_pet-foreign_example =
    bind_pet-foreign uuid5 evening other bound pet "u1" refl refl refl
      (λ e. absurd (ground (arith, eq_iff "u1" "u2", e)))

abbrev freed : Database
freed = record bound { pets = unowned pet ∷ [] }

freed-eq : unbind_pet "u1" id bound ≡ (ok tt, freed)
unfolding unbind_pet owned_pet_row
freed-eq = refl

abbrev row_other : PetRow
row_other = record row { pet = rebound morning other pet }

other-eq :
    bind_pet uuid5 morning other freed
    ≡ (ok (row_other, false), record freed { pets = row_other.pet ∷ [] })
unfolding bind_pet bind_row upsert_device update_owner owned_pet_row
other-eq = refl

bind_pet-unbind_pet_example :
    (row_other.pet.personality_id ≡ pet.personality_id)
    × (row_other.pet.intimacy_points ≡ pet.intimacy_points)
    × (false ≡ false)
bind_pet-unbind_pet_example =
    bind_pet-unbind_pet uuid5 morning other "u1" bound freed
      (record freed { pets = row_other.pet ∷ [] }) pet row_other false refl freed-eq other-eq
