-- ===== src/Repository/Pets/Rebinding.antt =====
-- Ownership over several calls: a device has one owner at a time, and its pet keeps its personality.
use mathlib.Core.Path.{subst}
use ai_cat_controller.Base.{
  ◌≡◌, ◌≢◌, ◌==◌, ◌&&◌, refl, inl, inr, Bool, true, false, String, Option, none, some, List, [],
  ◌∷◌, find, find-update_where, update_where, any, arith, eq_iff,
}
use ai_cat_controller.Errors.{Exception, ai_cat, action_conflict}
use ai_cat_controller.Exec.{Result, ok, err}
use ai_cat_controller.Repository.Schema.{Pet, Device, Database}
use ai_cat_controller.Repository.Tables.{Env, PetRow, owned_by, not_owned, owned_pet_row}
use ai_cat_controller.Repository.Interactions.Outcomes.{owned_pet_row-cases}
use ai_cat_controller.Repository.Pets.{
  BindRequest, pet_id_of, new_device, is_pet, is_serial, unowned, upsert_device, bind_row, bind_pet,
  unbind_pet,
}
use ai_cat_controller.Repository.Pets.Ownership.{HasBound, bound_pet, bind_pet-HasBound}

-- After a successful binding the user owns the device's pet, under the name of the request.
pub bind_pet-owned :
    (uuid5 : String → String) (env : Env) (b : BindRequest) (db db' : Database) (row : PetRow)
    (created : Bool)
    → bind_pet uuid5 env b db ≡ (ok (row, created), db')
    → (owned_pet_row b.user_id (pet_id_of uuid5 b.serial_number) db' ≡ (ok row, db'))
      × (row.pet.owner_user_id ≡ some b.user_id)
      × (row.pet.name ≡ b.pet_name)
bind_pet-owned uuid5 env b db db' row created h =
    let (pet, fresh, owned) =
      subst (HasBound uuid5 env b db) h (bind_pet-HasBound uuid5 env b db) in
    (
      owned,
      rw pet (owner (find (is_pet (pet_id_of uuid5 b.serial_number)) db.pets)),
      rw pet (name (find (is_pet (pet_id_of uuid5 b.serial_number)) db.pets)),
    )
  where
    owner : (o : Option Pet) → (bound_pet uuid5 env b o).owner_user_id ≡ some b.user_id
    owner none = refl
    owner (some p) = refl

    name : (o : Option Pet) → (bound_pet uuid5 env b o).name ≡ b.pet_name
    name none = refl
    name (some p) = refl

-- A device whose pet is known keeps the pet's personality and points, whatever was drawn now.
pub bind_pet-keeps :
    (uuid5 : String → String) (env : Env) (b : BindRequest) (db db' : Database) (p : Pet)
    (row : PetRow) (created : Bool)
    → find (is_pet (pet_id_of uuid5 b.serial_number)) db.pets ≡ some p
    → bind_pet uuid5 env b db ≡ (ok (row, created), db')
    → (row.pet.personality_id ≡ p.personality_id)
      × (row.pet.intimacy_points ≡ p.intimacy_points)
      × (created ≡ false)
bind_pet-keeps uuid5 env b db db' p row created known h =
    let (pet, fresh, owned) =
      subst (HasBound uuid5 env b db) h (bind_pet-HasBound uuid5 env b db) in
    ground (arith, pet, fresh, known)

abbrev foreign_error : Exception
foreign_error = ai_cat action_conflict "该设备已经绑定到其他用户"

known_device :
    (row : Device) (db : Database)
    → any (is_serial row.serial_number) db.devices ≡ true
    → (upsert_device row db ≡ (ok tt, (upsert_device row db).1))
      × ((upsert_device row db).1.pets ≡ db.pets)
unfolding upsert_device
known_device row db h = (ground arith, ground arith)

bind_row-foreign :
    (uuid5 : String → String) (env : Env) (b : BindRequest) (p : Pet) (owner : String)
    (db : Database)
    → p.owner_user_id ≡ some owner
    → owner ≢ b.user_id
    → bind_row uuid5 env b (some p) db ≡ (err foreign_error, db)
unfolding bind_row
bind_row-foreign uuid5 env b p owner db owned other = ground (arith, eq_iff owner b.user_id)

-- The pet of a known device that belongs to somebody else cannot be bound: the call raises a conflict
-- and changes nothing.
pub bind_pet-foreign :
    (uuid5 : String → String) (env : Env) (b : BindRequest) (db : Database) (p : Pet)
    (owner : String)
    → any (is_serial b.serial_number) db.devices ≡ true
    → find (is_pet (pet_id_of uuid5 b.serial_number)) db.pets ≡ some p
    → p.owner_user_id ≡ some owner
    → owner ≢ b.user_id
    → bind_pet uuid5 env b db ≡ (err (ai_cat action_conflict "该设备已经绑定到其他用户"), db)
unfolding bind_pet
bind_pet-foreign uuid5 env b db p owner device known owned other =
    let (up, same) = known_device (new_device uuid5 env b) db device in
    let d = (upsert_device (new_device uuid5 env b) db).1 in
    let found : find (is_pet (pet_id_of uuid5 b.serial_number)) d.pets ≡ some p = rw same known in
    ground (arith, up, found, bind_row-foreign uuid5 env b p owner d owned other)

find-unowned :
    (user_id pet_id : String) (pets : List Pet)
    → find
        (λ p. p.pet_id == pet_id && owned_by user_id p)
        (update_where (is_pet pet_id) unowned pets)
      ≡ none
find-unowned user_id pet_id [] = refl
find-unowned user_id pet_id (p ∷ pets) = ground (arith, find-unowned user_id pet_id pets)

abbrev freed : String → Database → Database
freed pet_id db = record db { pets = update_where (is_pet pet_id) unowned db.pets }

abbrev Freed : String → Database → Result (Unit {0}) × Database → Type 0
Freed pet_id db (err _, db') = db' ≡ db
Freed pet_id db (ok _, db') = db' ≡ freed pet_id db

unbind_pet-Freed :
    (user_id pet_id : String) (db : Database) → Freed pet_id db (unbind_pet user_id pet_id db)
unfolding unbind_pet
unbind_pet-Freed user_id pet_id db = elim (owned_pet_row-cases user_id pet_id db) [
  | inl (row, owned) ↦
      let eq : unbind_pet user_id pet_id db ≡ (ok tt, freed pet_id db) = ground arith in rw eq refl
  | inr missing ↦
      let eq : unbind_pet user_id pet_id db ≡ (err not_owned, db) = ground arith in rw eq refl
]

-- After an unbinding nobody sees the pet.
pub unbind_pet-hides :
    (user_id pet_id anybody : String) (db db' : Database)
    → unbind_pet user_id pet_id db ≡ (ok tt, db')
    → owned_pet_row anybody pet_id db' ≡ (err not_owned, db')
unfolding owned_pet_row
unbind_pet-hides user_id pet_id anybody db db' h =
    rw (subst (Freed pet_id db) h (unbind_pet-Freed user_id pet_id db))
      (ground (arith, find-unowned anybody pet_id db.pets))

-- Unbinding and binding again, by whomever, keeps the personality and the points of the pet.
pub bind_pet-unbind_pet :
    (uuid5 : String → String) (env : Env) (b : BindRequest) (user_id : String)
    (db db₁ db₂ : Database) (p : Pet) (row : PetRow) (created : Bool)
    → find (is_pet (pet_id_of uuid5 b.serial_number)) db.pets ≡ some p
    → unbind_pet user_id (pet_id_of uuid5 b.serial_number) db ≡ (ok tt, db₁)
    → bind_pet uuid5 env b db₁ ≡ (ok (row, created), db₂)
    → (row.pet.personality_id ≡ p.personality_id)
      × (row.pet.intimacy_points ≡ p.intimacy_points)
      × (created ≡ false)
bind_pet-unbind_pet uuid5 env b user_id db db₁ db₂ p row created known freeing binding =
    let id = pet_id_of uuid5 b.serial_number in
    bind_pet-keeps uuid5 env b db₁ db₂ (unowned p) row created
      (rw (subst (Freed id db) freeing (unbind_pet-Freed user_id id db))
        (find-update_where (is_pet id) unowned db.pets p (λ y. refl) known))
      binding
