-- ===== src/Repository/Pets/Ownership.antt =====
-- What binding and unbinding do to a pet.
use mathlib.Core.Path.{subst}
use ai_cat_controller.Base.{
  ◌≡◌, ◌==◌, ◌&&◌, refl, ap, sym, ◌∙◌, inl, inr, Bool, true, false, String, Option, none, some,
  List, [], ◌∷◌, find, find-append, find-update_where, arith, eq_refl, is_none,
}
use ai_cat_controller.Base.Int.{pos}
use ai_cat_controller.Exec.{Result, ok, err, Exec-cases}
use ai_cat_controller.Repository.Schema.{Pet, Device, Database}
use ai_cat_controller.Repository.Tables.{Env, PetRow, owned_by, not_owned, owned_pet_row}
use ai_cat_controller.Repository.Interactions.Outcomes.{owned_pet_row-cases}
use ai_cat_controller.Repository.Pets.{
  BindRequest, pet_id_of, new_device, new_pet, is_pet, rebound, upsert_device, update_owner,
  bind_row, bind_pet,
}

-- the pet that a device has after a successful binding
abbrev pub bound_pet : (String → String) → Env → BindRequest → Option Pet → Pet
bound_pet uuid5 env b none = new_pet uuid5 env b
bound_pet uuid5 env b (some p) = rebound env b p

upsert_device-pets : (d : Device) (db : Database) → (upsert_device d db).1.pets ≡ db.pets
unfolding upsert_device
upsert_device-pets d db = ground arith

-- Of the pets with an id, the first is the one that its owner is shown.
find-owned :
    (user_id pet_id : String) (pets : List Pet) (p : Pet)
    → find (is_pet pet_id) pets ≡ some p
    → owned_by user_id p ≡ true
    → find (λ p. p.pet_id == pet_id && owned_by user_id p) pets ≡ some p
find-owned user_id pet_id [] p h o = cc
find-owned user_id pet_id (x ∷ pets) p h o = ground (arith, find-owned user_id pet_id pets p)

module _ (uuid5 : String → String) (env : Env) (b : BindRequest) where
  abbrev BindRow : Option Pet → Result Bool × Database → Type 0
  BindRow existing (err _, db') = Unit
  BindRow existing (ok created, db') =
      (find (is_pet (pet_id_of uuid5 b.serial_number)) db'.pets
        ≡ some (bound_pet uuid5 env b existing))
      × (created ≡ is_none existing)

  bind_row-BindRow :
      (db : Database) (existing : Option Pet)
      → find (is_pet (pet_id_of uuid5 b.serial_number)) db.pets ≡ existing
      → BindRow existing (bind_row uuid5 env b existing db)
  unfolding bind_row update_owner
  bind_row-BindRow db none h =
      let id = pet_id_of uuid5 b.serial_number in
      ground (arith, find-append (is_pet id) db.pets (new_pet uuid5 env b) h (eq_refl id))
  bind_row-BindRow db (some p) h =
      let id = pet_id_of uuid5 b.serial_number in
      ground (arith, find-update_where (is_pet id) (rebound env b) db.pets p (λ y. refl) h)

  bound_pet-owned : (o : Option Pet) → owned_by b.user_id (bound_pet uuid5 env b o) ≡ true
  bound_pet-owned none = eq_refl b.user_id
  bound_pet-owned (some p) = eq_refl b.user_id

  -- What a call has done: it raised and changed nothing, or the owner sees the bound pet.
  abbrev pub HasBound : Database → Result (PetRow × Bool) × Database → Type 0
  HasBound db (err _, db') = db' ≡ db
  HasBound db (ok (row, created), db') =
      let id = pet_id_of uuid5 b.serial_number in
      (row.pet ≡ bound_pet uuid5 env b (find (is_pet id) db.pets))
      × (created ≡ is_none (find (is_pet id) db.pets))
      × (owned_pet_row b.user_id id db' ≡ (ok row, db'))

  shown_pet :
      (db : Database) (row : PetRow) (p : Pet)
      → find (is_pet (pet_id_of uuid5 b.serial_number)) db.pets ≡ some p
      → owned_by b.user_id p ≡ true
      → owned_pet_row b.user_id (pet_id_of uuid5 b.serial_number) db ≡ (ok row, db)
      → row.pet ≡ p
  unfolding owned_pet_row
  shown_pet db row p h o e =
      ground (arith, find-owned b.user_id (pet_id_of uuid5 b.serial_number) db.pets p h o)

  pub bind_pet-HasBound : (db : Database) → HasBound db (bind_pet uuid5 env b db)
  unfolding bind_pet
  bind_pet-HasBound db =
      let id = pet_id_of uuid5 b.serial_number in
      elim (Exec-cases (upsert_device (new_device uuid5 env b) db)) [
        | inl (e, d, up) ↦
            let eq : bind_pet uuid5 env b db ≡ (err e, db) = ground arith in rw eq refl
        | inr (u, d, up) ↦ elim (Exec-cases (bind_row uuid5 env b (find (is_pet id) d.pets) d)) [
          | inl (e, d', bound) ↦
              let eq : bind_pet uuid5 env b db ≡ (err e, db) = ground arith in rw eq refl
          | inr (created, d', bound) ↦ elim (owned_pet_row-cases b.user_id id d') [
            | inr missing ↦
                let eq : bind_pet uuid5 env b db ≡ (err not_owned, db) = ground arith in rw eq refl
            | inl (row, owned) ↦
                let eq : bind_pet uuid5 env b db ≡ (ok (row, created), d') = ground arith in
                let same : d.pets ≡ db.pets =
                  subst (λ r. r.1.pets ≡ db.pets) up
                    (upsert_device-pets (new_device uuid5 env b) db) in
                let (found, fresh) =
                  subst (BindRow (find (is_pet id) d.pets)) bound
                    (bind_row-BindRow d (find (is_pet id) d.pets) refl) in
                rw (eq, ← same)
                  (
                    shown_pet d' row (bound_pet uuid5 env b (find (is_pet id) d.pets)) found
                        (bound_pet-owned (find (is_pet id) d.pets)) owned,
                    fresh,
                    owned,
                  )
          ]
        ]
      ]

  -- Where the bound pet comes from: it is new, with the drawn personality and no points, or it is the pet
  -- that the device had.
  abbrev pub ComesFrom : Option Pet → Pet → Bool → Type 0
  ComesFrom none q created =
      (created ≡ true)
      × (q.personality_id ≡ b.personality_id)
      × (q.intimacy_points ≡ pos 0)
      × (q.created_at ≡ env.now)
  ComesFrom (some p) q created =
      (created ≡ false)
      × (q.personality_id ≡ p.personality_id)
      × (q.intimacy_points ≡ p.intimacy_points)
      × (q.created_at ≡ p.created_at)
      × (q.device_id ≡ p.device_id)

  abbrev pub Bound : Database → Result (PetRow × Bool) × Database → Type 0
  Bound db (err _, db') = db' ≡ db
  Bound db (ok (row, created), db') =
      let id = pet_id_of uuid5 b.serial_number in
      (row.pet.owner_user_id ≡ some b.user_id)
      × (row.pet.name ≡ b.pet_name)
      × (row.pet.bound_at ≡ some env.now)
      × ComesFrom (find (is_pet id) db.pets) row.pet created
      × (owned_pet_row b.user_id id db' ≡ (ok row, db'))

  abbrev IsGiven : Option Pet → Pet → Bool → Type 0
  IsGiven o q created =
      (q.owner_user_id ≡ some b.user_id)
      × (q.name ≡ b.pet_name)
      × (q.bound_at ≡ some env.now)
      × ComesFrom o q created

  bound_pet-IsGiven : (o : Option Pet) → IsGiven o (bound_pet uuid5 env b o) (is_none o)
  bound_pet-IsGiven none = (refl, refl, refl, (refl, refl, refl, refl))
  bound_pet-IsGiven (some p) = (refl, refl, refl, (refl, refl, refl, refl, refl))

  HasBound-Bound :
      (db : Database) (r : Result (PetRow × Bool) × Database) → HasBound db r → Bound db r
  HasBound-Bound db (err _, db') h = h
  HasBound-Bound db (ok (row, created), db') (pet, fresh, owned) =
      let o = find (is_pet (pet_id_of uuid5 b.serial_number)) db.pets in
      let (owner, name, time, origin) =
        subst {A = Pet × Bool} (λ x. IsGiven o x.0 x.1)
          (sym (ap (λ q. (q, created)) pet ∙ ap (λ c. (bound_pet uuid5 env b o, c)) fresh))
          (bound_pet-IsGiven o) in
      (owner, name, time, origin, owned)

  -- A binding raises and changes nothing, or the user then sees the device's pet as its own, under the
  -- name of the request and bound at the time of the call. Where the device had no pet, it is reported as
  -- new and has the drawn personality and no points; else it is reported as known and keeps its
  -- personality, its points, its time of creation and its device.
  pub bind_pet-Bound : (db : Database) → Bound db (bind_pet uuid5 env b db)
  bind_pet-Bound db = HasBound-Bound db (bind_pet uuid5 env b db) (bind_pet-HasBound db)
