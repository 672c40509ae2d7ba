-- ===== src/Repository/Ledger/Operations.antt =====
-- Every method that writes pets or events keeps the points of the pets equal to the balances of the log.
use ai_cat_controller.Base.{
  ◌≡◌, ◌++◌, ◌⊎◌, refl, ap, sym, inl, inr, subst, ◌∙◌, Bool, true, false, String, Option, none,
  some, List, [], ◌∷◌, arith, ◌==◌, any, find, map, update_where, Option-cases,
}
use ai_cat_controller.Base.Int.{ℤ}
use ai_cat_controller.Errors.{Exception}
use ai_cat_controller.Exec.{ok, err, Exec-cases}
use ai_cat_controller.Errors.{Exception}
use ai_cat_controller.Repository.Schema.{Device, Pet, InteractionEvent, Database, User}
use ai_cat_controller.Repository.Tables.{insert_pet, stable_id, Env, not_owned}
use ai_cat_controller.Repository.Pets.{
  BindRequest, DeviceStatus, bind_pet, bind_row, login_user, new_device, new_pet, pet_id_of,
  rebound, unbind_pet, unowned, update_device_status, update_owner, update_pet_settings,
  upsert_device, upsert_user, is_pet, set_name, set_volume, with_status, is_device,
}
use ai_cat_controller.Repository.Interactions.Outcomes.{owned_pet_row-cases}
use ai_cat_controller.Repository.Ledger.{
  is_account, AreBalanced, IsBalanced, account, open-AreBalanced,
}

-- what the balance is about; many updates leave it alone
abbrev books : Database → List (String × ℤ) × List InteractionEvent
books db = (map account db.pets, db.interaction_events)

abbrev BooksBalanced : List (String × ℤ) × List InteractionEvent → Type 0
BooksBalanced (accounts, es) = AreBalanced accounts es

pub same_books : (db db' : Database) → books db' ≡ books db → IsBalanced db → IsBalanced db'
same_books db db' e h = subst BooksBalanced (sym e) h

map-update :
    (p : Pet → Bool) (f : Pet → Pet) (pets : List Pet)
    → ((x : Pet) → account (f x) ≡ account x)
    → map account (update_where p f pets) ≡ map account pets
map-update p f [] k = refl
map-update p f (x ∷ pets) k = ground (arith, k x, map-update p f pets k)

books-upsert_user : (row : User) (db : Database) → books (upsert_user row db).1 ≡ books db
unfolding upsert_user
books-upsert_user row db = ground arith

login_row : (String → String) → Env → String → String → User
login_row uuid5 env code nickname = record {
  user_id = stable_id uuid5 "usr" code;
  login_code = code;
  nickname = nickname;
  created_at = env.now;
  updated_at = env.now;
}

pub books-login_user :
    (uuid5 : String → String) (env : Env) (code nickname : String) (db : Database)
    → books (login_user uuid5 env code nickname db).1 ≡ books db
unfolding login_user login_row
books-login_user uuid5 env code nickname db =
    let row = login_row uuid5 env code nickname in
    elim (Exec-cases (upsert_user row db)) [
      | inl (e, v, f) ↦
          let eq : login_user uuid5 env code nickname db ≡ (err e, db) = ground arith in rw eq refl
      | inr (u, v, f) ↦ elim (Option-cases (find (λ u. u.login_code == code) v.users)) [
        | inl g ↦
            let eq : login_user uuid5 env code nickname db ≡ (err Exception.index_error, db) =
              ground arith in
            rw eq refl
        | inr (x, g) ↦
            let eq : login_user uuid5 env code nickname db ≡ (ok x, v) = ground arith in
            rw eq (ap (λ r. books r.1) (sym f) ∙ books-upsert_user row db)
      ]
    ]

pub books-unbind_pet :
    (user_id pet_id : String) (db : Database) → books (unbind_pet user_id pet_id db).1 ≡ books db
unfolding unbind_pet
books-unbind_pet user_id pet_id db = ground (
  arith,
  owned_pet_row-cases user_id pet_id db,
  map-update (is_pet pet_id) unowned db.pets (λ x. refl),
)

books-set_name :
    (pet_id : String) (name : Option String) (db : Database)
    → books (set_name pet_id name db) ≡ books db
books-set_name pet_id none db = refl
books-set_name pet_id (some name) db =
    ap (λ x. (x, db.interaction_events))
      (map-update (is_pet pet_id) (λ p. record p { name = name }) db.pets (λ x. refl))

books-set_volume :
    (device_id : String) (volume : Option ℤ) (db : Database)
    → books (set_volume device_id volume db) ≡ books db
books-set_volume device_id none db = refl
books-set_volume device_id (some volume) db = refl

pub books-update_pet_settings :
    (user_id pet_id : String) (name : Option String) (volume : Option ℤ) (db : Database)
    → books (update_pet_settings user_id pet_id name volume db).1 ≡ books db
unfolding update_pet_settings
books-update_pet_settings user_id pet_id name volume db =
    elim (owned_pet_row-cases user_id pet_id db) [
      | inr e ↦
          let eq : update_pet_settings user_id pet_id name volume db ≡ (err not_owned, db) =
            ground arith in
          rw eq refl
      | inl (row, e) ↦
          let named = set_name pet_id name db in
          let loud = set_volume row.pet.device_id volume named in
          elim (owned_pet_row-cases user_id pet_id loud) [
            | inr f ↦
                let eq : update_pet_settings user_id pet_id name volume db ≡ (err not_owned, db) =
                  ground arith in
                rw eq refl
            | inl (after, f) ↦
                let eq : update_pet_settings user_id pet_id name volume db ≡ (ok after, loud) =
                  ground arith in
                rw eq
                  (books-set_volume row.pet.device_id volume named ∙ books-set_name pet_id name db)
          ]
    ]

pub books-update_device_status :
    (env : Env) (user_id pet_id : String) (s : DeviceStatus) (db : Database)
    → books (update_device_status env user_id pet_id s db).1 ≡ books db
unfolding update_device_status
books-update_device_status env user_id pet_id s db = elim (owned_pet_row-cases user_id pet_id db) [
  | inr e ↦
      let eq : update_device_status env user_id pet_id s db ≡ (err not_owned, db) = ground arith in
      rw eq refl
  | inl (row, e) ↦
      let updated = record db {
        devices = update_where (is_device row.pet.device_id) (with_status env s) db.devices;
      } in
      elim (owned_pet_row-cases user_id pet_id updated) [
        | inr f ↦
            let eq : update_device_status env user_id pet_id s db ≡ (err not_owned, db) =
              ground arith in
            rw eq refl
        | inl (after, f) ↦
            let eq : update_device_status env user_id pet_id s db ≡ (ok after, updated) =
              ground arith in
            rw eq refl
      ]
]

map-append :
    (pets : List Pet) (p : Pet) → map account (pets ++ p ∷ []) ≡ map account pets ++ account p ∷ []
map-append [] p = refl
map-append (x ∷ pets) p = cc (map-append pets p)

no_account :
    (pet_id : String) (pets : List Pet)
    → find (is_pet pet_id) pets ≡ none
    → any (is_account pet_id) (map account pets) ≡ false
no_account pet_id [] h = refl
no_account pet_id (x ∷ pets) h = ground (arith, no_account pet_id pets)

insert_pet-cases :
    (row : Pet) (db : Database)
    → (insert_pet row db ≡ (err Exception.integrity_error, db))
      ⊎ (insert_pet row db ≡ (ok tt, record db { pets = db.pets ++ row ∷ [] }))
insert_pet-cases row db = ground arith

bind_row_new :
    (uuid5 : String → String) (env : Env) (b : BindRequest) (db : Database)
    → find (is_pet (pet_id_of uuid5 b.serial_number)) db.pets ≡ none
    → IsBalanced db
    → IsBalanced (bind_row uuid5 env b none db).1
unfolding bind_row
bind_row_new uuid5 env b db h i =
    let row = new_pet uuid5 env b in
    elim (insert_pet-cases row db) [
      | inl e ↦
          let eq : bind_row uuid5 env b none db ≡ (err Exception.integrity_error, db) =
            ground arith in
          rw eq i
      | inr e ↦
          let eq : bind_row uuid5 env b none db
              ≡ (ok true, record db { pets = db.pets ++ row ∷ [] }) =
            ground arith in
          rw eq (
            subst (λ x. AreBalanced x db.interaction_events) (sym (map-append db.pets row))
              (open-AreBalanced row.pet_id (map account db.pets) db.interaction_events
                (no_account row.pet_id db.pets h) i))
    ]

books-update_owner :
    (env : Env) (b : BindRequest) (pet_id : String) (db : Database)
    → books (update_owner env b pet_id db).1 ≡ books db
unfolding update_owner
books-update_owner env b pet_id db =
    ground (arith, map-update (is_pet pet_id) (rebound env b) db.pets (λ x. refl))

bind_row_again :
    (uuid5 : String → String) (env : Env) (b : BindRequest) (db : Database) (p : Pet)
    → books (bind_row uuid5 env b (some p) db).1 ≡ books db
unfolding bind_row
bind_row_again uuid5 env b db p =
    ground (arith, books-update_owner env b (pet_id_of uuid5 b.serial_number) db)

bind_row-IsBalanced :
    (uuid5 : String → String) (env : Env) (b : BindRequest) (db : Database) (existing : Option Pet)
    → find (is_pet (pet_id_of uuid5 b.serial_number)) db.pets ≡ existing
    → IsBalanced db
    → IsBalanced (bind_row uuid5 env b existing db).1
bind_row-IsBalanced uuid5 env b db none h i = bind_row_new uuid5 env b db h i
bind_row-IsBalanced uuid5 env b db (some p) h i =
    same_books db (bind_row uuid5 env b (some p) db).1 (bind_row_again uuid5 env b db p) i

books-upsert_device : (d : Device) (db : Database) → books (upsert_device d db).1 ≡ books db
unfolding upsert_device
books-upsert_device d db = ground arith

pub bind_pet-IsBalanced :
    (uuid5 : String → String) (env : Env) (b : BindRequest) (db : Database)
    → IsBalanced db
    → IsBalanced (bind_pet uuid5 env b db).1
unfolding bind_pet
bind_pet-IsBalanced uuid5 env b db i =
    let id = pet_id_of uuid5 b.serial_number in
    elim (Exec-cases (upsert_device (new_device uuid5 env b) db)) [
      | inl (e, v, f) ↦ let eq : bind_pet uuid5 env b db ≡ (err e, db) = ground arith in rw eq i
      | inr (u, v, f) ↦
          let existing = find (is_pet id) v.pets in
          let j =
            same_books db v
              (ap (λ r. books r.1) (sym f) ∙ books-upsert_device (new_device uuid5 env b) db) i in
          elim (Exec-cases (bind_row uuid5 env b existing v)) [
            | inl (e, x, g) ↦
                let eq : bind_pet uuid5 env b db ≡ (err e, db) = ground arith in rw eq i
            | inr (created, x, g) ↦ elim (owned_pet_row-cases b.user_id id x) [
              | inr e ↦
                  let eq : bind_pet uuid5 env b db ≡ (err not_owned, db) = ground arith in rw eq i
              | inl (row, e) ↦
                  let eq : bind_pet uuid5 env b db ≡ (ok (row, created), x) = ground arith in
                  rw eq (
                    subst (λ r. IsBalanced r.1) g
                      (bind_row-IsBalanced uuid5 env b v existing refl j))
            ]
          ]
    ]
