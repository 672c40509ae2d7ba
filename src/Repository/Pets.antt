-- ===== src/Repository/Pets.antt =====
-- The methods on users, devices and pets: `login_user`, `bind_pet`, `get_pet_by_serial`,
-- `unbind_pet`, `update_pet_settings` and `update_device_status`.
pub mod Ownership
pub mod Rebinding
pub mod Tests
use ai_cat_controller.Base.{
  String, Bool, true, false, not, Option, none, some, List, [], ◌∷◌, ◌++◌, ◌==◌, ◌&&◌, find, any,
  update_where, if◌then◌else◌,
}
use ai_cat_controller.Base.Int.{ℤ, pos}
use ai_cat_controller.Errors.{Exception, ai_cat, action_conflict, integrity_error}
use ai_cat_controller.Exec.{
  Result, ok, err, Exec, pure, raise, raise_if, gets, modify, or_raise, transaction, ◌>>=◌, ◌>>◌,
}
use ai_cat_controller.Repository.Schema.{User, Device, Pet, Database}
use ai_cat_controller.Repository.Tables.{
  Env, PetRow, stable_id, user_exists, insert_pet, join_device, owned_pet_row,
}

-- `INSERT INTO users ... ON CONFLICT(login_code) DO UPDATE`
unfoldable pub upsert_user : User → Exec Database Unit
upsert_user row db =
    if any (λ u. u.login_code == row.login_code) db.users
    then (
      ok tt,
      record db {
        users =
            update_where (λ u. u.login_code == row.login_code)
              (λ u. record u { nickname = row.nickname; updated_at = row.updated_at }) db.users;
      },
    )
    else if any (λ u. u.user_id == row.user_id) db.users
    then (err integrity_error, db)
    else (ok tt, record db { users = db.users ++ row ∷ [] })

unfoldable pub login_user : (String → String) → Env → String → String → Exec Database User
login_user uuid5 env login_code nickname = transaction (do
  upsert_user (record {
    user_id = stable_id uuid5 "usr" login_code;
    login_code = login_code;
    nickname = nickname;
    created_at = env.now;
    updated_at = env.now;
  })
  found ← gets (λ db. find (λ u. u.login_code == login_code) db.users)
  or_raise found Exception.index_error)

abbrev pub is_serial : String → Device → Bool
is_serial serial_number d = d.serial_number == serial_number

-- `INSERT INTO devices ... ON CONFLICT(serial_number) DO UPDATE`
unfoldable pub upsert_device : Device → Exec Database Unit
upsert_device row db =
    if any (is_serial row.serial_number) db.devices
    then (
      ok tt,
      record db {
        devices =
            update_where (is_serial row.serial_number)
              (λ d. record d {
                online = true;
                network_status = "online";
                network_name = row.network_name;
                last_seen_at = row.last_seen_at;
              })
              db.devices;
      },
    )
    else if any (λ d. d.device_id == row.device_id) db.devices
    then (err integrity_error, db)
    else (ok tt, record db { devices = db.devices ++ row ∷ [] })

-- The keyword arguments of `bind_pet`.
pub record BindRequest : Type 0 where
  pub user_id : String
  pub serial_number : String
  pub pet_name : String
  pub network_name : String
  pub personality_id : String

abbrev pub device_id_of : (String → String) → String → String
device_id_of uuid5 serial_number = stable_id uuid5 "dev" serial_number

abbrev pub pet_id_of : (String → String) → String → String
pet_id_of uuid5 serial_number = stable_id uuid5 "pet" (device_id_of uuid5 serial_number)

abbrev pub new_device : (String → String) → Env → BindRequest → Device
new_device uuid5 env b = record {
  device_id = device_id_of uuid5 b.serial_number;
  serial_number = b.serial_number;
  online = true;
  battery_percent = pos 86;
  charging = false;
  network_status = "online";
  network_name = b.network_name;
  volume = pos 60;
  last_seen_at = env.now;
  created_at = env.now;
}

abbrev pub new_pet : (String → String) → Env → BindRequest → Pet
new_pet uuid5 env b = record {
  pet_id = pet_id_of uuid5 b.serial_number;
  device_id = device_id_of uuid5 b.serial_number;
  owner_user_id = some b.user_id;
  name = b.pet_name;
  personality_id = b.personality_id;
  intimacy_points = pos 0;
  bound_at = some env.now;
  created_at = env.now;
}

abbrev pub is_pet : String → Pet → Bool
is_pet pet_id p = p.pet_id == pet_id

-- `current_owner is not None and current_owner != user_id`
abbrev pub is_foreign : Option String → String → Bool
is_foreign none user_id = false
is_foreign (some owner) user_id = not (owner == user_id)

abbrev pub rebound : Env → BindRequest → Pet → Pet
rebound env b p = record p {
  owner_user_id = some b.user_id;
  name = b.pet_name;
  bound_at = some env.now;
}

-- `UPDATE pets SET owner_user_id = ?, ...`, with the foreign key of the owner
unfoldable pub update_owner : Env → BindRequest → String → Exec Database Unit
update_owner env b pet_id db =
    if user_exists b.user_id db
    then (ok tt, record db { pets = update_where (is_pet pet_id) (rebound env b) db.pets })
    else (err integrity_error, db)

-- The pet's row is made or updated; the answer is `personality_created`.
unfoldable pub bind_row : (String → String) → Env → BindRequest → Option Pet → Exec Database Bool
bind_row uuid5 env b none = do insert_pet (new_pet uuid5 env b); pure true
bind_row uuid5 env b (some existing) = do
  raise_if (is_foreign existing.owner_user_id b.user_id) (ai_cat action_conflict "该设备已经绑定到其他用户")
  update_owner env b (pet_id_of uuid5 b.serial_number)
  pure false

unfoldable pub bind_pet : (String → String) → Env → BindRequest → Exec Database (PetRow × Bool)
bind_pet uuid5 env b = transaction (do
  upsert_device (new_device uuid5 env b)
  existing ← gets (λ db. find (is_pet (pet_id_of uuid5 b.serial_number)) db.pets)
  created ← bind_row uuid5 env b existing
  row ← owned_pet_row b.user_id (pet_id_of uuid5 b.serial_number)
  pure (row, created))

-- The rows of the join are those of `pets` in order, and a serial number names one device.
abbrev pet_on : String → List Pet → Option Pet
pet_on device_id pets = find (λ p. p.device_id == device_id) pets

unfoldable pub get_pet_by_serial : String → Exec Database (Option PetRow)
get_pet_by_serial serial_number db = (
  ok (elim (find (is_serial serial_number) db.devices) [
    | none ↦ none
    | some d ↦ join_device db (pet_on d.device_id db.pets)
  ]),
  db,
)

abbrev pub unowned : Pet → Pet
unowned p = record p { owner_user_id = none; bound_at = none }

unfoldable pub unbind_pet : String → String → Exec Database Unit
unbind_pet user_id pet_id = transaction (do
  owned_pet_row user_id pet_id
  modify (λ db. record db { pets = update_where (is_pet pet_id) unowned db.pets }))

abbrev pub is_device : String → Device → Bool
is_device device_id d = d.device_id == device_id

abbrev pub set_name : String → Option String → Database → Database
set_name pet_id none db = db
set_name pet_id (some name) db = record db {
  pets = update_where (is_pet pet_id) (λ p. record p { name = name }) db.pets;
}

abbrev pub set_volume : String → Option ℤ → Database → Database
set_volume device_id none db = db
set_volume device_id (some volume) db = record db {
  devices = update_where (is_device device_id) (λ d. record d { volume = volume }) db.devices;
}

unfoldable pub update_pet_settings :
    String → String → Option String → Option ℤ → Exec Database PetRow
update_pet_settings user_id pet_id name volume = transaction (do
  pet ← owned_pet_row user_id pet_id
  modify (set_name pet_id name)
  modify (set_volume pet.pet.device_id volume)
  owned_pet_row user_id pet_id)

-- The arguments of `update_device_status`.
pub record DeviceStatus : Type 0 where
  pub online : Bool
  pub battery_percent : ℤ
  pub charging : Bool
  pub network_status : String

abbrev pub with_status : Env → DeviceStatus → Device → Device
with_status env s d = record d {
  online = s.online;
  battery_percent = s.battery_percent;
  charging = s.charging;
  network_status = s.network_status;
  last_seen_at = env.now;
}

unfoldable pub update_device_status : Env → String → String → DeviceStatus → Exec Database PetRow
update_device_status env user_id pet_id s = transaction (do
  pet ← owned_pet_row user_id pet_id
  modify (λ db. record db {
    devices = update_where (is_device pet.pet.device_id) (with_status env s) db.devices;
  })
  owned_pet_row user_id pet_id)
