-- ===== src/Repository/Samples.antt =====
-- A small database for the tests of persistence/sqlite_repository.py.
use ai_cat_controller.Base.{String, [], ◌∷◌, some, true, false}
use ai_cat_controller.Base.Int.{pos}
use ai_cat_controller.Repository.Schema.{User, Device, Pet, Database, empty}
use ai_cat_controller.Repository.Tables.{Env}

abbrev pub morning : Env
morning = record { now = "2026-01-01T08:00:00+00:00"; today = "2026-01-01"; fresh = "aaaa" }

abbrev pub evening : Env
evening = record { now = "2026-01-01T20:00:00+00:00"; today = "2026-01-01"; fresh = "bbbb" }

abbrev pub user_row : String → User
user_row id = record {
  user_id = id;
  login_code = id;
  nickname = "";
  created_at = morning.now;
  updated_at = morning.now;
}

abbrev pub users_only : Database
users_only = record empty { users = user_row "u1" ∷ user_row "u2" ∷ [] }

abbrev pub device_row : Device
device_row = record {
  device_id = "d1";
  serial_number = "SN1";
  online = true;
  battery_percent = pos 86;
  charging = false;
  network_status = "online";
  network_name = "home";
  volume = pos 60;
  last_seen_at = morning.now;
  created_at = morning.now;
}

abbrev pub pet_row : Pet
pet_row = record {
  pet_id = "p1";
  device_id = "d1";
  owner_user_id = some "u1";
  name = "Xiao An";
  personality_id = "proud_star";
  intimacy_points = pos 19;
  bound_at = some morning.now;
  created_at = morning.now;
}

abbrev pub one_pet : Database
one_pet = record users_only { devices = device_row ∷ []; pets = pet_row ∷ [] }
