-- ===== src/Repository/Dialogs/Tests.antt =====
-- The laws of the import at work: two events of the pet's device, and one of another device.
use ai_cat_controller.Base.{◌≡◌, refl, String, List, [], ◌∷◌}
use ai_cat_controller.Exec.{ok}
use ai_cat_controller.Repository.Schema.{Role, Database}
use ai_cat_controller.Repository.Samples.{one_pet}
use ai_cat_controller.Repository.Tables.{owned_pet_row}
use ai_cat_controller.Repository.Dialogs.{
  NativeEvent, belongs, insert_or_ignore, store_event, import_event, import_events,
  import_native_dialog_events,
}
use ai_cat_controller.Repository.Dialogs.Repeats.{import_native_dialog_events-repeat}

abbrev uuid5 : String → String
uuid5 name = name

abbrev event : String → String → String → NativeEvent
event id serial time = record {
  event_id = id;
  device_serial = serial;
  conversation_id = "native-1";
  role = Role.user;
  content = "hello";
  created_at = time;
}

-- the second is from before the binding, and the third from another device
abbrev events : List NativeEvent
events =
    event "e1" "SN1" "2026-01-01T09:00:00+00:00"
    ∷ event "e2" "SN1" "2025-12-31T09:00:00+00:00"
    ∷ event "e3" "SN2" "2026-01-01T09:00:00+00:00"
    ∷ event "e4" "SN1" "2026-01-01T09:00:01+00:00"
    ∷ []

abbrev imported : Database
imported = (import_native_dialog_events uuid5 "u1" "p1" events one_pet).1

imported-eq : import_native_dialog_events uuid5 "u1" "p1" events one_pet ≡ (ok 2, imported)
unfolding import_native_dialog_events import_events import_event store_event insert_or_ignore
    belongs owned_pet_row
imported-eq = refl

import_native_dialog_events-repeat_example :
    (import_native_dialog_events uuid5 "u1" "p1" events imported).0 ≡ ok 0
import_native_dialog_events-repeat_example =
    import_native_dialog_events-repeat uuid5 "u1" "p1" events one_pet imported 2 imported-eq
