-- ===== src/Product/Imports/Tests.antt =====
-- A synchronization with one event of the pet's device, and one after it with the same signature.
use ai_cat_controller.Base.{◌≡◌, refl, some, String, List, [], ◌∷◌}
use ai_cat_controller.Exec.{ok}
use ai_cat_controller.Repository.Schema.{Role}
use ai_cat_controller.Repository.Samples.{one_pet}
use ai_cat_controller.Repository.Tables.{owned_pet_row}
use ai_cat_controller.Repository.Dialogs.{
  NativeEvent, belongs, dialog_sync_state, insert_or_ignore, store_event, import_event,
  import_events, import_native_dialog_events,
}
use ai_cat_controller.Product.Imports.{
  Source, Synced, Syncing, import_changed, is_known, sync_native_dialog_events,
  sync_native_dialog_events-repeat,
}

abbrev uuid5 : String → String
uuid5 name = name

abbrev events : List NativeEvent
events =
    record {
      event_id = "e1";
      device_serial = "SN1";
      conversation_id = "native-1";
      role = Role.user;
      content = "hello";
      created_at = "2026-01-01T09:00:00+00:00";
    }
    ∷ []

abbrev source : Source
source = record { mtime_ns = 7; size = 200; updated_at = "2026-01-01T09:00:02+00:00" }

abbrev before : Syncing
before = record { db = one_pet; signatures = [] }

abbrev after : Syncing
after = (sync_native_dialog_events uuid5 "u1" "p1" (ok events) (some source) before).1

abbrev answer : Synced
answer = record {
  imported_messages = 1;
  state = record {
    message_count = 1;
    conversation_count = 1;
    latest_message_at = some "2026-01-01T09:00:00+00:00";
  };
  source_updated_at = some "2026-01-01T09:00:02+00:00";
}

sync_native_dialog_events-eq :
    sync_native_dialog_events uuid5 "u1" "p1" (ok events) (some source) before ≡ (ok answer, after)
unfolding sync_native_dialog_events import_changed is_known import_native_dialog_events
    import_events import_event store_event insert_or_ignore belongs owned_pet_row dialog_sync_state
sync_native_dialog_events-eq = refl

sync_native_dialog_events-repeat_example :
    sync_native_dialog_events uuid5 "u1" "p1" (ok []) (some source) after
    ≡ (ok (record answer { imported_messages = 0 }), after)
sync_native_dialog_events-repeat_example =
    sync_native_dialog_events-repeat uuid5 "u1" "p1" (ok events) (ok []) source before after answer
      sync_native_dialog_events-eq
