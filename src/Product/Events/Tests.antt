-- ===== src/Product/Events/Tests.antt =====
-- A question and its answer are one turn, and the next question another.
use ai_cat_controller.Base.{◌≡◌, refl, String, List, [], ◌∷◌, ◌++◌, arith}
use ai_cat_controller.Base.Int.{ℤ, pos}
use ai_cat_controller.Exec.{Result, ok}
use ai_cat_controller.Repository.Dialogs.{NativeEvent}
use ai_cat_controller.Repository.Schema.{Role}
use ai_cat_controller.Product.Events.{
  EventFile, Line, Parsed, checked_event, checked_events, normalize_native_turn_ids, normalize_from,
  turn_of, read_native_dialog_events,
}
use ai_cat_controller.Product.Events.Growth.{read_native_dialog_events-append}

abbrev line : String → String → Line
line id role = record {
  length = 120;
  parsed = Parsed.fields (record {
    event_id = id;
    conversation_id = "c1";
    device_serial = "SN1";
    role = role;
    content = "hello";
    created_at_ms = pos 1000;
  });
}

abbrev digest : String → String
digest text = text

abbrev isoformat : ℤ → Result String
isoformat ms = ok "1970-01-01T00:00:01+00:00"

abbrev lines : List Line
lines = line "e1" "user" ∷ line "e2" "assistant" ∷ []

abbrev event : String → Role → String → NativeEvent
event id role turn = record {
  event_id = id;
  device_serial = "SN1";
  conversation_id = turn;
  role = role;
  content = "hello";
  created_at = "1970-01-01T00:00:01+00:00";
}

abbrev events : List NativeEvent
events =
    event "e1" Role.user "native-turn-SN1:c1:e1"
    ∷ event "e2" Role.assistant "native-turn-SN1:c1:e1"
    ∷ event "e3" Role.user "native-turn-SN1:c1:e3"
    ∷ []

read_native_dialog_events-three :
    read_native_dialog_events digest isoformat
      (EventFile.readable 360 (lines ++ line "e3" "user" ∷ []))
    ≡ ok events
unfolding read_native_dialog_events normalize_native_turn_ids normalize_from turn_of checked_events
    checked_event
read_native_dialog_events-three = refl

-- past 4 MiB nothing is read
read_native_dialog_events-large :
    read_native_dialog_events digest isoformat (EventFile.readable 4194305 lines) ≡ ok []
unfolding read_native_dialog_events
read_native_dialog_events-large = refl

read_native_dialog_events-append_example :
    (old : List NativeEvent) × (news : List NativeEvent) × (read_native_dialog_events digest
        isoformat
        (EventFile.readable 240 lines)
      ≡ ok old)
    × (events ≡ old ++ news)
read_native_dialog_events-append_example =
    read_native_dialog_events-append digest isoformat 240 360 lines (line "e3" "user" ∷ []) events
      (ground arith) (ground arith) read_native_dialog_events-three
