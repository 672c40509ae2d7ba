-- ===== src/Product/Events.antt =====
-- `_read_native_dialog_events` and `_normalize_native_turn_ids`: the events that the voice process has
-- written, checked and gathered into turns.
pub mod Growth
pub mod Tests
use Prim.Native.String.{◌++◌ as text_append}
use ai_cat_controller.Base.{
  text_length, ℕ, String, Bool, true, false, not, Option, none, some, List, [], ◌∷◌, ◌==◌, ◌&&◌,
  ◌||◌, leb, ltb, eqb, if◌then◌else◌,
}
use ai_cat_controller.Base.Int.{ℤ, pos, leb_ℤ}
use ai_cat_controller.Errors.{Exception}
use ai_cat_controller.Exec.{Result, ok, err}
use ai_cat_controller.Repository.Schema.{Role}
use ai_cat_controller.Repository.Dialogs.{NativeEvent}

-- The fields of a line that parses, stripped.
pub record Payload : Type 0 where
  pub event_id : String
  pub conversation_id : String
  pub device_serial : String
  pub role : String
  pub content : String
  pub created_at_ms : ℤ

abbrev is_bounded : String → ℕ → Bool
is_bounded text most = not (text == "") && leb (text_length text) most

abbrev role_of : String → Option Role
role_of text =
    if text == "user"
    then some Role.user
    else if text == "assistant"
    then some Role.assistant
    else none

abbrev event_of : Payload → Role → String → NativeEvent
event_of p role created_at = record {
  event_id = p.event_id;
  device_serial = p.device_serial;
  conversation_id = p.conversation_id;
  role = role;
  content = p.content;
  created_at = created_at;
}

-- What the parsing of a line comes to: one of the exceptions that skip the line, any other one, as the
-- OverflowError of an infinite number, or the fields.
pub data Parsed : Type 0 where
  skipped : Parsed
  raised : Exception → Parsed
  fields : Payload → Parsed

-- A line, with its bytes counted.
pub record Line : Type 0 where
  pub length : ℕ
  pub parsed : Parsed

-- `dialog_event_path`: its size from `stat`, and the lines that are read from it after that.
pub data EventFile : Type 0 where
  missing unreadable : EventFile
  readable : ℕ → List Line → EventFile

abbrev is_valid : Payload → Bool
is_valid p =
    is_bounded p.event_id 256
    && is_bounded p.conversation_id 256
    && is_bounded p.device_serial 64
    && is_bounded p.content 8192
    && not (leb_ℤ p.created_at_ms (pos 0))

-- the role that is known, of fields that pass the tests
abbrev valid_role : Payload → Option Role
valid_role p = if is_valid p then role_of p.role else none

abbrev stamped : Payload → Role → Result String → Result (Option NativeEvent)
stamped p role (err e) = err e
stamped p role (ok created_at) = ok (some (event_of p role created_at))

-- `isoformat` is the time of the milliseconds as a text, in UTC; it raises for a time out of range
unfoldable pub checked_event : (ℤ → Result String) → Payload → Result (Option NativeEvent)
checked_event isoformat p = elim (valid_role p) [
  | none ↦ ok none
  | some role ↦ stamped p role (isoformat p.created_at_ms)
]

abbrev pub parsed_event : (ℤ → Result String) → Parsed → Result (Option NativeEvent)
parsed_event isoformat Parsed.skipped = ok none
parsed_event isoformat (Parsed.raised e) = err e
parsed_event isoformat (Parsed.fields p) = checked_event isoformat p

-- `MAX_NATIVE_DIALOG_LINE_BYTES` and `MAX_NATIVE_DIALOG_FILE_BYTES`
abbrev pub max_line_bytes : ℕ
max_line_bytes = 16384

abbrev pub max_file_bytes : ℕ
max_file_bytes = 4194304

abbrev pub line_event : (ℤ → Result String) → Line → Result (Option NativeEvent)
line_event isoformat l =
    if eqb l.length 0 || ltb max_line_bytes l.length
    then ok none
    else parsed_event isoformat l.parsed

abbrev pub with_event : Option NativeEvent → List NativeEvent → List NativeEvent
with_event none es = es
with_event (some e) es = e ∷ es

-- the event of a line in front of those of the lines behind it, which are not read if the line raises
abbrev pub joined :
    Result (Option NativeEvent) → Result (List NativeEvent) → Result (List NativeEvent)
joined (err e) rest = err e
joined (ok o) (err e) = err e
joined (ok o) (ok es) = ok (with_event o es)

unfoldable pub checked_events : (ℤ → Result String) → List Line → Result (List NativeEvent)
checked_events isoformat [] = ok []
checked_events isoformat (l ∷ ls) = joined (line_event isoformat l) (checked_events isoformat ls)

pub record Turn : Type 0 where
  pub device_serial : String
  pub source_conversation_id : String
  pub conversation_id : String
  pub user_seen : Bool
  pub assistant_seen : Bool

-- `active_turns`: the first entry with the two keys counts, and a change is a new entry in front
abbrev pub active_turn : List Turn → NativeEvent → Option Turn
active_turn [] e = none
active_turn (t ∷ ts) e =
    if t.device_serial == e.device_serial && t.source_conversation_id == e.conversation_id
    then some t
    else active_turn ts e

abbrev starts_new_turn : Role → Option Turn → Bool
starts_new_turn role none = true
starts_new_turn Role.user (some t) = t.user_seen || t.assistant_seen
starts_new_turn Role.assistant (some t) = t.assistant_seen

-- `digest` is the first 24 digits of the SHA-256 of a text
abbrev new_turn : (String → String) → NativeEvent → Turn
new_turn digest e = record {
  device_serial = e.device_serial;
  source_conversation_id = e.conversation_id;
  conversation_id = text_append "native-turn-" (
      digest (
        text_append e.device_serial
          (text_append ":" (text_append e.conversation_id (text_append ":" e.event_id)))));
  user_seen = false;
  assistant_seen = false;
}

abbrev or_new : (String → String) → NativeEvent → Option Turn → Turn
or_new digest e none = new_turn digest e
or_new digest e (some t) = if starts_new_turn e.role (some t) then new_turn digest e else t

abbrev seen : Role → Turn → Turn
seen Role.user t = record t { user_seen = true }
seen Role.assistant t = record t { assistant_seen = true }

-- the turn of an event, before it is marked as seen
pub turn_of : (String → String) → List Turn → NativeEvent → Turn
turn_of digest turns e = or_new digest e (active_turn turns e)

abbrev pub next_turns : (String → String) → List Turn → NativeEvent → List Turn
next_turns digest turns e = seen e.role (turn_of digest turns e) ∷ turns

pub normalize_from : (String → String) → List Turn → List NativeEvent → List NativeEvent
normalize_from digest turns [] = []
normalize_from digest turns (e ∷ es) =
    record e { conversation_id = (turn_of digest turns e).conversation_id }
    ∷ normalize_from digest (next_turns digest turns e) es

unfoldable pub normalize_native_turn_ids : (String → String) → List NativeEvent → List NativeEvent
normalize_native_turn_ids digest = normalize_from digest []

abbrev pub normalized : (String → String) → Result (List NativeEvent) → Result (List NativeEvent)
normalized digest (err e) = err e
normalized digest (ok es) = ok (normalize_native_turn_ids digest es)

unfoldable pub read_native_dialog_events :
    (String → String) → (ℤ → Result String) → EventFile → Result (List NativeEvent)
read_native_dialog_events digest isoformat EventFile.missing = ok []
read_native_dialog_events digest isoformat EventFile.unreadable = ok []
read_native_dialog_events digest isoformat (EventFile.readable size lines) =
    if ltb max_file_bytes size then ok [] else normalized digest (checked_events isoformat lines)
