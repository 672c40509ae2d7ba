-- ===== src/Repository/Dialogs.antt =====
-- The methods on the dialog history: `add_dialog_pair`, `import_native_dialog_events`,
-- `get_dialog_conversation` and `dialog_sync_state`.
pub mod Imports
pub mod Repeats
pub mod Tests
use Prim.Native.Nat.{Ordering}
use Prim.Native.String.{compare, ◌++◌ as text_append}
use ai_cat_controller.Base.{
  ℕ, ◌+◌, String, Bool, true, false, not, Option, none, some, List, [], ◌∷◌, ◌++◌, ◌==◌, ◌&&◌, ◌||◌,
  any, count, filter, member, length, update_where, if◌then◌else◌,
}
use ai_cat_controller.Errors.{ai_cat, resource_not_found, integrity_error}
use ai_cat_controller.Exec.{ok, err, Exec, pure, gets, raise_if, modify, transaction, ◌>>=◌, ◌>>◌}
use ai_cat_controller.Repository.Schema.{Role, Message, Database}
use ai_cat_controller.Repository.Tables.{
  Env, PetRow, random_id, stable_id, pet_exists, user_exists, insert_message, owned_pet_row,
}

-- The keyword arguments of `add_dialog_pair`; the digits of its three identifiers are `env.fresh`
-- for the conversation, and those of the two messages.
pub record DialogPair : Type 0 where
  pub user_id : String
  pub pet_id : String
  pub user_content : String
  pub assistant_content : String
  pub voice_id : String
  pub user_digits : String
  pub assistant_digits : String

abbrev pub user_message : Env → DialogPair → Message
user_message env d = record {
  message_id = random_id "msg" d.user_digits;
  conversation_id = random_id "conv" env.fresh;
  pet_id = d.pet_id;
  user_id = d.user_id;
  role = Role.user;
  content = d.user_content;
  voice_id = none;
  created_at = env.now;
}

abbrev pub assistant_message : Env → DialogPair → Message
assistant_message env d = record {
  message_id = random_id "msg" d.assistant_digits;
  conversation_id = random_id "conv" env.fresh;
  pet_id = d.pet_id;
  user_id = d.user_id;
  role = Role.assistant;
  content = d.assistant_content;
  voice_id = some d.voice_id;
  created_at = env.now;
}

unfoldable pub add_dialog_pair : Env → DialogPair → Exec Database (String × List Message)
add_dialog_pair env d = transaction (do
  owned_pet_row d.user_id d.pet_id
  insert_message (user_message env d)
  insert_message (assistant_message env d)
  pure (random_id "conv" env.fresh, user_message env d ∷ assistant_message env d ∷ []))

-- An event of the voice process, after the product service has checked it.
pub record NativeEvent : Type 0 where
  pub event_id : String
  pub device_serial : String
  pub conversation_id : String
  pub role : Role
  pub content : String
  pub created_at : String

abbrev text_of : Option String → String
text_of none = ""
text_of (some text) = text

-- `<` on texts
abbrev earlier : String → String → Bool
earlier a b = elim (compare a b) [ Ordering.lt ↦ true | _ ↦ false ]

-- neither `continue` is reached
unfoldable pub belongs : PetRow → NativeEvent → Bool
belongs row e =
    let bound_at = text_of row.pet.bound_at in
    e.device_serial == row.device.serial_number
    && (bound_at == "" || not (earlier e.created_at bound_at))

abbrev pub native_id : (String → String) → PetRow → NativeEvent → String
native_id uuid5 row e =
    stable_id uuid5 "msg" (text_append row.device.serial_number (text_append ":" e.event_id))

abbrev voice_of : Role → Option String
voice_of Role.user = none
voice_of Role.assistant = some "volcengine_tts"

abbrev pub has_id : String → Message → Bool
has_id id m = m.message_id == id

-- `INSERT OR IGNORE`, with the count of inserted rows; a foreign key is not ignored
unfoldable pub insert_or_ignore : Message → Exec Database ℕ
insert_or_ignore row db =
    if any (has_id row.message_id) db.dialog_history
    then (ok 0, db)
    else if not (pet_exists row.pet_id db) || not (user_exists row.user_id db)
    then (err integrity_error, db)
    else (ok 1, record db { dialog_history = db.dialog_history ++ row ∷ [] })

abbrev pub with_conversation : String → Message → Message
with_conversation id m = record m { conversation_id = id }

module _ (uuid5 : String → String) (user_id pet_id : String) where
  abbrev pub native_message : PetRow → NativeEvent → Message
  native_message row e = record {
    message_id = native_id uuid5 row e;
    conversation_id = e.conversation_id;
    pet_id = pet_id;
    user_id = user_id;
    role = e.role;
    content = e.content;
    voice_id = voice_of e.role;
    created_at = e.created_at;
  }

  abbrev pub is_moved : String → NativeEvent → Message → Bool
  is_moved id e m =
      has_id id m
      && m.pet_id == pet_id
      && m.user_id == user_id
      && not (m.conversation_id == e.conversation_id)

  -- the two statements for an event that belongs here
  unfoldable pub store_event : PetRow → NativeEvent → Exec Database ℕ
  store_event row e = do
    n ← insert_or_ignore (native_message row e)
    modify (λ db. record db {
      dialog_history =
          update_where (is_moved (native_id uuid5 row e) e) (with_conversation e.conversation_id)
            db.dialog_history;
    })
    pure n

  -- one pass of the loop, with what it adds to `imported`
  unfoldable pub import_event : PetRow → NativeEvent → Exec Database ℕ
  import_event row e db = if belongs row e then store_event row e db else (ok 0, db)

  unfoldable pub import_events : PetRow → List NativeEvent → Exec Database ℕ
  import_events row [] = pure 0
  import_events row (e ∷ es) = do
    n ← import_event row e
    rest ← import_events row es
    pure (n + rest)

  unfoldable pub import_native_dialog_events : List NativeEvent → Exec Database ℕ
  import_native_dialog_events events =
      transaction (do pet ← owned_pet_row user_id pet_id; import_events pet events)

-- The rows of one conversation. `sort` is SQLite's stable order by `created_at`.
abbrev is_in : String → String → String → Message → Bool
is_in user_id pet_id conversation_id m =
    m.pet_id == pet_id && m.user_id == user_id && m.conversation_id == conversation_id

abbrev is_empty {ℓ} : {A : Type ℓ} → List A → Bool
is_empty [] = true
is_empty (_ ∷ _) = false

unfoldable pub get_dialog_conversation :
    (List Message → List Message) → String → String → String → Exec Database (List Message)
get_dialog_conversation sort user_id pet_id conversation_id = transaction (do
  owned_pet_row user_id pet_id
  rows ← gets (λ db. filter (is_in user_id pet_id conversation_id) db.dialog_history)
  raise_if (is_empty rows) (ai_cat resource_not_found "对话会话不存在")
  pure (sort rows))

-- The answer of `dialog_sync_state`.
pub record SyncState : Type 0 where
  pub message_count : ℕ
  pub conversation_count : ℕ
  pub latest_message_at : Option String

abbrev is_between : String → String → Message → Bool
is_between user_id pet_id m = m.pet_id == pet_id && m.user_id == user_id

-- `COUNT(DISTINCT conversation_id)`: each conversation counts at its last row
abbrev distinct : List Message → ℕ
distinct [] = 0
distinct (m ∷ ms) =
    (if any (λ n. n.conversation_id == m.conversation_id) ms then 0 else 1) + distinct ms

-- `MAX(created_at)`
abbrev later_of : String → Option String → Option String
later_of a none = some a
later_of a (some b) = some (if earlier a b then b else a)

abbrev latest : List Message → Option String
latest [] = none
latest (m ∷ ms) = later_of m.created_at (latest ms)

unfoldable pub dialog_sync_state : String → String → Exec Database SyncState
dialog_sync_state user_id pet_id = transaction (do
  owned_pet_row user_id pet_id
  rows ← gets (λ db. filter (is_between user_id pet_id) db.dialog_history)
  pure (record {
    message_count = length rows;
    conversation_count = distinct rows;
    latest_message_at = latest rows;
  }))
