-- ===== src/Repository/Tables.antt =====
-- The statements that several methods share: inserts with the constraints of their tables, the join
-- of a pet with its device, and the two kinds of identifiers.
use Prim.Native.String.{◌++◌ as text_append}
use ai_cat_controller.Base.{
  String, Bool, true, false, not, Option, none, some, [], ◌∷◌, ◌++◌, ◌==◌, ◌&&◌, ◌||◌, find, any,
  if◌then◌else◌,
}
use ai_cat_controller.Errors.{Exception, integrity_error, ai_cat, resource_not_found}
use ai_cat_controller.Exec.{ok, err, Exec, or_raise}
use ai_cat_controller.Repository.Schema.{
  Device, Pet, InteractionEvent, Message, ActionExecution, Feedback, Database,
}

-- `_utc_now` and `_utc_date` of one call, and the sixteen digits that `uuid4` gives to it.
pub record Env : Type 0 where
  pub now : String
  pub today : String
  pub fresh : String

-- `_random_id`
abbrev pub random_id : String → String → String
random_id prefix fresh = text_append prefix (text_append "_" fresh)

-- `_stable_id`, where `uuid5` is the sixteen digits that the library derives from a name
abbrev pub stable_id : (String → String) → String → String → String
stable_id uuid5 prefix value = text_append prefix (
    text_append "_"
      (uuid5 (text_append "ai-cat-controller:" (text_append prefix (text_append ":" value)))))

abbrev pub user_exists : String → Database → Bool
user_exists id db = any (λ u. u.user_id == id) db.users

abbrev pub pet_exists : String → Database → Bool
pet_exists id db = any (λ p. p.pet_id == id) db.pets

abbrev pub device_exists : String → Database → Bool
device_exists id db = any (λ d. d.device_id == id) db.devices

-- An owner that is NULL refers to nobody.
abbrev owner_exists : Option String → Database → Bool
owner_exists none db = true
owner_exists (some id) db = user_exists id db

abbrev pub insert_pet : Pet → Exec Database Unit
insert_pet row db =
    if any (λ p. p.pet_id == row.pet_id || p.device_id == row.device_id) db.pets
      || not (device_exists row.device_id db)
      || not (owner_exists row.owner_user_id db)
    then (err integrity_error, db)
    else (ok tt, record db { pets = db.pets ++ row ∷ [] })

abbrev pub insert_event : InteractionEvent → Exec Database Unit
insert_event row db =
    if any
        (λ e.
          e.event_id == row.event_id || (e.pet_id == row.pet_id && e.request_id == row.request_id))
        db.interaction_events
      || not (pet_exists row.pet_id db)
      || not (user_exists row.user_id db)
    then (err integrity_error, db)
    else (ok tt, record db { interaction_events = db.interaction_events ++ row ∷ [] })

abbrev pub insert_message : Message → Exec Database Unit
insert_message row db =
    if any (λ m. m.message_id == row.message_id) db.dialog_history
      || not (pet_exists row.pet_id db)
      || not (user_exists row.user_id db)
    then (err integrity_error, db)
    else (ok tt, record db { dialog_history = db.dialog_history ++ row ∷ [] })

abbrev pub insert_execution : ActionExecution → Exec Database Unit
insert_execution row db =
    if any
        (λ x.
          x.execution_id == row.execution_id
          || (x.pet_id == row.pet_id && x.request_id == row.request_id))
        db.action_executions
      || not (pet_exists row.pet_id db)
      || not (user_exists row.user_id db)
    then (err integrity_error, db)
    else (ok tt, record db { action_executions = db.action_executions ++ row ∷ [] })

abbrev pub insert_feedback : Feedback → Exec Database Unit
insert_feedback row db =
    if any (λ f. f.feedback_id == row.feedback_id) db.feedback
      || not (pet_exists row.pet_id db)
      || not (user_exists row.user_id db)
    then (err integrity_error, db)
    else (ok tt, record db { feedback = db.feedback ++ row ∷ [] })

-- `p.owner_user_id = ?`, which NULL does not satisfy
abbrev pub owned_by : String → Pet → Bool
owned_by user_id pet = elim pet.owner_user_id [ none ↦ false | some owner ↦ owner == user_id ]

-- A row of `pets p JOIN devices d ON d.device_id = p.device_id`.
pub record PetRow : Type 0 where
  pub pet : Pet
  pub device : Device

abbrev pub join_device : Database → Option Pet → Option PetRow
join_device db none = none
join_device db (some p) = elim (find (λ d. d.device_id == p.device_id) db.devices) [
  | none ↦ none
  | some d ↦ some (record { pet = p; device = d })
]

-- `pet_id` is a key, so the first pet that fits is the only one.
abbrev pub owned_row : Database → String → String → Option PetRow
owned_row db user_id pet_id =
    join_device db (find (λ p. p.pet_id == pet_id && owned_by user_id p) db.pets)

abbrev pub not_owned : Exception
not_owned = ai_cat resource_not_found "宠物不存在或未绑定到当前用户"

unfoldable pub owned_pet_row : String → String → Exec Database PetRow
owned_pet_row user_id pet_id db = or_raise (owned_row db user_id pet_id) not_owned db

-- `get_owned_pet`
unfoldable pub get_owned_pet : String → String → Exec Database PetRow
unfolding owned_pet_row
get_owned_pet user_id pet_id = owned_pet_row user_id pet_id
