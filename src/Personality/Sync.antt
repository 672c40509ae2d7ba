-- ===== src/Personality/Sync.antt =====
-- `_write_profile`, `sync_pet`, `initialize` and `status`, with the runtime file as a part of the state.
use ai_cat_controller.Base.{
  text_length, ℕ, String, Bool, false, not, Option, none, some, ◌==◌, ◌||◌, ltb, is_none,
  if◌then◌else◌,
}
use ai_cat_controller.Errors.{Exception, value_error}
use ai_cat_controller.Exec.{Result, ok, err, Exec}
use ai_cat_controller.Config.{HardwareDriver, Settings}
use ai_cat_controller.Repository.Tables.{PetRow}
use ai_cat_controller.Personality.Profile.{ProfileCore, RuntimeProfile, build_profile}

pub data SyncState : Type 0 where
  not_configured mock_only other_device configured : SyncState

-- The service, and what the file at `personality_runtime_path` holds, if it is there.
pub record PersonalityService : Type 0 where
  pub active_profile : Option RuntimeProfile
  pub active_sync_state : SyncState
  pub file : Option RuntimeProfile

abbrev pub initial : PersonalityService
initial = record {
  active_profile = none;
  active_sync_state = SyncState.not_configured;
  file = none;
}

-- What the service takes from outside: the revision of a core, the bytes of a profile's JSON, the
-- serial number read from the device, and how the writing of the file ends.
pub record Outside : Type 0 where
  pub revision_of : ProfileCore → String
  pub encoded_size : RuntimeProfile → ℕ
  pub serial : Option String
  pub written : Result (Unit {0})

-- `_read_device_serial`, from the text that is read without its zero bytes, stripped
unfoldable pub read_device_serial : Option String → Option String
read_device_serial none = none
read_device_serial (some serial) =
    if serial == "" || ltb 64 (text_length serial) then none else some serial

-- `_write_profile`; a failure leaves the file as it was
unfoldable pub write_profile : Outside → RuntimeProfile → Exec PersonalityService Unit
write_profile o profile s =
    if ltb 32768 (o.encoded_size profile)
    then (err (value_error "personality runtime configuration is too large"), s)
    else elim o.written [ err e ↦ (err e, s) | ok _ ↦ (ok tt, record s { file = some profile }) ]

abbrev pub has_revision : String → Option RuntimeProfile → Bool
has_revision revision none = false
has_revision revision (some p) = p.revision == revision

-- the critical section for the device's own pet
abbrev pub activated :
    RuntimeProfile
    → Result (Unit {0}) × PersonalityService
    → Result (RuntimeProfile × SyncState) × PersonalityService
activated profile (err e, s) = (err e, s)
activated profile (ok _, s) = (
  ok (profile, SyncState.configured),
  record s { active_profile = some profile; active_sync_state = SyncState.configured },
)

abbrev pub needs_writing : RuntimeProfile → PersonalityService → Bool
needs_writing profile s = not (has_revision profile.revision s.active_profile) || is_none s.file

unfoldable pub activate :
    Outside → RuntimeProfile → Exec PersonalityService (RuntimeProfile × SyncState)
activate o profile s =
    activated profile (if needs_writing profile s then write_profile o profile s else (ok tt, s))

abbrev pub is_device : Option String → String → Bool
is_device none serial_number = false
is_device (some serial) serial_number = serial == serial_number

abbrev pub sync_profile :
    Settings
    → Outside
    → PetRow
    → Option RuntimeProfile
    → Exec PersonalityService (RuntimeProfile × SyncState)
sync_profile settings o row none s = (err Exception.key_error, s)
sync_profile settings o row (some profile) s = elim settings.hardware_driver [
  | HardwareDriver.mock ↦ (
    ok (profile, SyncState.mock_only),
    record s { active_profile = some profile; active_sync_state = SyncState.mock_only },
  )
  | HardwareDriver.local_k1 ↦
      if is_device (read_device_serial o.serial) row.device.serial_number
      then activate o profile s
      else (ok (profile, SyncState.other_device), s)
]

-- The answer is the profile, of which the source shows the public part, and its `sync_state`.
unfoldable pub sync_pet :
    Settings → Outside → PetRow → Exec PersonalityService (RuntimeProfile × SyncState)
sync_pet settings o row s =
    sync_profile settings o row (build_profile o.revision_of settings.enable_tail_motion row) s

abbrev pub ended :
    Result (RuntimeProfile × SyncState) × PersonalityService
    → Result (Unit {0}) × PersonalityService
ended (err e, s) = (err e, s)
ended (ok _, s) = (ok tt, s)

abbrev pub initialize_pet : Settings → Outside → Option PetRow → Exec PersonalityService Unit
initialize_pet settings o none s = (ok tt, s)
initialize_pet settings o (some row) s = ended (sync_pet settings o row s)

abbrev pub initialize_serial :
    Settings → Outside → (String → Option PetRow) → Option String → Exec PersonalityService Unit
initialize_serial settings o find_pet none s = (ok tt, s)
initialize_serial settings o find_pet (some serial) s =
    initialize_pet settings o (find_pet serial) s

-- `initialize`, where `find_pet` is `get_pet_by_serial`
unfoldable pub initialize :
    Settings → Outside → (String → Option PetRow) → Exec PersonalityService Unit
initialize settings o find_pet s = elim settings.hardware_driver [
  | HardwareDriver.mock ↦ (ok tt, s)
  | HardwareDriver.local_k1 ↦ initialize_serial settings o find_pet (read_device_serial o.serial) s
]

-- `status`: the active profile with its state; `none` stands for `"active": False`
unfoldable pub status : PersonalityService → Option (RuntimeProfile × SyncState)
status s = elim s.active_profile [ none ↦ none | some p ↦ some (p, s.active_sync_state) ]
