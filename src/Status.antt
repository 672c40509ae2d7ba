-- ===== src/Status.antt =====
-- services/device_service.py: what is shown of the device, and the cache of the states of its services.
pub mod Freshness
pub mod Tests
use ai_cat_controller.Base.{
  ℕ, ◌+◌, ◌-◌, String, Option, none, some, List, [], ◌∷◌, ◌==◌, ltb, if◌then◌else◌,
}
use ai_cat_controller.Base.Int.{ℤ, pos, pos_part}
use ai_cat_controller.Exec.{Result, ok, err, Exec}
use ai_cat_controller.Config.{HardwareDriver, Settings}
use ai_cat_controller.Motion.State.{MotionService}
use ai_cat_controller.Dialog.State.{DialogState, text_of}
use ai_cat_controller.Autonomy.Values.{Value, Members, get_or}

-- What the interpreter says of its host; times are in milliseconds, the thousandths of the seconds
-- that are shown.
pub record Host : Type 0 where
  pub hostname : String
  pub platform : String
  pub python_version : String
  pub started_at : ℕ
  pub now : ℕ

-- `d[key] = v`: a key that is there keeps its place
abbrev pub put : String → Value → Members → Members
put key v Members.no_members = Members.member_of key v Members.no_members
put key v (Members.member_of k w ms) =
    let rest = put key v ms in
    if k == key then Members.member_of k v ms else Members.member_of k w rest

-- `d.update(items)`
abbrev pub update : Members → Members → Members
update d Members.no_members = d
update d (Members.member_of key v items) = update (put key v d) items

abbrev driver_text : HardwareDriver → String
driver_text HardwareDriver.mock = "mock"
driver_text HardwareDriver.local_k1 = "local_k1"

abbrev text_or_null : Option String → Value
text_or_null none = Value.null
text_or_null (some t) = Value.text t

-- the state of a dialog service that is between two states goes before the adapter's
abbrev pub shown_state : DialogState → Members → Value
shown_state DialogState.waking adapter_status = Value.text "waking"
shown_state DialogState.interrupting adapter_status = Value.text "interrupting"
shown_state state adapter_status = get_or "dialog_state" (Value.text (text_of state)) adapter_status

abbrev device_items : Settings → MotionService → DialogState → Host → Members → Members
device_items settings motion state host adapter_status =
    Members.member_of "adapter_mode" (Value.text (driver_text settings.hardware_driver)) (
      Members.member_of "hostname" (Value.text host.hostname) (
        Members.member_of "platform" (Value.text host.platform) (
          Members.member_of "python_version" (Value.text host.python_version) (
            Members.member_of "current_action" (Value.text motion.current_action) (
              Members.member_of "dialog_state" (shown_state state adapter_status) (
                Members.member_of "last_error" (text_or_null motion.last_error) (
                  Members.member_of "uptime_seconds"
                    (Value.number (pos (host.now - host.started_at))) Members.no_members)))))))

-- `get_device_status`, from the adapter's answer on
unfoldable pub get_device_status :
    Settings → MotionService → DialogState → Host → Result Members → Result Members
get_device_status settings motion state host (err e) = err e
get_device_status settings motion state host (ok adapter_status) =
    ok (update adapter_status (device_items settings motion state host adapter_status))

-- `_services_cache` and `_services_cache_until`; the copies of the items are the items.
pub record ServicesCache : Type 0 where
  pub services_cache : Option (List Members)
  pub services_cache_until : ℕ

abbrev pub empty_cache : ServicesCache
empty_cache = record { services_cache = none; services_cache_until = 0 }

-- A call of `get_services_status`: the time that it reads before it waits for the lock, and what the
-- adapter would answer once it has the lock.
pub record Call : Type 0 where
  pub now : ℕ
  pub answer : Result (List Members)

-- how long a cached answer serves; the validators keep the setting from being negative
abbrev pub cache_time : Settings → ℕ
cache_time settings = pos_part settings.service_status_cache

abbrev pub kept_answer : ℕ → ℕ → Result (List Members) → Exec ServicesCache (List Members)
kept_answer time now (err e) s = (err e, s)
kept_answer time now (ok statuses) s =
    (ok statuses, record { services_cache = some statuses; services_cache_until = now + time })

abbrev pub cached : Call → ServicesCache → Option (List Members)
cached c s = if ltb c.now s.services_cache_until then s.services_cache else none

abbrev pub answered : ℕ → Call → Option (List Members) → Exec ServicesCache (List Members)
answered time c (some statuses) s = (ok statuses, s)
answered time c none s = kept_answer time c.now c.answer s

unfoldable pub get_services_status : Settings → Call → Exec ServicesCache (List Members)
get_services_status settings c s = answered (cache_time settings) c (cached c s) s

-- the answers of calls in the order in which they get the lock
unfoldable pub serve_calls : Settings → List Call → ServicesCache → List (Result (List Members))
serve_calls settings [] s = []
serve_calls settings (c ∷ cs) s =
    let (r, s') = get_services_status settings c s in r ∷ serve_calls settings cs s'
