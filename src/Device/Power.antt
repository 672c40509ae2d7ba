-- ===== src/Device/Power.antt =====
-- adapters/local_k1.py: `_read_power_status`, from the files of the battery and of the charger.
use Prim.Native.String.{◌++◌ as text_append}
use ai_cat_controller.Base.{
  text_length, String, Bool, true, false, not, Option, none, some, List, [], ◌∷◌, ◌++◌, ◌==◌, ◌&&◌,
  ◌||◌, ltb, is_some, if◌then◌else◌,
}
use ai_cat_controller.Base.Int.{ℤ, pos, leb_ℤ, eqb_ℤ}

pub data Supply : Type 0 where
  battery charger : Supply

-- What the code takes from Python and the kernel: the stripped text of an attribute (`none` where
-- reading or decoding it raises), `int`, the lower case with underscores, `sorted(set(...))` with
-- its join, and the rounded quotient by 1000.
pub record PowerReads : Type 0 where
  pub read_text : Supply → String → Option String
  pub parse_int : String → Option ℤ
  pub underscored : String → String
  pub join_sorted : List String → String
  pub round_thousandth : ℤ → ℤ

-- `_read_sysfs_value`, where `none` is any of the exceptions that the callers catch
abbrev checked_value : Option String → Option String
checked_value none = none
checked_value (some value) = if value == "" || ltb 128 (text_length value) then none else some value

unfoldable pub read_sysfs_value : PowerReads → Supply → String → Option String
read_sysfs_value p supply name = checked_value (p.read_text supply name)

abbrev within : ℤ → ℤ → Option ℤ → Option ℤ
within minimum maximum none = none
within minimum maximum (some value) =
    if leb_ℤ minimum value && leb_ℤ value maximum then some value else none

abbrev parsed : PowerReads → Option String → Option ℤ
parsed p none = none
parsed p (some text) = p.parse_int text

-- `_read_bounded_int`
unfoldable pub read_bounded_int : PowerReads → Supply → String → ℤ → ℤ → Option ℤ
unfolding read_sysfs_value
read_bounded_int p supply name minimum maximum =
    within minimum maximum (parsed p (read_sysfs_value p supply name))

-- The texts of `battery_status`.
pub data BatteryStatus : Type 0 where
  charging discharging full not_charging unknown unavailable : BatteryStatus

-- `_normalized_battery_status`
unfoldable pub normalized_battery_status : PowerReads → String → BatteryStatus
normalized_battery_status p value =
    let normalized = p.underscored value in
    if normalized == "charging"
    then charging
    else if normalized == "discharging"
    then discharging
    else if normalized == "full"
    then full
    else if normalized == "not_charging"
    then not_charging
    else unknown

abbrev pub reported : PowerReads → Option String → BatteryStatus
reported p none = unavailable
reported p (some value) = normalized_battery_status p value

abbrev pub to_bool : Option ℤ → Option Bool
to_bool none = none
to_bool (some n) = some (not (eqb_ℤ n (pos 0)))

abbrev is_full : BatteryStatus → Bool
is_full full = true
is_full _ = false

abbrev pub is_charging : BatteryStatus → Bool
is_charging charging = true
is_charging _ = false

abbrev pub is_unclear : BatteryStatus → Bool
is_unclear unknown = true
is_unclear unavailable = true
is_unclear _ = false

abbrev is_hundred : Option ℤ → Bool
is_hundred none = false
is_hundred (some n) = eqb_ℤ n (pos 100)

-- Both readings of the cable are brought together: the charger's, and the fuel gauge's.
abbrev pub reconciled : Option ℤ → Option Bool → Option Bool → BatteryStatus → BatteryStatus
reconciled percent (some true) (some false) status = discharging
reconciled percent (some true) (some true) status =
    if is_hundred percent || is_full status
    then full
    else if is_charging status
    then charging
    else not_charging
reconciled percent _ _ status = status

abbrev pub charging_of : Option Bool → BatteryStatus → Option Bool
charging_of (some false) status = none
charging_of _ status = if is_unclear status then none else some (is_charging status)

abbrev is_present : Option Bool → Bool
is_present (some true) = true
is_present _ = false

pub record PowerStatus : Type 0 where
  pub battery_available : Bool
  pub battery_percent : Option ℤ
  pub battery_status : BatteryStatus
  pub battery_present : Option Bool
  pub battery_voltage_mv : Option ℤ
  pub charging : Option Bool
  pub charger_online : Option Bool
  pub battery_error : Option String

abbrev failed {ℓ} : {A : Type ℓ} → String → Option A → List String
failed name none = name ∷ []
failed name (some _) = []

abbrev pub error_of : PowerReads → List String → Option String
error_of p [] = none
error_of p (e ∷ errors) = some (text_append "无法读取电源属性: " (p.join_sorted (e ∷ errors)))

-- the answer, from the five readings
abbrev power_status :
    PowerReads → Option ℤ → Option ℤ → Option ℤ → Option ℤ → Option String → PowerStatus
power_status p percent present_raw voltage online_raw status_text =
    let present = to_bool present_raw in
    let online = to_bool online_raw in
    let status = reconciled percent present online (reported p status_text) in
    record {
      battery_available = is_some percent && is_present present;
      battery_percent = percent;
      battery_status = status;
      battery_present = present;
      battery_voltage_mv = elim voltage [ none ↦ none | some uv ↦ some (p.round_thousandth uv) ];
      charging = charging_of present status;
      charger_online = online;
      battery_error = error_of p (
          failed "capacity" percent
          ++ failed "present" present_raw
          ++ failed "voltage_now" voltage
          ++ failed "online" online_raw
          ++ failed "status" status_text);
    }

unfoldable pub read_power_status : PowerReads → PowerStatus
unfolding read_bounded_int read_sysfs_value
read_power_status p =
    power_status p (read_bounded_int p battery "capacity" (pos 0) (pos 100))
      (read_bounded_int p battery "present" (pos 0) (pos 1))
      (read_bounded_int p battery "voltage_now" (pos 0) (pos 20000000))
      (read_bounded_int p charger "online" (pos 0) (pos 1)) (read_sysfs_value p battery "status")
