-- ===== src/Device/PowerLaws.antt =====
-- One sample of `_read_power_status` does not contradict itself, whatever the files hold.
use ai_cat_controller.Base.{
  ◌≡◌, ◌≢◌, ◌↔◌, refl, String, Option, true, false, none, some, arith, is_some,
}
use ai_cat_controller.Base.Int.{ℤ, pos, negsuc, ◌≤ℤ◌}
use ai_cat_controller.Device.Power.{
  Supply, PowerReads, BatteryStatus, read_sysfs_value, read_bounded_int, read_power_status,
  normalized_battery_status, is_charging, reported, charging_of, to_bool, reconciled,
}

-- A reading lies within its bounds.
read_bounded_int_bounds :
    (p : PowerReads) (supply : Supply) (name : String) (minimum maximum value : ℤ)
    → read_bounded_int p supply name minimum maximum ≡ some value
    → (minimum ≤ℤ value) × (value ≤ℤ maximum)
unfolding read_bounded_int
read_bounded_int_bounds p supply name minimum maximum value h = ground arith

-- A reported percentage is one.
pub battery_percent_bounds :
    (p : PowerReads) (n : ℤ)
    → (read_power_status p).battery_percent ≡ some n
    → (pos 0 ≤ℤ n) × (n ≤ℤ pos 100)
unfolding read_power_status
battery_percent_bounds p n h =
    read_bounded_int_bounds p Supply.battery "capacity" (pos 0) (pos 100) n h

-- A sample reports a charging battery and a disconnected charger together only where it does not
-- know whether the battery is present.
pub charging-charger :
    (p : PowerReads)
    → (read_power_status p).charging ≡ some true
    → (read_power_status p).charger_online ≡ some false
    → (read_power_status p).battery_present ≡ none
unfolding read_power_status
charging-charger p h k = grind arith

-- what the text of the status file says
abbrev pub Reads : PowerReads → Option String → BatteryStatus → Type 0
Reads p none status = ⊥
Reads p (some text) status = normalized_battery_status p text ≡ status

reported-Reads :
    (p : PowerReads) (text : Option String)
    → reported p text ≡ BatteryStatus.charging
    → Reads p text BatteryStatus.charging
reported-Reads p none h = absurd (ground arith)
reported-Reads p (some text) h = h

Reads-reported :
    (p : PowerReads) (text : Option String)
    → Reads p text BatteryStatus.charging
    → reported p text ≡ BatteryStatus.charging
Reads-reported p none h = absurd h
Reads-reported p (some text) h = h

contradicts :
    (percent present online : Option ℤ) (status : BatteryStatus)
    → charging_of (to_bool present) (reconciled percent (to_bool present) (to_bool online) status)
      ≡ some true
    → to_bool online ≡ some false
    → (present ≡ none) × (online ≡ some (pos 0)) × (status ≡ BatteryStatus.charging)
contradicts percent present none status h k = absurd (ground arith)
contradicts percent none (some (pos n)) status h k = (refl, ground arith, ground arith)
contradicts percent none (some (negsuc n)) status h k = absurd (ground arith)
contradicts percent (some m) (some n) status h k = absurd (ground arith)

-- A sample reports a charging battery and a disconnected charger together exactly where the presence of the
-- battery cannot be read within its bounds, the charger is read as disconnected and the fuel gauge's text as
-- charging; no other files give the contradiction.
pub charging_while_unplugged :
    (p : PowerReads)
    → (((read_power_status p).charging ≡ some true)
        × ((read_power_status p).charger_online ≡ some false))
      ↔ ((read_bounded_int p Supply.battery "present" (pos 0) (pos 1) ≡ none)
          × (read_bounded_int p Supply.charger "online" (pos 0) (pos 1) ≡ some (pos 0))
          × Reads p (read_sysfs_value p Supply.battery "status") BatteryStatus.charging)
unfolding read_power_status
charging_while_unplugged p =
    let percent = read_bounded_int p Supply.battery "capacity" (pos 0) (pos 100) in
    let present = read_bounded_int p Supply.battery "present" (pos 0) (pos 1) in
    let online = read_bounded_int p Supply.charger "online" (pos 0) (pos 1) in
    let text = read_sysfs_value p Supply.battery "status" in
    (
      λ h.
          let (presence, cable, status) =
            contradicts percent present online (reported p text) h.0 h.1 in
          (presence, cable, reported-Reads p text status),
      λ h. (ground (arith, Reads-reported p text h.2), ground arith),
    )

-- With a battery that is present and a charger that is connected, the battery is never reported as
-- discharging, and whether it charges is known and as its status says.
pub discharging-charger :
    (p : PowerReads)
    → (read_power_status p).battery_present ≡ some true
    → (read_power_status p).charger_online ≡ some true
    → ((read_power_status p).battery_status ≢ BatteryStatus.discharging)
      × ((read_power_status p).charging ≡ some (is_charging (read_power_status p).battery_status))
unfolding read_power_status
discharging-charger p h k = (ground arith, ground arith)

-- A sample carries no error exactly when all five readings succeeded.
pub battery_error-eq-none :
    (p : PowerReads)
    → ((read_power_status p).battery_error ≡ none) ↔ (
        (is_some (read_power_status p).battery_percent ≡ true)
        × (is_some (read_power_status p).battery_present ≡ true)
        × (is_some (read_power_status p).battery_voltage_mv ≡ true)
        × (is_some (read_power_status p).charger_online ≡ true)
        × (is_some (read_sysfs_value p Supply.battery "status") ≡ true))
unfolding read_power_status
battery_error-eq-none p = grind arith
