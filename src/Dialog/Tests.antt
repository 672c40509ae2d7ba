-- ===== src/Dialog/Tests.antt =====
-- The laws of the dialog at work: an interruption that overtakes a wake, one that ends after a wake, and
-- a configuration of a minute.
use ai_cat_controller.Base.{◌≤◌, ◌≡◌, refl, inl, Bool, true, false, none, some, arith, count}
use ai_cat_controller.Base.Int.{ℤ, pos}
use ai_cat_controller.Exec.{ok}
use ai_cat_controller.Domain.Actions.Schema.{Capability}
use ai_cat_controller.Dialog.State.{
  DialogState, InterruptCall, WakeOutcome, World, initial, wake_is_active,
}
use ai_cat_controller.Dialog.Wake.{
  WakeStart, interrupt_begin, interrupt_end, wake_begin, wake_end, new_call, waking_world,
  interrupting_world,
}
use ai_cat_controller.Dialog.Requests.{Report, shutdown}
use ai_cat_controller.Dialog.Steps.{Reach, wake, interrupt, here, next}
use ai_cat_controller.Dialog.Kept.{is_uncancelled}
use ai_cat_controller.Dialog.Tracking.{Reach-one_wake}
use ai_cat_controller.Dialog.Overtaken.{IsNoChange, interrupt_begin-wake_end, interrupt_end-hides}
use ai_cat_controller.Dialog.FollowUp.{
  read_config, Dict, Json, GivesBack, Payload, ConfigFile, persisted_config, default_config,
  integers, get_config, update_config, get_config-update_config,
}

abbrev all : Capability → Bool
all c = true

abbrev woken_once : World
woken_once = waking_world (some "r1") initial

wake_begin-initial : wake_begin all (some "r1") initial ≡ (ok (WakeStart.waiting 1), woken_once)
unfolding wake_begin
wake_begin-initial = refl

Reach-once : Reach all initial woken_once
unfolding wake_begin
Reach-once = next here (wake (some "r1") refl)

abbrev overtaken : World
overtaken = interrupting_world (some "r2") woken_once

-- a second wake, while the first is still being cancelled
abbrev woken_twice : World
woken_twice = waking_world (some "r3") overtaken

Reach-twice : Reach all initial woken_twice
unfolding interrupt_begin wake_begin
Reach-twice = next (next Reach-once (interrupt (some "r2") refl)) (wake (some "r3") refl)

Reach-one_wake_example : count is_uncancelled woken_twice.wakes ≤ 1
Reach-one_wake_example = Reach-one_wake all woken_twice Reach-twice

Reach-later : Reach all (interrupt_begin all (some "r2") woken_once).1 woken_twice
unfolding interrupt_begin wake_begin
Reach-later = next here (wake (some "r3") refl)

interrupt_begin-wake_end_example :
    ((wake_end (new_call 1 (some "r1")) WakeOutcome.cancelled woken_twice).1.service
      ≡ woken_twice.service)
    × IsNoChange (wake_end (new_call 1 (some "r1")) WakeOutcome.cancelled woken_twice).0
interrupt_begin-wake_end_example =
    interrupt_begin-wake_end all woken_once Reach-once (some "r2") (new_call 1 (some "r1"))
      WakeOutcome.cancelled woken_twice refl (inl refl) Reach-later

abbrev idle_report : Report
idle_report = record { state = some "ready"; session_active = false; message = none }

abbrev interrupting_first : World
interrupting_first = interrupting_world (some "r1") initial

abbrev first_interrupt : InterruptCall
first_interrupt = record { generation = 1; waits_for = none; request_id = some "r1" }

wake_begin-interrupting :
    wake_begin all (some "r2") interrupting_first
    ≡ (ok (WakeStart.waiting 2), waking_world (some "r2") interrupting_first)
unfolding wake_begin
wake_begin-interrupting = refl

interrupt_end-hides_example :
    let late =
      (interrupt_end first_interrupt (ok tt) (waking_world (some "r2") interrupting_first)).1 in
    (late.service.state ≡ DialogState.interrupted)
    × (wake_is_active late ≡ true)
    × (shutdown all (ok idle_report) late ≡ late)
interrupt_end-hides_example =
    interrupt_end-hides all first_interrupt (some "r2") interrupting_first
      (waking_world (some "r2") interrupting_first) 2 idle_report wake_begin-interrupting refl

-- a library whose texts are the dictionaries that were written
abbrev json : Json (Dict ℤ)
json = record {
  dumps = λ items. items;
  loads = λ items. Payload.object (integers items);
  with_newline = λ items. items;
  size = λ items. 36;
}

json-GivesBack : GivesBack json
json-GivesBack items distinct = refl

get_config-update_config_example :
    let (r, f) = update_config json (ok tt) (pos 60) ConfigFile.missing in
    (r ≡ ok (persisted_config (pos 60))) × (get_config json f ≡ (ok (persisted_config (pos 60)), f))
get_config-update_config_example =
    get_config-update_config json (pos 60) ConfigFile.missing json-GivesBack (ground arith)
      (ground arith) (ground arith)

get_config-missing : get_config json ConfigFile.missing ≡ (ok default_config, ConfigFile.missing)
unfolding get_config read_config
get_config-missing = refl
