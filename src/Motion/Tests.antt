-- ===== src/Motion/Tests.antt =====
-- The laws of the motion scheduler at work: a nod is requested, stopped, and asked for again.
use mathlib.Core.Path.{subst}
use ai_cat_controller.Base.{◌≤◌, ◌≡◌, ◌⊎◌, refl, true, none, some, [], ◌∷◌, arith, length}
use ai_cat_controller.Exec.{ok}
use ai_cat_controller.Domain.Actions.Schema.{Capability}
use ai_cat_controller.Motion.State.{Adapter, MotionConfig, Stopper, Task, World, initial}
use ai_cat_controller.Motion.Service.{Now, StartRequest, accepted, start, started, started_task}
use ai_cat_controller.Motion.Stop.{await_execution, stop_begin}
use ai_cat_controller.Motion.Steps.{Reach, request, stop, here, next}
use ai_cat_controller.Motion.Exclusion.{Reach-one_motion}
use ai_cat_controller.Motion.EarlyStop.{cancelled_early, token_of, early_stop_hangs}

abbrev adapter : Adapter
adapter = record { supports = λ c. true; capability_unavailable_reason = λ c. "" }

abbrev config : MotionConfig
config = record { command_timeout = 5000; cooldown = 1000 }

abbrev nod : StartRequest
nod = record {
  capabilities = Capability.nod_head ∷ [];
  action_name = "head_nod";
  duration_ms = 800;
  request_id = some "r1";
  track_completion = true;
}

abbrev now : Now
now = record { time = 2000; nanoseconds = 7 }

abbrev soon : Now
soon = record { time = 2500; nanoseconds = 8 }

abbrev task : Task
task = started_task config nod now 1

-- the world in which the nod runs
abbrev nodding : World
nodding = (start adapter config nod now initial).1

nodding-Reach : Reach adapter config initial nodding
nodding-Reach = next here (request nod now)

Reach-one_motion_example :
    (length nodding.live ≤ 1)
    × ((nodding.service.stopping ≡ true)
        ⊎ (nodding.live ≡ [])
        ⊎ ((t : Task) × (nodding.live ≡ t ∷ []) × (nodding.service.current_action ≡ t.action_name)))
Reach-one_motion_example = Reach-one_motion adapter config nodding nodding-Reach

start-eq : (start adapter config nod now initial).0 ≡ ok (accepted nod now initial)
unfolding start
start-eq = refl

-- the same world, computed
abbrev nodding_now : World
nodding_now = started config nod now initial

nodding-eq : nodding ≡ nodding_now
unfolding start
nodding-eq = refl

nodding_now-Reach : Reach adapter config initial nodding_now
nodding_now-Reach = subst (Reach adapter config initial) nodding-eq nodding-Reach

-- a stop from the idle world
abbrev halting : World
halting = (stop_begin adapter initial).1

halting-Reach : Reach adapter config initial halting
halting-Reach = next here stop

abbrev stopper : Stopper
stopper = record { waits_for = none }

halting-eq : halting.stopper ≡ some stopper
unfolding stop_begin
halting-eq = refl

early_stop_hangs_example :
    Reach adapter config initial (cancelled_early config nod now initial)
    × (await_execution (token_of now initial) (cancelled_early config nod now initial)
        ≡ (ok none, cancelled_early config nod now initial))
early_stop_hangs_example =
    early_stop_hangs adapter config nod now initial (cancelled_early config nod now initial)
      (refl, refl, refl, refl) refl (omega arith) refl refl refl here
