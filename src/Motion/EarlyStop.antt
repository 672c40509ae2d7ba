-- ===== src/Motion/EarlyStop.antt =====
-- A stop that comes between a request and the loop's entry into its task.
use mathlib.Core.Path.{subst}
use ai_cat_controller.Base.{In, ◌+◌, ◌≤◌, ◌≡◌, refl, true, none, [], arith, find-append}
use ai_cat_controller.Exec.{ok}
use ai_cat_controller.Domain.Actions.Schema.{Capability}
use ai_cat_controller.Motion.State.{Adapter, MotionConfig, Task, Token, World, same_token}
use ai_cat_controller.Motion.Service.{
  Now, StartRequest, accepted, drop, start, started, started_task, unsupported,
}
use ai_cat_controller.Motion.Stop.{await_execution, stop_active, stop_begin}
use ai_cat_controller.Motion.Steps.{Reach, request, discard, stop, here, next}
use ai_cat_controller.Motion.Exclusion.{IsIdle}
use ai_cat_controller.Motion.Futures.{future_of, pending, IsOrphan, Reach-IsOrphan, await-orphan}

abbrev early_task : MotionConfig → StartRequest → Now → World → Task
early_task c q now w = record (started_task c q now (w.service.generation + 1)) {
  cancelling = true;
}

-- the world after a request, a stop before the loop has entered the task, and its cancellation
abbrev pub cancelled_early : MotionConfig → StartRequest → Now → World → World
cancelled_early c q now w =
    drop (early_task c q now w) (stop_active (w.service.generation + 1) (started c q now w))

abbrev pub token_of : Now → World → Token
token_of now w = record { generation = w.service.generation + 1; nanoseconds = now.nanoseconds }

module _ (a : Adapter) (c : MotionConfig) (q : StartRequest) (now : Now) (w : World) where
  request-eq :
      IsIdle w
      → unsupported a q.capabilities ≡ []
      → w.service.cooldown_until ≤ now.time
      → start a c q now w ≡ (ok (accepted q now w), started c q now w)
  unfolding start
  request-eq idle supported cool = ground arith

  stop-eq :
      IsIdle w
      → a.supports Capability.stop_motion ≡ true
      → stop_begin a (started c q now w)
        ≡ (ok tt, stop_active (w.service.generation + 1) (started c q now w))
  unfolding stop_begin
  stop-eq idle can_stop = ground arith

  early-In :
      IsIdle w
      → In (early_task c q now w) (stop_active (w.service.generation + 1) (started c q now w)).live
  early-In idle = ground arith

  -- From an idle world the scheduler accepts the request, and the stop can overtake the task.
  cancelled_early-Reach :
      IsIdle w
      → unsupported a q.capabilities ≡ []
      → w.service.cooldown_until ≤ now.time
      → a.supports Capability.stop_motion ≡ true
      → Reach a c w (cancelled_early c q now w)
  cancelled_early-Reach idle supported cool can_stop =
      let asked : Reach a c w (started c q now w) =
        subst (λ r. Reach a c w r.1) (request-eq idle supported cool) (next here (request q now)) in
      let halted : Reach a c w (stop_active (w.service.generation + 1) (started c q now w)) =
        subst (λ r. Reach a c w r.1) (stop-eq idle can_stop) (next asked stop) in
      next halted (discard (early_task c q now w) (early-In idle) refl refl)

  cancelled_early-IsOrphan :
      IsIdle w
      → q.track_completion ≡ true
      → future_of (token_of now w) w ≡ none
      → IsOrphan (token_of now w) (cancelled_early c q now w)
  unfolding drop
  cancelled_early-IsOrphan idle tracked fresh = ground (
    arith,
    find-append (λ f. same_token f.token (token_of now w)) w.service.completion_futures
        (pending (token_of now w)) fresh,
  )

-- From an idle world the scheduler can accept a tracked motion and be stopped before its task has
-- begun; however it goes on from there, whoever awaits the outcome of that motion waits for ever.
pub early_stop_hangs :
    (a : Adapter) (c : MotionConfig) (q : StartRequest) (now : Now) (w v : World)
    → IsIdle w
    → unsupported a q.capabilities ≡ []
    → w.service.cooldown_until ≤ now.time
    → a.supports Capability.stop_motion ≡ true
    → q.track_completion ≡ true
    → future_of (token_of now w) w ≡ none
    → Reach a c (cancelled_early c q now w) v
    → Reach a c w (cancelled_early c q now w) × (await_execution (token_of now w) v ≡ (ok none, v))
early_stop_hangs a c q now w v idle supported cool can_stop tracked fresh reach = (
  cancelled_early-Reach a c q now w idle supported cool can_stop,
  await-orphan (token_of now w) a c v (
      Reach-IsOrphan (token_of now w) a c reach
        (cancelled_early-IsOrphan a c q now w idle tracked fresh)),
)
