-- ===== src/Motion/Exclusion.antt =====
-- One motion at a time: the shapes of the worlds that the scheduler reaches.
use Prim.Native.String.{◌++◌ as text_append}
use ai_cat_controller.Base.{
  In, ℕ, ◌+◌, ◌≤◌, ◌<◌, ◌≡◌, ◌⊎◌, refl, inl, true, false, Option, none, some, List, [], ◌∷◌, arith,
  length,
}
use ai_cat_controller.Exec.{ok, err}
use ai_cat_controller.Motion.State.{
  Adapter, MotionConfig, MotionOutcome, Phase, Stopper, Task, Token, World, initial,
}
use ai_cat_controller.Motion.Service.{
  Accepted, Now, StartRequest, cooldown_error, drop, set_error, set_phase, settle, start,
  started_task, unsupported,
}
use ai_cat_controller.Motion.Stop.{StopAnswer, await_execution, stop_begin, stop_end}
use ai_cat_controller.Motion.Steps.{
  HasEnded, Step, Reach, request, begin, complete, fail, expire, recover, interrupt, discard, stop,
  stopped, await, here, next,
}

-- the cancelled task that a stop still waits for
abbrev Lingers : World → Option ℕ → List Task → Type 0
Lingers w waits [] = Unit
Lingers w waits (t ∷ ts) =
    (ts ≡ [])
    × (waits ≡ some t.generation)
    × (t.generation < w.service.generation)
    × (t.cancelling ≡ true)

abbrev Runs : World → List Task → Type 0
Runs w [] = ⊥
Runs w (t ∷ ts) =
    (ts ≡ [])
    × (w.service.task ≡ some t.generation)
    × (t.generation ≡ w.service.generation)
    × (t.cancelling ≡ false)
    × (w.service.current_action ≡ t.action_name)

abbrev pub IsIdle : World → Type 0
IsIdle w =
    (w.stopper ≡ none)
    × (w.service.stopping ≡ false)
    × (w.live ≡ [])
    × (w.service.current_action ≡ "idle")

abbrev pub IsRunning : World → Type 0
IsRunning w = (w.stopper ≡ none) × (w.service.stopping ≡ false) × Runs w w.live

abbrev StopsFor : World → Option Stopper → Type 0
StopsFor w none = ⊥
StopsFor w (some p) = Lingers w p.waits_for w.live

abbrev pub IsStopping : World → Type 0
IsStopping w =
    (w.service.stopping ≡ true) × (w.service.current_action ≡ "stopping") × StopsFor w w.stopper

-- Nothing runs; one task runs and is the current one; or a stop is going on, and only the task that
-- it cancelled may still be there.
abbrev pub IsSerial : World → Type 0
IsSerial w = IsIdle w ⊎ IsRunning w ⊎ IsStopping w

module _ (a : Adapter) (c : MotionConfig) where
  start-IsSerial :
      (q : StartRequest) (now : Now) (w : World) → IsSerial w → IsSerial (start a c q now w).1
  unfolding start
  start-IsSerial q now w h = ground arith

  phase-IsSerial :
      (t : Task) (p : Phase) (w : World) → IsSerial w → IsSerial (set_phase t.generation p w)
  phase-IsSerial t p w h = ground arith

  settle-IsSerial :
      (t : Task) (o : MotionOutcome) (now : ℕ) (w : World)
      → In t w.live
      → IsSerial w
      → IsSerial (settle c t o now w)
  unfolding settle
  settle-IsSerial t o now w m h = ground arith

  drop-IsSerial :
      (t : Task) (w : World) → In t w.live → t.cancelling ≡ true → IsSerial w → IsSerial (drop t w)
  unfolding drop
  drop-IsSerial t w m k h = ground arith

  stop_begin-IsSerial : (w : World) → IsSerial w → IsSerial (stop_begin a w).1
  unfolding stop_begin
  stop_begin-IsSerial w h = ground arith

  stop_end-IsSerial :
      (p : Stopper) (r : StopAnswer) (now : ℕ) (w : World)
      → w.stopper ≡ some p
      → HasEnded p.waits_for w
      → IsSerial w
      → IsSerial (stop_end c p r now w).1
  unfolding stop_end
  stop_end-IsSerial p r now w e k h = ground arith

  await-IsSerial : (k : Token) (w : World) → IsSerial w → IsSerial (await_execution k w).1
  unfolding await_execution
  await-IsSerial k w h = ground arith

  Step-IsSerial : {w v : World} → Step a c w v → IsSerial w → IsSerial v
  Step-IsSerial {w} (request q now) h = start-IsSerial q now w h
  Step-IsSerial {w} (begin t m p k) h = phase-IsSerial t Phase.executing w h
  Step-IsSerial {w} (complete t now m p) h = settle-IsSerial t MotionOutcome.completed now w m h
  Step-IsSerial {w} (fail t e now m p) h =
      settle-IsSerial t MotionOutcome.failed now (set_error e w) m h
  Step-IsSerial {w} (expire t m p) h =
      phase-IsSerial t Phase.recovering (set_error (text_append t.action_name " timed out") w) h
  Step-IsSerial {w} (recover t now m p) h = settle-IsSerial t MotionOutcome.timed_out now w m h
  Step-IsSerial {w} (interrupt t now m p k) h = settle-IsSerial t MotionOutcome.cancelled now w m h
  Step-IsSerial {w} (discard t m p k) h = drop-IsSerial t w m k h
  Step-IsSerial {w} stop h = stop_begin-IsSerial w h
  Step-IsSerial {w} (stopped p r now e k) h = stop_end-IsSerial p r now w e k h
  Step-IsSerial {w} (await k) h = await-IsSerial k w h

  -- Every world that the scheduler reaches has one of the three shapes.
  pub Reach-IsSerial : {w : World} → Reach a c initial w → IsSerial w
  Reach-IsSerial here = inl (refl, refl, refl, refl)
  Reach-IsSerial (next r s) = Step-IsSerial s (Reach-IsSerial r)

  -- Whatever is requested and stopped, in whatever order, at most one task is alive, and while one
  -- is alive without a stop it is the one that the scheduler reports.
  pub Reach-one_motion :
      (w : World)
      → Reach a c initial w
      → (length w.live ≤ 1)
        × ((w.service.stopping ≡ true)
            ⊎ (w.live ≡ [])
            ⊎ ((t : Task) × (w.live ≡ t ∷ []) × (w.service.current_action ≡ t.action_name)))
  Reach-one_motion w r = ground (arith, Reach-IsSerial r)

  -- In a world that the scheduler reaches, a request is accepted only when nothing runs, no stop is going on, the cooldown is over and the
  -- adapter supports all of it; the new task is then the only one.
  pub start_accepted :
      (w : World) (q : StartRequest) (now : Now) (r : Accepted)
      → Reach a c initial w
      → (start a c q now w).0 ≡ ok r
      → (w.live ≡ [])
        × (w.service.stopping ≡ false)
        × (w.service.cooldown_until ≤ now.time)
        × (unsupported a q.capabilities ≡ [])
        × ((start a c q now w).1.live ≡ started_task c q now (w.service.generation + 1) ∷ [])
  unfolding start
  start_accepted w q now r reach h = ground (arith, Reach-IsSerial reach)

  -- In a world that the scheduler reaches without a stop going on, the end of a task begins a
  -- cooldown: a supported request within it is refused and changes nothing.
  pub start_cooldown :
      (w : World) (t : Task) (o : MotionOutcome) (q : StartRequest) (time : ℕ) (now : Now)
      → Reach a c initial w
      → In t w.live
      → w.service.stopping ≡ false
      → unsupported a q.capabilities ≡ []
      → now.time < time + c.cooldown
      → start a c q now (settle c t o time w) ≡ (err cooldown_error, settle c t o time w)
  unfolding start settle
  start_cooldown w t o q time now reach m s u lt = ground (arith, Reach-IsSerial reach)

  -- In a world that the scheduler reaches, when a stop ends whose task is done, whatever the adapter
  -- answered, nothing runs and the scheduler is idle.
  pub stop_end-IsIdle :
      (w : World) (p : Stopper) (r : StopAnswer) (now : ℕ)
      → Reach a c initial w
      → w.stopper ≡ some p
      → HasEnded p.waits_for w
      → IsIdle (stop_end c p r now w).1
  unfolding stop_end
  stop_end-IsIdle w p r now reach e k = ground (arith, Reach-IsSerial reach)
