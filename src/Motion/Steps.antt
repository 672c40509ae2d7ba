-- ===== src/Motion/Steps.antt =====
-- The interleavings of services/motion_service.py: one constructor for each piece of a method that
-- runs between two awaits, with what the event loop guarantees before it.
use Prim.Native.String.{◌++◌ as text_append}
use ai_cat_controller.Base.{In, ℕ, ◌≡◌, true, false, Option, none, some, String}
use ai_cat_controller.Motion.State.{
  Adapter, MotionConfig, MotionOutcome, Phase, Stopper, Task, Token, World, is_live,
}
use ai_cat_controller.Motion.Service.{Now, StartRequest, drop, set_error, set_phase, settle, start}
use ai_cat_controller.Motion.Stop.{StopAnswer, await_execution, stop_begin, stop_end}

-- The task that a stop has cancelled is done.
abbrev pub HasEnded : Option ℕ → World → Type 0
HasEnded none w = Unit
HasEnded (some g) w = is_live g w ≡ false

module _ (a : Adapter) (c : MotionConfig) where
  pub data Step (w : World) : World → Type 0 where
    -- any of the requests for a motion, refused or not
    request : (q : StartRequest) (now : Now) → Step w (start a c q now w).1
    -- the loop enters the body of a task
    begin :
        (t : Task)
        → In t w.live
        → t.phase ≡ Phase.scheduled
        → t.cancelling ≡ false
        → Step w (set_phase t.generation Phase.executing w)
    -- the operation returns
    complete :
        (t : Task) (now : ℕ)
        → In t w.live
        → t.phase ≡ Phase.executing
        → Step w (settle c t MotionOutcome.completed now w)
    -- the operation raises
    fail :
        (t : Task) (e : String) (now : ℕ)
        → In t w.live
        → t.phase ≡ Phase.executing
        → Step w (settle c t MotionOutcome.failed now (set_error e w))
    -- the operation is late, and the adapter is asked to stop
    expire :
        (t : Task)
        → In t w.live
        → t.phase ≡ Phase.executing
        → Step w (
            set_phase t.generation Phase.recovering
              (set_error (text_append t.action_name " timed out") w))
    -- the adapter has stopped, failed to, or been interrupted by a cancellation
    recover :
        (t : Task) (now : ℕ)
        → In t w.live
        → t.phase ≡ Phase.recovering
        → Step w (settle c t MotionOutcome.timed_out now w)
    -- the cancellation reaches the operation
    interrupt :
        (t : Task) (now : ℕ)
        → In t w.live
        → t.phase ≡ Phase.executing
        → t.cancelling ≡ true
        → Step w (settle c t MotionOutcome.cancelled now w)
    -- the cancellation reaches a task that has not begun
    discard :
        (t : Task)
        → In t w.live
        → t.phase ≡ Phase.scheduled
        → t.cancelling ≡ true
        → Step w (drop t w)
    -- a request to stop, refused or not
    stop : Step w (stop_begin a w).1
    -- the stop goes on when the cancelled task is done and the adapter has answered
    stopped :
        (p : Stopper) (r : StopAnswer) (now : ℕ)
        → w.stopper ≡ some p
        → HasEnded p.waits_for w
        → Step w (stop_end c p r now w).1
    -- somebody looks for an outcome
    await : (k : Token) → Step w (await_execution k w).1

  pub data Reach (w : World) : World → Type 0 where
    here : Reach w w
    next : {u v : World} → Reach w u → Step u v → Reach w v
