-- ===== src/Dialog/Steps.antt =====
-- The interleavings of services/dialog_service.py: one constructor for each piece of a method that runs
-- between two awaits. A critical section is entered only while no submission holds the lock.
use ai_cat_controller.Base.{In, ℕ, ◌≡◌, Option, none, some, String, Bool, false}
use ai_cat_controller.Errors.{cancelled}
use ai_cat_controller.Exec.{Result, err}
use ai_cat_controller.Domain.Actions.Schema.{Capability}
use ai_cat_controller.Dialog.State.{
  InterruptCall, Submission, SubmissionKind, SubmissionPhase, WakeCall, WakeOutcome, World, is_live,
}
use ai_cat_controller.Dialog.Wake.{interrupt_begin, interrupt_end, wake_begin, wake_end, wake_ends}
use ai_cat_controller.Dialog.Requests.{
  Report, get_status, shutdown, submit_begin, submit_checked, submit_sent,
}

-- The task that an interruption gathers is done.
abbrev pub HasEnded : Option ℕ → World → Type 0
HasEnded none w = Unit
HasEnded (some g) w = is_live g w ≡ false

module _ (supports : Capability → Bool) where
  pub data Step (w : World) : World → Type 0 where
    -- a call of `wake`, refused or not
    wake : (id : Option String) → w.submission ≡ none → Step w (wake_begin supports id w).1
    -- the task of a call ends
    ended :
        (c : WakeCall) (o : WakeOutcome)
        → In c w.wakes
        → c.outcome ≡ none
        → Step w (wake_ends c.generation o w)
    -- a call goes on after its task
    woken :
        (c : WakeCall) (o : WakeOutcome)
        → In c w.wakes
        → c.outcome ≡ some o
        → w.submission ≡ none
        → Step w (wake_end c o w).1
    -- a call of `interrupt`, refused or not
    interrupt :
        (id : Option String) → w.submission ≡ none → Step w (interrupt_begin supports id w).1
    -- an interruption goes on when its task is done and the adapter has answered
    interrupted :
        (i : InterruptCall) (r : Result (Unit {0}))
        → In i w.interrupts
        → HasEnded i.waits_for w
        → w.submission ≡ none
        → Step w (interrupt_end i r w).1
    -- an interruption is cancelled while it waits
    abandoned :
        (i : InterruptCall) → In i w.interrupts → Step w (interrupt_end i (err cancelled) w).1
    status : (r : Report) → w.submission ≡ none → Step w (get_status r w).1
    -- `send_text` and `speak`
    submit :
        (kind : SubmissionKind) (id : Option String) (fresh : String)
        → w.submission ≡ none
        → Step w (submit_begin supports kind id fresh w).1
    checked :
        (q : Submission) (r : Result Report)
        → w.submission ≡ some q
        → q.phase ≡ SubmissionPhase.asking
        → Step w (submit_checked q r w).1
    sent :
        (q : Submission) (r : Result (Unit {0}))
        → w.submission ≡ some q
        → q.phase ≡ SubmissionPhase.sending
        → Step w (submit_sent q r w).1
    -- the shutdown, which reads the state outside the lock, and enters the critical section of `interrupt`
    closed : (r : Result Report) → w.submission ≡ none → Step w (shutdown supports r w)

  pub data Reach (w : World) : World → Type 0 where
    here : Reach w w
    next : {u v : World} → Reach w u → Step u v → Reach w v
