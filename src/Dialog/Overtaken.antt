-- ===== src/Dialog/Overtaken.antt =====
-- What an interruption means for the wakes that came before it, and for one that comes before its end.
use ai_cat_controller.Base.{
  In, ℕ, String, ◌+◌, ◌≤◌, ◌<◌, ◌≡◌, refl, Bool, true, false, Option, List, [], ◌∷◌, ◌++◌, arith,
  any, All-In, ◌||◌,
}
use ai_cat_controller.Exec.{Result, ok, err}
use ai_cat_controller.Domain.Actions.Schema.{Capability}
use ai_cat_controller.Dialog.State.{
  DialogState, InterruptCall, WakeCall, WakeOutcome, World, initial, is_running, wake_is_active,
}
use ai_cat_controller.Dialog.Wake.{
  Answer, WakeStart, interrupt_begin, interrupt_end, wake_begin, wake_end, wake_ends, new_call,
  waking_world,
}
use ai_cat_controller.Dialog.Requests.{
  Report, interrupts_for, is_waking, get_status, shutdown, submit_begin, submit_checked,
  submit_sent,
}
use ai_cat_controller.Dialog.Steps.{
  Step, Reach, wake, ended, woken, interrupt, interrupted, abandoned, status, submit, checked, sent,
  closed, here, next,
}
use ai_cat_controller.Dialog.Kept.{generations_below}
use ai_cat_controller.Dialog.Tracking.{Reach-IsTracked}

abbrev pub generation_of : World → ℕ
generation_of w = w.service.generation

interrupts_for_mono :
    (supports : Capability → Bool) (c : Bool) (w : World)
    → generation_of w ≤ generation_of (interrupts_for supports c w)
unfolding interrupt_begin
interrupts_for_mono supports c w = ground arith

shutdown_mono :
    (supports : Capability → Bool) (r : Result Report) (w : World)
    → generation_of w ≤ generation_of (shutdown supports r w)
unfolding shutdown
shutdown_mono supports (err e) w = ground arith
shutdown_mono supports (ok r) w =
    ground (arith, interrupts_for_mono supports (is_waking w.service.state || r.session_active) w)

Step_mono :
    (supports : Capability → Bool) {u v : World}
    → Step supports u v
    → generation_of u ≤ generation_of v
unfolding wake_begin wake_ends wake_end interrupt_begin interrupt_end get_status submit_begin
    submit_checked submit_sent shutdown
Step_mono supports {u} (wake id free) = ground arith
Step_mono supports {u} (ended c o m e) = ground arith
Step_mono supports {u} (woken c WakeOutcome.woke m e free) = ground arith
Step_mono supports {u} (woken c (WakeOutcome.failed x) m e free) = ground arith
Step_mono supports {u} (woken c WakeOutcome.cancelled m e free) = ground arith
Step_mono supports {u} (interrupt id free) = ground arith
Step_mono supports {u} (interrupted i r m e free) = ground arith
Step_mono supports {u} (abandoned i m) = ground arith
Step_mono supports {u} (status r free) = ground arith
Step_mono supports {u} (submit kind id fresh free) = ground arith
Step_mono supports {u} (checked q r m p) = ground arith
Step_mono supports {u} (sent q r m p) = ground arith
Step_mono supports {u} (closed r free) = shutdown_mono supports r u

Reach-mono :
    (supports : Capability → Bool) {u v : World}
    → Reach supports u v
    → generation_of u ≤ generation_of v
Reach-mono supports here = omega arith
Reach-mono supports (next r s) = omega (arith, Reach-mono supports r, Step_mono supports s)

-- an answer that does not claim a change; an exception claims none
abbrev pub IsNoChange : Result Answer → Type 0
IsNoChange (ok a) = a.changed ≡ false
IsNoChange (err e) = Unit

wake_end_older :
    (c : WakeCall) (o : WakeOutcome) (w : World)
    → c.generation < generation_of w
    → ((wake_end c o w).1.service ≡ w.service) × IsNoChange (wake_end c o w).0
unfolding wake_end
wake_end_older c WakeOutcome.woke w lt = (ground arith, ground arith)
wake_end_older c (WakeOutcome.failed e) w lt = (ground arith, tt)
wake_end_older c WakeOutcome.cancelled w lt = (ground arith, tt)

interrupt_begin_next :
    (supports : Capability → Bool) (id : Option String) (w : World)
    → supports Capability.interrupt_dialog ≡ true
    → generation_of (interrupt_begin supports id w).1 ≡ generation_of w + 1
unfolding interrupt_begin
interrupt_begin_next supports id w y = ground arith

module _ (supports : Capability → Bool) (w : World) (r : Reach supports initial w) where
  -- A wake that an interruption has overtaken, where the adapter can interrupt, changes nothing: however
  -- its task ends, and however much later and after whatever other calls it goes on, it leaves the
  -- state, the task and the generation as it finds them, and does not answer that it changed them.
  pub interrupt_begin-wake_end :
      (id : Option String) (c : WakeCall) (o : WakeOutcome) (w' : World)
      → supports Capability.interrupt_dialog ≡ true
      → In c w.wakes
      → Reach supports (interrupt_begin supports id w).1 w'
      → ((wake_end c o w').1.service ≡ w'.service) × IsNoChange (wake_end c o w').0
  interrupt_begin-wake_end id c o w' y m r' =
      let below =
        All-In (λ d. d.generation ≤ w.service.generation) c w.wakes m
          (generations_below w.service.wake_task w.service.generation w.wakes
            (Reach-IsTracked supports r (tt, tt)).0) in
      wake_end_older c o w'
        (omega (arith, below, Reach-mono supports r', interrupt_begin_next supports id w y))

any-append :
    (p : WakeCall → Bool) (cs : List WakeCall) (c : WakeCall)
    → p c ≡ true
    → any p (cs ++ c ∷ []) ≡ true
any-append p [] c h = ground arith
any-append p (d ∷ cs) c h = ground (arith, any-append p cs c h)

wake_begin-waiting :
    (supports : Capability → Bool) (id : Option String) (w w' : World) (g : ℕ)
    → wake_begin supports id w ≡ (ok (WakeStart.waiting g), w')
    → w' ≡ waking_world id w
unfolding wake_begin
wake_begin-waiting supports id w w' g h = ground arith

module _ (supports : Capability → Bool) (i : InterruptCall) (id : Option String) (w w' : World)
    (g : ℕ) where
  -- The end of an interruption does not look at the generation. If a wake has begun before it, the state
  -- says "interrupted" while the task of that wake is active, and a shutdown whose status shows no
  -- session does not interrupt it.
  pub interrupt_end-hides :
      (r : Report)
      → wake_begin supports id w ≡ (ok (WakeStart.waiting g), w')
      → r.session_active ≡ false
      → let late = (interrupt_end i (ok tt) w').1 in
        (late.service.state ≡ DialogState.interrupted)
        × (wake_is_active late ≡ true)
        × (shutdown supports (ok r) late ≡ late)
  unfolding interrupt_end shutdown
  interrupt_end-hides r h q = rw (wake_begin-waiting supports id w w' g h) (
    refl,
    any-append (is_running (w.service.generation + 1)) w.wakes
        (new_call (w.service.generation + 1) id) (ground arith),
    ground arith,
  )
