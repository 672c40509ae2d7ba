-- ===== src/Dialog/Tracking.antt =====
-- Every step of the service keeps track of the wakes that run.
use ai_cat_controller.Base.{
  ℕ, String, ◌≤◌, ◌≡◌, sym, subst, inl, inr, Bool, true, false, not, ◌||◌, Option, none, List,
  arith, eqb, filter, count, Bool-cases,
}
use ai_cat_controller.Errors.{cancelled}
use ai_cat_controller.Exec.{Result, ok, err}
use ai_cat_controller.Domain.Actions.Schema.{Capability}
use ai_cat_controller.Dialog.State.{
  DialogState, InterruptCall, Submission, SubmissionKind, WakeCall, WakeOutcome, World, initial,
  wake_is_active,
}
use ai_cat_controller.Dialog.Wake.{
  interrupt_begin, interrupt_end, wake_begin, wake_end, wake_ends, settled,
}
use ai_cat_controller.Dialog.Requests.{
  Report, interrupts_for, is_waking, get_status, shutdown, submit_begin, submit_checked,
  submit_sent,
}
use ai_cat_controller.Dialog.Steps.{
  Step, Reach, wake, ended, woken, interrupt, interrupted, abandoned, status, submit, checked, sent,
  closed, here, next,
}
use ai_cat_controller.Dialog.Kept.{
  IsKept, is_uncancelled, count_uncancelled, waking-IsKept, ends-IsKept, cancel-IsKept, over-IsKept,
  left-IsKept,
}

abbrev pub IsTracked : World → Type 0
IsTracked w = IsKept w.service.wake_task w.service.generation w.wakes

-- What the tracking is about; most steps leave all of it alone.
abbrev core : World → Option ℕ × (ℕ × List WakeCall)
core w = (w.service.wake_task, (w.service.generation, w.wakes))

abbrev IsCoreKept : Option ℕ × (ℕ × List WakeCall) → Type 0
IsCoreKept (t, (n, cs)) = IsKept t n cs

same_core : (w v : World) → core v ≡ core w → IsTracked w → IsTracked v
same_core w v e k = subst IsCoreKept (sym e) k

wake_begin-IsTracked :
    (supports : Capability → Bool) (id : Option String) (w : World)
    → IsTracked w
    → IsTracked (wake_begin supports id w).1
unfolding wake_begin
wake_begin-IsTracked supports id w k = elim (Bool-cases (not (supports Capability.wake_dialog))) [
  | inl e ↦ (rw e k)
  | inr e ↦
      (rw e (elim (Bool-cases (wake_is_active w)) [
        | inl f ↦ (rw f k)
        | inr f ↦ (rw f (waking-IsKept id w.service.wake_task w.service.generation w.wakes f k))
      ]))
]

wake_ends-IsTracked :
    (g : ℕ) (o : WakeOutcome) (w : World) → IsTracked w → IsTracked (wake_ends g o w)
unfolding wake_ends
wake_ends-IsTracked g o w k = ends-IsKept g o w.service.wake_task w.service.generation w.wakes k

left-IsTracked :
    (state : DialogState) (c : WakeCall) (w : World)
    → IsTracked w
    → IsKept
        (settled state c w.service).wake_task
        (settled state c w.service).generation
        (filter (λ d. not (eqb d.generation c.generation)) w.wakes)
left-IsTracked state c w k = elim (Bool-cases (eqb c.generation w.service.generation)) [
  | inl e ↦ (rw e (over-IsKept c.generation w.service.wake_task w.service.generation w.wakes e k))
  | inr e ↦ (rw e (left-IsKept c.generation w.service.wake_task w.service.generation w.wakes k))
]

wake_end-IsTracked :
    (c : WakeCall) (o : WakeOutcome) (w : World) → IsTracked w → IsTracked (wake_end c o w).1
unfolding wake_end
wake_end-IsTracked c WakeOutcome.woke w k = left-IsTracked DialogState.awake c w k
wake_end-IsTracked c (WakeOutcome.failed e) w k = left-IsTracked DialogState.error c w k
wake_end-IsTracked c WakeOutcome.cancelled w k = left-IsTracked DialogState.idle c w k

interrupt_begin-IsTracked :
    (supports : Capability → Bool) (id : Option String) (w : World)
    → IsTracked w
    → IsTracked (interrupt_begin supports id w).1
unfolding interrupt_begin
interrupt_begin-IsTracked supports id w k =
    elim (Bool-cases (not (supports Capability.interrupt_dialog))) [
      | inl e ↦ (rw e k)
      | inr e ↦ (rw e (cancel-IsKept w.service.wake_task w.service.generation w.wakes k))
    ]

interrupt_end_core :
    (i : InterruptCall) (r : Result (Unit {0})) (w : World) → core (interrupt_end i r w).1 ≡ core w
unfolding interrupt_end
interrupt_end_core i r w = ground arith

get_status_core : (r : Report) (w : World) → core (get_status r w).1 ≡ core w
unfolding get_status
get_status_core r w = ground arith

submit_begin_core :
    (supports : Capability → Bool) (kind : SubmissionKind) (id : Option String) (fresh : String)
    (w : World)
    → core (submit_begin supports kind id fresh w).1 ≡ core w
unfolding submit_begin
submit_begin_core supports kind id fresh w = ground arith

submit_checked_core :
    (q : Submission) (r : Result Report) (w : World) → core (submit_checked q r w).1 ≡ core w
unfolding submit_checked
submit_checked_core q r w = ground arith

submit_sent_core :
    (q : Submission) (r : Result (Unit {0})) (w : World) → core (submit_sent q r w).1 ≡ core w
unfolding submit_sent
submit_sent_core q r w = ground arith

interrupts_for-IsTracked :
    (supports : Capability → Bool) (c : Bool) (w : World)
    → IsTracked w
    → IsTracked (interrupts_for supports c w)
interrupts_for-IsTracked supports true w k = interrupt_begin-IsTracked supports none w k
interrupts_for-IsTracked supports false w k = k

shutdown-IsTracked :
    (supports : Capability → Bool) (r : Result Report) (w : World)
    → IsTracked w
    → IsTracked (shutdown supports r w)
unfolding shutdown
shutdown-IsTracked supports (err e) w k =
    elim (Bool-cases (not (supports Capability.interrupt_dialog))) [
      | inl e ↦ (rw e k)
      | inr e ↦ (rw e k)
    ]
shutdown-IsTracked supports (ok r) w k =
    elim (Bool-cases (not (supports Capability.interrupt_dialog))) [
      | inl e ↦ (rw e k)
      | inr e ↦
          (rw e
            (interrupts_for-IsTracked supports (is_waking w.service.state || r.session_active) w k))
    ]

module _ (supports : Capability → Bool) where
  Step-IsTracked : {u v : World} → Step supports u v → IsTracked u → IsTracked v
  Step-IsTracked {u} (wake id free) k = wake_begin-IsTracked supports id u k
  Step-IsTracked {u} (ended c o m e) k = wake_ends-IsTracked c.generation o u k
  Step-IsTracked {u} (woken c o m e free) k = wake_end-IsTracked c o u k
  Step-IsTracked {u} (interrupt id free) k = interrupt_begin-IsTracked supports id u k
  Step-IsTracked {u} (interrupted i r m e free) k =
      same_core u (interrupt_end i r u).1 (interrupt_end_core i r u) k
  Step-IsTracked {u} (abandoned i m) k =
      same_core u (interrupt_end i (err cancelled) u).1 (interrupt_end_core i (err cancelled) u) k
  Step-IsTracked {u} (status r free) k = same_core u (get_status r u).1 (get_status_core r u) k
  Step-IsTracked {u} (submit kind id fresh free) k =
      same_core u (submit_begin supports kind id fresh u).1
        (submit_begin_core supports kind id fresh u) k
  Step-IsTracked {u} (checked q r m p) k =
      same_core u (submit_checked q r u).1 (submit_checked_core q r u) k
  Step-IsTracked {u} (sent q r m p) k = same_core u (submit_sent q r u).1 (submit_sent_core q r u) k
  Step-IsTracked {u} (closed r free) k = shutdown-IsTracked supports r u k

  pub Reach-IsTracked : {u v : World} → Reach supports u v → IsTracked u → IsTracked v
  Reach-IsTracked here k = k
  Reach-IsTracked (next r s) k = Step-IsTracked s (Reach-IsTracked r k)

  -- However the calls interleave, at most one task of `wake` runs that has not been cancelled.
  pub Reach-one_wake : (w : World) → Reach supports initial w → count is_uncancelled w.wakes ≤ 1
  Reach-one_wake w r =
      count_uncancelled w.service.wake_task w.service.generation w.wakes
        (Reach-IsTracked r (tt, tt))
