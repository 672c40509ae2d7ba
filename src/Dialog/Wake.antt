-- ===== src/Dialog/Wake.antt =====
-- `wake` and `interrupt`, cut at their awaits.
use ai_cat_controller.Base.{
  ℕ, ◌+◌, String, Bool, true, false, not, Option, none, some, List, [], ◌∷◌, ◌++◌, eqb, filter,
  update_where, if◌then◌else◌,
}
use ai_cat_controller.Errors.{ai_cat, adapter_not_implemented, cancelled}
use ai_cat_controller.Exec.{Result, ok, err, Exec}
use ai_cat_controller.Domain.Actions.Schema.{Capability}
use ai_cat_controller.Dialog.State.{
  DialogService, DialogState, InterruptCall, WakeCall, WakeOutcome, World, text_of, wake_is_active,
}

pub record Answer : Type 0 where
  pub dialog_state : String
  pub request_id : Option String
  pub changed : Bool

-- A `wake` answers at once, or waits for a task of a new generation.
pub data WakeStart : Type 0 where
  answered : Answer → WakeStart
  waiting : ℕ → WakeStart

abbrev pub new_call : ℕ → Option String → WakeCall
new_call g request_id = record {
  generation = g;
  request_id = request_id;
  outcome = none;
  cancelling = false;
}

-- the first critical section of `wake`, when no task is active
abbrev pub waking_world : Option String → World → World
waking_world request_id w =
    let g = w.service.generation + 1 in
    record w {
      service = record { state = DialogState.waking; wake_task = some g; generation = g };
      wakes = w.wakes ++ new_call g request_id ∷ [];
    }

abbrev already_waking : Option String → WakeStart
already_waking request_id =
    WakeStart.answered
      (record { dialog_state = "waking"; request_id = request_id; changed = false })

unfoldable pub wake_begin : (Capability → Bool) → Option String → Exec World WakeStart
wake_begin supports request_id w =
    if not (supports Capability.wake_dialog)
    then (err (ai_cat adapter_not_implemented "当前适配器不支持对话唤醒"), w)
    else if wake_is_active w
    then (ok (already_waking request_id), w)
    else (ok (WakeStart.waiting (w.service.generation + 1)), waking_world request_id w)

-- the task of a generation ends
unfoldable pub wake_ends : ℕ → WakeOutcome → World → World
wake_ends g o w = record w {
  wakes = update_where (λ c. eqb c.generation g) (λ c. record c { outcome = some o }) w.wakes;
}

-- a call is over, with the state that it leaves
abbrev pub left : ℕ → DialogService → World → World
left g s w = record w { service = s; wakes = filter (λ c. not (eqb c.generation g)) w.wakes }

abbrev pub settled : DialogState → WakeCall → DialogService → DialogService
settled state c s =
    if eqb c.generation s.generation then record s { wake_task = none; state = state } else s

abbrev woken_answer : WakeCall → DialogService → Answer
woken_answer c s =
    if eqb c.generation s.generation
    then record { dialog_state = "awake"; request_id = c.request_id; changed = true }
    else record { dialog_state = text_of s.state; request_id = c.request_id; changed = false }

-- `wake`, from the end of its task on
unfoldable pub wake_end : WakeCall → WakeOutcome → Exec World Answer
wake_end c WakeOutcome.woke w =
    (ok (woken_answer c w.service), left c.generation (settled DialogState.awake c w.service) w)
wake_end c (WakeOutcome.failed e) w =
    (err e, left c.generation (settled DialogState.error c w.service) w)
wake_end c WakeOutcome.cancelled w =
    (err cancelled, left c.generation (settled DialogState.idle c w.service) w)

abbrev pub cancel_wake : Option ℕ → List WakeCall → List WakeCall
cancel_wake none cs = cs
cancel_wake (some g) cs =
    update_where (λ c. eqb c.generation g) (λ c. record c { cancelling = true }) cs

-- The first critical section of `interrupt`, and the call of `cancel` behind it; cancelling a task that
-- is done has no effect.
abbrev pub interrupting_world : Option String → World → World
interrupting_world request_id w = record w {
  service = record {
    state = DialogState.interrupting;
    wake_task = none;
    generation = w.service.generation + 1;
  };
  wakes = cancel_wake w.service.wake_task w.wakes;
  interrupts =
      record {
        generation = w.service.generation + 1;
        waits_for = w.service.wake_task;
        request_id = request_id;
      }
      ∷ w.interrupts;
}

unfoldable pub interrupt_begin : (Capability → Bool) → Option String → Exec World Unit
interrupt_begin supports request_id w =
    if not (supports Capability.interrupt_dialog)
    then (err (ai_cat adapter_not_implemented "当前适配器不支持对话打断"), w)
    else (ok tt, interrupting_world request_id w)

abbrev pub set_state : DialogState → World → World
set_state state w = record w { service = record w.service { state = state } }

abbrev interrupt_answer : InterruptCall → Answer
interrupt_answer i = record {
  dialog_state = "interrupted";
  request_id = i.request_id;
  changed = true;
}

abbrev pub without_interrupt : InterruptCall → World → World
without_interrupt i w = record w {
  interrupts = filter (λ j. not (eqb j.generation i.generation)) w.interrupts;
}

-- `interrupt`, once the task is gathered and the adapter's `interrupt_dialog` has ended. A cancellation
-- is no `Exception` for Python, so it passes the handler by.
unfoldable pub interrupt_end : InterruptCall → Result (Unit {0}) → Exec World Answer
interrupt_end i (ok _) w =
    (ok (interrupt_answer i), set_state DialogState.interrupted (without_interrupt i w))
interrupt_end i (err e) w = elim e [
  | cancelled ↦ (err cancelled, without_interrupt i w)
  | x ↦ (err x, set_state DialogState.error (without_interrupt i w))
]
