-- ===== src/Motion/Stop.antt =====
-- `stop`, cut at its awaits, and `await_execution`.
use ai_cat_controller.Base.{
  ℕ, ◌+◌, is_some, Bool, true, false, not, Option, none, some, List, ◌||◌, eqb, find, filter,
  update_where, if◌then◌else◌,
}
use ai_cat_controller.Errors.{
  Exception, ai_cat, value_error, adapter_not_implemented, action_conflict, action_timeout,
}
use ai_cat_controller.Exec.{Result, ok, err, Exec}
use ai_cat_controller.Domain.Actions.Schema.{Capability}
use ai_cat_controller.Motion.State.{
  Adapter, Completion, MotionConfig, MotionOutcome, Stopper, Task, Token, World, is_live,
  same_token,
}

-- The first critical section of `stop`, and the call of `cancel` behind it.
abbrev pub stop_error : Exception
stop_error = ai_cat action_conflict "停止动作正在执行"

abbrev pub stop_unsupported : Exception
stop_unsupported = ai_cat adapter_not_implemented "当前适配器不支持停止动作"

abbrev pub cancel_task : ℕ → List Task → List Task
cancel_task g = update_where (λ t. eqb t.generation g) (λ t. record t { cancelling = true })

abbrev pub stop_active : ℕ → World → World
stop_active g w = record {
  service = record w.service {
    task = none;
    generation = w.service.generation + 1;
    stopping = true;
    current_action = "stopping";
  };
  live = cancel_task g w.live;
  stopper = some (record { waits_for = some g });
}

abbrev pub stop_idle : World → World
stop_idle w = record w {
  service = record w.service { stopping = true; current_action = "stopping" };
  stopper = some (record { waits_for = none });
}

abbrev pub stopping_world : World → World
stopping_world w = elim w.service.task [
  | none ↦ stop_idle w
  | some g ↦ if is_live g w then stop_active g w else stop_idle w
]

unfoldable pub stop_begin : Adapter → Exec World Unit
stop_begin a w =
    if not (a.supports Capability.stop_motion)
    then (err stop_unsupported, w)
    else if w.service.stopping
    then (err stop_error, w)
    else (ok tt, stopping_world w)

-- What `wait_for(adapter.stop_motion())` does.
pub data StopAnswer : Type 0 where
  answered : Bool → StopAnswer
  late : StopAnswer
  raised : Exception → StopAnswer

abbrev pub stop_answer : Bool → StopAnswer → Result Bool
stop_answer was_active (answered stopped) = ok (was_active || stopped)
stop_answer was_active late = err (ai_cat action_timeout "停止动作超时")
stop_answer was_active (raised e) = err e

-- The second critical section of `stop`, whatever the adapter did; the answer is `stopped`.
unfoldable pub stop_end : MotionConfig → Stopper → StopAnswer → ℕ → Exec World Bool
stop_end c p r now w = (
  stop_answer (is_some p.waits_for) r,
  record w {
    service = record w.service {
      stopping = false;
      current_action = "idle";
      current_request_id = none;
      cooldown_until = now + c.cooldown;
    };
    stopper = none;
  },
)

-- `await_execution` once it can go on: a done future is taken out with its outcome. A pending one
-- is waited for, which is `none` here.
abbrev take_done : Token → Option Completion → World → Result (Option MotionOutcome) × World
take_done t none w = (err (value_error "unknown motion execution token"), w)
take_done t (some f) w = elim f.result [
  | none ↦ (ok none, w)
  | some o ↦ (
    ok (some o),
    record w {
      service = record w.service {
        completion_futures = filter (λ f. not (same_token f.token t)) w.service.completion_futures;
      };
    },
  )
]

unfoldable pub await_execution : Token → Exec World (Option MotionOutcome)
await_execution t w = take_done t (find (λ f. same_token f.token t) w.service.completion_futures) w
