-- ===== src/Motion/Service.antt =====
-- `_start` and `_execute` of services/motion_service.py, cut at their awaits. No critical section awaits,
-- so the lock is always free when it is asked for, and what stands between two awaits is one step.
-- Times are in milliseconds.
use Prim.Native.String.{◌++◌ as text_append}
use ai_cat_controller.Base.{
  ℕ, ◌+◌, max, is_some, String, Bool, true, false, not, Option, none, some, List, [], ◌∷◌, ◌++◌,
  ◌||◌, ◌==◌, ltb, eqb, filter, member, update_where, if◌then◌else◌,
}
use ai_cat_controller.Errors.{
  Exception, ai_cat, value_error, adapter_not_implemented, action_conflict,
}
use ai_cat_controller.Exec.{ok, err, Exec, raise}
use ai_cat_controller.Domain.Actions.Schema.{Capability}
use ai_cat_controller.Motion.State.{
  Adapter, Completion, MotionConfig, MotionOutcome, MotionService, Phase, Task, Token, World,
  same_token, task_is_active,
}

abbrev pub unsupported : Adapter → List Capability → List Capability
unsupported a cs = filter (λ c. not (a.supports c)) cs

-- `"; ".join(dict.fromkeys(...))`: each text once, where it stands first
abbrev dedup_onto : List String → List String → List String
dedup_onto seen [] = []
dedup_onto seen (x ∷ xs) =
    let rest = dedup_onto (x ∷ seen) xs in
    let skipped = dedup_onto seen xs in if member x seen then skipped else x ∷ rest

abbrev join : List String → String
join [] = ""
join (x ∷ []) = x
join (x ∷ y ∷ xs) = text_append x (text_append "; " (join (y ∷ xs)))

abbrev reasons : Adapter → List Capability → List String
reasons a [] = []
reasons a (c ∷ cs) = a.capability_unavailable_reason c ∷ reasons a cs

abbrev reason_of : Adapter → List Capability → Option String
reason_of a [] = none
reason_of a (c ∷ cs) = some (join (dedup_onto [] (reasons a (c ∷ cs))))

unfoldable pub unavailable_reason : Adapter → List Capability → Option String
unavailable_reason a cs = reason_of a (unsupported a cs)

-- The keyword arguments of `_start`; the operation itself is the adapter's.
pub record StartRequest : Type 0 where
  pub capabilities : List Capability
  pub action_name : String
  pub duration_ms : ℕ
  pub request_id : Option String
  pub track_completion : Bool

-- The two readings of the clock in one call of `_start`.
pub record Now : Type 0 where
  pub time : ℕ
  pub nanoseconds : ℕ

pub record Accepted : Type 0 where
  pub action : String
  pub request_id : Option String
  pub execution_token : Option Token

abbrev pub token_for : StartRequest → Now → ℕ → Option Token
token_for q now g =
    if q.track_completion
    then some (record { generation = g; nanoseconds = now.nanoseconds })
    else none

abbrev pub with_future : Option Token → List Completion → List Completion
with_future none fs = fs
with_future (some t) fs = fs ++ record { token = t; result = none } ∷ []

abbrev pub timeout_of : MotionConfig → ℕ → ℕ
timeout_of c duration_ms = max c.command_timeout (duration_ms + 500)

abbrev pub started_task : MotionConfig → StartRequest → Now → ℕ → Task
started_task c q now g = record {
  generation = g;
  action_name = q.action_name;
  timeout = timeout_of c q.duration_ms;
  token = token_for q now g;
  phase = Phase.scheduled;
  cancelling = false;
}

-- the critical section of `_start` after its two tests
abbrev pub started : MotionConfig → StartRequest → Now → World → World
started c q now w =
    let g = w.service.generation + 1 in
    record w {
      service = record w.service {
        task = some g;
        current_action = q.action_name;
        current_request_id = q.request_id;
        generation = g;
        last_error = none;
        completion_futures = with_future (token_for q now g) w.service.completion_futures;
      };
      live = w.live ++ started_task c q now g ∷ [];
    }

abbrev pub accepted : StartRequest → Now → World → Accepted
accepted q now w = record {
  action = q.action_name;
  request_id = q.request_id;
  execution_token = token_for q now (w.service.generation + 1);
}

abbrev pub unsupported_error : Option String → String → Exception
unsupported_error none action_name =
    ai_cat adapter_not_implemented (text_append "当前适配器不支持动作: " action_name)
unsupported_error (some reason) action_name =
    if reason == ""
    then ai_cat adapter_not_implemented (text_append "当前适配器不支持动作: " action_name)
    else ai_cat adapter_not_implemented reason

abbrev pub busy_error : World → Exception
busy_error w = ai_cat action_conflict (text_append "已有动作正在执行: " w.service.current_action)

abbrev pub cooldown_error : Exception
cooldown_error = ai_cat action_conflict "动作冷却中，请稍后重试"

-- `_start`
unfoldable pub start : Adapter → MotionConfig → StartRequest → Now → Exec World Accepted
unfolding unavailable_reason
start a c q now w =
    if is_some (unavailable_reason a q.capabilities)
    then (err (unsupported_error (unavailable_reason a q.capabilities) q.action_name), w)
    else if w.service.stopping || task_is_active w
    then (err (busy_error w), w)
    else if ltb now.time w.service.cooldown_until
    then (err cooldown_error, w)
    else (ok (accepted q now w), started c q now w)

-- `run_sequence`: the steps of one action, under one task
pub record MotionStep : Type 0 where
  pub capability : Capability
  pub intensity : ℕ
  pub duration_ms : ℕ

abbrev capabilities_of : List MotionStep → List Capability
capabilities_of [] = []
capabilities_of (s ∷ ss) = s.capability ∷ capabilities_of ss

abbrev total_duration : List MotionStep → ℕ
total_duration [] = 0
total_duration (s ∷ ss) = s.duration_ms + total_duration ss

abbrev pub sequence_request : String → List MotionStep → Option String → StartRequest
sequence_request action_name steps request_id = record {
  capabilities = capabilities_of steps;
  action_name = action_name;
  duration_ms = total_duration steps;
  request_id = request_id;
  track_completion = true;
}

unfoldable pub run_sequence :
    Adapter → MotionConfig → String → List MotionStep → Option String → Now → Exec World Accepted
unfolding start
run_sequence a c action_name [] request_id now =
    raise (value_error "motion sequence must contain at least one step")
run_sequence a c action_name (s ∷ ss) request_id now =
    start a c (sequence_request action_name (s ∷ ss) request_id) now

-- `shake_head`, `nod_head` and `wag_tail`
abbrev single_request : Capability → String → ℕ → Option String → StartRequest
single_request cap name duration_ms request_id = record {
  capabilities = cap ∷ [];
  action_name = name;
  duration_ms = duration_ms;
  request_id = request_id;
  track_completion = false;
}

unfoldable pub shake_head : Adapter → MotionConfig → ℕ → Option String → Now → Exec World Accepted
shake_head a c duration_ms request_id =
    start a c (single_request Capability.shake_head "head_shake" duration_ms request_id)

unfoldable pub nod_head : Adapter → MotionConfig → ℕ → Option String → Now → Exec World Accepted
nod_head a c duration_ms request_id =
    start a c (single_request Capability.nod_head "head_nod" duration_ms request_id)

unfoldable pub wag_tail : Adapter → MotionConfig → ℕ → Option String → Now → Exec World Accepted
wag_tail a c duration_ms request_id =
    start a c (single_request Capability.wag_tail "tail_wag" duration_ms request_id)

abbrev pub set_phase : ℕ → Phase → World → World
set_phase g p w = record w {
  live = update_where (λ t. eqb t.generation g) (λ t. record t { phase = p }) w.live;
}

-- `completion.set_result(outcome)`, if the future is there and not done
abbrev pub resolved : MotionOutcome → Completion → Completion
resolved o f = elim f.result [ none ↦ record f { result = some o } | some _ ↦ f ]

abbrev pub resolve : Option Token → MotionOutcome → List Completion → List Completion
resolve none o fs = fs
resolve (some t) o fs = update_where (λ f. same_token f.token t) (resolved o) fs

abbrev pub idle_after : ℕ → MotionService → MotionService
idle_after until s = record s {
  task = none;
  current_action = "idle";
  current_request_id = none;
  cooldown_until = until;
}

-- `finally` of `_execute`: the outcome is published, and the scheduler is idle again if no stop
-- has taken the task over; then the task is done.
unfoldable pub settle : MotionConfig → Task → MotionOutcome → ℕ → World → World
settle c t o now w =
    let s = record w.service {
      completion_futures = resolve t.token o w.service.completion_futures;
    } in
    record w {
      service = if eqb t.generation s.generation then idle_after (now + c.cooldown) s else s;
      live = filter (λ u. not (eqb u.generation t.generation)) w.live;
    }

abbrev pub set_error : String → World → World
set_error e w = record w { service = record w.service { last_error = some e } }

-- A task that is cancelled before it has begun never enters its body, so its `finally` is not run.
unfoldable pub drop : Task → World → World
drop t w = record w { live = filter (λ u. not (eqb u.generation t.generation)) w.live }
