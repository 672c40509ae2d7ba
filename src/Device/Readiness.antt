-- ===== src/Device/Readiness.antt =====
-- adapters/local_k1.py: `_ensure_dialog_ready`, with what it sees of the service and its status file.
use ai_cat_controller.Base.{
  ℕ, ◌≤◌, ◌≡◌, ◌⊎◌, String, Bool, true, false, not, List, [], ◌∷◌, ◌==◌, ◌&&◌, ◌||◌, arith, leb,
  if◌then◌else◌,
}
use ai_cat_controller.Base.Int.{pos, eqb_ℤ}
use ai_cat_controller.Errors.{Exception, ai_cat, device_unavailable}
use ai_cat_controller.Exec.{Result, ok, err}
use ai_cat_controller.Commands.Runner.{CommandResult}

-- One reading: the output of `is-active`, and the fields of the dialog's status that are used.
pub record Observation : Type 0 where
  pub active : String
  pub state : String
  pub stale : Bool
  pub updated_at_ms : ℕ

abbrev pub is_ready : Observation → Bool
is_ready o = o.active == "active" && (o.state == "ready" || o.state == "interrupted") && not o.stale

abbrev is_fresh : ℕ → Observation → Bool
is_fresh started_at_ms o = is_ready o && leb started_at_ms o.updated_at_ms

abbrev has_given_up : Observation → Bool
has_given_up o =
    (o.active == "inactive" || o.active == "failed")
    && (o.state == "offline" || o.state == "unavailable")

abbrev pub not_ready : Exception
not_ready = ai_cat device_unavailable "云端语音服务未能在限定时间内就绪"

-- The loop; the list is what it reads until the deadline.
unfoldable pub poll : ℕ → List Observation → Result (Unit {0})
poll started_at_ms [] = err not_ready
poll started_at_ms (o ∷ os) =
    let rest = poll started_at_ms os in
    if is_fresh started_at_ms o then ok tt else if has_given_up o then err not_ready else rest

abbrev start_judged : Result CommandResult → Result (Unit {0})
start_judged (err e) = err e
start_judged (ok r) =
    if r.timed_out
    then err (ai_cat device_unavailable "启动云端语音服务超时")
    else if not (eqb_ℤ r.returncode (pos 0))
    then err (ai_cat device_unavailable "启动云端语音服务失败")
    else ok tt

-- Whether the call starts the service, and how the call ends.
unfoldable pub ensure_dialog_ready :
    ℕ → Observation → Result CommandResult → List Observation → Bool × Result (Unit {0})
unfolding poll
ensure_dialog_ready started_at_ms first start polls =
    let waited = poll started_at_ms polls in
    if is_ready first
    then (false, ok tt)
    else if first.active == "active"
    then (false, waited)
    else (true, elim (start_judged start) [ err e ↦ err e | ok _ ↦ waited ])

abbrev pub Sees : ℕ → List Observation → Type 0
Sees started_at_ms [] = ⊥
Sees started_at_ms (o ∷ os) =
    ((is_ready o ≡ true) × (started_at_ms ≤ o.updated_at_ms)) ⊎ Sees started_at_ms os

poll-Sees :
    (started_at_ms : ℕ) (polls : List Observation)
    → poll started_at_ms polls ≡ ok tt
    → Sees started_at_ms polls
unfolding poll
poll-Sees started_at_ms [] h = cc
poll-Sees started_at_ms (o ∷ os) h = ground (arith, poll-Sees started_at_ms os)

-- The call returns only after it has seen the service active and ready with a status that is not
-- stale: at once, or later with a status that was written after the call began.
pub ensure_dialog_ready-Sees :
    (started_at_ms : ℕ) (first : Observation) (start : Result CommandResult)
    (polls : List Observation)
    → (ensure_dialog_ready started_at_ms first start polls).1 ≡ ok tt
    → (is_ready first ≡ true) ⊎ Sees started_at_ms polls
unfolding ensure_dialog_ready
ensure_dialog_ready-Sees started_at_ms first start polls h =
    ground (arith, poll-Sees started_at_ms polls)

-- The service is started exactly where it is not active at first.
pub ensure_dialog_ready_starts :
    (started_at_ms : ℕ) (first : Observation) (start : Result CommandResult)
    (polls : List Observation)
    → (ensure_dialog_ready started_at_ms first start polls).0 ≡ not (first.active == "active")
unfolding ensure_dialog_ready
ensure_dialog_ready_starts started_at_ms first start polls = ground arith
