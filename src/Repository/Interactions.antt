-- ===== src/Repository/Interactions.antt =====
-- `apply_interaction`: one rewarded event, its daily limits, and its idempotence.
pub mod Outcomes
pub mod Limits
pub mod Rewards
pub mod Repeats
pub mod Tests
use Prim.Native.String.{slice}
use ai_cat_controller.Base.{
  ℕ, String, Bool, true, false, Option, none, some, List, [], ◌∷◌, ◌==◌, ◌&&◌, leb, find, count,
  update_where, if◌then◌else◌,
}
use ai_cat_controller.Base.Int.{ℤ, pos, ◌+ℤ◌, ◌-ℤ◌, ltb_ℤ, eqb_ℤ, min_ℤ, max_ℤ}
use ai_cat_controller.Exec.{Exec, pure, gets, modify, transaction, ◌>>=◌, ◌>>◌}
use ai_cat_controller.Repository.Schema.{Pet, InteractionEvent, Database}
use ai_cat_controller.Repository.Tables.{Env, random_id, owned_pet_row, insert_event}

-- The keyword arguments of the call; `metadata_json` is `json.dumps` of its `metadata`.
pub record Interaction : Type 0 where
  pub user_id : String
  pub pet_id : String
  pub event_type : String
  pub base_points : ℤ
  pub max_per_day : ℕ
  pub daily_cap : ℤ
  pub request_id : String
  pub metadata_json : String

pub record InteractionResult : Type 0 where
  pub event_id : String
  pub event_type : String
  pub points_delta : ℤ
  pub points_after : ℤ
  pub request_id : String
  pub reason : Option String
  pub created_at : String
  pub duplicate : Bool

-- `substr(created_at, 1, 10)`
abbrev pub day_of : String → String
day_of created_at = slice created_at 0 10

abbrev pub is_request : String → String → InteractionEvent → Bool
is_request pet_id request_id e = e.pet_id == pet_id && e.request_id == request_id

abbrev pub is_event_on : String → String → String → InteractionEvent → Bool
is_event_on pet_id event_type day e =
    e.pet_id == pet_id && e.event_type == event_type && day_of e.created_at == day

abbrev pub is_gain_on : String → String → InteractionEvent → Bool
is_gain_on pet_id day e =
    e.pet_id == pet_id && ltb_ℤ (pos 0) e.points_delta && day_of e.created_at == day

-- `COALESCE(SUM(points_delta), 0)` over the rows that fit
abbrev pub sum_points : (InteractionEvent → Bool) → List InteractionEvent → ℤ
sum_points p [] = pos 0
sum_points p (e ∷ es) = (if p e then e.points_delta else pos 0) +ℤ sum_points p es

abbrev pub event_count : Database → String → String → String → ℕ
event_count db pet_id event_type day =
    count (is_event_on pet_id event_type day) db.interaction_events

abbrev pub positive_on : Database → String → String → ℤ
positive_on db pet_id day = sum_points (is_gain_on pet_id day) db.interaction_events

-- the reward of a gain of `base` when only `remaining` may still be gained
abbrev capped_gain : ℤ → ℤ → ℤ × Option String
capped_gain base remaining =
    let points_delta = min_ℤ base remaining in
    (
      points_delta,
      if eqb_ℤ points_delta (pos 0)
          then some "今日亲密度增长已达到上限"
          else if ltb_ℤ points_delta base
          then some "已按今日剩余增长额度计算"
          else none,
    )

-- `points_delta` and `reason`, by the number of such events and the points gained so far today
unfoldable pub award : Interaction → ℕ → ℤ → ℤ × Option String
award i events positive_today =
    if leb i.max_per_day events
    then (pos 0, some "该互动今日已达到次数上限")
    else if ltb_ℤ (pos 0) i.base_points
    then capped_gain i.base_points (max_ℤ (i.daily_cap -ℤ positive_today) (pos 0))
    else (i.base_points, none)

abbrev pub is_pet : String → Pet → Bool
is_pet pet_id p = p.pet_id == pet_id

abbrev pub set_points : String → ℤ → Database → Database
set_points pet_id points db = record db {
  pets = update_where (is_pet pet_id) (λ p. record p { intimacy_points = points }) db.pets;
}

abbrev pub event_of : Env → Interaction → ℤ → Option String → ℤ → InteractionEvent
event_of env i delta reason after = record {
  event_id = random_id "evt" env.fresh;
  pet_id = i.pet_id;
  user_id = i.user_id;
  event_type = i.event_type;
  points_delta = delta;
  points_after = after;
  request_id = i.request_id;
  reason = reason;
  metadata_json = i.metadata_json;
  created_at = env.now;
}

abbrev pub result_of : Bool → InteractionEvent → InteractionResult
result_of duplicate e = record {
  event_id = e.event_id;
  event_type = e.event_type;
  points_delta = e.points_delta;
  points_after = e.points_after;
  request_id = e.request_id;
  reason = e.reason;
  created_at = e.created_at;
  duplicate = duplicate;
}

-- the call from the update of the points on
pub record_event : Env → Interaction → ℤ → ℤ × Option String → Exec Database InteractionResult
record_event env i points (delta, reason) = do
  let after = max_ℤ (pos 0) (points +ℤ delta)
  modify (set_points i.pet_id after)
  insert_event (event_of env i delta reason after)
  pure (result_of false (event_of env i delta reason after))

pub apply_new : Env → Interaction → ℤ → Exec Database InteractionResult
apply_new env i points = do
  events ← gets (λ db. event_count db i.pet_id i.event_type env.today)
  positive ← gets (λ db. positive_on db i.pet_id env.today)
  record_event env i points (award i events positive)

-- An event that has been recorded for the request is returned as it is.
pub apply_or_repeat :
    Env → Interaction → ℤ → Option InteractionEvent → Exec Database InteractionResult
apply_or_repeat env i points (some e) = pure (result_of true e)
apply_or_repeat env i points none = apply_new env i points

unfoldable pub apply_interaction : Env → Interaction → Exec Database InteractionResult
apply_interaction env i = transaction (do
  pet ← owned_pet_row i.user_id i.pet_id
  existing ← gets (λ db. find (is_request i.pet_id i.request_id) db.interaction_events)
  apply_or_repeat env i pet.pet.intimacy_points existing)
