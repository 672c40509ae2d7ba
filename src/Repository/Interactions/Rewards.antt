-- ===== src/Repository/Interactions/Rewards.antt =====
-- How often an event is rewarded on a day, and the points of the pets.
use ai_cat_controller.Base.{
  ℕ, ◌+◌, ◌≤◌, ◌≡◌, ◌++◌, ◌&&◌, inl, inr, Bool, true, false, String, List, [], ◌∷◌, arith, eq_iff,
  Bool-cases, All, count, count-append, update_where, not,
}
use ai_cat_controller.Base.Int.{ℤ, pos, ◌+ℤ◌, ◌≤ℤ◌, eqb_ℤ, max_ℤ}
use ai_cat_controller.Repository.Schema.{Pet, InteractionEvent, Database}
use ai_cat_controller.Repository.Tables.{Env}
use ai_cat_controller.Repository.Interactions.{
  Interaction, is_event_on, day_of, award, is_pet, apply_interaction,
}
use ai_cat_controller.Repository.Interactions.Outcomes.{delta_of, new_event, with_event}
use ai_cat_controller.Repository.Interactions.Limits.{SameDay, outcome_keeps, serve}

-- an event of the type that changed the points
abbrev pub is_reward_on : String → String → String → InteractionEvent → Bool
is_reward_on pet_id event_type day e =
    is_event_on pet_id event_type day e && not (eqb_ℤ e.points_delta (pos 0))

-- No pet is rewarded for the type more often than `n` times on any day.
abbrev pub WithinCount : String → ℕ → Database → Type 0
WithinCount event_type n db =
    (pet_id day : String) → count (is_reward_on pet_id event_type day) db.interaction_events ≤ n

reward-le-event :
    (pet_id event_type day : String) (es : List InteractionEvent)
    → count (is_reward_on pet_id event_type day) es ≤ count (is_event_on pet_id event_type day) es
reward-le-event pet_id event_type day [] = omega arith
reward-le-event pet_id event_type day (e ∷ es) =
    ground (arith, reward-le-event pet_id event_type day es)

-- A reward is given only below the limit of the type.
award-lt-max_per_day :
    (i : Interaction) (n : ℕ) (gained : ℤ)
    → eqb_ℤ (award i n gained).0 (pos 0) ≡ false
    → n + 1 ≤ i.max_per_day
unfolding award
award-lt-max_per_day i n gained h = ground arith

is_reward_on-true :
    (pet_id event_type day : String) (e : InteractionEvent)
    → is_reward_on pet_id event_type day e ≡ true
    → (e.pet_id ≡ pet_id)
      × (e.event_type ≡ event_type)
      × (day_of e.created_at ≡ day)
      × (eqb_ℤ e.points_delta (pos 0) ≡ false)
is_reward_on-true pet_id event_type day e h = ground (
  arith,
  eq_iff e.pet_id pet_id,
  eq_iff e.event_type event_type,
  eq_iff (day_of e.created_at) day,
)

append-WithinCount :
    (p : InteractionEvent → Bool) (n : ℕ) (events : List InteractionEvent) (e : InteractionEvent)
    → count p events ≤ n
    → (p e ≡ true → count p events + 1 ≤ n)
    → count p (events ++ e ∷ []) ≤ n
append-WithinCount p n events e h room =
    rw (count-append p events (e ∷ [])) (elim (Bool-cases (p e)) [
      | inl counts ↦ rw counts (omega (arith, room counts))
      | inr other ↦ rw other (omega arith)
    ])

pub with_event-WithinCount :
    (event_type : String) (n : ℕ) (env : Env) (i : Interaction) (db : Database) (points : ℤ)
    → SameDay env
    → (i.event_type ≡ event_type → i.max_per_day ≡ n)
    → WithinCount event_type n db
    → WithinCount event_type n (with_event (new_event env i db points) db)
with_event-WithinCount event_type n env i db points same limit h pet_id day =
    let e = new_event env i db points in
    append-WithinCount (is_reward_on pet_id event_type day) n db.interaction_events e (h pet_id day)
      λ counts.
        let (pet, type, on, reward) = is_reward_on-true pet_id event_type day e counts in
        rw (← pet, ← type, ← on, same)
          (omega (
            arith,
            limit type,
            award-lt-max_per_day i _ _ reward,
            reward-le-event i.pet_id i.event_type env.today db.interaction_events,
          ))

abbrev pub HasLimit : String → ℕ → Env × Interaction → Type 0
HasLimit event_type n (env, i) = SameDay env × (i.event_type ≡ event_type → i.max_per_day ≡ n)

-- Whatever is requested, in any order, no pet is rewarded for a type more often than its limit on any
-- day, where none was before, each call reads the clock twice on the same day and the calls of the
-- type have the limit.
pub serve-WithinCount :
    (event_type : String) (n : ℕ) (calls : List (Env × Interaction)) (db : Database)
    → All (HasLimit event_type n) calls
    → WithinCount event_type n db
    → WithinCount event_type n (serve calls db)
unfolding serve
serve-WithinCount event_type n [] db limits h = h
serve-WithinCount event_type n ((env, i) ∷ calls) db limits h =
    serve-WithinCount event_type n calls (apply_interaction env i db).1 limits.1 (
      outcome_keeps (WithinCount event_type n) env i db h
        λ points. with_event-WithinCount event_type n env i db points limits.0.0 limits.0.1 h)

-- No pet has negative points.
abbrev pub HasPoints : Pet → Type 0
HasPoints p = pos 0 ≤ℤ p.intimacy_points

set_points-HasPoints :
    (pet_id : String) (points : ℤ) (pets : List Pet)
    → pos 0 ≤ℤ points
    → All HasPoints pets
    → All HasPoints (update_where (is_pet pet_id) (λ p. record p { intimacy_points = points }) pets)
set_points-HasPoints pet_id points [] h all = tt
set_points-HasPoints pet_id points (p ∷ pets) h all =
    (ground arith, set_points-HasPoints pet_id points pets h all.1)

max_ℤ_nonneg : (x : ℤ) → pos 0 ≤ℤ max_ℤ (pos 0) x
max_ℤ_nonneg x = ground arith

-- Where no pet has negative points, none has after any sequence of calls.
pub serve-HasPoints :
    (calls : List (Env × Interaction)) (db : Database)
    → All HasPoints db.pets
    → All HasPoints (serve calls db).pets
unfolding serve
serve-HasPoints [] db h = h
serve-HasPoints ((env, i) ∷ calls) db h = serve-HasPoints calls (apply_interaction env i db).1 (
    outcome_keeps (λ d. All HasPoints d.pets) env i db h
      λ points.
        set_points-HasPoints i.pet_id _ db.pets (max_ℤ_nonneg (points +ℤ (delta_of env i db).0)) h)
