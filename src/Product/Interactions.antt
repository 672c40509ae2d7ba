-- ===== src/Product/Interactions.antt =====
-- `login`, `resolve_session` and `add_interaction`.
pub mod Login
pub mod Limits
pub mod Tests
use ai_cat_controller.Base.{
  ℕ, String, Bool, true, false, Option, none, some, List, [], ◌∷◌, ◌==◌, find, if◌then◌else◌,
}
use ai_cat_controller.Base.Int.{ℤ}
use ai_cat_controller.Errors.{Exception, ai_cat, authentication_error}
use ai_cat_controller.Exec.{Result, ok, err, Exec, pure, raise, or_raise, ◌>>=◌}
use ai_cat_controller.Domain.Intimacy.{
  InteractionRule, IntimacyLevel, interaction_rules, level_for_points,
}
use ai_cat_controller.Repository.Schema.{User, Database}
use ai_cat_controller.Repository.Tables.{Env, PetRow, get_owned_pet}
use ai_cat_controller.Repository.Interactions.{Interaction, InteractionResult, apply_interaction}
use ai_cat_controller.Repository.Pets.{login_user}

-- `_sessions`: an assignment puts the new value in front.
pub record Sessions : Type 0 where
  pub db : Database
  pub sessions : List (String × String)

abbrev lookup : String → List (String × String) → Option String
lookup token [] = none
lookup token ((t, user_id) ∷ rest) = if t == token then some user_id else lookup token rest

abbrev logged_in : String → Sessions → Result User × Database → Result User × Sessions
logged_in token s (err e, d) = (err e, record s { db = d })
logged_in token s (ok u, d) = (ok u, record { db = d; sessions = (token, u.user_id) ∷ s.sessions })

-- `token` is what `secrets.token_urlsafe` draws; the list of the user's pets is left out
unfoldable pub login : (String → String) → Env → String → String → String → Exec Sessions User
login uuid5 env token login_code nickname s =
    logged_in token s (login_user uuid5 env login_code nickname s.db)

abbrev no_session : Exception
no_session = ai_cat authentication_error "Mock 会话无效，请重新登录"

abbrev known_session : Option String → Result String
known_session none = err no_session
known_session (some user_id) = ok user_id

unfoldable pub resolve_session : Option String → Sessions → Result String
resolve_session none s = err no_session
resolve_session (some token) s =
    if token == "" then err no_session else known_session (lookup token s.sessions)

-- The keyword arguments of `add_interaction`.
pub record InteractionRequest : Type 0 where
  pub user_id : String
  pub pet_id : String
  pub event_type : String
  pub request_id : String
  pub metadata_json : String

-- `INTERACTION_RULES[event_type]`, where `none` is the KeyError
unfoldable pub rule_of : String → Option InteractionRule
rule_of event_type = find (λ r. r.event_type == event_type) interaction_rules

abbrev pub interaction_of : ℤ → InteractionRequest → InteractionRule → Interaction
interaction_of cap q r = record {
  user_id = q.user_id;
  pet_id = q.pet_id;
  event_type = q.event_type;
  base_points = r.points;
  max_per_day = r.max_per_day;
  daily_cap = cap;
  request_id = q.request_id;
  metadata_json = q.metadata_json;
}

-- The answer: the event, the level of its points, and the pet that is handed to the personality
-- service.
pub record AddedInteraction : Type 0 where
  pub event : InteractionResult
  pub level : IntimacyLevel
  pub pet : PetRow

pub with_level :
    InteractionRequest → InteractionResult → Option IntimacyLevel → Exec Database AddedInteraction
with_level q event none = raise Exception.index_error
with_level q event (some level) = do
  pet ← get_owned_pet q.user_id q.pet_id
  pure (record { event = event; level = level; pet = pet })

pub add_ruled :
    ℤ → Env → InteractionRequest → Option InteractionRule → Exec Database AddedInteraction
add_ruled cap env q none = raise Exception.key_error
add_ruled cap env q (some r) = do
  event ← apply_interaction env (interaction_of cap q r)
  with_level q event (level_for_points event.points_after)

-- `cap` is the setting `intimacy_daily_cap`
unfoldable pub add_interaction : ℤ → Env → InteractionRequest → Exec Database AddedInteraction
add_interaction cap env q = add_ruled cap env q (rule_of q.event_type)
