-- ===== src/Domain/Actions/Schema.antt =====
-- The types of domain/actions.py, and the capabilities of adapters/base.py.
use ai_cat_controller.Base.{ℕ, ◌+◌, String, Bool, List, [], ◌∷◌, ◌&&◌, leb}

pub data Capability : Type 0 where
  battery_status shake_head nod_head wag_tail stop_motion : Capability
  wake_dialog interrupt_dialog text_dialog speak_text : Capability

pub data Actuator : Type 0 where
  head_lr head_ud tail_lr : Actuator

pub data Direction : Type 0 where
  left right up down alternate : Direction

-- `speed` is a float with two digits in the source, and counts hundredths here.
pub record ActionComponent : Type 0 where
  pub capability : Capability
  pub actuator : Actuator
  pub direction : Direction
  pub angle_degrees : ℕ
  pub speed : ℕ
  pub duration_ms : ℕ

pub record ActionDefinition : Type 0 where
  pub action_id : String
  pub action_no : ℕ
  pub name : String
  pub description : String
  pub personality_ids : List String
  pub min_intimacy_level : ℕ
  pub components : List ActionComponent

-- The constraints of the `Field`s, which pydantic checks when a component is built.
abbrev pub component_fits : ActionComponent → Bool
component_fits c =
    leb c.angle_degrees 45
    && leb 10 c.speed
    && leb c.speed 100
    && leb 100 c.duration_ms
    && leb c.duration_ms 3000

abbrev sum_durations : List ActionComponent → ℕ
sum_durations [] = 0
sum_durations (c ∷ cs) = c.duration_ms + sum_durations cs

unfoldable pub total_duration_ms : ActionDefinition → ℕ
total_duration_ms action = sum_durations action.components
