-- ===== src/Domain/Actions/Table.antt =====
-- The seven definitions of `ACTIONS` in domain/actions.py.
use ai_cat_controller.Base.{ℕ, String, List, [], ◌∷◌}
use ai_cat_controller.Domain.Actions.Schema.{
  Capability, Actuator, Direction, ActionComponent, ActionDefinition, head_lr, head_ud, tail_lr,
  right, down, alternate,
}

-- The positions of a component's fields in the source.
abbrev component : Capability → Actuator → Direction → ℕ → ℕ → ℕ → ActionComponent
component c a d angle speed ms = record {
  capability = c;
  actuator = a;
  direction = d;
  angle_degrees = angle;
  speed = speed;
  duration_ms = ms;
}

abbrev pub all_personalities : List String
all_personalities =
    "sunny_explorer" ∷ "gentle_companion" ∷ "proud_star" ∷ "curious_scholar" ∷ "calm_guardian" ∷ []

abbrev pub head_shake : ActionDefinition
head_shake = record {
  action_id = "head_shake";
  action_no = 1;
  name = "轻轻摇头";
  description = "头部左右小幅摆动。";
  personality_ids = all_personalities;
  min_intimacy_level = 0;
  components = component Capability.shake_head head_lr alternate 15 40 600 ∷ [];
}

abbrev pub head_nod : ActionDefinition
head_nod = record {
  action_id = "head_nod";
  action_no = 2;
  name = "认真点头";
  description = "头部上下轻点一次。";
  personality_ids = all_personalities;
  min_intimacy_level = 0;
  components = component Capability.nod_head head_ud alternate 12 35 600 ∷ [];
}

abbrev pub tail_wag : ActionDefinition
tail_wag = record {
  action_id = "tail_wag";
  action_no = 3;
  name = "开心摇尾";
  description = "尾巴左右摆动表达亲近。";
  personality_ids = "sunny_explorer" ∷ "gentle_companion" ∷ "curious_scholar" ∷ [];
  min_intimacy_level = 1;
  components = component Capability.wag_tail tail_lr alternate 25 50 800 ∷ [];
}

abbrev pub proud_pose : ActionDefinition
proud_pose = record {
  action_id = "proud_pose";
  action_no = 4;
  name = "骄傲转身";
  description = "轻摇头后收尾，表现克制的得意。";
  personality_ids = "proud_star" ∷ "calm_guardian" ∷ [];
  min_intimacy_level = 1;
  components = component Capability.shake_head head_lr right 18 35 500 ∷ [];
}

abbrev pub quiet_companion : ActionDefinition
quiet_companion = record {
  action_id = "quiet_companion";
  action_no = 5;
  name = "安静陪伴";
  description = "缓慢点头，传达正在倾听。";
  personality_ids = "gentle_companion" ∷ "calm_guardian" ∷ [];
  min_intimacy_level = 1;
  components = component Capability.nod_head head_ud down 10 25 900 ∷ [];
}

abbrev pub greeting_combo : ActionDefinition
greeting_combo = record {
  action_id = "greeting_combo";
  action_no = 6;
  name = "见面问候";
  description = "点头后摇尾的组合动作。";
  personality_ids = all_personalities;
  min_intimacy_level = 2;
  components =
      component Capability.nod_head head_ud alternate 12 40 500
      ∷ component Capability.wag_tail tail_lr alternate 22 50 700
      ∷ [];
}

abbrev pub celebration_combo : ActionDefinition
celebration_combo = record {
  action_id = "celebration_combo";
  action_no = 7;
  name = "升级庆祝";
  description = "摇头、点头和摇尾组成的庆祝动作。";
  personality_ids = all_personalities;
  min_intimacy_level = 3;
  components =
      component Capability.shake_head head_lr alternate 20 55 500
      ∷ component Capability.nod_head head_ud alternate 15 45 500
      ∷ component Capability.wag_tail tail_lr alternate 30 65 900
      ∷ [];
}
