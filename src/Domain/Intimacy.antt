-- ===== src/Domain/Intimacy.antt =====
-- domain/intimacy.py: levels, interaction rules and the level of a number of points.
pub mod Levels
use ai_cat_controller.Base.{ℕ, String, Option, none, some, List, [], ◌∷◌, filter, last}
use ai_cat_controller.Base.Int.{ℤ, pos, negsuc, ◌-ℤ◌, leb_ℤ, min_ℤ, max_ℤ}

pub record IntimacyLevel : Type 0 where
  pub level : ℕ
  pub name : String
  pub min_points : ℤ
  pub next_points : Option ℤ
  pub badge : String
  pub unlocks : List String

pub record InteractionRule : Type 0 where
  pub event_type : String
  pub label : String
  pub points : ℤ
  pub max_per_day : ℕ

abbrev pub first_meeting : IntimacyLevel
first_meeting = record {
  level = 0;
  name = "初次相遇";
  min_points = pos 0;
  next_points = some (pos 20);
  badge = "NEW";
  unlocks = "基础对话" ∷ "基础头部动作" ∷ [];
}

abbrev pub familiar : IntimacyLevel
familiar = record {
  level = 1;
  name = "逐渐熟悉";
  min_points = pos 20;
  next_points = some (pos 50);
  badge = "FAMILIAR";
  unlocks = "亲近称呼" ∷ "基础尾部动作" ∷ "每日主动问候" ∷ [];
}

abbrev pub close_partner : IntimacyLevel
close_partner = record {
  level = 2;
  name = "亲密伙伴";
  min_points = pos 50;
  next_points = some (pos 100);
  badge = "CLOSE";
  unlocks = "组合动作" ∷ "情绪陪伴回应" ∷ [];
}

abbrev pub bonded : IntimacyLevel
bonded = record {
  level = 3;
  name = "深度羁绊";
  min_points = pos 100;
  next_points = some (pos 180);
  badge = "BONDED";
  unlocks = "庆祝动作" ∷ "主动陪伴行为" ∷ "专属语气" ∷ [];
}

abbrev pub soulmate : IntimacyLevel
soulmate = record {
  level = 4;
  name = "灵魂伙伴";
  min_points = pos 180;
  next_points = none;
  badge = "SOULMATE";
  unlocks = "全部动作" ∷ "最高亲密称呼" ∷ "纪念日问候" ∷ [];
}

unfoldable pub intimacy_levels : List IntimacyLevel
intimacy_levels = first_meeting ∷ familiar ∷ close_partner ∷ bonded ∷ soulmate ∷ []

-- The keys of `INTERACTION_RULES`.
abbrev rule : String → String → ℤ → ℕ → InteractionRule
rule e l p m = record { event_type = e; label = l; points = p; max_per_day = m }

unfoldable pub interaction_rules : List InteractionRule
interaction_rules =
    rule "daily_check_in" "每日见面" (pos 3) 1
    ∷ rule "valid_dialog" "有效对话" (pos 2) 5
    ∷ rule "touch" "触摸反馈" (pos 1) 8
    ∷ rule "completed_task" "完成互动任务" (pos 5) 2
    ∷ rule "ignored_greeting" "长期忽略主动问候" (negsuc 0) 2
    ∷ []

-- `applicable[-1]`, where `none` is the IndexError of negative points
unfoldable pub level_for_points : ℤ → Option IntimacyLevel
unfolding intimacy_levels
level_for_points points = last (filter (λ l. leb_ℤ l.min_points points) intimacy_levels)

-- Python's float, as far as `level_progress` uses it.
pub record FloatArith : Type 1 where
  pub Float : Type 0
  pub of_int : ℤ → Float
  pub div : Float → Float → Float
  pub mul : Float → Float → Float
  pub round : Float → ℕ → Float

module _ (f : FloatArith) where
  open f use {Float}

  pub record LevelProgress : Type 0 where
    pub current : ℤ
    pub level_start : ℤ
    pub next_level : Option ℤ
    pub percent : Float

abbrev pub span_progress : ℤ → ℤ → ℤ → ℤ
span_progress points start span = min_ℤ (max_ℤ (points -ℤ start) (pos 0)) span

abbrev progress_in : (f : FloatArith) → ℤ → IntimacyLevel → LevelProgress f
progress_in f points level = elim level.next_points [
  | none ↦ record {
    current = points;
    level_start = level.min_points;
    next_level = none;
    percent = f.of_int (pos 100);
  }
  | some next ↦
      let span = next -ℤ level.min_points in
      let progress = span_progress points level.min_points span in
      record {
        current = points;
        level_start = level.min_points;
        next_level = some next;
        percent =
            f.round (f.mul (f.div (f.of_int progress) (f.of_int span)) (f.of_int (pos 100))) 1;
      }
]

abbrev progress_of : (f : FloatArith) → ℤ → Option IntimacyLevel → Option (LevelProgress f)
progress_of f points none = none
progress_of f points (some level) = some (progress_in f points level)

unfoldable pub level_progress : (f : FloatArith) → ℤ → Option (LevelProgress f)
unfolding level_for_points
level_progress f points = progress_of f points (level_for_points points)
