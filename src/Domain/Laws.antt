-- ===== src/Domain/Laws.antt =====
-- What unlocks with the levels: actions and manners of speaking.
use ai_cat_controller.Base.{ℕ, ◌≤◌, ◌≡◌, String, true, Option, none, some, arith, All, min}
use ai_cat_controller.Domain.Actions.{action_is_unlocked}
use ai_cat_controller.Domain.Actions.Schema.{ActionDefinition}
use ai_cat_controller.Domain.Personalities.{personalities, style_for_level}
use ai_cat_controller.Domain.Personalities.Schema.{PersonalityDefinition, IntimacyVoiceStyle}

-- A higher level never locks an action again.
pub action_is_unlocked_mono :
    (a : ActionDefinition) (personality_id : String) (m n : ℕ)
    → m ≤ n
    → action_is_unlocked a personality_id m ≡ true
    → action_is_unlocked a personality_id n ≡ true
unfolding action_is_unlocked
action_is_unlocked_mono a personality_id m n le h = ground arith

abbrev pub LevelIs : ℕ → Option IntimacyVoiceStyle → Type 0
LevelIs n none = ⊥
LevelIs n (some s) = s.level ≡ n

abbrev pub HasStyle : ℕ → PersonalityDefinition → Type 0
HasStyle level p = LevelIs (min level 4) (style_for_level p level)

-- Every personality of the table has a style of its own for every level up to the fourth, and keeps
-- that of the fourth above it.
pub style_for_level-HasStyle : (level : ℕ) → All (HasStyle level) personalities
unfolding personalities style_for_level
style_for_level-HasStyle level =
    (ground arith, (ground arith, (ground arith, (ground arith, (ground arith, tt)))))
