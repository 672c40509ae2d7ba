-- ===== src/Domain/Tests.antt =====
-- The laws of the domain's tables at work.
use ai_cat_controller.Base.{◌≡◌, ◌↔◌, refl, true, none, some, arith}
use ai_cat_controller.Base.Int.{pos, negsuc, ◌≤ℤ◌}
use ai_cat_controller.Domain.Actions.{action_is_unlocked}
use ai_cat_controller.Domain.Actions.Table.{celebration_combo}
use ai_cat_controller.Domain.Intimacy.{familiar, bonded, level_for_points}
use ai_cat_controller.Domain.Intimacy.Levels.{level_for_points-eq-none}
use ai_cat_controller.Domain.Laws.{action_is_unlocked_mono}

level_for_points-eq-none_example : (level_for_points (negsuc 0) ≡ none) ↔ (¬ (pos 0 ≤ℤ negsuc 0))
level_for_points-eq-none_example = level_for_points-eq-none (negsuc 0)

familiar-eq : level_for_points (pos 42) ≡ some familiar
unfolding level_for_points
familiar-eq = refl

bonded-eq : level_for_points (pos 100) ≡ some bonded
unfolding level_for_points
bonded-eq = refl

celebrates : action_is_unlocked celebration_combo "sunny_explorer" 3 ≡ true
unfolding action_is_unlocked
celebrates = refl

action_is_unlocked_mono_example : action_is_unlocked celebration_combo "sunny_explorer" 4 ≡ true
action_is_unlocked_mono_example =
    action_is_unlocked_mono celebration_combo "sunny_explorer" 3 4 (omega arith) celebrates
