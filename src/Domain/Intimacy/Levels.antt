-- ===== src/Domain/Intimacy/Levels.antt =====
-- The table of domain/intimacy.py is coherent, and `level_for_points` reads it right.
use ai_cat_controller.Base.{ℕ, ◌+◌, ◌≤◌, ◌≡◌, ◌↔◌, Option, none, some, arith}
use ai_cat_controller.Base.Int.{ℤ, pos, ◌-ℤ◌, ◌≤ℤ◌}
use ai_cat_controller.Domain.Intimacy.{IntimacyLevel, level_for_points, span_progress}

-- `level_for_points` raises exactly for negative points.
pub level_for_points-eq-none : (p : ℤ) → (level_for_points p ≡ none) ↔ (¬ (pos 0 ≤ℤ p))
unfolding level_for_points
level_for_points-eq-none p = ground arith

-- `points < next_points`, which holds where there is no next level
abbrev pub IsBelow : ℤ → Option ℤ → Type 0
IsBelow p none = Unit
IsBelow p (some next) = ¬ (next ≤ℤ p)

-- The points of a level lie between its own threshold and the next.
pub level_for_points_bounds :
    (p : ℤ) (l : IntimacyLevel)
    → level_for_points p ≡ some l
    → (l.min_points ≤ℤ p) × IsBelow p l.next_points
unfolding level_for_points
level_for_points_bounds p l h = ground arith

-- More points never give a lower level.
pub level_for_points_mono :
    (p q : ℤ) (l m : IntimacyLevel)
    → p ≤ℤ q
    → level_for_points p ≡ some l
    → level_for_points q ≡ some m
    → l.level ≤ m.level
unfolding level_for_points
level_for_points_mono p q l m le hp hq = ground arith

abbrev pub Follows : ℕ → ℤ → Option IntimacyLevel → Type 0
Follows n t none = ⊥
Follows n t (some m) = (m.level ≡ n + 1) × (m.min_points ≡ t)

-- The threshold at which a level ends is where the next one, by number, begins.
pub level_for_points_next :
    (p : ℤ) (l : IntimacyLevel) (next : ℤ)
    → level_for_points p ≡ some l
    → l.next_points ≡ some next
    → Follows l.level next (level_for_points next)
unfolding level_for_points
level_for_points_next p l next h e = ground arith

-- Below the last level, `level_progress` divides by a positive span, and the points gained in the
-- level are at least 0 and less than the span.
pub span_progress_bounds :
    (p next : ℤ) (l : IntimacyLevel)
    → level_for_points p ≡ some l
    → l.next_points ≡ some next
    → let span = next -ℤ l.min_points in
      (pos 1 ≤ℤ span)
      × (span_progress p l.min_points span ≡ p -ℤ l.min_points)
      × (pos 0 ≤ℤ span_progress p l.min_points span)
      × (¬ (span ≤ℤ span_progress p l.min_points span))
unfolding level_for_points ◌-ℤ◌
span_progress_bounds p next l h e = (ground arith, ground arith, ground arith, ground arith)
