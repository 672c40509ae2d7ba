-- ===== src/Domain/Personalities.antt =====
-- domain/personalities.py: the personality definitions and their lookups.
pub mod Schema
pub mod Table
use ai_cat_controller.Base.{ℕ, String, Option, List, [], ◌∷◌, ◌==◌, leb, find, filter, last}
use Schema.{PersonalityDefinition, IntimacyVoiceStyle}
use Table.{sunny_explorer, gentle_companion, proud_star, curious_scholar, calm_guardian}

unfoldable pub personalities : List PersonalityDefinition
personalities =
    sunny_explorer ∷ gentle_companion ∷ proud_star ∷ curious_scholar ∷ calm_guardian ∷ []

-- `PERSONALITY_BY_ID.get`; where the source subscripts, `none` is its KeyError
unfoldable pub personality_by_id : String → Option PersonalityDefinition
unfolding personalities
personality_by_id id = find (λ p. p.personality_id == id) personalities

-- `applicable[-1]`, where `none` is the IndexError
unfoldable pub style_for_level : PersonalityDefinition → ℕ → Option IntimacyVoiceStyle
style_for_level p level = last (filter (λ s. leb s.level level) p.intimacy_styles)
