-- ===== src/Personality/Functions.antt =====
-- What a profile lets the voice process call, and that a profile is there for every pet.
use ai_cat_controller.Base.{
  ℕ, ◌≡◌, refl, subst, String, Bool, true, Option, none, some, is_some, List, [], ◌∷◌, arith, All,
  member, min, leb, not, ◌==◌, ◌&&◌, ◌||◌, All-find, All-filter, member-filter, Option-cases, inl,
  inr,
}
use ai_cat_controller.Base.Int.{ℤ, pos, ◌≤ℤ◌}
use ai_cat_controller.Domain.Intimacy.{IntimacyLevel, level_for_points}
use ai_cat_controller.Domain.Intimacy.Levels.{level_for_points-eq-none}
use ai_cat_controller.Domain.Laws.{HasStyle, LevelIs, style_for_level-HasStyle}
use ai_cat_controller.Domain.Personalities.{personalities, personality_by_id, style_for_level}
use ai_cat_controller.Domain.Personalities.Schema.{PersonalityDefinition, IntimacyVoiceStyle}
use ai_cat_controller.Repository.Tables.{PetRow}
use ai_cat_controller.Personality.Prompt.{
  effective_functions, effective_prompt, function_label, function_lines, prompt_of,
}
use ai_cat_controller.Personality.Profile.{
  ProfileCore, RuntimeProfile, build_profile, core_for, core_at, core_with, with_revision,
}

abbrev HasLabel : String → Type 0
HasLabel name = is_some (function_label name) ≡ true

abbrev HasLabels : PersonalityDefinition → Type 0
HasLabels p = All HasLabel p.allowed_voice_functions

personalities-HasLabels : All HasLabels personalities
unfolding personalities function_label
personalities-HasLabels =
    (ground arith, (ground arith, (ground arith, (ground arith, (ground arith, tt)))))

function_lines_some :
    (names : List String) → All HasLabel names → is_some (function_lines names) ≡ true
unfolding function_lines
function_lines_some [] h = refl
function_lines_some (n ∷ names) h = ground (arith, function_lines_some names h.1)

prompt_of_some :
    (p : PersonalityDefinition) (name : String) (level : ℕ) (allowed : List String)
    (style : Option IntimacyVoiceStyle) (functions : Option (List String))
    → is_some style ≡ true
    → is_some functions ≡ true
    → is_some (prompt_of p name level allowed style functions) ≡ true
prompt_of_some p name level allowed none functions hs hf = absurd (ground arith)
prompt_of_some p name level allowed (some style) none hs hf = absurd (ground arith)
prompt_of_some p name level allowed (some style) (some functions) hs hf = refl

LevelIs-some : (n : ℕ) (style : Option IntimacyVoiceStyle) → LevelIs n style → is_some style ≡ true
LevelIs-some n none h = absurd h
LevelIs-some n (some s) h = refl

style_some :
    (p : PersonalityDefinition) (level : ℕ)
    → HasStyle level p
    → is_some (style_for_level p level) ≡ true
style_some p level h = LevelIs-some (min level 4) (style_for_level p level) h

effective_prompt_some :
    (p : PersonalityDefinition) (name : String) (level : ℕ) (tail : Bool)
    → HasStyle level p
    → HasLabels p
    → is_some (effective_prompt p name level (effective_functions tail p level)) ≡ true
unfolding effective_prompt effective_functions
effective_prompt_some p name level tail s h =
    prompt_of_some p name level (effective_functions tail p level) (style_for_level p level)
      (function_lines (effective_functions tail p level)) (style_some p level s)
      (function_lines_some (effective_functions tail p level) (
        All-filter HasLabel (λ name. not (name == "wag_tail") || (tail && leb 1 level))
          p.allowed_voice_functions h))

module _ (tail : Bool) (row : PetRow) where
  core_with_functions :
      (personality : PersonalityDefinition) (level : ℕ) (style : Option IntimacyVoiceStyle)
      (prompt : Option String) (core : ProfileCore)
      → core_with tail row personality level style prompt ≡ some core
      → (core.allowed_functions ≡ effective_functions tail personality level)
        × (core.intimacy_level ≡ level)
  core_with_functions personality level none prompt core h = absurd (ground arith)
  core_with_functions personality level (some s) none core h = absurd (ground arith)
  core_with_functions personality level (some s) (some text) core h = (ground arith, ground arith)

  core_at_functions :
      (personality : PersonalityDefinition) (level : Option IntimacyLevel) (core : ProfileCore)
      → core_at tail row personality level ≡ some core
      → (l : IntimacyLevel) × (level ≡ some l)
        × (core.allowed_functions ≡ effective_functions tail personality l.level)
        × (core.intimacy_level ≡ l.level)
  core_at_functions personality none core h = absurd (ground arith)
  core_at_functions personality (some l) core h =
      let (functions, shown) =
        core_with_functions personality l.level (style_for_level personality l.level)
          (effective_prompt personality row.pet.name l.level
            (effective_functions tail personality l.level))
          core h in
      (l, refl, functions, shown)

  core_for_functions :
      (personality : Option PersonalityDefinition) (core : ProfileCore)
      → core_for tail row personality ≡ some core
      → (p : PersonalityDefinition) × (l : IntimacyLevel) × (personality ≡ some p)
        × (level_for_points row.pet.intimacy_points ≡ some l)
        × (core.allowed_functions ≡ effective_functions tail p l.level)
        × (core.intimacy_level ≡ l.level)
  core_for_functions none core h = absurd (ground arith)
  core_for_functions (some p) core h =
      let (l, level, functions, shown) =
        core_at_functions p (level_for_points row.pet.intimacy_points) core h in
      (p, l, refl, level, functions, shown)

  with_revision_core :
      (revision_of : ProfileCore → String) (core : Option ProfileCore) (profile : RuntimeProfile)
      → with_revision revision_of core ≡ some profile
      → core ≡ some profile.core
  with_revision_core revision_of none profile h = absurd (ground arith)
  with_revision_core revision_of (some core) profile h = ground arith

effective_functions_allowed :
    (tail : Bool) (p : PersonalityDefinition) (level : ℕ) (name : String)
    → member name (effective_functions tail p level) ≡ true
    → member name p.allowed_voice_functions ≡ true
unfolding effective_functions
effective_functions_allowed tail p level name h =
    (member-filter (λ name. not (name == "wag_tail") || (tail && leb 1 level)) name
      p.allowed_voice_functions h).1

module _ (revision_of : ProfileCore → String) (tail : Bool) (row : PetRow) where
  build_profile_core :
      (profile : RuntimeProfile)
      → build_profile revision_of tail row ≡ some profile
      → (p : PersonalityDefinition) × (l : IntimacyLevel) × (personality_by_id
            row.pet.personality_id
          ≡ some p)
        × (level_for_points row.pet.intimacy_points ≡ some l)
        × (profile.core.allowed_functions ≡ effective_functions tail p l.level)
        × (profile.core.intimacy_level ≡ l.level)
  unfolding build_profile
  build_profile_core profile h =
      core_for_functions tail row (personality_by_id row.pet.personality_id) profile.core (
        with_revision_core tail row revision_of
          (core_for tail row (personality_by_id row.pet.personality_id)) profile h)

  -- Every function that a profile offers is one that its pet's personality allows.
  pub build_profile_allowed :
      (profile : RuntimeProfile) (name : String)
      → build_profile revision_of tail row ≡ some profile
      → member name profile.core.allowed_functions ≡ true
      → (p : PersonalityDefinition) × (personality_by_id row.pet.personality_id ≡ some p)
        × (member name p.allowed_voice_functions ≡ true)
  build_profile_allowed profile name h m =
      let (p, l, e, level, f, shown) = build_profile_core profile h in
      (
        p,
        e,
        effective_functions_allowed tail p l.level name (subst (λ fs. member name fs ≡ true) f m),
      )

level_some : (points : ℤ) → pos 0 ≤ℤ points → is_some (level_for_points points) ≡ true
level_some points n = elim (Option-cases (level_for_points points)) [
  | inl e ↦ absurd ((level_for_points-eq-none points).0 e n)
  | inr (l, e) ↦ (rw e refl)
]

by_id-HasStyle :
    (id : String) (p : PersonalityDefinition) (level : ℕ)
    → personality_by_id id ≡ some p
    → HasStyle level p
unfolding personality_by_id
by_id-HasStyle id p level h =
    All-find (HasStyle level) (λ q. q.personality_id == id) personalities p
      (style_for_level-HasStyle level) h

by_id-HasLabels :
    (id : String) (p : PersonalityDefinition) → personality_by_id id ≡ some p → HasLabels p
unfolding personality_by_id
by_id-HasLabels id p h =
    All-find HasLabels (λ q. q.personality_id == id) personalities p personalities-HasLabels h

module _ (revision_of : ProfileCore → String) (tail : Bool) (row : PetRow) where
  with_core_some :
      (p : PersonalityDefinition) (level : ℕ) (style : Option IntimacyVoiceStyle)
      (prompt : Option String)
      → is_some style ≡ true
      → is_some prompt ≡ true
      → is_some (with_revision revision_of (core_with tail row p level style prompt)) ≡ true
  with_core_some p level none prompt hs hp = absurd (ground arith)
  with_core_some p level (some s) none hs hp = absurd (ground arith)
  with_core_some p level (some s) (some text) hs hp = refl

  at_level_some :
      (p : PersonalityDefinition)
      → HasLabels p
      → ((level : ℕ) → HasStyle level p)
      → (l : Option IntimacyLevel) → is_some l ≡ true
      → is_some (with_revision revision_of (core_at tail row p l)) ≡ true
  at_level_some p labels style none h = absurd (ground arith)
  at_level_some p labels style (some l) h =
      with_core_some p l.level (style_for_level p l.level)
        (effective_prompt p row.pet.name l.level (effective_functions tail p l.level))
        (style_some p l.level (style l.level))
        (effective_prompt_some p row.pet.name l.level tail (style l.level) labels)

  -- Every pet with a personality of the table and points that are not negative has a profile: no
  -- subscript of the construction raises.
  pub build_profile_total :
      (p : PersonalityDefinition)
      → personality_by_id row.pet.personality_id ≡ some p
      → pos 0 ≤ℤ row.pet.intimacy_points
      → is_some (build_profile revision_of tail row) ≡ true
  unfolding build_profile
  build_profile_total p h n = rw h (
      at_level_some p (by_id-HasLabels row.pet.personality_id p h)
        (λ level. by_id-HasStyle row.pet.personality_id p level h)
        (level_for_points row.pet.intimacy_points) (level_some row.pet.intimacy_points n))
