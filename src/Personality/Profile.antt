-- ===== src/Personality/Profile.antt =====
-- `_build_profile`.
use Prim.Native.String.{◌++◌ as text_append}
use ai_cat_controller.Base.{ℕ, String, Bool, Option, none, some, List}
use ai_cat_controller.Domain.Intimacy.{IntimacyLevel, level_for_points}
use ai_cat_controller.Domain.Personalities.{personality_by_id, style_for_level}
use ai_cat_controller.Domain.Personalities.Schema.{PersonalityDefinition, IntimacyVoiceStyle}
use ai_cat_controller.Repository.Tables.{PetRow}
use ai_cat_controller.Personality.Prompt.{effective_functions, effective_prompt}

-- `profile_core`, with its constants; the weights are hundredths.
pub record ProfileCore : Type 0 where
  pub version : ℕ
  pub device_serial : String
  pub pet_id : String
  pub pet_name : String
  pub personality_id : String
  pub personality_name : String
  pub intimacy_level : ℕ
  pub address : String
  pub voice_name : String
  pub voice_type : String
  pub tts_provider : String
  pub tts_resource_id : String
  pub allowed_functions : List String
  pub action_weights : List (String × ℕ)
  pub phrases : List String
  pub system_prompt : String

-- The texts of `session_update` that vary.
pub record SessionUpdate : Type 0 where
  pub event_id : String
  pub system_message : String
  pub provider : String
  pub resource_id : String
  pub voice_type : String

pub record RuntimeProfile : Type 0 where
  pub core : ProfileCore
  pub revision : String
  pub session_update : SessionUpdate

abbrev pub core_of :
    Bool → PetRow → PersonalityDefinition → ℕ → IntimacyVoiceStyle → String → ProfileCore
core_of tail row personality level style prompt = record {
  version = 1;
  device_serial = row.device.serial_number;
  pet_id = row.pet.pet_id;
  pet_name = row.pet.name;
  personality_id = personality.personality_id;
  personality_name = personality.name;
  intimacy_level = level;
  address = style.address;
  voice_name = personality.voice_name;
  voice_type = personality.voice_id;
  tts_provider = "volcano_bidirection";
  tts_resource_id = "volc.service_type.10029";
  allowed_functions = effective_functions tail personality level;
  action_weights = personality.autonomy_action_weights;
  phrases = personality.proactive_phrases;
  system_prompt = prompt;
}

-- `revision_of` is the first 24 digits of the SHA-256 of the core's canonical JSON
abbrev pub profile_of : (ProfileCore → String) → ProfileCore → RuntimeProfile
profile_of revision_of core = record {
  core = core;
  revision = revision_of core;
  session_update = record {
    event_id = text_append "event_personality_" (revision_of core);
    system_message = core.system_prompt;
    provider = core.tts_provider;
    resource_id = core.tts_resource_id;
    voice_type = core.voice_type;
  };
}

abbrev pub core_with :
    Bool
    → PetRow
    → PersonalityDefinition
    → ℕ
    → Option IntimacyVoiceStyle
    → Option String
    → Option ProfileCore
core_with tail row personality level none prompt = none
core_with tail row personality level (some style) none = none
core_with tail row personality level (some style) (some prompt) =
    some (core_of tail row personality level style prompt)

abbrev pub core_at :
    Bool → PetRow → PersonalityDefinition → Option IntimacyLevel → Option ProfileCore
core_at tail row personality none = none
core_at tail row personality (some l) =
    core_with tail row personality l.level (style_for_level personality l.level) (
      effective_prompt personality row.pet.name l.level
        (effective_functions tail personality l.level))

abbrev pub core_for : Bool → PetRow → Option PersonalityDefinition → Option ProfileCore
core_for tail row none = none
core_for tail row (some personality) =
    core_at tail row personality (level_for_points row.pet.intimacy_points)

abbrev pub with_revision : (ProfileCore → String) → Option ProfileCore → Option RuntimeProfile
with_revision revision_of none = none
with_revision revision_of (some core) = some (profile_of revision_of core)

-- `none` is a KeyError or an IndexError
unfoldable pub build_profile : (ProfileCore → String) → Bool → PetRow → Option RuntimeProfile
build_profile revision_of tail row =
    with_revision revision_of (core_for tail row (personality_by_id row.pet.personality_id))
