-- ===== src/Personality/Tests.antt =====
-- The laws of the profile at work, for a pet of level 1 on the real device.
use ai_cat_controller.Base.{◌≡◌, refl, arith, String, true, some, is_some, List, [], ◌∷◌}
use ai_cat_controller.Base.Int.{pos}
use ai_cat_controller.Exec.{ok}
use ai_cat_controller.Config.{Settings}
use ai_cat_controller.Config.Tests.{settings}
use ai_cat_controller.Domain.Intimacy.{level_for_points}
use ai_cat_controller.Domain.Personalities.{personality_by_id, personalities, style_for_level}
use ai_cat_controller.Domain.Personalities.Table.{sunny_explorer}
use ai_cat_controller.Domain.Personalities.Schema.{IntimacyVoiceStyle, style_at}
use ai_cat_controller.Repository.Samples.{device_row, pet_row}
use ai_cat_controller.Repository.Tables.{PetRow}
use ai_cat_controller.Personality.Prompt.{
  effective_functions, effective_prompt, function_label, function_lines, trigger_lines, lines_of,
  prompt_lines,
}
use ai_cat_controller.Personality.Profile.{
  ProfileCore, RuntimeProfile, build_profile, profile_of, core_of,
}
use ai_cat_controller.Personality.Functions.{build_profile_total}
use ai_cat_controller.Personality.Sync.{
  SyncState, PersonalityService, Outside, initial, read_device_serial, write_profile, activate,
  sync_pet,
}
use ai_cat_controller.Personality.Files.{Holds, sync_pet-configured}

abbrev row : PetRow
row = record {
  pet = record pet_row { personality_id = "sunny_explorer"; intimacy_points = pos 20 };
  device = device_row;
}

abbrev revision_of : ProfileCore → String
revision_of core = core.pet_name

abbrev style : IntimacyVoiceStyle
style = style_at 1 "搭档" "活泼亲近"

abbrev allowed : List String
allowed = "shake_head" ∷ "nod_head" ∷ "wag_tail" ∷ []

abbrev labels : List String
labels = "- shake_head：左右轻轻摇头。" ∷ "- nod_head：上下轻轻点头。" ∷ "- wag_tail：低速摇尾。" ∷ []

abbrev profile : RuntimeProfile
profile = profile_of revision_of (
    core_of true row sunny_explorer 1 style
      (lines_of (prompt_lines sunny_explorer "Xiao An" 1 allowed style labels)))

personality_by_id-sunny : personality_by_id row.pet.personality_id ≡ some sunny_explorer
unfolding personality_by_id personalities
personality_by_id-sunny = refl

build_profile_total_example : is_some (build_profile revision_of true row) ≡ true
build_profile_total_example =
    build_profile_total revision_of true row sunny_explorer personality_by_id-sunny (ground arith)

abbrev outside : Outside
outside = record {
  revision_of = revision_of;
  encoded_size = λ p. 4000;
  serial = some "SN1";
  written = ok tt;
}

abbrev tail_settings : Settings
tail_settings = record settings { enable_tail_motion = true }

abbrev synced : PersonalityService
synced = record {
  active_profile = some profile;
  active_sync_state = SyncState.configured;
  file = some profile;
}

sync_pet-row :
    sync_pet tail_settings outside row initial ≡ (ok (profile, SyncState.configured), synced)
unfolding sync_pet activate write_profile read_device_serial build_profile personality_by_id
    personalities level_for_points style_for_level effective_prompt function_lines function_label
    trigger_lines effective_functions
sync_pet-row = refl

sync_pet-configured_example : (synced.active_profile ≡ some profile) × Holds profile synced.file
sync_pet-configured_example =
    sync_pet-configured tail_settings outside row initial refl profile synced tt sync_pet-row

abbrev elsewhere : Outside
elsewhere = record outside { serial = some "SN2" }
