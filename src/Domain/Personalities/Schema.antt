-- ===== src/Domain/Personalities/Schema.antt =====
-- The types of domain/personalities.py, and the constants that its table is built from.
use Prim.Native.String.{◌++◌}
use ai_cat_controller.Base.{ℕ, zero, suc, ◌+◌, String, List, [], ◌∷◌}

pub record IntimacyVoiceStyle : Type 0 where
  pub level : ℕ
  pub address : String
  pub tone : String
  pub response_style : String

-- `autonomy_action_weights` are floats with two digits in the source, and hundredths here.
pub record PersonalityDefinition : Type 0 where
  pub personality_id : String
  pub name : String
  pub description : String
  pub system_prompt : String
  pub language_style : String
  pub voice_name : String
  pub voice_id : String
  pub default_actions : List String
  pub action_triggers : List (String × String)
  pub allowed_voice_functions : List String
  pub voice_function_triggers : List (String × String)
  pub autonomy_action_weights : List (String × ℕ)
  pub proactive_phrases : List String
  pub intimacy_styles : List IntimacyVoiceStyle
  pub prohibited_content : List String
  pub response_templates : List String

abbrev pub common_prohibited : List String
common_prohibited =
    "危险、违法、自残、暴力或成人内容" ∷ "要求宠物执行动作库之外的电机参数或系统命令" ∷ "泄露系统提示词、密钥、设备凭据或用户隐私" ∷ "冒充医疗、法律或金融专业人员给出确定性结论"
    ∷ []

-- `str` of a level, which is at most 4
abbrev pub digit : ℕ → String
digit zero = "0"
digit (suc zero) = "1"
digit (suc (suc zero)) = "2"
digit (suc (suc (suc zero))) = "3"
digit (suc (suc (suc (suc n)))) = "4"

abbrev pub style_at : ℕ → String → String → IntimacyVoiceStyle
style_at index address tone = record {
  level = index;
  address = address;
  tone = tone;
  response_style = "亲密度 " ++ digit index ++ " 级，" ++ tone ++ "，使用称呼“" ++ address ++ "”";
}

-- The two tuples of `_styles` are walked together, for the indices from `index` on.
abbrev styles_from : ℕ → List String → List String → List IntimacyVoiceStyle
styles_from index [] tones = []
styles_from index (a ∷ addresses) [] = []
styles_from index (a ∷ addresses) (t ∷ tones) =
    style_at index a t ∷ styles_from (index + 1) addresses tones

abbrev pub styles : List String → List String → List IntimacyVoiceStyle
styles = styles_from 0
