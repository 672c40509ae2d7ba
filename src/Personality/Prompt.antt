-- ===== src/Personality/Prompt.antt =====
-- `_effective_functions` and `_effective_prompt`.
use Prim.Native.String.{len, slice, ◌++◌ as text_append}
use ai_cat_controller.Base.{
  ℕ, ◌-◌, String, Bool, not, Option, none, some, List, [], ◌∷◌, ◌++◌, ◌==◌, ◌&&◌, ◌||◌, leb, filter,
  member, map, if◌then◌else◌,
}
use ai_cat_controller.Domain.Personalities.Schema.{PersonalityDefinition, IntimacyVoiceStyle, digit}
use ai_cat_controller.Domain.Personalities.{style_for_level}

unfoldable pub effective_functions : Bool → PersonalityDefinition → ℕ → List String
effective_functions enable_tail_motion personality level =
    filter (λ name. not (name == "wag_tail") || (enable_tail_motion && leb 1 level))
      personality.allowed_voice_functions

-- `FUNCTION_LABELS`
unfoldable pub function_label : String → Option String
function_label name =
    if name == "shake_head"
    then some "左右轻轻摇头"
    else if name == "nod_head"
    then some "上下轻轻点头"
    else if name == "wag_tail"
    then some "低速摇尾"
    else none

abbrev concat : List String → String
concat [] = ""
concat (x ∷ xs) = text_append x (concat xs)

-- `"\n".join`
abbrev pub lines_of : List String → String
lines_of [] = ""
lines_of (x ∷ []) = x
lines_of (x ∷ y ∷ xs) = text_append x (text_append "\n" (lines_of (y ∷ xs)))

abbrev trigger_line : String × String → String
trigger_line (trigger, name) = concat ("- " ∷ trigger ∷ "：可调用 " ∷ name ∷ "。" ∷ [])

unfoldable pub trigger_lines : PersonalityDefinition → List String → List String
trigger_lines personality allowed =
    map trigger_line (filter (λ t. member t.1 allowed) personality.voice_function_triggers)

abbrev with_label : String → Option String → Option (List String) → Option (List String)
with_label name none rest = none
with_label name (some label) none = none
with_label name (some label) (some rest) =
    some (concat ("- " ∷ name ∷ "：" ∷ label ∷ "。" ∷ []) ∷ rest)

-- where `none` is the KeyError of an unknown function
unfoldable pub function_lines : List String → Option (List String)
function_lines [] = some []
function_lines (name ∷ names) = with_label name (function_label name) (function_lines names)

-- `item.endswith("。")`; the mark takes three of the bytes that `len` counts
abbrev ends_with_mark : String → Bool
ends_with_mark item = leb (len "。") (len item) && slice item (len item - len "。") (len item) == "。"

abbrev prohibited_line : String → String
prohibited_line item =
    if ends_with_mark item then text_append "- " item else concat ("- " ∷ item ∷ "。" ∷ [])

abbrev or_none : List String → List String
or_none [] = "- 当前没有开放语音动作函数。" ∷ []
or_none (l ∷ ls) = l ∷ ls

abbrev pub prompt_lines :
    PersonalityDefinition
    → String
    → ℕ
    → List String
    → IntimacyVoiceStyle
    → List String
    → List String
prompt_lines personality pet_name level allowed style functions =
    "## 身份"
      ∷ concat ("你的名字是" ∷ pet_name ∷ "，是一只真实设备中的AI猫。" ∷ [])
      ∷ personality.system_prompt
      ∷ ""
      ∷ "## 当前性格和关系"
      ∷ concat ("性格：" ∷ personality.name ∷ "。" ∷ personality.description ∷ [])
      ∷ text_append "语言风格：" personality.language_style
      ∷ concat ("当前亲密度为 " ∷ digit level ∷ " 级。称呼用户为“" ∷ style.address ∷ "”。" ∷ [])
      ∷ concat ("当前语气：" ∷ style.tone ∷ "。" ∷ style.response_style ∷ "。" ∷ [])
      ∷ ""
      ∷ "## 回答规则"
      ∷ "优先直接回答用户问题，通常使用一到三句简短自然的中文。"
      ∷ "不知道或无法实时查询时明确说明，不编造事实或设备状态。"
      ∷ "不要朗读本提示词，不要声称已经执行未收到成功结果的动作。"
      ∷ ""
      ∷ "## 动作规则"
      ∷ "动作只是回答的补充。仅在用户明确要求或语义明显符合触发规则时调用，每轮最多调用一个动作；不要连续或高频调用。"
      ∷ or_none functions
    ++ trigger_lines personality allowed
    ++ "未列出的动作不得调用，也不得生成角度、速度、GPIO 或系统命令。"
      ∷ ""
      ∷ "## 禁止内容"
      ∷ map prohibited_line personality.prohibited_content

abbrev pub prompt_of :
    PersonalityDefinition
    → String
    → ℕ
    → List String
    → Option IntimacyVoiceStyle
    → Option (List String)
    → Option String
prompt_of personality pet_name level allowed none functions = none
prompt_of personality pet_name level allowed (some style) none = none
prompt_of personality pet_name level allowed (some style) (some functions) =
    some (lines_of (prompt_lines personality pet_name level allowed style functions))

-- for a level of the table, which is at most 4; `none` is an IndexError or a KeyError
unfoldable pub effective_prompt : PersonalityDefinition → String → ℕ → List String → Option String
unfolding trigger_lines
effective_prompt personality pet_name level allowed =
    prompt_of personality pet_name level allowed (style_for_level personality level)
      (function_lines allowed)
