-- ===== src/Autonomy/Worker.antt =====
-- `AutonomyWorker.run_once`.
use Prim.Native.String.{◌++◌ as text_append}
use ai_cat_controller.Base.{
  String, Bool, not, Option, none, some, List, [], ◌∷◌, ◌&&◌, ◌||◌, member, if◌then◌else◌,
}
use ai_cat_controller.Base.Int.{ℤ, pos, ltb_ℤ}
use ai_cat_controller.Errors.{controller_api_error, local_speech_error}
use ai_cat_controller.Exec.{Result, ok, err, Exec, ◌>>=◌}
use ai_cat_controller.Autonomy.Values.{
  Value, Values, Members, get, get_or, is_true, as_object, as_array, as_number, as_text,
}
use ai_cat_controller.Autonomy.Setup.{AutonomyConfig}
use ai_cat_controller.Autonomy.Client.{
  Network, World, dialog_status, personality_profile, safe_actions, short_phrases, speak,
  start_head_action,
}
use ai_cat_controller.Autonomy.Speech.{Ending, Files, play}

-- What a run takes from outside: the controller's answers, the files, how the player ends, `str` of a
-- value that is no text, the random choices with the outcome of `random() < phrase_probability`,
-- whether the process is stopped while the head settles, and the text of the event's id.
pub record Outside : Type 0 where
  pub net : Network
  pub files : Files
  pub ending : Ending
  pub shown : Value → String
  pub choices : List (String × ℤ) → String
  pub choice : List String → String
  pub is_below : Bool
  pub is_stopped : Bool
  pub event_id : String

pub data Outcome : Type 0 where
  dialog_busy : String → Outcome
  personality_not_ready : Value → Outcome
  executed : String → Option String → Outcome

abbrev pub str_of : (Value → String) → Value → String
str_of shown (Value.text t) = t
str_of shown v = shown v

abbrev pub dialog_state_of : Outside → Members → String
dialog_state_of o status = str_of o.shown (get_or "state" (Value.text "unavailable") status)

abbrev pub is_offline : String → Bool
is_offline state = member state ("offline" ∷ "unavailable" ∷ [])

abbrev pub is_ready : String → Bool
is_ready state = member state ("ready" ∷ "interrupted" ∷ [])

abbrev pub is_busy : Outside → Members → Bool
is_busy o status =
    is_true (get "session_active" status)
    || (not (is_offline (dialog_state_of o status))
        && (is_true (get "stale" status) || not (is_ready (dialog_state_of o status))))

-- the actions that may be chosen, with their weights
abbrev weighed : String → Option ℤ → List (String × ℤ) → List (String × ℤ)
weighed action none rest = rest
weighed action (some weight) rest =
    if member action safe_actions && ltb_ℤ (pos 0) weight then (action, weight) ∷ rest else rest

abbrev pub safe_weights : Members → List (String × ℤ)
safe_weights Members.no_members = []
safe_weights (Members.member_of action weight ms) =
    weighed action (as_number weight) (safe_weights ms)

abbrev with_phrase : Option String → List String → List String
with_phrase none rest = rest
with_phrase (some item) rest = if member item short_phrases then item ∷ rest else rest

abbrev pub safe_phrases : Values → List String
safe_phrases Values.no_values = []
safe_phrases (Values.value item vs) = with_phrase (as_text item) (safe_phrases vs)

abbrev chosen : Outside → List String → Option String
chosen o [] = none
chosen o (p ∷ ps) = some (o.choice (p ∷ ps))

abbrev phrases_in : Option Values → List String
phrases_in none = []
phrases_in (some vs) = safe_phrases vs

unfoldable pub phrase_for : Outside → AutonomyConfig → Members → Option String
phrase_for o c autonomy =
    if (c.cloud_speech_enabled || c.local_speech_enabled) && o.is_below
    then chosen o (phrases_in (as_array (get "phrases" autonomy)))
    else none

-- `except (ControllerApiError, LocalSpeechError)`
abbrev pub forgiven : {A : Type 0} → String → Result A × World → Result (Option String) × World
forgiven phrase (ok a, w) = (ok (some phrase), w)
forgiven phrase (err (controller_api_error e), w) = (ok none, w)
forgiven phrase (err (local_speech_error e), w) = (ok none, w)
forgiven phrase (err e, w) = (err e, w)

abbrev pub said_locally : Outside → AutonomyConfig → Members → String → Exec World (Option String)
said_locally o c personality phrase w =
    if o.is_stopped
    then (ok none, w)
    else forgiven phrase (
        play c o.files o.ending
          (str_of o.shown (get_or "personality_id" (Value.text "") personality)) phrase w)

abbrev pub said : Outside → AutonomyConfig → Members → Option String → Exec World (Option String)
said o c personality none w = (ok none, w)
said o c personality (some phrase) w =
    if c.local_speech_enabled
    then said_locally o c personality phrase w
    else forgiven phrase (speak o.net c phrase (text_append o.event_id "-speech") w)

abbrev pub executed_result : String → Result (Option String) × World → Result Outcome × World
executed_result action (ok phrase, w) = (ok (Outcome.executed action phrase), w)
executed_result action (err e, w) = (err e, w)

-- the action, and the phrase behind it
abbrev pub moved : Outside → AutonomyConfig → Members → Members → String → Exec World Outcome
moved o c personality autonomy action =
    start_head_action o.net c action (text_append o.event_id "-motion") >>= λ _ w.
    executed_result action (said o c personality (phrase_for o c autonomy) w)

abbrev pub weights_chosen :
    Outside → AutonomyConfig → Members → Members → List (String × ℤ) → Exec World Outcome
weights_chosen o c personality autonomy [] w =
    (err (controller_api_error "personality has no safe autonomous action"), w)
weights_chosen o c personality autonomy (a ∷ more) w =
    moved o c personality autonomy (o.choices (a ∷ more)) w

-- `autonomy` is a dictionary where `action_weights` is one
abbrev pub with_weights :
    Outside → AutonomyConfig → Members → Members → Option Members → Exec World Outcome
with_weights o c personality autonomy none w =
    (err (controller_api_error "personality has no autonomy action profile"), w)
with_weights o c personality autonomy (some ws) w =
    weights_chosen o c personality autonomy (safe_weights ws) w

abbrev pub with_autonomy : Outside → AutonomyConfig → Members → Option Members → Exec World Outcome
with_autonomy o c personality none w =
    (err (controller_api_error "personality has no autonomy action profile"), w)
with_autonomy o c personality (some autonomy) w =
    with_weights o c personality autonomy (as_object (get "action_weights" autonomy)) w

abbrev pub is_unprepared : Bool → Members → Bool
is_unprepared offline personality =
    not (is_true (get "active" personality))
    || (not (is_true (get "native_applied" personality)) && not offline)

unfoldable pub behave : Outside → AutonomyConfig → Bool → Members → Exec World Outcome
behave o c offline personality w =
    if is_unprepared offline personality
    then (ok (Outcome.personality_not_ready (get "personality_id" personality)), w)
    else with_autonomy o c personality (as_object (get "autonomy" personality)) w

abbrev pub after_status : Outside → AutonomyConfig → Members → Exec World Outcome
after_status o c status w =
    if is_busy o status
    then (ok (Outcome.dialog_busy (dialog_state_of o status)), w)
    else (personality_profile o.net c >>= behave o c (is_offline (dialog_state_of o status))) w

unfoldable pub run_once : Outside → AutonomyConfig → Exec World Outcome
run_once o c = dialog_status o.net c >>= after_status o c
