-- ===== src/Autonomy/Speech.antt =====
-- local_speech.py: the file of a phrase, and its playing, with a marker that is there meanwhile.
use Prim.Native.String.{◌++◌ as text_append}
use ai_cat_controller.Base.{
  ℕ, zero, suc, ◌+◌, ◌/◌, ◌%◌, String, Bool, true, false, not, Option, none, some, List, [], ◌∷◌,
  ◌++◌, ◌==◌, ◌||◌, if◌then◌else◌,
}
use ai_cat_controller.Base.Int.{ℤ, pos, eqb_ℤ}
use ai_cat_controller.Errors.{Exception, os_error, timeout, local_speech_error}
use ai_cat_controller.Exec.{Result, ok, err, Exec}
use ai_cat_controller.Domain.Personalities.{personality_by_id}
use ai_cat_controller.Domain.Personalities.Schema.{PersonalityDefinition}
use ai_cat_controller.Autonomy.Setup.{AutonomyConfig}
use ai_cat_controller.Autonomy.Client.{World}

-- `tuple.index`, where `none` is the ValueError
abbrev pub index_of : String → List String → Option ℕ
index_of x [] = none
index_of x (y ∷ ys) =
    let rest = index_of x ys in
    if y == x then some 0 else (elim rest [ none ↦ none | some i ↦ some (i + 1) ])

abbrev digit_text : ℕ → String
digit_text zero = "0"
digit_text (suc zero) = "1"
digit_text (suc (suc zero)) = "2"
digit_text (suc (suc (suc zero))) = "3"
digit_text (suc (suc (suc (suc zero)))) = "4"
digit_text (suc (suc (suc (suc (suc zero))))) = "5"
digit_text (suc (suc (suc (suc (suc (suc zero)))))) = "6"
digit_text (suc (suc (suc (suc (suc (suc (suc zero))))))) = "7"
digit_text (suc (suc (suc (suc (suc (suc (suc (suc zero)))))))) = "8"
digit_text (suc (suc (suc (suc (suc (suc (suc (suc (suc n))))))))) = "9"

-- `{n:02d}`, for numbers below 100; no personality has as many phrases
abbrev pub two_digits : ℕ → String
two_digits n = text_append (digit_text (n / 10)) (digit_text (n % 10))

abbrev pub asset_name : String → String → ℕ → String
asset_name asset_root personality_id i = text_append asset_root (
    text_append "/" (
      text_append personality_id
        (text_append "/phrase-" (text_append (two_digits (i + 1)) ".wav"))))

abbrev pub indexed_path : String → String → Option ℕ → Result String
indexed_path asset_root personality_id none =
    err (local_speech_error "phrase is not allowlisted for this personality")
indexed_path asset_root personality_id (some i) = ok (asset_name asset_root personality_id i)

abbrev pub path_for : String → String → String → Option PersonalityDefinition → Result String
path_for asset_root personality_id phrase none =
    err (local_speech_error "unknown personality for local speech")
path_for asset_root personality_id phrase (some p) =
    indexed_path asset_root personality_id (index_of phrase p.proactive_phrases)

unfoldable pub phrase_asset_path : String → String → String → Result String
phrase_asset_path asset_root personality_id phrase =
    path_for asset_root personality_id phrase (personality_by_id personality_id)

-- What the file system says of a path: `resolve(strict=True)`, `is_relative_to`, `is_file` and
-- `is_symlink`; and how the marker is made, and written.
pub record Files : Type 0 where
  pub resolve : String → Option String
  pub is_relative_to : String → String → Bool
  pub is_file : String → Bool
  pub is_symlink : String → Bool
  pub made : Result (Unit {0})
  pub written : Result (Unit {0})

-- How the player ends: with a code, or with an exception.
pub data Ending : Type 0 where
  exited : ℤ → Ending
  raised : Exception → Ending

abbrev pub unavailable : Exception
unavailable = local_speech_error "local phrase asset is unavailable"

abbrev pub resolved_asset : Files → String → Option String → Option String → Result String
resolved_asset fs expected none asset = err unavailable
resolved_asset fs expected (some root) none = err unavailable
resolved_asset fs expected (some root) (some asset) =
    if not (fs.is_relative_to asset root) || not (fs.is_file asset) || fs.is_symlink expected
    then err (local_speech_error "local phrase asset failed path validation")
    else ok asset

abbrev pub play_command : AutonomyConfig → String → List String
play_command c asset =
    c.local_speech_player_path ∷ "--client-name=ai-cat-local-speech"
    ∷ "--stream-name=personality-phrase" ∷ asset ∷ []

abbrev player_error : Exception
player_error = local_speech_error "local phrase playback failed"

-- the `except` around the command
abbrev ended : Ending → Result (Unit {0})
ended (Ending.exited code) =
    if eqb_ℤ code (pos 0)
    then ok tt
    else err (local_speech_error "local phrase player exited with an error")
ended (Ending.raised (os_error message)) = err player_error
ended (Ending.raised timeout) = err player_error
ended (Ending.raised e) = err e

abbrev finished : String → Result (Unit {0}) → Result String
finished asset (ok _) = ok asset
finished asset (err e) = err e

abbrev pub run_player : AutonomyConfig → Ending → String → Exec World Unit
run_player c ending asset w =
    (ended ending, record w { commands = w.commands ++ play_command c asset ∷ [] })

-- the body of the `try` whose `finally` removes the marker
abbrev pub marked : AutonomyConfig → Files → Ending → String → Exec World Unit
marked c fs ending asset w = elim fs.written [
  | err e ↦ (err e, w)
  | ok _ ↦ run_player c ending asset w
]

abbrev pub unmarked : String → Result (Unit {0}) × World → Result String × World
unmarked asset (r, w) = (finished asset r, record w { marker = false })

-- `os.open` with `O_EXCL`
abbrev pub play_asset : AutonomyConfig → Files → Ending → String → Exec World String
play_asset c fs ending asset w =
    if w.marker
    then (err (local_speech_error "another local phrase is already playing"), w)
    else elim fs.made [
      | err e ↦ (err e, w)
      | ok _ ↦ unmarked asset (marked c fs ending asset (record w { marker = true }))
    ]

abbrev pub play_resolved : AutonomyConfig → Files → Ending → Result String → Exec World String
play_resolved c fs ending (err e) w = (err e, w)
play_resolved c fs ending (ok asset) w = play_asset c fs ending asset w

abbrev pub play_expected : AutonomyConfig → Files → Ending → Result String → Exec World String
play_expected c fs ending (err e) w = (err e, w)
play_expected c fs ending (ok expected) w =
    play_resolved c fs ending
      (resolved_asset fs expected (fs.resolve c.local_speech_asset_root) (fs.resolve expected)) w

-- `LocalPhrasePlayer.play`
unfoldable pub play : AutonomyConfig → Files → Ending → String → String → Exec World String
play c fs ending personality_id phrase w =
    play_expected c fs ending (phrase_asset_path c.local_speech_asset_root personality_id phrase) w
