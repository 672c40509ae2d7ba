-- ===== src/Commands/Runner.antt =====
-- adapters/command_runner.py: the fixed lists of a runner, and the test that every command passes
-- before a process is started.
use Prim.Native.String.{len, slice, ◌++◌ as text_append}
use text.Mathlib.Text.{starts_with}
use ai_cat_controller.Base.{
  String, Bool, true, false, not, Option, none, some, List, [], ◌∷◌, ◌==◌, ◌&&◌, ◌||◌, any, member,
  if◌then◌else◌,
}
use ai_cat_controller.Base.Int.{ℤ, pos, negsuc}
use ai_cat_controller.Errors.{ai_cat, command_not_allowed}
use ai_cat_controller.Exec.{Result, ok, err}

pub record CommandResult : Type 0 where
  pub returncode : ℤ
  pub stdout : String
  pub stderr : String
  pub timed_out : Bool

-- A dict literal as its list of entries, of which the last one with a key counts.
module _ {V : Type 0} where
  abbrev or_later : Option V → Option V → Option V
  or_later (some later) earlier = some later
  or_later none earlier = earlier

  abbrev pub get : String → List (String × V) → Option V
  get k [] = none
  get k ((j, v) ∷ m) = or_later (get k m) (if j == k then some v else none)

pub record CommandRunner : Type 0 where
  pub allowed_executables : List String
  pub allowed_services : List String
  pub allowed_service_signals : List (String × List String)
  pub allowed_commands : List (String × List (List String))

-- equality of two argument lists
abbrev pub same_args : List String → List String → Bool
same_args [] [] = true
same_args (x ∷ xs) (y ∷ ys) = x == y && same_args xs ys
same_args [] (y ∷ ys) = false
same_args (x ∷ xs) [] = false

abbrev pub or_empty {ℓ} : {A : Type ℓ} → Option (List A) → List A
or_empty none = []
or_empty (some xs) = xs

-- `args[1].startswith("--signal=")` and `removeprefix`
abbrev pub signal_prefix : String
signal_prefix = "--signal="

abbrev pub signal_name : String → String
signal_name arg = slice arg (len signal_prefix) (len arg)

abbrev pub is_fixed : CommandRunner → String → List String → Bool
is_fixed r executable args =
    any (λ c. same_args args c) (or_empty (get executable r.allowed_commands))

abbrev pub is_query : CommandRunner → List String → Bool
is_query r (verb ∷ service ∷ []) =
    (verb == "is-active" || verb == "is-enabled") && member service r.allowed_services
is_query r _ = false

abbrev pub is_signal : CommandRunner → List String → Bool
is_signal r (verb ∷ arg ∷ service ∷ []) =
    verb == "kill"
    && starts_with arg signal_prefix
    && member (signal_name arg) (or_empty (get service r.allowed_service_signals))
is_signal r _ = false

-- `_validate`
unfoldable pub validate : CommandRunner → String → List String → Result (Unit {0})
validate r executable args =
    if not (member executable r.allowed_executables)
    then err (ai_cat command_not_allowed (text_append "可执行文件不在白名单中: " executable))
    else if is_fixed r executable args || is_query r args || is_signal r args
    then ok tt
    else err (ai_cat command_not_allowed "命令参数不在固定白名单中")

-- What the process does, once it is started: an end within the time, an end after it was told to
-- stop, or no exit code at all.
pub record ProcessEnd : Type 0 where
  pub code : Option ℤ
  pub out : String
  pub error : String
  pub late : Bool

abbrev code_or : ℤ → Option ℤ → ℤ
code_or d none = d
code_or d (some c) = c

-- `run`, where `start` is the process and `decode` the cut, decoded and stripped output
unfoldable pub run :
    CommandRunner
    → (String → List String → ProcessEnd)
    → String
    → List String
    → Result CommandResult
unfolding validate
run r start executable args = elim (validate r executable args) [
  | err e ↦ err e
  | ok _ ↦
      let p = start executable args in
      ok (record {
        returncode = code_or (if p.late then negsuc 0 else pos 0) p.code;
        stdout = p.out;
        stderr = p.error;
        timed_out = p.late;
      })
]
