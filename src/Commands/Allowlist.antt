-- ===== src/Commands/Allowlist.antt =====
-- What the runner of adapters/factory.py lets through, and nothing else.
use Prim.Native.String.{len, slice, ◌++◌ as text_append}
use text.Mathlib.Text.{starts_with}
use text.Mathlib.TextEquality.{starts_with_iff}
use text.Mathlib.TextPositions.{len-append, slice-append_right}
use ai_cat_controller.Base.{
  Bool, member, ◌≡◌, ◌⊎◌, refl, sym, ◌∙◌, ap, String, true, List, [], ◌∷◌, arith, eq_iff,
}
use ai_cat_controller.Exec.{ok}
use ai_cat_controller.Commands.Runner.{
  same_args, signal_prefix, signal_name, is_fixed, is_query, is_signal, validate,
}
use ai_cat_controller.Commands.Factory.{CommandSettings, create_runner}

same_args-eq : (xs ys : List String) → same_args xs ys ≡ true → xs ≡ ys
same_args-eq [] [] h = refl
same_args-eq (x ∷ xs) (y ∷ ys) h = ground (arith, eq_iff x y, same_args-eq xs ys)
same_args-eq [] (y ∷ ys) h = cc
same_args-eq (x ∷ xs) [] h = cc

-- An argument with the prefix is the prefix and the name that is read from it.
signal_name_lem :
    (arg : String)
    → starts_with arg signal_prefix ≡ true
    → arg ≡ text_append "--signal=" (signal_name arg)
signal_name_lem arg h =
    let (name, whole) = (starts_with_iff arg signal_prefix).0 h in
    let read : signal_name (text_append signal_prefix name) ≡ name =
      ap (λ n. slice (text_append signal_prefix name) (len signal_prefix) n)
        (len-append signal_prefix name)
      ∙ slice-append_right signal_prefix name in
    sym whole ∙ ap (text_append signal_prefix) (sym read ∙ ap signal_name whole)

-- the movements of the motors, the tail's only where it is enabled
abbrev pub IsMotorOf : Bool → List String → Type 0
IsMotorOf tail args =
    (args ≡ "motor" ∷ "head_lr" ∷ "1" ∷ [])
    ⊎ (args ≡ "motor" ∷ "head_ud" ∷ "2" ∷ [])
    ⊎ (args ≡ "motor" ∷ "stop" ∷ [])
    ⊎ ((tail ≡ true) × (args ≡ "motor" ∷ "tail_lr" ∷ "1" ∷ []))

module _ (s : CommandSettings) where
  abbrev pub IsMotor : List String → Type 0
  IsMotor args = IsMotorOf s.enable_tail_motion args

  abbrev pub IsService : String → Type 0
  IsService service =
      (service ≡ s.pulseaudio_service) ⊎ (service ≡ s.dialog_service) ⊎ (service ≡ s.wake_service)

  abbrev pub IsQuery : List String → Type 0
  IsQuery args =
      (verb service : String) × (args ≡ verb ∷ service ∷ [])
      × ((verb ≡ "is-active") ⊎ (verb ≡ "is-enabled"))
      × IsService service

  abbrev pub IsSignal : List String → Type 0
  IsSignal args =
      (name : String) × (args ≡ "kill" ∷ text_append "--signal=" name ∷ s.dialog_service ∷ [])
      × ((name ≡ "SIGHUP") ⊎ (name ≡ "SIGUSR1") ⊎ (name ≡ "SIGUSR2"))

  abbrev pub IsExecutable : String → Type 0
  IsExecutable executable =
      (executable ≡ "/usr/bin/systemctl")
      ⊎ (executable ≡ "/bin/systemctl")
      ⊎ (executable ≡ s.hardware_binary)

  abbrev pub IsPermitted : String → List String → Type 0
  IsPermitted executable args =
      ((executable ≡ s.hardware_binary) × IsMotor args)
      ⊎ ((executable ≡ s.systemctl_binary)
          × (args ≡ "--no-block" ∷ "start" ∷ s.dialog_service ∷ []))
      ⊎ IsQuery args
      ⊎ IsSignal args

  is_fixed-IsPermitted :
      (executable : String) (args : List String)
      → is_fixed (create_runner s) executable args ≡ true
      → IsPermitted executable args
  unfolding create_runner
  is_fixed-IsPermitted executable args h = ground (
    arith,
    eq_iff s.hardware_binary executable,
    eq_iff s.systemctl_binary executable,
    same_args-eq args ("motor" ∷ "head_lr" ∷ "1" ∷ []),
    same_args-eq args ("motor" ∷ "head_ud" ∷ "2" ∷ []),
    same_args-eq args ("motor" ∷ "stop" ∷ []),
    same_args-eq args ("motor" ∷ "tail_lr" ∷ "1" ∷ []),
    same_args-eq args ("--no-block" ∷ "start" ∷ s.dialog_service ∷ []),
  )

  is_query-IsQuery : (args : List String) → is_query (create_runner s) args ≡ true → IsQuery args
  unfolding create_runner
  is_query-IsQuery (verb ∷ service ∷ []) h = (
    verb,
    service,
    refl,
    ground (arith, eq_iff verb "is-active", eq_iff verb "is-enabled"),
    ground (
      arith,
      eq_iff service s.pulseaudio_service,
      eq_iff service s.dialog_service,
      eq_iff service s.wake_service,
    ),
  )
  is_query-IsQuery args h = cc

  is_signal-IsSignal :
      (args : List String) → is_signal (create_runner s) args ≡ true → IsSignal args
  unfolding create_runner
  is_signal-IsSignal (verb ∷ arg ∷ service ∷ []) h = (
    signal_name arg,
    ground (arith, eq_iff verb "kill", eq_iff s.dialog_service service, signal_name_lem arg),
    ground (
      arith,
      eq_iff (signal_name arg) "SIGHUP",
      eq_iff (signal_name arg) "SIGUSR1",
      eq_iff (signal_name arg) "SIGUSR2",
      eq_iff s.dialog_service service,
    ),
  )
  is_signal-IsSignal args h = cc

  member-IsExecutable :
      (executable : String)
      → member executable (create_runner s).allowed_executables ≡ true
      → IsExecutable executable
  unfolding create_runner
  member-IsExecutable executable h = ground (
    arith,
    eq_iff executable "/usr/bin/systemctl",
    eq_iff executable "/bin/systemctl",
    eq_iff executable s.hardware_binary,
    eq_iff "/usr/bin/systemctl" executable,
    eq_iff "/bin/systemctl" executable,
    eq_iff s.hardware_binary executable,
  )

  -- Whatever is asked of it, the runner of the device lets through nothing but the fixed motor commands,
  -- the start of the dialog service, status queries of the three services, and three signals to the
  -- dialog service, and these for no executable but the hardware's binary and the two of systemctl.
  pub validate-IsPermitted :
      (executable : String) (args : List String)
      → validate (create_runner s) executable args ≡ ok tt
      → IsExecutable executable × IsPermitted executable args
  unfolding validate
  validate-IsPermitted executable args h = (
    ground (arith, member-IsExecutable executable),
    ground (
      arith,
      is_fixed-IsPermitted executable args,
      is_query-IsQuery args,
      is_signal-IsSignal args,
    ),
  )

  -- A command for the tail is let through only where the settings enable its movement.
  pub tail_needs_setting :
      (executable : String) (rest : List String)
      → validate (create_runner s) executable ("motor" ∷ "tail_lr" ∷ rest) ≡ ok tt
      → s.enable_tail_motion ≡ true
  tail_needs_setting executable rest h = ground (
    arith,
    (validate-IsPermitted executable ("motor" ∷ "tail_lr" ∷ rest) h).1,
    eq_iff "tail_lr" "head_lr",
    eq_iff "tail_lr" "head_ud",
    eq_iff "tail_lr" "stop",
    eq_iff "motor" "kill",
    eq_iff "motor" "--no-block",
    eq_iff "motor" "is-active",
    eq_iff "motor" "is-enabled",
  )
