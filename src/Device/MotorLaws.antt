-- ===== src/Device/MotorLaws.antt =====
-- The adapter of local_k1.py and the runner of factory.py fit together, and the catalogue of
-- actions stays within what the motors accept.
use ai_cat_controller.Base.{
  ℕ, ◌≡◌, ◌≢◌, String, Bool, true, false, List, [], ◌∷◌, All, arith, eq_iff, eq_refl,
}
use ai_cat_controller.Exec.{ok}
use ai_cat_controller.Domain.Actions.{actions}
use ai_cat_controller.Domain.Actions.Schema.{Capability, ActionComponent, component_fits}
use ai_cat_controller.Commands.Runner.{validate, run}
use ai_cat_controller.Commands.Factory.{CommandSettings, create_runner}
use ai_cat_controller.Device.Motors.{Run, supports, is_safe, move}

-- the arguments that a movement sends to the hardware
abbrev pub motor_args : Capability → List String
motor_args Capability.shake_head = "motor" ∷ "head_lr" ∷ "1" ∷ []
motor_args Capability.nod_head = "motor" ∷ "head_ud" ∷ "2" ∷ []
motor_args Capability.wag_tail = "motor" ∷ "tail_lr" ∷ "1" ∷ []
motor_args _ = []

module _ (s : CommandSettings) (lower : String → String) where
  -- Within the safe range the end of a movement depends neither on its intensity nor on its duration,
  -- and on the hardware only through the answer to the one fixed command of the capability.
  pub move_fixed :
      (run run' : Run) (c : Capability) (i d i' d' : ℕ)
      → is_safe i d ≡ true
      → is_safe i' d' ≡ true
      → run s.hardware_binary (motor_args c) ≡ run' s.hardware_binary (motor_args c)
      → move s lower run c i d ≡ move s lower run' c i' d'
  unfolding move
  move_fixed run run' c i d i' d' h h' e = ground arith

  -- Where the tail is not enabled, the call to move it raises, with the same error whatever the
  -- request and whatever the hardware would answer.
  pub move_tail_disabled :
      (run run' : Run) (i d i' d' : ℕ)
      → s.enable_tail_motion ≡ false
      → (move s lower run Capability.wag_tail i d ≡ move s lower run' Capability.wag_tail i' d')
        × (move s lower run Capability.wag_tail i d ≢ ok tt)
  unfolding move
  move_tail_disabled run run' i d i' d' h = (ground arith, ground arith)

-- A component that the catalogue's schema lets through is within the range that the motors accept.
pub component_fits-is_safe :
    (c : ActionComponent) → component_fits c ≡ true → is_safe c.speed c.duration_ms ≡ true
component_fits-is_safe c h = ground arith

-- Every component of every action in the catalogue fits the schema.
catalogue_fits : All (λ a. All (λ c. component_fits c ≡ true) a.components) actions
unfolding actions
catalogue_fits = ground arith

-- the movements that an action may consist of
abbrev pub is_movement : Capability → Bool
is_movement Capability.shake_head = true
is_movement Capability.nod_head = true
is_movement Capability.wag_tail = true
is_movement _ = false

-- The runner of the device lets through the command of every movement that the adapter supports,
-- where the hardware's binary is not systemctl.
pub move_permitted :
    (s : CommandSettings) (c : Capability)
    → is_movement c ≡ true
    → supports s c ≡ true
    → s.hardware_binary ≢ s.systemctl_binary
    → validate (create_runner s) s.hardware_binary (motor_args c) ≡ ok tt
unfolding validate create_runner supports
move_permitted s c h k other = ground (
  arith,
  eq_iff s.systemctl_binary s.hardware_binary,
  eq_refl s.hardware_binary,
  eq_refl "motor",
  eq_refl "head_lr",
  eq_refl "head_ud",
  eq_refl "tail_lr",
)
