-- ===== src/Autonomy/Loop.antt =====
-- `run_forever`: the runs with the pauses between them. Times are in milliseconds.
use ai_cat_controller.Base.{
  ℕ, zero, suc, ◌+◌, Option, none, some, List, [], ◌∷◌, leb, min, if◌then◌else◌,
}
use ai_cat_controller.Base.Int.{ℤ, pos_part}
use ai_cat_controller.Autonomy.Setup.{AutonomyConfig}
use ai_cat_controller.Autonomy.Client.{World}
use ai_cat_controller.Autonomy.Worker.{Outside, run_once}

-- What the loop takes from outside, by the time at which a run starts: what the run takes from outside,
-- how long it lasts, and the pause that `uniform` draws; and the time at which the process is stopped.
pub record Session : Type 0 where
  pub outside : ℕ → Outside
  pub took : ℕ → ℕ
  pub uniform : ℕ → ℤ → ℤ → ℤ
  pub stop_at : ℕ

-- `self._stop_event.wait(delay)`, which ends early when the process is stopped
abbrev pub wait : ℕ → ℕ → ℕ → ℕ
wait stop_at now delay = if leb stop_at now then now else min stop_at (now + delay)

abbrev pub started_at : ℕ → Option (List ℕ × World) → Option (List ℕ × World)
started_at now none = none
started_at now (some (starts, w)) = some (now ∷ starts, w)

abbrev pub next_start : Session → AutonomyConfig → ℕ → ℕ
next_start s c now =
    wait s.stop_at (now + s.took now)
      (pos_part (s.uniform now c.minimum_interval c.maximum_interval))

-- The `while` loop, with the times at which runs have started; every exception of a run is logged and
-- dropped. `none` is a lack of fuel.
unfoldable pub loop : Session → AutonomyConfig → ℕ → ℕ → World → Option (List ℕ × World)
loop s c zero now w = none
loop s c (suc fuel) now w =
    let rest = loop s c fuel (next_start s c now) (run_once (s.outside now) c w).1 in
    if leb s.stop_at now then some ([], w) else started_at now rest

-- `run_forever`, started at time 0
unfoldable pub run_forever : Session → AutonomyConfig → ℕ → World → Option (List ℕ × World)
run_forever s c fuel w =
    if leb s.stop_at (pos_part c.initial_delay)
    then some ([], w)
    else loop s c fuel (pos_part c.initial_delay) w
