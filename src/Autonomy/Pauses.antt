-- ===== src/Autonomy/Pauses.antt =====
-- The loop of `run_forever` ends soon after the process is stopped, and keeps its pauses.
use ai_cat_controller.Base.{
  ℕ, zero, suc, ◌+◌, ◌*◌, ◌≤◌, ◌<◌, ◌≡◌, refl, sym, subst, inl, inr, true, Option, none, some,
  is_some, List, [], ◌∷◌, arith, ◌⊎◌, leb, Bool-cases,
}
use ai_cat_controller.Base.Int.{ℤ, pos_part, ◌≤ℤ◌}
use ai_cat_controller.Autonomy.Setup.{AutonomyConfig}
use ai_cat_controller.Autonomy.Client.{World}
use ai_cat_controller.Autonomy.Worker.{run_once}
use ai_cat_controller.Autonomy.Loop.{Session, loop, next_start, started_at, run_forever}
use ai_cat_controller.Autonomy.Limits.{IsSound}
use ai_cat_controller.Autonomy.Allowed.{IsSafe}
use ai_cat_controller.Autonomy.Safety.{run_once-IsSafe}

-- `random.uniform(a, b)` is not below `a` where `a` is not above `b`.
abbrev pub IsUniform : Session → Type 0
IsUniform s = (now : ℕ) (low high : ℤ) → low ≤ℤ high → low ≤ℤ s.uniform now low high

-- Each start is at least a quarter of a minute after the one before it.
abbrev pub IsSpaced : List ℕ → Type 0
IsSpaced [] = Unit
IsSpaced (x ∷ []) = Unit
IsSpaced (x ∷ y ∷ ys) = (x + 15000 ≤ y) × IsSpaced (y ∷ ys)

-- A run that starts at all starts at the time that the loop is given, before the process is stopped.
abbrev StartsAt : ℕ → ℕ → List ℕ → Type 0
StartsAt stop_at now [] = Unit
StartsAt stop_at now (x ∷ xs) = (x ≡ now) × (now < stop_at)

module _ (s : Session) (c : AutonomyConfig) (sound : IsSound c) (u : IsUniform s) where
  next_start_later : (now : ℕ) → s.stop_at ≤ next_start s c now ⊎ now + 15000 ≤ next_start s c now
  next_start_later now =
      ground (arith, u now c.minimum_interval c.maximum_interval sound.3, sound.1.0)

  enough :
      (n now : ℕ) (w : World)
      → s.stop_at ≤ now + n * 15000
      → is_some (loop s c (suc n) now w) ≡ true
  unfolding loop
  enough zero now w h = ground arith
  enough (suc n) now w h =
      ground (
        arith,
        next_start_later now,
        enough n (next_start s c now) (run_once (s.outside now) c w).1,
      )

  started_at-some :
      (now : ℕ) (r : Option (List ℕ × World)) (starts : List ℕ) (w : World)
      → started_at now r ≡ some (starts, w)
      → (rest : List ℕ) × (r ≡ some (rest, w)) × (starts ≡ now ∷ rest)
  started_at-some now none starts w h = absurd (ground arith)
  started_at-some now (some (rest, v)) starts w h = (rest, ground arith, ground arith)

  -- One turn of the loop: it stops, or runs once and goes on.
  loop-cases :
      (n now : ℕ) (w w' : World) (starts : List ℕ)
      → loop s c (suc n) now w ≡ some (starts, w')
      → ((starts ≡ []) × (w' ≡ w))
        ⊎ ((rest : List ℕ) × (now < s.stop_at)
            × (starts ≡ now ∷ rest)
            × (loop s c n (next_start s c now) (run_once (s.outside now) c w).1 ≡ some (rest, w')))
  unfolding loop
  loop-cases n now w w' starts h = elim (Bool-cases (leb s.stop_at now)) [
    | inl e ↦ inl (ground arith, ground arith)
    | inr e ↦
        let (rest, r, t) =
          started_at-some now (loop s c n (next_start s c now) (run_once (s.outside now) c w).1)
            starts w' (ground arith) in
        inr (rest, ground arith, t, r)
  ]

  loop-StartsAt :
      (n now : ℕ) (w w' : World) (starts : List ℕ)
      → loop s c n now w ≡ some (starts, w')
      → StartsAt s.stop_at now starts
  unfolding loop
  loop-StartsAt zero now w w' starts h = absurd (ground arith)
  loop-StartsAt (suc n) now w w' starts h = elim (loop-cases n now w w' starts h) [
    | inl (e, f) ↦ subst (StartsAt s.stop_at now) (sym e) tt
    | inr (rest, lt, e, f) ↦ subst (StartsAt s.stop_at now) (sym e) (refl, lt)
  ]

  IsSpaced-onto :
      (now later : ℕ) (rest : List ℕ)
      → s.stop_at ≤ later ⊎ now + 15000 ≤ later
      → StartsAt s.stop_at later rest
      → IsSpaced rest
      → IsSpaced (now ∷ rest)
  IsSpaced-onto now later [] k a h = tt
  IsSpaced-onto now later (x ∷ xs) k a h = (ground arith, h)

  loop-IsSpaced :
      (n now : ℕ) (w w' : World) (starts : List ℕ)
      → loop s c n now w ≡ some (starts, w')
      → IsSpaced starts
  unfolding loop
  loop-IsSpaced zero now w w' starts h = absurd (ground arith)
  loop-IsSpaced (suc n) now w w' starts h = elim (loop-cases n now w w' starts h) [
    | inl (e, f) ↦ subst IsSpaced (sym e) tt
    | inr (rest, lt, e, f) ↦
        let v = (run_once (s.outside now) c w).1 in
        subst IsSpaced (sym e) (
          IsSpaced-onto now (next_start s c now) rest (next_start_later now)
            (loop-StartsAt n (next_start s c now) v w' rest f)
            (loop-IsSpaced n (next_start s c now) v w' rest f))
  ]

  loop-IsSafe :
      (n now : ℕ) (w w' : World) (starts : List ℕ)
      → IsSafe w
      → loop s c n now w ≡ some (starts, w')
      → IsSafe w'
  unfolding loop
  loop-IsSafe zero now w w' starts i h = absurd (ground arith)
  loop-IsSafe (suc n) now w w' starts i h = elim (loop-cases n now w w' starts h) [
    | inl (e, f) ↦ subst IsSafe (sym f) i
    | inr (rest, lt, e, f) ↦
        loop-IsSafe n (next_start s c now) (run_once (s.outside now) c w).1 w' rest
          (run_once-IsSafe (s.outside now) c w i) f
  ]

  -- With a configuration that is accepted, and a `uniform` that draws no pause below the minimum
  -- where the minimum is not above the maximum, the loop comes to its end once the process is stopped: a
  -- turn for every quarter of a minute until then, and one
  -- more, are enough.
  pub run_forever_terminates :
      (n : ℕ) (w : World) → s.stop_at ≤ n * 15000 → is_some (run_forever s c (suc n) w) ≡ true
  unfolding run_forever
  run_forever_terminates n w h = ground (arith, enough n (pos_part c.initial_delay) w)

  -- With a configuration that is accepted, and a `uniform` that draws no pause below the minimum where the
  -- minimum is not above the maximum: when the loop has come to its end, after a start where nothing was
  -- sent but what a single run may send, the starts of its runs are at least a quarter of a minute apart,
  -- and still nothing else was sent.
  pub run_forever-IsSpaced :
      (fuel : ℕ) (w w' : World) (starts : List ℕ)
      → IsSafe w
      → run_forever s c fuel w ≡ some (starts, w')
      → IsSpaced starts × IsSafe w'
  unfolding run_forever
  run_forever-IsSpaced fuel w w' starts i h =
      elim (Bool-cases (leb s.stop_at (pos_part c.initial_delay))) [
        | inl e ↦
            let none_started : starts ≡ [] = ground arith in
            let same : w' ≡ w = ground arith in
            (subst IsSpaced (sym none_started) tt, subst IsSafe (sym same) i)
        | inr e ↦ (
          loop-IsSpaced fuel (pos_part c.initial_delay) w w' starts (ground arith),
          loop-IsSafe fuel (pos_part c.initial_delay) w w' starts i (ground arith),
        )
      ]
