-- ===== src/Mock/Motions.antt =====
-- The motions of the mock adapter under every interleaving of its critical sections.
use ai_cat_controller.Base.{
  ℕ, suc, ◌≤◌, ◌≡◌, refl, sym, subst, ◌∙◌, ap, inl, inr, true, false, not, String, List, [], ◌∷◌,
  In, All, All-filter, arith, ◌==◌, eqb, ltb, any, count, if◌then◌else◌, Bool-cases,
}
use ai_cat_controller.Mock.{
  MockAiCatAdapter, Motion, Part, World, close_end, connect, end_motion, ended, initial,
  interrupt_dialog, nod_head, run_motion, send_text_dialog, set_part, shake_head, speak_text,
  stop_motion, wag_tail, wake_dialog, without,
}

abbrev pub with_adapter : World → MockAiCatAdapter → World
with_adapter w a = record w { adapter = a }

pub data Step (w : World) : World → Type 0 where
  shake : (now : String) → Step w (shake_head now w)
  nod : (now : String) → Step w (nod_head now w)
  wag : (now : String) → Step w (wag_tail now w)
  -- a sleep is over, or is cancelled
  finish : (m : Motion) → In m w.live → Step w (end_motion m w)
  -- a stop, also the one of `close`
  stop : Step w (with_adapter w (stop_motion w.adapter).1)
  connected : (now : ℕ) → Step w (with_adapter w (connect now w.adapter))
  closed : Step w (with_adapter w (close_end w.adapter))
  woken : Step w (with_adapter w (wake_dialog w.adapter))
  interrupted : Step w (with_adapter w (interrupt_dialog w.adapter))
  texted : Step w (with_adapter w (send_text_dialog w.adapter))
  spoken : Step w (with_adapter w (speak_text w.adapter))

pub data Reach (w : World) : World → Type 0 where
  here : Reach w w
  next : {v u : World} → Reach w v → Step v u → Reach w u

abbrev pub started : List String → ℕ → World
started service_names now = record { adapter = initial service_names now; live = [] }

abbrev current_count : ℕ → List Motion → ℕ
current_count g live = count (λ m. eqb m.generation g) live

abbrev busy_count : String → ℕ
busy_count action = if action == "idle" then 0 else 1

-- No motion is from a later generation, and one motion is of the current one unless the adapter shows
-- that it is idle.
abbrev IsCounted : World → Type 0
IsCounted w =
    All (λ m. m.generation ≤ w.adapter.generation) w.live
    × (current_count w.adapter.generation w.live ≡ busy_count w.adapter.current_action)

older :
    (g : ℕ) (ms : List Motion)
    → All (λ m. m.generation ≤ g) ms
    → All (λ m. m.generation ≤ suc g) ms × (current_count (suc g) ms ≡ 0)
older g [] h = (tt, refl)
older g (m ∷ ms) h = let (a, c) = older g ms h.1 in ((ground arith, a), ground (arith, c))

without_same : (g : ℕ) (ms : List Motion) → current_count g (without g ms) ≡ 0
without_same g [] = refl
without_same g (m ∷ ms) = ground (arith, without_same g ms)

without_other :
    (g h : ℕ) (ms : List Motion)
    → eqb h g ≡ false
    → current_count g (without h ms) ≡ current_count g ms
without_other g h [] n = refl
without_other g h (m ∷ ms) n = ground (arith, without_other g h ms n)

run_motion-IsCounted :
    (action : String) (part : Part) (now : String) (w : World)
    → (action == "idle") ≡ false
    → IsCounted w
    → IsCounted (run_motion action part now w)
unfolding run_motion
run_motion-IsCounted action Part.head now w n h =
    let (a, c) = older w.adapter.generation w.live h.0 in ((ground arith, a), ground (arith, c, n))
run_motion-IsCounted action Part.tail now w n h =
    let (a, c) = older w.adapter.generation w.live h.0 in ((ground arith, a), ground (arith, c, n))

set_part_keeps :
    (p : Part) (text : String) (a : MockAiCatAdapter)
    → ((set_part p text a).current_action ≡ a.current_action)
      × ((set_part p text a).generation ≡ a.generation)
set_part_keeps Part.head text a = (refl, refl)
set_part_keeps Part.tail text a = (refl, refl)

-- A current motion that ends leaves the adapter idle.
ended_current :
    (m : Motion) (a : MockAiCatAdapter)
    → eqb m.generation a.generation ≡ true
    → ((ended m a).current_action ≡ "idle") × ((ended m a).generation ≡ a.generation)
ended_current m a t =
    let keeps = set_part_keeps m.part "idle" (record a { current_action = "idle" }) in
    (ground (arith, keeps, t), ground (arith, keeps, t))

ended_overtaken :
    (m : Motion) (a : MockAiCatAdapter) → eqb m.generation a.generation ≡ false → ended m a ≡ a
ended_overtaken m a n = ground (arith, n)

idle_action : (action : String) → action ≡ "idle" → busy_count action ≡ 0
idle_action action h = ap busy_count h

end_motion-IsCounted : (m : Motion) (w : World) → IsCounted w → IsCounted (end_motion m w)
unfolding end_motion
end_motion-IsCounted m w h =
    let g = w.adapter.generation in
    let kept =
      All-filter (λ x. x.generation ≤ g) (λ x. not (eqb x.generation m.generation)) w.live h.0 in
    elim (Bool-cases (eqb m.generation g)) [
      | inl t ↦
          let (idle, same) = ended_current m w.adapter t in
          let gone : current_count g (without m.generation w.live) ≡ 0 =
            subst (λ x. current_count x (without m.generation w.live) ≡ 0) (ground (arith, t))
              (without_same m.generation w.live) in
          subst
            (λ x.
              All (λ y. y.generation ≤ x) (without m.generation w.live)
              × (current_count x (without m.generation w.live)
                  ≡ busy_count (ended m w.adapter).current_action))
            (sym same) (kept, gone ∙ sym (idle_action (ended m w.adapter).current_action idle))
      | inr n ↦
          subst (λ a. IsCounted (record { adapter = a; live = without m.generation w.live }))
            (sym (ended_overtaken m w.adapter n))
            (kept, without_other g m.generation w.live n ∙ h.1)
    ]

stop_motion-IsCounted :
    (w : World) → IsCounted w → IsCounted (with_adapter w (stop_motion w.adapter).1)
unfolding stop_motion
stop_motion-IsCounted w h = older w.adapter.generation w.live h.0

Step-IsCounted : (w u : World) → Step w u → IsCounted w → IsCounted u
unfolding shake_head nod_head wag_tail connect close_end wake_dialog interrupt_dialog
    send_text_dialog speak_text
Step-IsCounted w _ (Step.shake now) h = run_motion-IsCounted "head_shake" Part.head now w refl h
Step-IsCounted w _ (Step.nod now) h = run_motion-IsCounted "head_nod" Part.head now w refl h
Step-IsCounted w _ (Step.wag now) h = run_motion-IsCounted "tail_wag" Part.tail now w refl h
Step-IsCounted w _ (Step.finish m i) h = end_motion-IsCounted m w h
Step-IsCounted w _ Step.stop h = stop_motion-IsCounted w h
Step-IsCounted w _ (Step.connected now) h = h
Step-IsCounted w _ Step.closed h = h
Step-IsCounted w _ Step.woken h = h
Step-IsCounted w _ Step.interrupted h = h
Step-IsCounted w _ Step.texted h = h
Step-IsCounted w _ Step.spoken h = h

Reach-IsCounted : (w u : World) → Reach w u → IsCounted w → IsCounted u
Reach-IsCounted w _ Reach.here h = h
Reach-IsCounted w _ (Reach.next {v} {u} r s) h = Step-IsCounted v u s (Reach-IsCounted w v r h)

any-count :
    (g : ℕ) (ms : List Motion) → any (λ m. eqb m.generation g) ms ≡ ltb 0 (current_count g ms)
any-count g [] = refl
any-count g (m ∷ ms) = ground (arith, any-count g ms)

-- Whatever calls have been made, `stop_motion` answers true exactly if a motion is under way that no later
-- motion and no stop has overtaken.
pub Reach-stop_motion :
    (service_names : List String) (now : ℕ) (w : World)
    → Reach (started service_names now) w
    → (stop_motion w.adapter).0 ≡ any (λ m. eqb m.generation w.adapter.generation) w.live
unfolding stop_motion initial
Reach-stop_motion service_names now w r =
    let (a, c) = Reach-IsCounted (started service_names now) w r (tt, refl) in
    ground (arith, c, any-count w.adapter.generation w.live)
