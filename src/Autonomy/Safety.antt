-- ===== src/Autonomy/Safety.antt =====
-- What a run may ask of the controller, and when it stays still.
use Prim.Native.String.{◌++◌ as text_append}
use ai_cat_controller.Base.{
  String, ◌≡◌, inl, inr, length, refl, ap, sym, subst, ◌∙◌, Bool, true, false, Option, none, some,
  List, [], ◌∷◌, ◌++◌, arith, All, Bool-cases, if◌then◌else◌,
}
use ai_cat_controller.Base.Int.{ℤ}
use ai_cat_controller.Exec.{Result, ok, err, Exec, ◌>>=◌}
use ai_cat_controller.Autonomy.Values.{Members, Value, get, get_or, as_object}
use ai_cat_controller.Autonomy.Setup.{AutonomyConfig}
use ai_cat_controller.Autonomy.Client.{
  Body, World, request, request_to, received, dialog_status, personality_profile, speak,
  start_head_action,
}
use ai_cat_controller.Autonomy.Speech.{play}
use ai_cat_controller.Autonomy.Playing.{play_sent}
use ai_cat_controller.Autonomy.Worker.{
  Outside, Outcome, behave, forgiven, said, said_locally, str_of, moved, phrase_for,
  executed_result, weights_chosen, with_weights, with_autonomy, safe_weights, is_unprepared,
  is_busy, is_offline, after_status, dialog_state_of, run_once,
}
use ai_cat_controller.Autonomy.Allowed.{
  IsAllowed, IsSafe, dialog_status-IsSafe, personality_profile-IsSafe, start_head_action-IsSafe,
  speak-IsSafe,
}

if-IsSafe :
    {A : Type 0} (b : Bool) (x y : A × World)
    → IsSafe x.1
    → IsSafe y.1
    → IsSafe (if b then x else y).1
if-IsSafe true x y sx sy = sx
if-IsSafe false x y sx sy = sy

bind-ok :
    {A B : Type 0} (m : Exec World A) (f : A → Exec World B) (w w' : World) (a : A)
    → m w ≡ (ok a, w')
    → (m >>= f) w ≡ f a w'
bind-ok m f w w' a h = ap (λ r. elim r.0 [ ok b ↦ f b r.1 | err e ↦ (err e, r.1) ]) h

module _ (o : Outside) (c : AutonomyConfig) where
  forgiven_state :
      {A : Type 0} (phrase : String) (r : Result A × World) → (forgiven phrase r).1 ≡ r.1
  forgiven_state phrase r = ground arith

  said_locally-IsSafe :
      (personality : Members) (phrase : String) (w : World)
      → IsSafe w
      → IsSafe (said_locally o c personality phrase w).1
  said_locally-IsSafe personality phrase w s =
      let id = str_of o.shown (get_or "personality_id" (Value.text "") personality) in
      elim (Bool-cases o.is_stopped) [
        | inl e ↦ (rw e s)
        | inr e ↦
            (rw e (
              subst (All IsAllowed)
                (sym (
                  ap (λ x. x.sent) (forgiven_state phrase (play c o.files o.ending id phrase w))
                  ∙ play_sent c o.files o.ending id phrase w))
                s))
      ]

  said-IsSafe :
      (personality : Members) (phrase : Option String) (w : World)
      → IsSafe w
      → IsSafe (said o c personality phrase w).1
  said-IsSafe personality none w s = s
  said-IsSafe personality (some phrase) w s =
      if-IsSafe c.local_speech_enabled (said_locally o c personality phrase w)
        (forgiven phrase (speak o.net c phrase (text_append o.event_id "-speech") w))
        (said_locally-IsSafe personality phrase w s)
        (subst IsSafe
          (sym (forgiven_state phrase (speak o.net c phrase (text_append o.event_id "-speech") w)))
          (speak-IsSafe c o.net phrase (text_append o.event_id "-speech") w s))

  executed_result_state :
      (action : String) (r : Result (Option String) × World) → (executed_result action r).1 ≡ r.1
  executed_result_state action (ok p, w) = refl
  executed_result_state action (err e, w) = refl

  -- what follows keeps a world safe, so the two together do
  bind-IsSafe :
      {A B : Type 0} (r : Result A × World) (f : A → Exec World B)
      → IsSafe r.1
      → ((a : A) (w : World) → IsSafe w → IsSafe (f a w).1)
      → IsSafe (((λ w. r) >>= f) r.1).1
  bind-IsSafe (ok a, w) f s k = k a w s
  bind-IsSafe (err e, w) f s k = s

  moved-IsSafe :
      (personality autonomy : Members) (action : String) (w : World)
      → IsSafe w
      → IsSafe (moved o c personality autonomy action w).1
  moved-IsSafe personality autonomy action w s =
      bind-IsSafe (start_head_action o.net c action (text_append o.event_id "-motion") w)
        (λ _ v. executed_result action (said o c personality (phrase_for o c autonomy) v))
        (start_head_action-IsSafe c o.net action (text_append o.event_id "-motion") w s)
        (λ _ v t.
          subst IsSafe
            (sym (executed_result_state action (said o c personality (phrase_for o c autonomy) v)))
            (said-IsSafe personality (phrase_for o c autonomy) v t))

  weights_chosen-IsSafe :
      (personality autonomy : Members) (ws : List (String × ℤ)) (w : World)
      → IsSafe w
      → IsSafe (weights_chosen o c personality autonomy ws w).1
  weights_chosen-IsSafe personality autonomy [] w s = s
  weights_chosen-IsSafe personality autonomy (a ∷ more) w s =
      moved-IsSafe personality autonomy (o.choices (a ∷ more)) w s

  with_weights-IsSafe :
      (personality autonomy : Members) (ws : Option Members) (w : World)
      → IsSafe w
      → IsSafe (with_weights o c personality autonomy ws w).1
  with_weights-IsSafe personality autonomy none w s = s
  with_weights-IsSafe personality autonomy (some ws) w s =
      weights_chosen-IsSafe personality autonomy (safe_weights ws) w s

  with_autonomy-IsSafe :
      (personality : Members) (autonomy : Option Members) (w : World)
      → IsSafe w
      → IsSafe (with_autonomy o c personality autonomy w).1
  with_autonomy-IsSafe personality none w s = s
  with_autonomy-IsSafe personality (some autonomy) w s =
      with_weights-IsSafe personality autonomy (as_object (get "action_weights" autonomy)) w s

  behave-IsSafe :
      (offline : Bool) (personality : Members) (w : World)
      → IsSafe w
      → IsSafe (behave o c offline personality w).1
  unfolding behave
  behave-IsSafe offline personality w s = elim (Bool-cases (is_unprepared offline personality)) [
    | inl e ↦ (rw e s)
    | inr e ↦ (rw e (with_autonomy-IsSafe personality (as_object (get "autonomy" personality)) w s))
  ]

  after_status-IsSafe :
      (status : Members) (w : World) → IsSafe w → IsSafe (after_status o c status w).1
  after_status-IsSafe status w s = elim (Bool-cases (is_busy o status)) [
    | inl e ↦ (rw e s)
    | inr e ↦
        (rw e (
          bind-IsSafe (personality_profile o.net c w)
            (behave o c (is_offline (dialog_state_of o status)))
            (personality_profile-IsSafe c o.net w s)
            (behave-IsSafe (is_offline (dialog_state_of o status)))))
  ]

  -- However the controller answers, the choices fall and the files stand, a run sends nothing but the
  -- two questions, a nod or a shake of the head of the fixed strength and length, and phrases of the
  -- personalities.
  pub run_once-IsSafe : (w : World) → IsSafe w → IsSafe (run_once o c w).1
  unfolding run_once
  run_once-IsSafe w s =
      bind-IsSafe (dialog_status o.net c w) (after_status o c) (dialog_status-IsSafe c o.net w s)
        after_status-IsSafe

  status-ok :
      (status : Members) (w : World)
      → received (o.net (length w.sent) (request_to c "GET" "/dialog/status" Body.no_body))
        ≡ ok status
      → dialog_status o.net c w ≡ (
        ok status,
        record w { sent = w.sent ++ request_to c "GET" "/dialog/status" Body.no_body ∷ [] },
      )
  unfolding dialog_status request
  status-ok status w h = cc h

  -- A run that finds the dialog busy sends that one question, and starts neither a motion nor a phrase.
  pub run_once-busy :
      (status : Members) (w : World)
      → received (o.net (length w.sent) (request_to c "GET" "/dialog/status" Body.no_body))
        ≡ ok status
      → is_busy o status ≡ true
      → run_once o c w ≡ (
        ok (Outcome.dialog_busy (dialog_state_of o status)),
        record w { sent = w.sent ++ request_to c "GET" "/dialog/status" Body.no_body ∷ [] },
      )
  unfolding run_once
  run_once-busy status w h b =
      let asked = record w {
        sent = w.sent ++ request_to c "GET" "/dialog/status" Body.no_body ∷ [];
      } in
      bind-ok (dialog_status o.net c) (after_status o c) w asked status (status-ok status w h)
      ∙ rw b refl
