-- ===== src/Autonomy/Allowed.antt =====
-- What the client may ask of the controller.
use ai_cat_controller.Base.{
  String, ◌≡◌, ◌⊎◌, inl, inr, refl, ap, sym, subst, true, [], ◌∷◌, arith, All, All-append, member,
  ◌==◌, eq_iff, Bool-cases,
}
use ai_cat_controller.Exec.{Result, ok, err}
use ai_cat_controller.Autonomy.Values.{Members}
use ai_cat_controller.Autonomy.Setup.{AutonomyConfig}
use ai_cat_controller.Autonomy.Client.{
  Body, HttpRequest, Network, World, request, request_to, dialog_status, personality_profile,
  safe_actions, short_phrases, speak, start_head_action, motion_path, forget,
}

abbrev IsAllowedAs : String → String → Body → Type 0
IsAllowedAs method path Body.no_body =
    (method ≡ "GET") × ((path ≡ "/dialog/status") ⊎ (path ≡ "/personality/runtime"))
IsAllowedAs method path (Body.motion intensity duration_ms id) =
    (method ≡ "POST")
    × ((path ≡ "/motion/head/nod") ⊎ (path ≡ "/motion/head/shake"))
    × (intensity ≡ 350)
    × (duration_ms ≡ 1800)
IsAllowedAs method path (Body.speech content id) =
    (method ≡ "POST") × (path ≡ "/dialog/speak") × (member content short_phrases ≡ true)

-- A question for the status or the personality, a gentle nod or shake of the head, or a phrase of the
-- personalities.
abbrev pub IsAllowed : HttpRequest → Type 0
IsAllowed q = IsAllowedAs q.method q.path q.body

abbrev pub IsSafe : World → Type 0
IsSafe w = All IsAllowed w.sent

module _ (c : AutonomyConfig) (net : Network) where
  pub request-IsSafe :
      (q : HttpRequest) (w : World) → IsAllowed q → IsSafe w → IsSafe (request net q w).1
  unfolding request
  request-IsSafe q w a s = All-append IsAllowed w.sent (q ∷ []) s (a, tt)

  pub dialog_status-IsSafe : (w : World) → IsSafe w → IsSafe (dialog_status net c w).1
  unfolding dialog_status
  dialog_status-IsSafe w s =
      request-IsSafe (request_to c "GET" "/dialog/status" Body.no_body) w (refl, inl refl) s

  pub personality_profile-IsSafe : (w : World) → IsSafe w → IsSafe (personality_profile net c w).1
  unfolding personality_profile
  personality_profile-IsSafe w s =
      request-IsSafe (request_to c "GET" "/personality/runtime" Body.no_body) w (refl, inr refl) s

  forget_state : (r : Result Members × World) → (forget r).1 ≡ r.1
  forget_state (ok ms, w) = refl
  forget_state (err e, w) = refl

  safe_path :
      (action : String)
      → member action safe_actions ≡ true
      → (motion_path action ≡ "/motion/head/nod") ⊎ (motion_path action ≡ "/motion/head/shake")
  unfolding safe_actions
  safe_path action h = elim (Bool-cases (action == "head/nod")) [
    | inl e ↦ inl (ap motion_path ((eq_iff action "head/nod").0 e))
    | inr e ↦ inr (ap motion_path ((eq_iff action "head/shake").0 (ground arith)))
  ]

  pub start_head_action-IsSafe :
      (action id : String) (w : World) → IsSafe w → IsSafe (start_head_action net c action id w).1
  unfolding start_head_action
  start_head_action-IsSafe action id w s = elim (Bool-cases (member action safe_actions)) [
    | inl e ↦
        (rw e (
          subst IsSafe
            (sym (
              forget_state (
                request net (request_to c "POST" (motion_path action) (Body.motion 350 1800 id))
                  w)))
            (request-IsSafe (request_to c "POST" (motion_path action) (Body.motion 350 1800 id)) w
              (refl, safe_path action e, refl, refl) s)))
    | inr e ↦ (rw e s)
  ]

  pub speak-IsSafe :
      (content id : String) (w : World) → IsSafe w → IsSafe (speak net c content id w).1
  unfolding speak
  speak-IsSafe content id w s = elim (Bool-cases (member content short_phrases)) [
    | inl e ↦
        (rw e (
          subst IsSafe
            (sym (
              forget_state
                (request net (request_to c "POST" "/dialog/speak" (Body.speech content id)) w)))
            (request-IsSafe (request_to c "POST" "/dialog/speak" (Body.speech content id)) w
              (refl, refl, e) s)))
    | inr e ↦ (rw e s)
  ]
