-- ===== src/Status/Freshness.antt =====
-- An answer that comes from the cache is not older than the setting allows.
use ai_cat_controller.Base.{
  ℕ, ◌+◌, ◌<◌, ◌≡◌, ◌⊎◌, refl, inl, inr, Option, none, some, List, [], ◌∷◌, In, arith, ltb,
  Bool-cases,
}
use ai_cat_controller.Exec.{Result, ok, err}
use ai_cat_controller.Config.{Settings}
use ai_cat_controller.Autonomy.Values.{Members}
use ai_cat_controller.Status.{
  Call, ServicesCache, answered, cache_time, cached, empty_cache, get_services_status, kept_answer,
  serve_calls,
}

-- an earlier call that the adapter has answered so
abbrev pub Gave : List Call → List Members → Call → Type 0
Gave past statuses q = In q past × (q.answer ≡ ok statuses)

-- The answer is the adapter's to this call, or its answer to an earlier call less than the cache's time
-- before.
abbrev pub IsFresh : ℕ → List Call → Call → Result (List Members) → Type 0
IsFresh time past c r =
    (r ≡ c.answer)
    ⊎ ((statuses : List Members) × (q : Call) × (r ≡ ok statuses)
        × Gave past statuses q
        × (c.now < q.now + time))

abbrev pub AllFresh : ℕ → List Call → List Call → List (Result (List Members)) → Type 0
AllFresh time past [] [] = Unit
AllFresh time past [] (r ∷ rs) = ⊥
AllFresh time past (c ∷ cs) [] = ⊥
AllFresh time past (c ∷ cs) (r ∷ rs) = IsFresh time past c r × AllFresh time (c ∷ past) cs rs

-- what the cache holds is the answer to an earlier call, and its end is that call's
abbrev IsBacked : ℕ → List Call → ServicesCache → Type 0
IsBacked time past s =
    (statuses : List Members)
    → s.services_cache ≡ some statuses
    → (q : Call) × Gave past statuses q × (s.services_cache_until ≡ q.now + time)

kept_answer-IsBacked :
    (time : ℕ) (past : List Call) (c : Call) (r : Result (List Members)) (s : ServicesCache)
    → c.answer ≡ r
    → IsBacked time past s
    → IsBacked time (c ∷ past) (kept_answer time c.now r s).1
kept_answer-IsBacked time past c (err e) s a b statuses h =
    let (q, (i, g), u) = b statuses h in (q, (inr i, g), u)
kept_answer-IsBacked time past c (ok xs) s a b statuses h = (c, (inl refl, ground (arith, a)), refl)

kept_answer-answer :
    (time now : ℕ) (r : Result (List Members)) (s : ServicesCache)
    → (kept_answer time now r s).0 ≡ r
kept_answer-answer time now (err e) s = refl
kept_answer-answer time now (ok xs) s = refl

answered-IsFresh :
    (time : ℕ) (past : List Call) (c : Call) (o : Option (List Members)) (s : ServicesCache)
    → cached c s ≡ o
    → IsBacked time past s
    → IsFresh time past c (answered time c o s).0
answered-IsFresh time past c none s h b = inl (kept_answer-answer time c.now c.answer s)
answered-IsFresh time past c (some xs) s h b =
    elim (Bool-cases (ltb c.now s.services_cache_until)) [
      | inl l ↦ let (q, g, u) = b xs (ground arith) in inr (xs, q, refl, g, ground (arith, l, u))
      | inr l ↦ absurd (ground arith)
    ]

answered-IsBacked :
    (time : ℕ) (past : List Call) (c : Call) (o : Option (List Members)) (s : ServicesCache)
    → IsBacked time past s
    → IsBacked time (c ∷ past) (answered time c o s).1
answered-IsBacked time past c none s b = kept_answer-IsBacked time past c c.answer s refl b
answered-IsBacked time past c (some xs) s b =
    λ statuses h. let (q, (i, g), u) = b statuses h in (q, (inr i, g), u)

serve_calls-backed :
    (settings : Settings) (cs past : List Call) (s : ServicesCache)
    → IsBacked (cache_time settings) past s
    → AllFresh (cache_time settings) past cs (serve_calls settings cs s)
unfolding serve_calls get_services_status
serve_calls-backed settings [] past s b = tt
serve_calls-backed settings (c ∷ cs) past s b =
    let time = cache_time settings in
    (
      answered-IsFresh time past c (cached c s) s refl b,
      serve_calls-backed settings cs (c ∷ past) (answered time c (cached c s) s).1
          (answered-IsBacked time past c (cached c s) s b),
    )

-- Whatever times the calls read and whatever the adapter answers, every call returns or raises what the
-- adapter answers to it, or returns what the adapter has answered to an earlier call whose time is less
-- than the setting's cache time before.
pub serve_calls-AllFresh :
    (settings : Settings) (cs : List Call)
    → AllFresh (cache_time settings) [] cs (serve_calls settings cs empty_cache)
serve_calls-AllFresh settings cs =
    serve_calls-backed settings cs [] empty_cache (λ statuses h. absurd (ground arith))
