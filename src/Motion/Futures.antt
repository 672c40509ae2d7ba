-- ===== src/Motion/Futures.antt =====
-- The outcomes that `await_execution` hands out: published when a task ends, and lost when a task is
-- cancelled before it has begun.
use Prim.Native.String.{◌++◌ as text_append}
use ai_cat_controller.Base.{
  All-In, All-filter, In, ℕ, ◌+◌, ◌≤◌, ◌≡◌, refl, inl, inr, Bool, true, false, not, Option, none,
  some, List, [], ◌∷◌, arith, All, All-append, find, filter, update_where, eqb, Bool-cases,
  Option-cases, find-update_where, ap,
}
use ai_cat_controller.Exec.{ok}
use ai_cat_controller.Motion.State.{
  Adapter, Completion, MotionConfig, MotionOutcome, Phase, Stopper, Task, Token, World, same_token,
}
use ai_cat_controller.Motion.Service.{
  Now, StartRequest, drop, resolve, resolved, set_error, set_phase, settle, start, started,
  token_for, with_future,
}
use ai_cat_controller.Motion.Stop.{StopAnswer, await_execution, cancel_task, stop_begin, stop_end}
use ai_cat_controller.Motion.Steps.{
  Step, Reach, request, begin, complete, fail, expire, recover, interrupt, discard, stop, stopped,
  await, here, next,
}

-- the future of a token, as the dictionary has it
abbrev pub future_of : Token → World → Option Completion
future_of k w = find (λ f. same_token f.token k) w.service.completion_futures

abbrev pub pending : Token → Completion
pending k = record { token = k; result = none }

-- No task that is alive will publish for the token, and no later one will get it.
abbrev Avoids : Token → Option Token → Type 0
Avoids k none = Unit
Avoids k (some j) = same_token j k ≡ false

abbrev AvoidsTask : Token → Task → Type 0
AvoidsTask k t = Avoids k t.token

abbrev pub IsOrphan : Token → World → Type 0
IsOrphan k w =
    (future_of k w ≡ some (pending k))
    × (k.generation ≤ w.service.generation)
    × All (AvoidsTask k) w.live

module _ (k : Token) where
  All-update :
      (p : Task → Bool) (f : Task → Task) (ts : List Task)
      → ((t : Task) → (f t).token ≡ t.token)
      → All (AvoidsTask k) ts
      → All (AvoidsTask k) (update_where p f ts)
  All-update p f [] keep h = tt
  All-update p f (t ∷ ts) keep h = (ground (arith, keep t), All-update p f ts keep h.1)

  same_token_trans :
      (j i : Token) → same_token i j ≡ true → same_token j k ≡ false → same_token i k ≡ false
  same_token_trans j i h n = ground arith

  find-resolve :
      (j : Token) (o : MotionOutcome) (fs : List Completion)
      → same_token j k ≡ false
      → find (λ f. same_token f.token k) (resolve (some j) o fs)
        ≡ find (λ f. same_token f.token k) fs
  find-resolve j o [] n = refl
  find-resolve j o (f ∷ fs) n = ground (arith, same_token_trans j f.token, find-resolve j o fs n)

  find-filter :
      (j : Token) (fs : List Completion)
      → same_token j k ≡ false
      → find (λ f. same_token f.token k) (filter (λ f. not (same_token f.token j)) fs)
        ≡ find (λ f. same_token f.token k) fs
  find-filter j [] n = refl
  find-filter j (f ∷ fs) n = ground (arith, same_token_trans j f.token, find-filter j fs n)

  find-with_future :
      (t : Option Token) (fs : List Completion)
      → find (λ f. same_token f.token k) fs ≡ some (pending k)
      → find (λ f. same_token f.token k) (with_future t fs) ≡ some (pending k)
  find-with_future none fs h = h
  find-with_future (some j) [] h = cc
  find-with_future (some j) (f ∷ fs) h = ground (arith, find-with_future (some j) fs)

  same_token-eq : (j : Token) → same_token j k ≡ true → j ≡ k
  same_token-eq j h = ground arith

  find-resolve_avoided :
      (j : Option Token) (o : MotionOutcome) (fs : List Completion)
      → Avoids k j
      → find (λ f. same_token f.token k) (resolve j o fs) ≡ find (λ f. same_token f.token k) fs
  find-resolve_avoided none o fs n = refl
  find-resolve_avoided (some j) o fs n = find-resolve j o fs n

  module _ (a : Adapter) (c : MotionConfig) where
    token_for-Avoids :
        (q : StartRequest) (now : Now) (g : ℕ)
        → k.generation ≤ g
        → Avoids k (token_for q now (g + 1))
    token_for-Avoids q now g h = ground arith

    start-IsOrphan :
        (q : StartRequest) (now : Now) (w : World) → IsOrphan k w → IsOrphan k (start a c q now w).1
    unfolding start
    start-IsOrphan q now w h = ground (arith, started-IsOrphan)
      where
        started-IsOrphan : IsOrphan k (started c q now w)
        started-IsOrphan = (
          find-with_future (token_for q now (w.service.generation + 1)) w.service.completion_futures
              h.0,
          omega arith,
          All-append (AvoidsTask k) w.live _ h.2
              (token_for-Avoids q now w.service.generation h.1, tt),
        )

    settle-IsOrphan :
        (t : Task) (o : MotionOutcome) (now : ℕ) (w : World)
        → In t w.live
        → IsOrphan k w
        → IsOrphan k (settle c t o now w)
    unfolding settle
    settle-IsOrphan t o now w m h = ground (
      arith,
      h.2,
      find-resolve_avoided t.token o w.service.completion_futures
          (All-In (AvoidsTask k) t w.live m h.2),
      All-filter (AvoidsTask k) (λ u. not (eqb u.generation t.generation)) w.live h.2,
    )

    drop-IsOrphan : (t : Task) (w : World) → IsOrphan k w → IsOrphan k (drop t w)
    unfolding drop
    drop-IsOrphan t w h =
        (h.0, h.1, All-filter (AvoidsTask k) (λ u. not (eqb u.generation t.generation)) w.live h.2)

    phase-IsOrphan : (g : ℕ) (p : Phase) (w : World) → IsOrphan k w → IsOrphan k (set_phase g p w)
    phase-IsOrphan g p w h = (
      h.0,
      h.1,
      All-update (λ t. eqb t.generation g) (λ t. record t { phase = p }) w.live (λ t. refl) h.2,
    )

    cancel-avoids : (g : ℕ) (w : World) → IsOrphan k w → All (AvoidsTask k) (cancel_task g w.live)
    cancel-avoids g w h =
        All-update (λ t. eqb t.generation g) (λ t. record t { cancelling = true }) w.live
          (λ t. refl) h.2

    stop_begin-IsOrphan : (w : World) → IsOrphan k w → IsOrphan k (stop_begin a w).1
    unfolding stop_begin
    stop_begin-IsOrphan w h = elim (Option-cases w.service.task) [
      | inl e ↦ ground arith
      | inr (g, e) ↦ ground (arith, cancel-avoids g w h)
    ]

    stop_end-IsOrphan :
        (p : Stopper) (r : StopAnswer) (now : ℕ) (w : World)
        → IsOrphan k w
        → IsOrphan k (stop_end c p r now w).1
    unfolding stop_end
    stop_end-IsOrphan p r now w h = h

    await-IsOrphan : (j : Token) (w : World) → IsOrphan k w → IsOrphan k (await_execution j w).1
    unfolding await_execution
    await-IsOrphan j w h = elim (Bool-cases (same_token j k)) [
      | inl same ↦ ground (arith, same_token-eq j same)
      | inr other ↦ ground (arith, find-filter j w.service.completion_futures other)
    ]

    Step-IsOrphan : {w v : World} → Step a c w v → IsOrphan k w → IsOrphan k v
    Step-IsOrphan {w} (request q now) h = start-IsOrphan q now w h
    Step-IsOrphan {w} (begin t m p n) h = phase-IsOrphan t.generation Phase.executing w h
    Step-IsOrphan {w} (complete t now m p) h = settle-IsOrphan t MotionOutcome.completed now w m h
    Step-IsOrphan {w} (fail t e now m p) h =
        settle-IsOrphan t MotionOutcome.failed now (set_error e w) m h
    Step-IsOrphan {w} (expire t m p) h =
        phase-IsOrphan t.generation Phase.recovering
          (set_error (text_append t.action_name " timed out") w) h
    Step-IsOrphan {w} (recover t now m p) h = settle-IsOrphan t MotionOutcome.timed_out now w m h
    Step-IsOrphan {w} (interrupt t now m p n) h =
        settle-IsOrphan t MotionOutcome.cancelled now w m h
    Step-IsOrphan {w} (discard t m p n) h = drop-IsOrphan t w h
    Step-IsOrphan {w} stop h = stop_begin-IsOrphan w h
    Step-IsOrphan {w} (stopped p r now e n) h = stop_end-IsOrphan p r now w h
    Step-IsOrphan {w} (await j) h = await-IsOrphan j w h

    pub Reach-IsOrphan : {w v : World} → Reach a c w v → IsOrphan k w → IsOrphan k v
    Reach-IsOrphan here h = h
    Reach-IsOrphan (next r s) h = Step-IsOrphan s (Reach-IsOrphan r h)

    pub await-orphan : (w : World) → IsOrphan k w → await_execution k w ≡ (ok none, w)
    unfolding await_execution
    await-orphan w h = ground (arith, h.0)

resolved_keeps : (o : MotionOutcome) (f : Completion) → (resolved o f).token ≡ f.token
resolved_keeps o f = ground arith

find-resolve_self :
    (k : Token) (o : MotionOutcome) (fs : List Completion)
    → find (λ f. same_token f.token k) fs ≡ some (pending k)
    → find (λ f. same_token f.token k) (resolve (some k) o fs)
      ≡ some (record { token = k; result = some o })
find-resolve_self k o fs h =
    find-update_where (λ f. same_token f.token k) (resolved o) fs (pending k)
      (λ f. ap (λ t. same_token t k) (resolved_keeps o f)) h

-- When a task ends whose token has a pending future, whoever awaits the token is answered with the
-- outcome.
pub settle_publishes :
    (c : MotionConfig) (t : Task) (k : Token) (o : MotionOutcome) (now : ℕ) (w : World)
    → t.token ≡ some k
    → future_of k w ≡ some (pending k)
    → (await_execution k (settle c t o now w)).0 ≡ ok (some o)
unfolding settle await_execution
settle_publishes c t k o now w e h =
    ground (arith, find-resolve_self k o w.service.completion_futures h)
