-- ===== src/Dialog/Kept.antt =====
-- The wakes that run: which of them the service still knows, and how the updates of the list keep it.
use ai_cat_controller.Base.{
  ℕ, String, ◌+◌, ◌≤◌, ◌≡◌, ◌⊎◌, inl, inr, refl, Bool, true, false, not, Option, none, some, List,
  [], ◌∷◌, ◌++◌, arith, ◌&&◌, eqb, any, All, All-append, All-filter, count, filter, update_where,
  is_none, Bool-cases, if◌then◌else◌,
}
use ai_cat_controller.Dialog.State.{WakeCall, WakeOutcome, is_running}
use ai_cat_controller.Dialog.Wake.{cancel_wake, new_call}

-- a task that is not done and that nothing has cancelled
abbrev pub is_uncancelled : WakeCall → Bool
is_uncancelled c = is_none c.outcome && not c.cancelling

-- A call is of a generation that has begun, and a task that runs uncancelled is the one that the
-- service holds, of the last generation.
abbrev pub IsTrackedBy : Option ℕ → ℕ → WakeCall → Type 0
IsTrackedBy t n c =
    (c.generation ≤ n) × ((is_uncancelled c ≡ false) ⊎ ((t ≡ some n) × (c.generation ≡ n)))

abbrev Differs : WakeCall → WakeCall → Type 0
Differs c d = eqb c.generation d.generation ≡ false

abbrev IsDistinct : List WakeCall → Type 0
IsDistinct [] = Unit
IsDistinct (c ∷ cs) = All (Differs c) cs × IsDistinct cs

abbrev pub IsKept : Option ℕ → ℕ → List WakeCall → Type 0
IsKept t n cs = All (IsTrackedBy t n) cs × IsDistinct cs

All-update :
    {P : WakeCall → Type 0} (p : WakeCall → Bool) (f : WakeCall → WakeCall) (cs : List WakeCall)
    → ((c : WakeCall) → P c → P (if p c then f c else c))
    → All P cs
    → All P (update_where p f cs)
All-update p f [] k h = tt
All-update p f (c ∷ cs) k h = (k c h.0, All-update p f cs k h.1)

All-map :
    {P Q : WakeCall → Type 0} (cs : List WakeCall)
    → ((c : WakeCall) → P c → Q c)
    → All P cs
    → All Q cs
All-map [] k h = tt
All-map (c ∷ cs) k h = (k c h.0, All-map cs k h.1)

IsDistinct-filter :
    (p : WakeCall → Bool) (cs : List WakeCall) → IsDistinct cs → IsDistinct (filter p cs)
IsDistinct-filter p [] h = tt
IsDistinct-filter p (c ∷ cs) h =
    ground (arith, IsDistinct-filter p cs h.1, All-filter (Differs c) p cs h.0)

IsDistinct-update :
    (p : WakeCall → Bool) (f : WakeCall → WakeCall) (cs : List WakeCall)
    → ((c : WakeCall) → (f c).generation ≡ c.generation)
    → IsDistinct cs
    → IsDistinct (update_where p f cs)
IsDistinct-update p f [] k h = tt
IsDistinct-update p f (c ∷ cs) k h = (
  All-update p f cs (λ d q. ground (arith, k d)) (All-map cs (λ d q. ground (arith, q, k c)) h.0),
  IsDistinct-update p f cs k h.1,
)

IsDistinct-append :
    (n : ℕ) (c : WakeCall) (cs : List WakeCall)
    → All (λ d. d.generation ≤ n) cs
    → c.generation ≡ n + 1
    → IsDistinct cs
    → IsDistinct (cs ++ c ∷ [])
IsDistinct-append n c [] b e h = (tt, tt)
IsDistinct-append n c (d ∷ cs) b e h = (
  All-append (Differs d) cs (c ∷ []) h.0 (ground (arith, b.0), tt),
  IsDistinct-append n c cs b.1 e h.1,
)

count_none :
    (cs : List WakeCall) → All (λ c. is_uncancelled c ≡ false) cs → count is_uncancelled cs ≡ 0
count_none [] h = refl
count_none (c ∷ cs) h = ground (arith, h.0, count_none cs h.1)

others_cancelled :
    (t : Option ℕ) (n : ℕ) (c : WakeCall) (cs : List WakeCall)
    → is_uncancelled c ≡ true
    → IsTrackedBy t n c
    → All (IsTrackedBy t n) cs
    → All (Differs c) cs
    → All (λ d. is_uncancelled d ≡ false) cs
others_cancelled t n c [] u k h d = tt
others_cancelled t n c (e ∷ cs) u k h d =
    (ground (arith, u, k.1, h.0.1, d.0), others_cancelled t n c cs u k h.1 d.1)

pub count_uncancelled :
    (t : Option ℕ) (n : ℕ) (cs : List WakeCall) → IsKept t n cs → count is_uncancelled cs ≤ 1
count_uncancelled t n [] h = omega arith
count_uncancelled t n (c ∷ cs) h = elim (Bool-cases (is_uncancelled c)) [
  | inl u ↦ ground (arith, count_none cs (others_cancelled t n c cs u h.0.0 h.0.1 h.1.0))
  | inr v ↦ ground (arith, count_uncancelled t n cs (h.0.1, h.1.1))
]

-- A new task is made only when none runs uncancelled.
none_running :
    (t : Option ℕ) (n : ℕ) (cs : List WakeCall)
    → elim t [ none ↦ false | some g ↦ any (is_running g) cs ] ≡ false
    → All (IsTrackedBy t n) cs
    → All (IsTrackedBy (some (n + 1)) (n + 1)) cs
none_running t n [] h k = tt
none_running none n (c ∷ cs) h k = (ground (arith, k.0.1), none_running none n cs refl k.1)
none_running (some g) n (c ∷ cs) h k =
    (ground (arith, k.0.1), none_running (some g) n cs (ground arith) k.1)

pub generations_below :
    (t : Option ℕ) (n : ℕ) (cs : List WakeCall)
    → All (IsTrackedBy t n) cs
    → All (λ c. c.generation ≤ n) cs
generations_below t n cs k = All-map cs (λ c h. h.0) k

pub waking-IsKept :
    (id : Option String) (t : Option ℕ) (n : ℕ) (cs : List WakeCall)
    → elim t [ none ↦ false | some g ↦ any (is_running g) cs ] ≡ false
    → IsKept t n cs
    → IsKept (some (n + 1)) (n + 1) (cs ++ new_call (n + 1) id ∷ [])
waking-IsKept id t n cs h k = (
  All-append (IsTrackedBy (some (n + 1)) (n + 1)) cs (new_call (n + 1) id ∷ [])
      (none_running t n cs h k.0) ((omega arith, inr (refl, refl)), tt),
  IsDistinct-append n (new_call (n + 1) id) cs (generations_below t n cs k.0) refl k.1,
)

pub ends-IsKept :
    (g : ℕ) (o : WakeOutcome) (t : Option ℕ) (n : ℕ) (cs : List WakeCall)
    → IsKept t n cs
    → IsKept t n (update_where (λ c. eqb c.generation g) (λ c. record c { outcome = some o }) cs)
ends-IsKept g o t n cs k = (
  All-update (λ c. eqb c.generation g) (λ c. record c { outcome = some o }) cs
      (λ c h. ground (arith, h.1)) k.0,
  IsDistinct-update (λ c. eqb c.generation g) (λ c. record c { outcome = some o }) cs (λ c. refl)
      k.1,
)

cancel_tracked :
    (g n : ℕ) (cs : List WakeCall)
    → All (IsTrackedBy (some g) n) cs
    → All (IsTrackedBy none (n + 1)) (cancel_wake (some g) cs)
cancel_tracked g n [] k = tt
cancel_tracked g n (c ∷ cs) k = (ground (arith, k.0.1), cancel_tracked g n cs k.1)

pub cancel-IsKept :
    (t : Option ℕ) (n : ℕ) (cs : List WakeCall)
    → IsKept t n cs
    → IsKept none (n + 1) (cancel_wake t cs)
cancel-IsKept none n cs k = (All-map cs (λ c h. ground (arith, h.1)) k.0, k.1)
cancel-IsKept (some g) n cs k = (
  cancel_tracked g n cs k.0,
  IsDistinct-update (λ c. eqb c.generation g) (λ c. record c { cancelling = true }) cs (λ c. refl)
      k.1,
)

over_tracked :
    (g : ℕ) (t : Option ℕ) (n : ℕ) (cs : List WakeCall)
    → eqb g n ≡ true
    → All (IsTrackedBy t n) cs
    → All (IsTrackedBy none n) (filter (λ c. not (eqb c.generation g)) cs)
over_tracked g t n [] e k = tt
over_tracked g t n (c ∷ cs) e k =
    let rest = over_tracked g t n cs e k.1 in
    elim (Bool-cases (eqb c.generation g)) [
      | inl f ↦ (rw f rest)
      | inr f ↦ (rw f ((k.0.0, ground (arith, k.0.1)), rest))
    ]

-- A call of the last generation takes the task away when it is over, and then no task runs uncancelled.
pub over-IsKept :
    (g : ℕ) (t : Option ℕ) (n : ℕ) (cs : List WakeCall)
    → eqb g n ≡ true
    → IsKept t n cs
    → IsKept none n (filter (λ c. not (eqb c.generation g)) cs)
over-IsKept g t n cs e k =
    (over_tracked g t n cs e k.0, IsDistinct-filter (λ c. not (eqb c.generation g)) cs k.1)

pub left-IsKept :
    (g : ℕ) (t : Option ℕ) (n : ℕ) (cs : List WakeCall)
    → IsKept t n cs
    → IsKept t n (filter (λ c. not (eqb c.generation g)) cs)
left-IsKept g t n cs k = (
  All-filter (IsTrackedBy t n) (λ c. not (eqb c.generation g)) cs k.0,
  IsDistinct-filter (λ c. not (eqb c.generation g)) cs k.1,
)
