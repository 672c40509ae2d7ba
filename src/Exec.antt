-- ===== src/Exec.antt =====
-- Methods that change an object and may raise. What was written before a raise stays written, so
-- the state comes back beside the exception too; `transaction` is the one that takes it back.
use ai_cat_controller.Base.{◌≡◌, ◌⊎◌, inl, inr, refl, Bool, Option, none, some, if◌then◌else◌}
use ai_cat_controller.Errors.{Exception}

pub data Result {ℓ} (A : Type ℓ) : Type ℓ where
  ok : A → Result A
  err : Exception → Result A

abbrev pub Exec : Type 0 → Type 0 → Type 0
Exec S A = S → Result A × S

module _ {S A : Type 0} where
  abbrev pub pure : A → Exec S A
  pure a s = (ok a, s)

  abbrev pub raise : Exception → Exec S A
  raise e s = (err e, s)

  abbrev pub lift : Result A → Exec S A
  lift r s = (r, s)

  abbrev pub gets : (S → A) → Exec S A
  gets f s = (ok (f s), s)

  abbrev pub or_raise : Option A → Exception → Exec S A
  or_raise none e = raise e
  or_raise (some a) e = pure a

  abbrev pub settle : S → Result A × S → Result A × S
  settle s (ok a, s') = (ok a, s')
  settle s (err e, s') = (err e, s)

  -- `with sqlite3.connect(...) as connection:` commits when the block is left normally (by a
  -- `return` too) and rolls back when it raises.
  abbrev pub transaction : Exec S A → Exec S A
  transaction m s = settle s (m s)

module _ {S : Type 0} where
  abbrev pub modify : (S → S) → Exec S (Unit {0})
  modify f s = (ok tt, f s)

  abbrev pub raise_if : Bool → Exception → Exec S (Unit {0})
  raise_if c e s = (if c then err e else ok tt, s)

infixl 5 ◌>>=◌ ◌>>◌
abbrev pub ◌>>=◌ : {S A B : Type 0} → Exec S A → (A → Exec S B) → Exec S B
◌>>=◌ m f s = let (r, s') = m s in elim r [ ok a ↦ f a s' | err e ↦ (err e, s') ]

abbrev pub ◌>>◌ : {S A B : Type 0} → Exec S A → Exec S B → Exec S B
m >> k = m >>= λ _. k

-- A call that raised inside a transaction has changed nothing.
pub transaction-err :
    {S A : Type 0} (m : Exec S A) (s : S) (e : Exception)
    → (transaction m s).0 ≡ err e
    → (transaction m s).1 ≡ s
transaction-err {S} {A} m s e h = go (m s) h
  where
    go : (r : Result A × S) → (settle s r).0 ≡ err e → (settle s r).1 ≡ s
    go (ok a, s') h = cc
    go (err x, s') h = refl

-- To split on how a call ended.
pub Exec-cases :
    {S A : Type 0} (r : Result A × S)
    → ((e : Exception) × (s : S) × (r ≡ (err e, s))) ⊎ ((a : A) × (s : S) × (r ≡ (ok a, s)))
Exec-cases (err e, s) = inl (e, s, refl)
Exec-cases (ok a, s) = inr (a, s, refl)
