-- ===== src/Base/Lists.antt =====
-- Lists measured by native numbers and searched by Boolean tests.
use Prim.Native.Nat.{ℕ, zero, suc, ◌+◌}
use Prim.Native.String.{String}
use mathlib.Core.Path.{◌≡◌, sym, subst}
use mathlib.Core.Logic.{◌⊎◌, inl, inr}
use mathlib.Core.Bool.{Bool, true, false, ◌||◌}
use mathlib.Core.Option.{Option, none, some}
use mathlib.Core.List.{List, [], ◌∷◌, ◌++◌}
use native.Mathlib.Omega.{arith}
use text.Mathlib.Text.{◌==◌}
use text.Mathlib.TextEquality.{eq_iff}
use ai_cat_controller.Base.Tests.{if◌then◌else◌, Bool-cases}

module _ {ℓ} {A : Type ℓ} where
  abbrev pub length : List A → ℕ
  length [] = 0
  length (x ∷ xs) = suc (length xs)

  abbrev pub get_elem? : List A → ℕ → Option A
  get_elem? [] i = none
  get_elem? (x ∷ xs) zero = some x
  get_elem? (x ∷ xs) (suc i) = get_elem? xs i

  -- the first row that passes the test
  abbrev pub find : (A → Bool) → List A → Option A
  find p [] = none
  find p (x ∷ xs) = if p x then some x else find p xs

  -- how many rows pass the test
  abbrev pub count : (A → Bool) → List A → ℕ
  count p [] = 0
  count p (x ∷ xs) = (if p x then 1 else 0) + count p xs

  abbrev pub any : (A → Bool) → List A → Bool
  any p [] = false
  any p (x ∷ xs) = p x || any p xs

  abbrev pub filter : (A → Bool) → List A → List A
  filter p [] = []
  filter p (x ∷ xs) = let rest = filter p xs in if p x then x ∷ rest else rest

  -- an update of every row that passes the test
  abbrev pub update_where : (A → Bool) → (A → A) → List A → List A
  update_where p f [] = []
  update_where p f (x ∷ xs) = (if p x then f x else x) ∷ update_where p f xs

  pub count-append : (p : A → Bool) (xs ys : List A) → count p (xs ++ ys) ≡ count p xs + count p ys
  count-append p [] ys = omega arith
  count-append p (x ∷ xs) ys = omega (arith, count-append p xs ys)

  abbrev pub All {κ} : (A → Type κ) → List A → Type κ
  All P [] = Unit
  All P (x ∷ xs) = P x × All P xs

  pub All-append {κ} : (P : A → Type κ) (xs ys : List A) → All P xs → All P ys → All P (xs ++ ys)
  All-append P [] ys hx hy = hy
  All-append P (x ∷ xs) ys hx hy = (hx.0, All-append P xs ys hx.1 hy)

abbrev pub In : {A : Type 0} → A → List A → Type 0
In x [] = ⊥
In x (y ∷ ys) = (x ≡ y) ⊎ In x ys

-- `x in xs` on texts
abbrev pub member : String → List String → Bool
member x [] = false
member x (y ∷ ys) = x == y || member x ys

-- `len` of a text, which counts its characters; the native `len` counts the bytes of its UTF-8.
abbrev pub text_length : String → ℕ
text_length String.[] = 0
text_length (String.◌∷◌ c s) = suc (text_length s)

-- `xs[-1]`, which raises IndexError on an empty sequence
abbrev pub last {ℓ} : {A : Type ℓ} → List A → Option A
last [] = none
last (x ∷ []) = some x
last (x ∷ y ∷ xs) = last (y ∷ xs)

module _ {ℓ} {A : Type ℓ} (p : A → Bool) where
  -- A row that is put behind a table with no row that fits is the one that is found.
  pub find-append :
      (xs : List A) (x : A) → find p xs ≡ none → p x ≡ true → find p (xs ++ x ∷ []) ≡ some x
  find-append [] x h t = ground arith
  find-append (y ∷ xs) x h t = ground (arith, find-append xs x)

  -- An update that keeps the test is seen by the next search for it.
  pub find-update_where :
      (f : A → A) (xs : List A) (x : A)
      → ((y : A) → p (f y) ≡ p y)
      → find p xs ≡ some x
      → find p (update_where p f xs) ≡ some (f x)
  find-update_where f [] x keep h = cc
  find-update_where f (y ∷ xs) x keep h = ground (arith, keep y, find-update_where f xs x keep)

  pub find-true : (xs : List A) (x : A) → find p xs ≡ some x → p x ≡ true
  find-true [] x h = cc
  find-true (y ∷ xs) x h = ground (arith, find-true xs x)

module _ {ℓ κ} {A : Type ℓ} (P : A → Type κ) (p : A → Bool) where
  pub All-find : (xs : List A) (x : A) → All P xs → find p xs ≡ some x → P x
  All-find [] x ps h = absurd (ground arith)
  All-find (y ∷ xs) x ps h = elim (Bool-cases (p y)) [
    | inl t ↦ subst P (ground arith) ps.0
    | inr n ↦ All-find xs x ps.1 (ground arith)
  ]

  pub All-filter : (xs : List A) → All P xs → All P (filter p xs)
  All-filter [] ps = tt
  All-filter (x ∷ xs) ps = ground (arith, All-filter xs ps.1)

pub member-filter :
    (p : String → Bool) (x : String) (xs : List String)
    → member x (filter p xs) ≡ true
    → (p x ≡ true) × (member x xs ≡ true)
member-filter p x [] h = absurd (ground arith)
member-filter p x (y ∷ xs) h = ground (arith, eq_iff x y, member-filter p x xs)

pub All-In {κ} : {A : Type 0} (P : A → Type κ) (x : A) (xs : List A) → In x xs → All P xs → P x
All-In P x [] m h = absurd m
All-In P x (y ∷ xs) (inl e) h = subst P (sym e) h.0
All-In P x (y ∷ xs) (inr m) h = All-In P x xs m h.1
