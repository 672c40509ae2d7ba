-- ===== src/Repository/Ledger.antt =====
-- The points of a pet as its log of events gives them, and the column of `pets` that keeps them at hand.
pub mod Operations
pub mod Histories
pub mod Tests
use ai_cat_controller.Base.{
  ◌≡◌, ◌++◌, refl, ap, sym, inl, inr, subst, ◌∙◌, Bool, true, false, String, Option, none, some,
  List, [], ◌∷◌, arith, eq_iff, eq_refl, ◌==◌, ◌&&◌, All, All-append, any, find, map, update_where,
  if◌then◌else◌, Bool-cases,
}
use ai_cat_controller.Base.Int.{ℤ, pos, ◌+ℤ◌, max_ℤ}
use ai_cat_controller.Repository.Schema.{Pet, InteractionEvent, Database}

-- The specification: a balance starts at 0, and an event of the pet changes it by its delta, but not to
-- a number below 0.
abbrev credit : String → InteractionEvent → ℤ → ℤ
credit pet_id e b = if e.pet_id == pet_id then max_ℤ (pos 0) (b +ℤ e.points_delta) else b

abbrev replay : String → ℤ → List InteractionEvent → ℤ
replay pet_id b [] = b
replay pet_id b (e ∷ es) = replay pet_id (credit pet_id e b) es

abbrev pub balance : String → List InteractionEvent → ℤ
balance pet_id es = replay pet_id (pos 0) es

-- the columns that the points are about
abbrev pub account : Pet → String × ℤ
account p = (p.pet_id, p.intimacy_points)

abbrev pub HasBalance : List InteractionEvent → String × ℤ → Type 0
HasBalance es (pet_id, points) = points ≡ balance pet_id es

abbrev pub is_account : String → String × ℤ → Bool
is_account pet_id (id, points) = id == pet_id

abbrev HasAccount : List (String × ℤ) → InteractionEvent → Type 0
HasAccount accounts e = any (is_account e.pet_id) accounts ≡ true

abbrev pub AreBalanced : List (String × ℤ) → List InteractionEvent → Type 0
AreBalanced accounts es = All (HasBalance es) accounts × All (HasAccount accounts) es

-- Every pet has the points of its log, and every event is one of a pet that is there.
abbrev pub IsBalanced : Database → Type 0
IsBalanced db = AreBalanced (map account db.pets) db.interaction_events

replay-append :
    (pet_id : String) (b : ℤ) (es : List InteractionEvent) (e : InteractionEvent)
    → replay pet_id b (es ++ e ∷ []) ≡ credit pet_id e (replay pet_id b es)
replay-append pet_id b [] e = refl
replay-append pet_id b (x ∷ es) e = replay-append pet_id (credit pet_id x b) es e

credit-other :
    (pet_id : String) (b : ℤ) (accounts : List (String × ℤ)) (e : InteractionEvent)
    → any (is_account pet_id) accounts ≡ false
    → HasAccount accounts e
    → credit pet_id e b ≡ b
credit-other pet_id b accounts e n h = elim (Bool-cases (e.pet_id == pet_id)) [
  | inl t ↦ absurd (
      let yes =
        subst (λ id. any (is_account id) accounts ≡ true) ((eq_iff e.pet_id pet_id).0 t) h in
      ground (arith, yes, n))
  | inr f ↦ (rw f refl)
]

-- Events of pets that are all there change no balance of a pet that is not.
replay-absent :
    (pet_id : String) (b : ℤ) (accounts : List (String × ℤ)) (es : List InteractionEvent)
    → any (is_account pet_id) accounts ≡ false
    → All (HasAccount accounts) es
    → replay pet_id b es ≡ b
replay-absent pet_id b accounts [] n h = refl
replay-absent pet_id b accounts (e ∷ es) n h =
    replay-absent pet_id (credit pet_id e b) accounts es n h.1
    ∙ credit-other pet_id b accounts e n h.0

any-append :
    (pet_id : String) (accounts more : List (String × ℤ))
    → any (is_account pet_id) accounts ≡ true
    → any (is_account pet_id) (accounts ++ more) ≡ true
any-append pet_id [] more h = absurd (ground arith)
any-append pet_id (x ∷ accounts) more h = ground (arith, any-append pet_id accounts more)

HasAccount-append :
    (accounts more : List (String × ℤ)) (es : List InteractionEvent)
    → All (HasAccount accounts) es
    → All (HasAccount (accounts ++ more)) es
HasAccount-append accounts more [] h = tt
HasAccount-append accounts more (e ∷ es) h =
    (any-append e.pet_id accounts more h.0, HasAccount-append accounts more es h.1)

-- A new pet, with no points, is balanced: no event can be its own yet.
pub open-AreBalanced :
    (pet_id : String) (accounts : List (String × ℤ)) (es : List InteractionEvent)
    → any (is_account pet_id) accounts ≡ false
    → AreBalanced accounts es
    → AreBalanced (accounts ++ (pet_id, pos 0) ∷ []) es
open-AreBalanced pet_id accounts es n h = (
  All-append (HasBalance es) accounts ((pet_id, pos 0) ∷ []) h.0
      (sym (replay-absent pet_id (pos 0) accounts es n h.1), tt),
  HasAccount-append accounts ((pet_id, pos 0) ∷ []) es h.1,
)

-- an update of the points of one pet
abbrev pub post : String → ℤ → List (String × ℤ) → List (String × ℤ)
post pet_id points [] = []
post pet_id points ((id, b) ∷ accounts) =
    (if id == pet_id then (id, points) else (id, b)) ∷ post pet_id points accounts

any-post :
    (pet_id id : String) (points : ℤ) (accounts : List (String × ℤ))
    → any (is_account id) (post pet_id points accounts) ≡ any (is_account id) accounts
any-post pet_id id points [] = refl
any-post pet_id id points (x ∷ accounts) = ground (arith, any-post pet_id id points accounts)

HasAccount-post :
    (pet_id : String) (points : ℤ) (accounts : List (String × ℤ)) (es : List InteractionEvent)
    → All (HasAccount accounts) es
    → All (HasAccount (post pet_id points accounts)) es
HasAccount-post pet_id points accounts [] h = tt
HasAccount-post pet_id points accounts (e ∷ es) h =
    (any-post pet_id e.pet_id points accounts ∙ h.0, HasAccount-post pet_id points accounts es h.1)

credit-own :
    (e : InteractionEvent) (b : ℤ) → credit e.pet_id e b ≡ max_ℤ (pos 0) (b +ℤ e.points_delta)
credit-own e b = rw (eq_refl e.pet_id) refl

credit-foreign :
    (pet_id : String) (e : InteractionEvent) (b : ℤ)
    → pet_id == e.pet_id ≡ false
    → credit pet_id e b ≡ b
credit-foreign pet_id e b n = ground (arith, eq_iff pet_id e.pet_id, eq_iff e.pet_id pet_id)

HasBalance-one :
    (e : InteractionEvent) (es : List InteractionEvent) (id : String) (b : ℤ)
    → HasBalance es (id, b)
    → HasBalance (es ++ e ∷ []) (
        if id == e.pet_id
        then (id, max_ℤ (pos 0) (balance e.pet_id es +ℤ e.points_delta))
        else (id, b))
HasBalance-one e es id b h = elim (Bool-cases (id == e.pet_id)) [
  | inl t ↦
      (rw t (
        subst
          (λ x. max_ℤ (pos 0) (balance e.pet_id es +ℤ e.points_delta) ≡ balance x (es ++ e ∷ []))
          (sym ((eq_iff id e.pet_id).0 t))
          (sym (replay-append e.pet_id (pos 0) es e ∙ credit-own e (balance e.pet_id es)))))
  | inr f ↦ (rw f (h ∙ sym (replay-append id (pos 0) es e ∙ credit-foreign id e (balance id es) f)))
]

HasBalance-post :
    (e : InteractionEvent) (es : List InteractionEvent) (accounts : List (String × ℤ))
    → All (HasBalance es) accounts
    → All
        (HasBalance (es ++ e ∷ []))
        (post e.pet_id (max_ℤ (pos 0) (balance e.pet_id es +ℤ e.points_delta)) accounts)
HasBalance-post e es [] h = tt
HasBalance-post e es ((id, b) ∷ accounts) h =
    (HasBalance-one e es id b h.0, HasBalance-post e es accounts h.1)

-- What an event of a pet that is there does to its points keeps the balance.
pub post-AreBalanced :
    (e : InteractionEvent) (es : List InteractionEvent) (accounts : List (String × ℤ)) (points : ℤ)
    → any (is_account e.pet_id) accounts ≡ true
    → points ≡ balance e.pet_id es
    → AreBalanced accounts es
    → AreBalanced (post e.pet_id (max_ℤ (pos 0) (points +ℤ e.points_delta)) accounts) (es ++ e ∷ [])
post-AreBalanced e es accounts points m b h =
    subst
      (λ x.
        AreBalanced (post e.pet_id (max_ℤ (pos 0) (x +ℤ e.points_delta)) accounts) (es ++ e ∷ []))
      (sym b)
      (let after = post e.pet_id (max_ℤ (pos 0) (balance e.pet_id es +ℤ e.points_delta)) accounts in
        (
          HasBalance-post e es accounts h.0,
          All-append (HasAccount after) es (e ∷ [])
              (HasAccount-post e.pet_id (max_ℤ (pos 0) (balance e.pet_id es +ℤ e.points_delta))
                accounts es h.1)
              (
                any-post e.pet_id e.pet_id (max_ℤ (pos 0) (balance e.pet_id es +ℤ e.points_delta))
                      accounts
                    ∙ m,
                tt,
              ),
        ))
