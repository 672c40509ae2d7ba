-- ===== src/Autonomy/Values.antt =====
-- The JSON values that the controller answers with, as Python reads them. Numbers are in thousandths.
use ai_cat_controller.Base.{String, Bool, true, false, not, Option, none, some, ◌==◌, if◌then◌else◌}
use ai_cat_controller.Base.Int.{ℤ, pos, eqb_ℤ}

mutual
  pub data Value : Type 0 where
    null : Value
    boolean : Bool → Value
    number : ℤ → Value
    text : String → Value
    array : Values → Value
    object : Members → Value

  pub data Values : Type 0 where
    no_values : Values
    value : Value → Values → Values

  -- the items of a `dict`, in its order; a key stands once
  pub data Members : Type 0 where
    no_members : Members
    member_of : String → Value → Members → Members

-- `d.get(key)`
abbrev pub get : String → Members → Value
get key Members.no_members = Value.null
get key (Members.member_of k v ms) = if k == key then v else get key ms

-- `d.get(key, default)`
abbrev pub get_or : String → Value → Members → Value
get_or key default Members.no_members = default
get_or key default (Members.member_of k v ms) = if k == key then v else get_or key default ms

abbrev has_values : Values → Bool
has_values Values.no_values = false
has_values (Values.value v vs) = true

abbrev has_members : Members → Bool
has_members Members.no_members = false
has_members (Members.member_of k v ms) = true

-- `bool(v)`
abbrev pub is_true : Value → Bool
is_true Value.null = false
is_true (Value.boolean b) = b
is_true (Value.number n) = not (eqb_ℤ n (pos 0))
is_true (Value.text t) = not (t == "")
is_true (Value.array vs) = has_values vs
is_true (Value.object ms) = has_members ms

-- `isinstance(v, dict)`, with the dictionary
abbrev pub as_object : Value → Option Members
as_object (Value.object ms) = some ms
as_object _ = none

-- `isinstance(v, list)`, with the list
abbrev pub as_array : Value → Option Values
as_array (Value.array vs) = some vs
as_array _ = none

-- `isinstance(v, (int, float))`, with the number; `True` and `False` are integers
abbrev pub as_number : Value → Option ℤ
as_number (Value.number n) = some n
as_number (Value.boolean b) = some (if b then pos 1000 else pos 0)
as_number _ = none

-- `item in xs` for texts: a value that is no text equals none
abbrev pub as_text : Value → Option String
as_text (Value.text t) = some t
as_text _ = none
