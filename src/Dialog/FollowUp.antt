-- ===== src/Dialog/FollowUp.antt =====
-- `_read_config`, `_write_config`, `get_config` and `update_config` of `DialogService`: the seconds of the
-- follow-up window, in a file.
use ai_cat_controller.Base.{
  ℕ, ◌≤◌, ◌≡◌, refl, ap, subst, String, Bool, true, false, not, List, [], ◌∷◌, arith, ltb, ◌==◌,
  ◌&&◌, ◌||◌, inl, inr, if◌then◌else◌, Bool-cases,
}
use ai_cat_controller.Base.Int.{ℤ, pos, leb_ℤ, ◌≤ℤ◌}
use ai_cat_controller.Errors.{attribute_error}
use ai_cat_controller.Exec.{Result, ok, err, Exec}

-- A value of a JSON object: an `int`, or anything else.
pub data Value : Type 0 where
  integer : ℤ → Value
  other : Value

abbrev pub Dict : Type 0 → Type 0
Dict A = List (String × A)

-- What `json.loads` makes of a text: the items of an object, of which no two have the same key; a value
-- that is no object, and so has no `get`; or a text that is no JSON or no UTF-8.
pub data Payload : Type 0 where
  object : Dict Value → Payload
  no_object malformed : Payload

-- The texts that are in the file, and the functions of the library on them: `dumps` with the compact
-- separators, `loads`, the text with a line feed behind it, and its size in bytes.
pub record Json (T : Type 0) : Type 0 where
  pub dumps : Dict ℤ → T
  pub loads : T → Payload
  pub with_newline : T → T
  pub size : T → ℕ

-- What the path of the configuration names.
pub data ConfigFile (T : Type 0) : Type 0 where
  missing unreadable : ConfigFile T
  readable : T → ConfigFile T

pub data Source : Type 0 where
  default persisted : Source

pub record DialogConfig : Type 0 where
  pub follow_up_seconds : ℤ
  pub minimum_seconds : ℤ
  pub maximum_seconds : ℤ
  pub source : Source

abbrev pub default_config : DialogConfig
default_config = record {
  follow_up_seconds = pos 30;
  minimum_seconds = pos 5;
  maximum_seconds = pos 120;
  source = Source.default;
}

abbrev pub in_range : ℤ → Bool
in_range seconds = leb_ℤ (pos 5) seconds && leb_ℤ seconds (pos 120)

abbrev pub persisted_config : ℤ → DialogConfig
persisted_config seconds = record {
  follow_up_seconds = seconds;
  minimum_seconds = pos 5;
  maximum_seconds = pos 120;
  source = Source.persisted;
}

-- `payload.get(key)`; the type of the value that stands for a missing key is not `int`
abbrev pub get : String → Dict Value → Value
get key [] = Value.other
get key ((k, v) ∷ items) = if k == key then v else get key items

abbrev pub read_seconds : Value → DialogConfig
read_seconds (Value.integer seconds) =
    if in_range seconds then persisted_config seconds else default_config
read_seconds Value.other = default_config

abbrev pub read_payload : Payload → Result DialogConfig
read_payload (Payload.object items) = ok (read_seconds (get "follow_up_seconds" items))
read_payload Payload.no_object = err attribute_error
read_payload Payload.malformed = ok default_config

-- the object that `_write_config` writes
abbrev pub written_items : ℤ → Dict ℤ
written_items seconds = ("version", pos 1) ∷ ("follow_up_seconds", seconds) ∷ []

module _ {T : Type 0} (json : Json T) where
  unfoldable pub read_config : ConfigFile T → Result DialogConfig
  read_config ConfigFile.missing = ok default_config
  read_config ConfigFile.unreadable = ok default_config
  read_config (ConfigFile.readable text) =
      if ltb 4096 (json.size text) then ok default_config else read_payload (json.loads text)

  -- `_write_config`, where `replaced` is how the writing of the temporary file and its renaming end
  unfoldable pub write_config : Result (Unit {0}) → ℤ → Exec (ConfigFile T) Unit
  write_config (ok _) seconds f =
      (ok tt, ConfigFile.readable (json.with_newline (json.dumps (written_items seconds))))
  write_config (err e) seconds f = (err e, f)

  unfoldable pub get_config : Exec (ConfigFile T) DialogConfig
  get_config f = (read_config f, f)

  abbrev read_back : Result (Unit {0}) × ConfigFile T → Result DialogConfig × ConfigFile T
  read_back (ok _, f) = (read_config f, f)
  read_back (err e, f) = (err e, f)

  unfoldable pub update_config : Result (Unit {0}) → ℤ → Exec (ConfigFile T) DialogConfig
  update_config replaced seconds f = read_back (write_config replaced seconds f)

abbrev pub has_key : {A : Type 0} → String → List (String × A) → Bool
has_key key [] = false
has_key key ((k, v) ∷ items) = k == key || has_key key items

-- no key stands twice
abbrev pub is_dict : {A : Type 0} → List (String × A) → Bool
is_dict [] = true
is_dict ((k, v) ∷ items) = not (has_key k items) && is_dict items

abbrev pub integers : Dict ℤ → Dict Value
integers [] = []
integers ((k, n) ∷ items) = (k, Value.integer n) ∷ integers items

-- `json.loads(json.dumps(d) + "\n") == d`, for every dictionary of integers
abbrev pub GivesBack : {T : Type 0} → Json T → Type 0
GivesBack json =
    (items : Dict ℤ)
    → is_dict items ≡ true
    → json.loads (json.with_newline (json.dumps items)) ≡ Payload.object (integers items)

read_seconds_bounds :
    (v : Value)
    → (pos 5 ≤ℤ (read_seconds v).follow_up_seconds)
      × ((read_seconds v).follow_up_seconds ≤ℤ pos 120)
read_seconds_bounds (Value.integer n) = (ground arith, ground arith)
read_seconds_bounds Value.other = (ground arith, ground arith)

read_payload_bounds :
    (p : Payload) (c : DialogConfig)
    → read_payload p ≡ ok c
    → (pos 5 ≤ℤ c.follow_up_seconds) × (c.follow_up_seconds ≤ℤ pos 120)
read_payload_bounds (Payload.object items) c h =
    let (low, high) = read_seconds_bounds (get "follow_up_seconds" items) in
    let same : read_seconds (get "follow_up_seconds" items) ≡ c = ground arith in
    subst (λ x. (pos 5 ≤ℤ x.follow_up_seconds) × (x.follow_up_seconds ≤ℤ pos 120)) same (low, high)
read_payload_bounds Payload.no_object c h = (ground arith, ground arith)
read_payload_bounds Payload.malformed c h = (ground arith, ground arith)

module _ {T : Type 0} (json : Json T) where
  read_config_bounds :
      (f : ConfigFile T) (c : DialogConfig)
      → read_config json f ≡ ok c
      → (pos 5 ≤ℤ c.follow_up_seconds) × (c.follow_up_seconds ≤ℤ pos 120)
  unfolding read_config
  read_config_bounds ConfigFile.missing c h = (ground arith, ground arith)
  read_config_bounds ConfigFile.unreadable c h = (ground arith, ground arith)
  read_config_bounds (ConfigFile.readable text) c h =
      elim (Bool-cases (ltb 4096 (json.size text))) [
        | inl e ↦ (ground arith, ground arith)
        | inr e ↦ read_payload_bounds (json.loads text) c (ground arith)
      ]

  -- Whatever the file holds, seconds that `get_config` answers are from 5 to 120.
  pub get_config_bounds :
      (f f' : ConfigFile T) (c : DialogConfig)
      → get_config json f ≡ (ok c, f')
      → (pos 5 ≤ℤ c.follow_up_seconds) × (c.follow_up_seconds ≤ℤ pos 120)
  unfolding get_config
  get_config_bounds f f' c h = read_config_bounds f c (ap (λ x. x.0) h)

  read_config-write_config :
      (seconds : ℤ) (f : ConfigFile T)
      → GivesBack json
      → json.size (json.with_newline (json.dumps (written_items seconds))) ≤ 4096
      → pos 5 ≤ℤ seconds
      → seconds ≤ℤ pos 120
      → read_config json (write_config json (ok tt) seconds f).1 ≡ ok (persisted_config seconds)
  unfolding read_config write_config
  read_config-write_config seconds f back small low high =
      ground (arith, back (written_items seconds) refl)

  -- Seconds from 5 to 120 that `update_config` writes come back, from this call and from every later
  -- reading, whatever the file was before. It is supposed that the library's JSON gives back every
  -- dictionary of integers that it wrote, and that the text written here is not longer than 4096 bytes.
  pub get_config-update_config :
      (seconds : ℤ) (f : ConfigFile T)
      → GivesBack json
      → json.size (json.with_newline (json.dumps (written_items seconds))) ≤ 4096
      → pos 5 ≤ℤ seconds
      → seconds ≤ℤ pos 120
      → let (r, f') = update_config json (ok tt) seconds f in
        (r ≡ ok (persisted_config seconds))
        × (get_config json f' ≡ (ok (persisted_config seconds), f'))
  unfolding update_config get_config write_config
  get_config-update_config seconds f back small low high =
      let e = read_config-write_config seconds f back small low high in
      (e, ap (λ r. (r, (write_config json (ok tt) seconds f).1)) e)

  -- A file that holds JSON but no object, as `[]`, makes the reading raise, where every other defect of the
  -- file gives the default.
  pub read_config_no_object :
      (text : T)
      → json.size text ≤ 4096
      → json.loads text ≡ Payload.no_object
      → read_config json (ConfigFile.readable text) ≡ err attribute_error
  unfolding read_config
  read_config_no_object text n j = ground arith
