-- ===== src/Product/Imports.antt =====
-- `_sync_native_dialog_events`: the file of the voice process is read again when its signature has
-- changed since the last synchronization for the owner and the pet.
pub mod Tests
use Prim.Native.String.{◌++◌ as text_append}
use ai_cat_controller.Base.{
  ℕ, ◌≡◌, refl, ap, ◌∙◌, subst, sym, inl, inr, String, Bool, true, false, not, Option, none, some,
  List, [], ◌∷◌, arith, ◌==◌, ◌&&◌, eqb, is_some, if◌then◌else◌, eq_refl, Bool-cases,
}
use ai_cat_controller.Errors.{Exception}
use ai_cat_controller.Exec.{Result, ok, err, Exec, Exec-cases}
use ai_cat_controller.Repository.Schema.{Database}
use ai_cat_controller.Repository.Tables.{not_owned, owned_pet_row}
use ai_cat_controller.Repository.Interactions.Outcomes.{owned_pet_row-cases}
use ai_cat_controller.Repository.Dialogs.{
  NativeEvent, SyncState, dialog_sync_state, import_native_dialog_events,
}

-- What `stat` says of the file, with its time of change as a text.
pub record Source : Type 0 where
  pub mtime_ns : ℕ
  pub size : ℕ
  pub updated_at : String

-- An entry of `_dialog_source_signatures`; an assignment puts the new one in front.
pub record Signature : Type 0 where
  pub user_id : String
  pub pet_id : String
  pub mtime_ns : ℕ
  pub size : ℕ

pub record Syncing : Type 0 where
  pub db : Database
  pub signatures : List Signature

abbrev is_owner : String → String → Signature → Bool
is_owner user_id pet_id g = g.user_id == user_id && g.pet_id == pet_id

abbrev is_same : Source → Signature → Bool
is_same f g = eqb g.mtime_ns f.mtime_ns && eqb g.size f.size

-- `_dialog_source_signatures.get(owner_key) == source_signature`
unfoldable pub is_known : String → String → Source → List Signature → Bool
is_known user_id pet_id f [] = false
is_known user_id pet_id f (g ∷ gs) =
    let rest = is_known user_id pet_id f gs in
    if is_owner user_id pet_id g then is_same f g else rest

abbrev signature_of : String → String → Source → Signature
signature_of user_id pet_id f = record {
  user_id = user_id;
  pet_id = pet_id;
  mtime_ns = f.mtime_ns;
  size = f.size;
}

-- The answer, less the clock's reading.
pub record Synced : Type 0 where
  pub imported_messages : ℕ
  pub state : SyncState
  pub source_updated_at : Option String

module _ (uuid5 : String → String) (user_id pet_id : String) where
  abbrev remembered : Source → Result ℕ × Database → Syncing → Result ℕ × Syncing
  remembered f (err e, d) s = (err e, record s { db = d })
  remembered f (ok n, d) s =
      (ok n, record { db = d; signatures = signature_of user_id pet_id f ∷ s.signatures })

  abbrev imported : Result (List NativeEvent) → Exec Database ℕ
  imported (err e) db = (err e, db)
  imported (ok []) db = (ok 0, db)
  imported (ok (e ∷ es)) db = import_native_dialog_events uuid5 user_id pet_id (e ∷ es) db

  -- what is done while the lock is held, before the state is asked for
  unfoldable pub import_changed : Result (List NativeEvent) → Option Source → Exec Syncing ℕ
  import_changed events none s = (ok 0, s)
  import_changed events (some f) s =
      if is_known user_id pet_id f s.signatures
      then (ok 0, s)
      else remembered f (imported events s.db) s

  abbrev updated_at_of : Option Source → Option String
  updated_at_of none = none
  updated_at_of (some f) = some f.updated_at

  abbrev answered :
      Option Source → ℕ → Result SyncState × Database → Syncing → Result Synced × Syncing
  answered f n (err e, d) s = (err e, record s { db = d })
  answered f n (ok state, d) s = (
    ok (record { imported_messages = n; state = state; source_updated_at = updated_at_of f }),
    record s { db = d },
  )

  abbrev after_import : Option Source → Result ℕ × Syncing → Result Synced × Syncing
  after_import f (err e, s) = (err e, s)
  after_import f (ok n, s) = answered f n (dialog_sync_state user_id pet_id s.db) s

  -- `events` is how `_read_native_dialog_events` ends
  unfoldable pub sync_native_dialog_events :
      Result (List NativeEvent) → Option Source → Exec Syncing Synced
  sync_native_dialog_events events f s = after_import f (import_changed events f s)

  dialog_sync_state_keeps : (db : Database) → (dialog_sync_state user_id pet_id db).1 ≡ db
  unfolding dialog_sync_state
  dialog_sync_state_keeps db = elim (owned_pet_row-cases user_id pet_id db) [
    | inl (row, e) ↦ ground (arith, e)
    | inr e ↦ ground (arith, e)
  ]

  is_known-remembered :
      (f : Source) (gs : List Signature)
      → is_known user_id pet_id f (signature_of user_id pet_id f ∷ gs) ≡ true
  unfolding is_known
  is_known-remembered f gs = ground (arith, eq_refl user_id, eq_refl pet_id)

  remembered-ok :
      (f : Source) (r : Result ℕ × Database) (s : Syncing) (n : ℕ) (s' : Syncing)
      → remembered f r s ≡ (ok n, s')
      → is_known user_id pet_id f s'.signatures ≡ true
  remembered-ok f (err e, d) s n s' h = absurd (ground arith)
  remembered-ok f (ok m, d) s n s' h =
      ap (λ x. is_known user_id pet_id f x.1.signatures) (sym h)
      ∙ is_known-remembered f s.signatures

  import_changed-ok :
      (events : Result (List NativeEvent)) (f : Source) (s : Syncing) (n : ℕ) (s' : Syncing)
      → import_changed events (some f) s ≡ (ok n, s')
      → is_known user_id pet_id f s'.signatures ≡ true
  unfolding import_changed
  import_changed-ok events f s n s' h = elim (Bool-cases (is_known user_id pet_id f s.signatures)) [
    | inl k ↦
        let same : s' ≡ s = ground arith in
        ap (λ x. is_known user_id pet_id f x.signatures) same ∙ k
    | inr k ↦
        let g : remembered f (imported events s.db) s ≡ (ok n, s') = ground arith in
        remembered-ok f (imported events s.db) s n s' g
  ]

  import_changed-known :
      (events : Result (List NativeEvent)) (f : Source) (s : Syncing)
      → is_known user_id pet_id f s.signatures ≡ true
      → import_changed events (some f) s ≡ (ok 0, s)
  unfolding import_changed
  import_changed-known events f s k = ground (arith, k)

  answered-ok :
      (f : Option Source) (n : ℕ) (s s' : Syncing) (r : Synced)
      → answered f n (dialog_sync_state user_id pet_id s.db) s ≡ (ok r, s')
      → (s' ≡ s)
        × (answered f 0 (dialog_sync_state user_id pet_id s.db) s
            ≡ (ok (record r { imported_messages = 0 }), s))
  answered-ok f n s s' r h = elim (Exec-cases (dialog_sync_state user_id pet_id s.db)) [
    | inl (e, d, g) ↦ absurd (ground (arith, g))
    | inr (x, d, g) ↦
        let same : d ≡ s.db = ap (λ y. y.1) (sym g) ∙ dialog_sync_state_keeps s.db in
        (ground (arith, g, same), ground (arith, g, same))
  ]

  after_import-ok :
      (f : Option Source) (p : Result ℕ × Syncing) (s' : Syncing) (r : Synced)
      → after_import f p ≡ (ok r, s')
      → (n : ℕ) × (p ≡ (ok n, s'))
        × (after_import f (ok 0, s') ≡ (ok (record r { imported_messages = 0 }), s'))
  after_import-ok f (err e, s) s' r h = absurd (ground arith)
  after_import-ok f (ok n, s) s' r h =
      let (same, again) = answered-ok f n s s' r h in
      (
        n,
        ap (λ x. (ok n, x)) (sym same),
        subst (λ x. after_import f (ok 0, x) ≡ (ok (record r { imported_messages = 0 }), x))
            (sym same) again,
      )

  -- After a synchronization that returned, the next one that finds the file with the same signature
  -- imports nothing, changes nothing and answers the same state, whatever the file would be read as or raise.
  pub sync_native_dialog_events-repeat :
      (events later : Result (List NativeEvent)) (f : Source) (s s' : Syncing) (r : Synced)
      → sync_native_dialog_events events (some f) s ≡ (ok r, s')
      → sync_native_dialog_events later (some f) s' ≡ (ok (record r { imported_messages = 0 }), s')
  unfolding sync_native_dialog_events
  sync_native_dialog_events-repeat events later f s s' r h =
      let (n, p, again) = after_import-ok (some f) (import_changed events (some f) s) s' r h in
      ap (after_import (some f))
        (import_changed-known later f s' (import_changed-ok events f s n s' p))
      ∙ again
