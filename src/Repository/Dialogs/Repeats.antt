-- ===== src/Repository/Dialogs/Repeats.antt =====
-- What `import_native_dialog_events` does over the whole list, and a second time.
use mathlib.Core.Path.{subst}
use ai_cat_controller.Base.{
  ℕ, ◌+◌, ◌≡◌, ◌⊎◌, refl, inl, inr, String, true, List, [], ◌∷◌, length, All, arith, Bool-cases,
}
use ai_cat_controller.Exec.{Result, ok, err, Exec-cases}
use ai_cat_controller.Repository.Schema.{Database}
use ai_cat_controller.Repository.Tables.{PetRow, not_owned, owned_pet_row}
use ai_cat_controller.Repository.Interactions.Outcomes.{owned_pet_row-cases}
use ai_cat_controller.Repository.Dialogs.{
  NativeEvent, belongs, import_event, import_events, import_native_dialog_events,
}
use ai_cat_controller.Repository.Dialogs.Imports.{
  is_known, relabelled, relabelled-any, store_event-cases, others, Imported, import_events-Imported,
  known_later,
}

module _ (uuid5 : String → String) (user_id pet_id : String) where
  known-event :
      (row : PetRow) (e : NativeEvent) (db : Database)
      → is_known uuid5 user_id pet_id row db e ≡ true
      → (import_event uuid5 user_id pet_id row e db ≡ (ok 0, db))
        ⊎ (import_event uuid5 user_id pet_id row e db
            ≡ (ok 0, relabelled uuid5 user_id pet_id row e db))
  unfolding import_event
  known-event row e db h = elim (Bool-cases (belongs row e)) [
    | inr outside ↦ inl (ground arith)
    | inl inside ↦ elim (store_event-cases uuid5 user_id pet_id row e db) [
      | inl (known, same) ↦ inr (ground (arith, same))
      | inr (inl (fresh, raised)) ↦ absurd (ground arith)
      | inr (inr (fresh, new)) ↦ absurd (ground arith)
    ]
  ]

  known-relabelled :
      (row : PetRow) (e : NativeEvent) (db : Database) (es : List NativeEvent)
      → All (λ x. is_known uuid5 user_id pet_id row db x ≡ true) es
      → All
          (λ x.
            is_known uuid5 user_id pet_id row (relabelled uuid5 user_id pet_id row e db) x ≡ true)
          es
  known-relabelled row e db [] h = tt
  known-relabelled row e db (x ∷ es) h = (
    known_later uuid5 user_id pet_id row x db (relabelled uuid5 user_id pet_id row e db)
        (λ id there. rw (relabelled-any uuid5 user_id pet_id row e id db) there) h.0,
    known-relabelled row e db es h.1,
  )

  known-events :
      (row : PetRow) (es : List NativeEvent) (db : Database)
      → All (λ e. is_known uuid5 user_id pet_id row db e ≡ true) es
      → (import_events uuid5 user_id pet_id row es db).0 ≡ ok 0
  unfolding import_events
  known-events row [] db h = refl
  known-events row (e ∷ es) db h = elim (known-event row e db h.0) [
    | inl same ↦ ground (arith, same, known-events row es db h.1)
    | inr moved ↦ ground (
      arith,
      moved,
      known-events row es (relabelled uuid5 user_id pet_id row e db)
          (known-relabelled row e db es h.1),
    )
  ]

  owned-kept :
      (db db' : Database) (row : PetRow)
      → db'.pets ≡ db.pets
      → db'.devices ≡ db.devices
      → owned_pet_row user_id pet_id db ≡ (ok row, db)
      → owned_pet_row user_id pet_id db' ≡ (ok row, db')
  unfolding owned_pet_row
  owned-kept db db' row pets devices h = ground arith

  -- What a call has done: it raised and changed nothing, or it imported the events for a pet that the
  -- user owns.
  abbrev Ran : List NativeEvent → Database → Result ℕ × Database → Type 0
  Ran es db (err _, db') = db' ≡ db
  Ran es db (ok n, db') =
      (row : PetRow) × (owned_pet_row user_id pet_id db ≡ (ok row, db))
      × Imported uuid5 user_id pet_id row es db (ok n, db')

  import-Ran :
      (es : List NativeEvent) (db : Database)
      → Ran es db (import_native_dialog_events uuid5 user_id pet_id es db)
  unfolding import_native_dialog_events
  import-Ran es db = elim (owned_pet_row-cases user_id pet_id db) [
    | inr missing ↦
        let eq : import_native_dialog_events uuid5 user_id pet_id es db ≡ (err not_owned, db) =
          ground arith in
        rw eq refl
    | inl (row, owned) ↦ elim (Exec-cases (import_events uuid5 user_id pet_id row es db)) [
      | inl (x, d, ended) ↦
          let eq : import_native_dialog_events uuid5 user_id pet_id es db ≡ (err x, db) =
            ground arith in
          rw eq refl
      | inr (n, d, ended) ↦
          let eq : import_native_dialog_events uuid5 user_id pet_id es db ≡ (ok n, d) =
            ground arith in
          rw eq (
            row,
            owned,
            subst (Imported uuid5 user_id pet_id row es db) ended
                (import_events-Imported uuid5 user_id pet_id row es db),
          )
    ]
  ]

  known-import :
      (row : PetRow) (es : List NativeEvent) (db : Database)
      → owned_pet_row user_id pet_id db ≡ (ok row, db)
      → (import_events uuid5 user_id pet_id row es db).0 ≡ ok 0
      → (import_native_dialog_events uuid5 user_id pet_id es db).0 ≡ ok 0
  unfolding import_native_dialog_events
  known-import row es db owned h = ground arith

  -- Importing the same events again, after a call that returned, imports nothing.
  pub import_native_dialog_events-repeat :
      (es : List NativeEvent) (db db' : Database) (n : ℕ)
      → import_native_dialog_events uuid5 user_id pet_id es db ≡ (ok n, db')
      → (import_native_dialog_events uuid5 user_id pet_id es db').0 ≡ ok 0
  import_native_dialog_events-repeat es db db' n h =
      let (row, owned, (keep, known, size, same, pets, devices)) =
        subst (Ran es db) h (import-Ran es db) in
      known-import row es db' (owned-kept db db' row pets devices owned)
        (known-events row es db' known)

  -- A call that returns answers by how many rows the history has grown, and leaves the messages of
  -- every other pet as they were.
  pub import_native_dialog_events-counts :
      (es : List NativeEvent) (db db' : Database) (n : ℕ)
      → import_native_dialog_events uuid5 user_id pet_id es db ≡ (ok n, db')
      → (length db'.dialog_history ≡ length db.dialog_history + n)
        × (others uuid5 user_id pet_id db' ≡ others uuid5 user_id pet_id db)
  import_native_dialog_events-counts es db db' n h =
      let (row, owned, (keep, known, size, same, pets, devices)) =
        subst (Ran es db) h (import-Ran es db) in
      (size, same)
