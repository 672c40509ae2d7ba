-- ===== src/Repository/Dialogs/Imports.antt =====
-- Importing the events of the voice process: idempotent, counted, and kept to the pet's own rows.
use mathlib.Core.Path.{subst}
use ai_cat_controller.Base.{
  ℕ, ◌+◌, ◌≡◌, ◌⊎◌, ◌∙◌, refl, inl, inr, String, Bool, true, false, not, List, [], ◌∷◌, ◌++◌, ◌==◌,
  ◌||◌, any, length, filter, update_where, All, arith, eq_refl, Bool-cases,
}
use ai_cat_controller.Errors.{integrity_error}
use ai_cat_controller.Exec.{Result, ok, err, Exec-cases}
use ai_cat_controller.Repository.Schema.{Message, Database}
use ai_cat_controller.Repository.Tables.{PetRow}
use ai_cat_controller.Repository.Dialogs.{
  NativeEvent, belongs, native_id, has_id, native_message, is_moved, with_conversation,
  insert_or_ignore, store_event, import_event, import_events,
}

any-append :
    (p : Message → Bool) (ms : List Message) (m : Message)
    → any p (ms ++ m ∷ []) ≡ (any p ms || p m)
any-append p [] m = ground arith
any-append p (x ∷ ms) m = ground (arith, any-append p ms m)

any-update_where :
    (id : String) (q : Message → Bool) (c : String) (ms : List Message)
    → any (has_id id) (update_where q (with_conversation c) ms) ≡ any (has_id id) ms
any-update_where id q c [] = refl
any-update_where id q c (m ∷ ms) = ground (arith, any-update_where id q c ms)

filter-update_where :
    (p q : Message → Bool) (f : Message → Message) (ms : List Message)
    → ((m : Message) → q m ≡ true → (p m ≡ false) × (p (f m) ≡ false))
    → filter p (update_where q f ms) ≡ filter p ms
filter-update_where p q f [] out = refl
filter-update_where p q f (m ∷ ms) out = ground (arith, out m, filter-update_where p q f ms out)

filter-append_out :
    (p : Message → Bool) (ms : List Message) (m : Message)
    → p m ≡ false
    → filter p (ms ++ m ∷ []) ≡ filter p ms
filter-append_out p [] m h = ground arith
filter-append_out p (x ∷ ms) m h = ground (arith, filter-append_out p ms m h)

length-append_one : (ms : List Message) (m : Message) → length (ms ++ m ∷ []) ≡ length ms + 1
length-append_one [] m = refl
length-append_one (x ∷ ms) m = omega (arith, length-append_one ms m)

length-update_where :
    (q : Message → Bool) (f : Message → Message) (ms : List Message)
    → length (update_where q f ms) ≡ length ms
length-update_where q f [] = refl
length-update_where q f (m ∷ ms) = omega (arith, length-update_where q f ms)

insert_or_ignore-cases :
    (m : Message) (db : Database)
    → ((any (has_id m.message_id) db.dialog_history ≡ true) × (insert_or_ignore m db ≡ (ok 0, db)))
      ⊎ ((any (has_id m.message_id) db.dialog_history ≡ false)
          × (insert_or_ignore m db ≡ (err integrity_error, db)))
      ⊎ ((any (has_id m.message_id) db.dialog_history ≡ false)
          × (insert_or_ignore m db
              ≡ (ok 1, record db { dialog_history = db.dialog_history ++ m ∷ [] })))
unfolding insert_or_ignore
insert_or_ignore-cases m db = ground arith

module _ (uuid5 : String → String) (user_id pet_id : String) where
  -- the event has no place here, or its message is there
  abbrev pub is_known : PetRow → Database → NativeEvent → Bool
  is_known row db e = not (belongs row e) || any (has_id (native_id uuid5 row e)) db.dialog_history

  abbrev pub relabelled : PetRow → NativeEvent → Database → Database
  relabelled row e db = record db {
    dialog_history =
        update_where (is_moved uuid5 user_id pet_id (native_id uuid5 row e) e)
          (with_conversation e.conversation_id) db.dialog_history;
  }

  abbrev extended : PetRow → NativeEvent → Database → Database
  extended row e db = record db {
    dialog_history = db.dialog_history ++ native_message uuid5 user_id pet_id row e ∷ [];
  }

  pub store_event-cases :
      (row : PetRow) (e : NativeEvent) (db : Database)
      → let r = store_event uuid5 user_id pet_id row e db in
        ((any (has_id (native_id uuid5 row e)) db.dialog_history ≡ true)
          × (r ≡ (ok 0, relabelled row e db)))
        ⊎ ((any (has_id (native_id uuid5 row e)) db.dialog_history ≡ false)
            × (r ≡ (err integrity_error, db)))
        ⊎ ((any (has_id (native_id uuid5 row e)) db.dialog_history ≡ false)
            × (r ≡ (ok 1, relabelled row e (extended row e db))))
  unfolding store_event
  store_event-cases row e db =
      elim (insert_or_ignore-cases (native_message uuid5 user_id pet_id row e) db) [
        | inl (known, same) ↦ inl (known, ground arith)
        | inr (inl (fresh, raised)) ↦ inr (inl (fresh, ground arith))
        | inr (inr (fresh, new)) ↦ inr (inr (fresh, ground arith))
      ]

  -- the messages of the other pets
  abbrev pub others : Database → List Message
  others db = filter (λ m. not (m.pet_id == pet_id)) db.dialog_history

  -- What one pass does where it does not raise: every message stays, the event's is there, and the
  -- count tells how many rows are new.
  abbrev Passed : PetRow → NativeEvent → Database → Result ℕ × Database → Type 0
  Passed row e db (err _, db') = Unit
  Passed row e db (ok n, db') =
      ((id : String)
        → any (has_id id) db.dialog_history ≡ true
        → any (has_id id) db'.dialog_history ≡ true)
      × (is_known row db' e ≡ true)
      × (length db'.dialog_history ≡ length db.dialog_history + n)
      × (others db' ≡ others db)
      × (db'.pets ≡ db.pets)
      × (db'.devices ≡ db.devices)

  pub relabelled-any :
      (row : PetRow) (e : NativeEvent) (id : String) (db : Database)
      → any (has_id id) (relabelled row e db).dialog_history ≡ any (has_id id) db.dialog_history
  relabelled-any row e id db =
      any-update_where id (is_moved uuid5 user_id pet_id (native_id uuid5 row e) e)
        e.conversation_id db.dialog_history

  relabelled-length :
      (row : PetRow) (e : NativeEvent) (db : Database)
      → length (relabelled row e db).dialog_history ≡ length db.dialog_history
  relabelled-length row e db =
      length-update_where (is_moved uuid5 user_id pet_id (native_id uuid5 row e) e)
        (with_conversation e.conversation_id) db.dialog_history

  relabelled-others :
      (row : PetRow) (e : NativeEvent) (db : Database) → others (relabelled row e db) ≡ others db
  relabelled-others row e db =
      filter-update_where (λ m. not (m.pet_id == pet_id))
        (is_moved uuid5 user_id pet_id (native_id uuid5 row e) e)
        (with_conversation e.conversation_id) db.dialog_history (λ m. ground arith)

  extended-others :
      (row : PetRow) (e : NativeEvent) (db : Database) → others (extended row e db) ≡ others db
  extended-others row e db =
      filter-append_out (λ m. not (m.pet_id == pet_id)) db.dialog_history
        (native_message uuid5 user_id pet_id row e) (ground (arith, eq_refl pet_id))

  extended-any :
      (row : PetRow) (e : NativeEvent) (id : String) (db : Database)
      → any (has_id id) (extended row e db).dialog_history
        ≡ (any (has_id id) db.dialog_history || native_id uuid5 row e == id)
  extended-any row e id db =
      any-append (has_id id) db.dialog_history (native_message uuid5 user_id pet_id row e)

  import_event-Passed :
      (row : PetRow) (e : NativeEvent) (db : Database)
      → Passed row e db (import_event uuid5 user_id pet_id row e db)
  unfolding import_event
  import_event-Passed row e db =
      let id = native_id uuid5 row e in
      elim (Bool-cases (belongs row e)) [
        | inr outside ↦
            let eq : import_event uuid5 user_id pet_id row e db ≡ (ok 0, db) = ground arith in
            rw eq (λ id h. h, ground arith, omega arith, refl, refl, refl)
        | inl inside ↦ elim (store_event-cases row e db) [
          | inl (known, same) ↦
              let eq : import_event uuid5 user_id pet_id row e db ≡ (ok 0, relabelled row e db) =
                ground (arith, same) in
              rw eq (
                λ id h. rw (relabelled-any row e id db) h,
                rw (relabelled-any row e id db, known) (ground arith),
                rw (relabelled-length row e db) (omega arith),
                relabelled-others row e db,
                refl,
                refl,
              )
          | inr (inl (fresh, raised)) ↦
              let eq : import_event uuid5 user_id pet_id row e db ≡ (err integrity_error, db) =
                ground (arith, raised) in
              rw eq tt
          | inr (inr (fresh, new)) ↦
              let eq : import_event uuid5 user_id pet_id row e db
                  ≡ (ok 1, relabelled row e (extended row e db)) =
                ground (arith, new) in
              rw eq (
                λ id h.
                    rw (relabelled-any row e id (extended row e db), extended-any row e id db, h)
                      refl,
                rw (relabelled-any row e id (extended row e db), extended-any row e id db)
                    (ground (arith, eq_refl id)),
                rw (relabelled-length row e (extended row e db))
                    (length-append_one db.dialog_history _),
                relabelled-others row e (extended row e db) ∙ extended-others row e db,
                refl,
                refl,
              )
        ]
      ]

  -- What the whole loop does where it does not raise.
  abbrev pub Imported : PetRow → List NativeEvent → Database → Result ℕ × Database → Type 0
  Imported row es db (err _, db') = Unit
  Imported row es db (ok n, db') =
      ((id : String)
        → any (has_id id) db.dialog_history ≡ true
        → any (has_id id) db'.dialog_history ≡ true)
      × All (λ e. is_known row db' e ≡ true) es
      × (length db'.dialog_history ≡ length db.dialog_history + n)
      × (others db' ≡ others db)
      × (db'.pets ≡ db.pets)
      × (db'.devices ≡ db.devices)

  pub known_later :
      (row : PetRow) (e : NativeEvent) (db db' : Database)
      → ((id : String)
          → any (has_id id) db.dialog_history ≡ true
          → any (has_id id) db'.dialog_history ≡ true)
      → is_known row db e ≡ true
      → is_known row db' e ≡ true
  known_later row e db db' keep h = ground (arith, keep (native_id uuid5 row e))

  pub import_events-Imported :
      (row : PetRow) (es : List NativeEvent) (db : Database)
      → Imported row es db (import_events uuid5 user_id pet_id row es db)
  unfolding import_events
  import_events-Imported row [] db = (λ id h. h, tt, omega arith, refl, refl, refl)
  import_events-Imported row (e ∷ es) db =
      elim (Exec-cases (import_event uuid5 user_id pet_id row e db)) [
        | inl (x, d, one) ↦
            let eq : import_events uuid5 user_id pet_id row (e ∷ es) db ≡ (err x, d) =
              ground arith in
            rw eq tt
        | inr (n, d, one) ↦ elim (Exec-cases (import_events uuid5 user_id pet_id row es d)) [
          | inl (x, d', others) ↦
              let eq : import_events uuid5 user_id pet_id row (e ∷ es) db ≡ (err x, d') =
                ground arith in
              rw eq tt
          | inr (k, d', others) ↦
              let eq : import_events uuid5 user_id pet_id row (e ∷ es) db ≡ (ok (n + k), d') =
                ground arith in
              let (keep, known, size, same, pets, devices) =
                subst (Passed row e db) one (import_event-Passed row e db) in
              let (keep', known', size', same', pets', devices') =
                subst (Imported row es d) others (import_events-Imported row es d) in
              rw eq (
                λ id h. keep' id (keep id h),
                (known_later row e d d' keep' known, known'),
                omega (arith, size, size'),
                same' ∙ same,
                pets' ∙ pets,
                devices' ∙ devices,
              )
        ]
      ]
