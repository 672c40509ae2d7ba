-- ===== src/Repository/Ledger/Histories.antt =====
-- The points of the pets after any history of calls.
use ai_cat_controller.Base.{
  ◌≡◌, ◌++◌, refl, ap, sym, inl, inr, subst, ◌∙◌, true, String, Option, none, some, List, [], ◌∷◌,
  arith, eq_iff, ◌==◌, ◌&&◌, All, any, find, Bool-cases, map, update_where,
}
use ai_cat_controller.Base.Int.{ℤ}
use ai_cat_controller.Exec.{Result, ok, err, or_raise}
use ai_cat_controller.Errors.{Exception}
use ai_cat_controller.Repository.Schema.{Pet, InteractionEvent, Database, empty}
use ai_cat_controller.Repository.Tables.{
  Env, PetRow, not_owned, owned_pet_row, owned_row, owned_by, join_device,
}
use ai_cat_controller.Repository.Pets.{
  BindRequest, DeviceStatus, bind_pet, login_user, unbind_pet, update_device_status,
  update_pet_settings, is_pet,
}
use ai_cat_controller.Repository.Interactions.{Interaction, InteractionResult, apply_interaction}
use ai_cat_controller.Repository.Interactions.Outcomes.{
  Outcome, new_event, with_event, apply_interaction-Outcome,
}
use ai_cat_controller.Repository.Ledger.{
  AreBalanced, HasBalance, IsBalanced, account, balance, is_account, post, post-AreBalanced,
}
use ai_cat_controller.Repository.Ledger.Operations.{
  bind_pet-IsBalanced, books-login_user, same_books, books-unbind_pet, books-update_device_status,
  books-update_pet_settings,
}

map-post :
    (pet_id : String) (points : ℤ) (pets : List Pet)
    → map account (update_where (is_pet pet_id) (λ p. record p { intimacy_points = points }) pets)
      ≡ post pet_id points (map account pets)
map-post pet_id points [] = refl
map-post pet_id points (x ∷ pets) = ground (arith, map-post pet_id points pets)

join_device-some :
    (db : Database) (o : Option Pet) (row : PetRow) → join_device db o ≡ some row → o ≡ some row.pet
join_device-some db none row h = absurd (ground arith)
join_device-some db (some p) row h = ground arith

found_account :
    (user_id pet_id : String) (es : List InteractionEvent) (pets : List Pet) (p : Pet)
    → find (λ p. p.pet_id == pet_id && owned_by user_id p) pets ≡ some p
    → All (HasBalance es) (map account pets)
    → (p.intimacy_points ≡ balance pet_id es) × (any (is_account pet_id) (map account pets) ≡ true)
found_account user_id pet_id es [] p h b = absurd (ground arith)
found_account user_id pet_id es (x ∷ pets) p h b =
    elim (Bool-cases (x.pet_id == pet_id && owned_by user_id x)) [
      | inl t ↦
          let same : x ≡ p = ground arith in
          let id : x.pet_id ≡ pet_id = ground (arith, eq_iff x.pet_id pet_id) in
          (ap (λ y. y.intimacy_points) (sym same) ∙ b.0 ∙ ap (λ y. balance y es) id, ground arith)
      | inr f ↦
          let rest = found_account user_id pet_id es pets p (ground arith) b.1 in
          (rest.0, ground (arith, rest.1))
    ]

or_raise-ok :
    (o : Option PetRow) (e : Exception) (db : Database) (row : PetRow)
    → or_raise o e db ≡ (ok row, db)
    → o ≡ some row
or_raise-ok none e db row h = absurd (ground arith)
or_raise-ok (some x) e db row h = ground arith

owned_account :
    (user_id pet_id : String) (db : Database) (row : PetRow)
    → owned_pet_row user_id pet_id db ≡ (ok row, db)
    → find (λ p. p.pet_id == pet_id && owned_by user_id p) db.pets ≡ some row.pet
unfolding owned_pet_row
owned_account user_id pet_id db row h =
    join_device-some db (find (λ p. p.pet_id == pet_id && owned_by user_id p) db.pets) row
      (or_raise-ok (owned_row db user_id pet_id) not_owned db row h)

recorded-IsBalanced :
    (env : Env) (i : Interaction) (db : Database) (points : ℤ)
    → points ≡ balance i.pet_id db.interaction_events
    → any (is_account i.pet_id) (map account db.pets) ≡ true
    → IsBalanced db
    → IsBalanced (with_event (new_event env i db points) db)
recorded-IsBalanced env i db points b m h =
    let e = new_event env i db points in
    subst (λ x. AreBalanced x (db.interaction_events ++ e ∷ []))
      (sym (map-post i.pet_id e.points_after db.pets))
      (post-AreBalanced e db.interaction_events (map account db.pets) points m b h)

apply_interaction-IsBalanced :
    (env : Env) (i : Interaction) (db : Database)
    → IsBalanced db
    → IsBalanced (apply_interaction env i db).1
apply_interaction-IsBalanced env i db h =
    go (apply_interaction env i db) (apply_interaction-Outcome env i db)
  where
    go : (r : Result InteractionResult × Database) → Outcome env i db r → IsBalanced r.1
    go (err e, db') same = subst IsBalanced (sym same) h
    go (ok r, db') (inl (row, e, owned, seen, answer, same)) = subst IsBalanced (sym same) h
    go (ok r, db') (inr (row, owned, fresh, answer, new)) =
        let (points, there) =
          found_account i.user_id i.pet_id db.interaction_events db.pets row.pet
            (owned_account i.user_id i.pet_id db row owned) h.0 in
        subst IsBalanced (sym new)
          (recorded-IsBalanced env i db row.pet.intimacy_points points there h)

-- A call of one of the methods that write users, devices, pets or events.
pub data Call : Type 0 where
  login : Env → String → String → Call
  bind : Env → BindRequest → Call
  unbind : String → String → Call
  settings : String → String → Option String → Option ℤ → Call
  device_status : Env → String → String → DeviceStatus → Call
  interaction : Env → Interaction → Call

module _ (uuid5 : String → String) where
  unfoldable pub perform : Call → Database → Database
  perform (login env code nickname) db = (login_user uuid5 env code nickname db).1
  perform (bind env b) db = (bind_pet uuid5 env b db).1
  perform (unbind user_id pet_id) db = (unbind_pet user_id pet_id db).1
  perform (settings user_id pet_id name volume) db =
      (update_pet_settings user_id pet_id name volume db).1
  perform (device_status env user_id pet_id s) db = (update_device_status env user_id pet_id s db).1
  perform (interaction env i) db = (apply_interaction env i db).1

  -- the calls of a history, the latest last
  unfoldable pub history : List Call → Database → Database
  history [] db = db
  history (c ∷ calls) db = history calls (perform c db)

  perform-IsBalanced : (c : Call) (db : Database) → IsBalanced db → IsBalanced (perform c db)
  unfolding perform
  perform-IsBalanced (login env code nickname) db h =
      same_books db (login_user uuid5 env code nickname db).1
        (books-login_user uuid5 env code nickname db) h
  perform-IsBalanced (bind env b) db h = bind_pet-IsBalanced uuid5 env b db h
  perform-IsBalanced (unbind user_id pet_id) db h =
      same_books db (unbind_pet user_id pet_id db).1 (books-unbind_pet user_id pet_id db) h
  perform-IsBalanced (settings user_id pet_id name volume) db h =
      same_books db (update_pet_settings user_id pet_id name volume db).1
        (books-update_pet_settings user_id pet_id name volume db) h
  perform-IsBalanced (device_status env user_id pet_id s) db h =
      same_books db (update_device_status env user_id pet_id s db).1
        (books-update_device_status env user_id pet_id s db) h
  perform-IsBalanced (interaction env i) db h = apply_interaction-IsBalanced env i db h

  history-keeps :
      (calls : List Call) (db : Database) → IsBalanced db → IsBalanced (history calls db)
  unfolding history
  history-keeps [] db h = h
  history-keeps (c ∷ calls) db h = history-keeps calls (perform c db) (perform-IsBalanced c db h)

  -- After any history of calls from an empty file, those that fail included, the points in the row of
  -- every pet are what the specification gives for the log of the events: from 0, every event of the
  -- pet adds its delta, but not to below 0. And no event is of a pet that is not there.
  pub history-IsBalanced : (calls : List Call) → IsBalanced (history calls empty)
  history-IsBalanced calls = history-keeps calls empty (tt, tt)
