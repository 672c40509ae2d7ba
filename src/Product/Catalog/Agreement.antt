-- ===== src/Product/Catalog/Agreement.antt =====
-- The catalogue, the dashboard and `execute_action` agree on what a pet may do.
use ai_cat_controller.Base.{
  ℕ, ◌≡◌, ◌↔◌, refl, ap, sym, subst, ◌∙◌, inl, inr, String, true, Option, none, some, List, [], ◌∷◌,
  arith, ◌&&◌, ◌==◌, All, map, filter, find-true, eq_iff, Option-cases,
}
use ai_cat_controller.Exec.{ok}
use ai_cat_controller.Domain.Actions.{actions, action_is_unlocked}
use ai_cat_controller.Domain.Actions.Schema.{ActionDefinition}
use ai_cat_controller.Domain.Intimacy.{IntimacyLevel, level_for_points}
use ai_cat_controller.Domain.Personalities.{personalities, personality_by_id, style_for_level}
use ai_cat_controller.Domain.Personalities.Schema.{PersonalityDefinition}
use ai_cat_controller.Motion.State.{Adapter}
use ai_cat_controller.Motion.Service.{unavailable_reason}
use ai_cat_controller.Repository.Schema.{Database}
use ai_cat_controller.Repository.Tables.{PetRow, get_owned_pet}
use ai_cat_controller.Product.Actions.{capabilities, may_execute}
use ai_cat_controller.Product.Catalog.{
  CatalogEntry, Dashboard, action_catalog, catalog_at, dashboard, dashboard_at, entry_of, id_of,
  of_row, unlocked_ids,
}

-- the entry promises exactly what `execute_action` lets through
abbrev pub Promises : Adapter → PetRow → CatalogEntry → Type 0
Promises a row e = (may_execute a e.action row ≡ ok tt) ↔ (e.unlocked && e.available ≡ true)

entry-Promises :
    (a : Adapter) (row : PetRow) (l : IntimacyLevel) (action : ActionDefinition)
    → row.device.online ≡ true
    → level_for_points row.pet.intimacy_points ≡ some l
    → Promises a row (entry_of a row.pet.personality_id l.level action)
unfolding may_execute
entry-Promises a row l action on lv =
    elim (Option-cases (unavailable_reason a (capabilities action.components))) [
      | inl e ↦ (λ h. ground arith, λ h. ground arith)
      | inr (r, e) ↦ (λ h. ground arith, λ h. ground arith)
    ]

map-Promises :
    (a : Adapter) (row : PetRow) (l : IntimacyLevel) (xs : List ActionDefinition)
    → row.device.online ≡ true
    → level_for_points row.pet.intimacy_points ≡ some l
    → All (Promises a row) (map (entry_of a row.pet.personality_id l.level) xs)
map-Promises a row l [] on lv = tt
map-Promises a row l (action ∷ xs) on lv =
    (entry-Promises a row l action on lv, map-Promises a row l xs on lv)

catalog_at-Promises :
    (a : Adapter) (row : PetRow) (l : Option IntimacyLevel) (es : List CatalogEntry)
    → row.device.online ≡ true
    → level_for_points row.pet.intimacy_points ≡ l
    → catalog_at a row l ≡ ok es
    → All (Promises a row) es
catalog_at-Promises a row none es on lv h = absurd (ground arith)
catalog_at-Promises a row (some l) es on lv h =
    let same : map (entry_of a row.pet.personality_id l.level) actions ≡ es = ground arith in
    subst (All (Promises a row)) same (map-Promises a row l actions on lv)

-- the ids of the entries that are unlocked
abbrev pub unlocked_in : List CatalogEntry → List String
unlocked_in es = map (λ e. e.action.action_id) (filter (λ e. e.unlocked) es)

unlocked_in-map :
    (a : Adapter) (personality_id : String) (level : ℕ) (xs : List ActionDefinition)
    → unlocked_in (map (entry_of a personality_id level) xs)
      ≡ map id_of (filter (λ action. action_is_unlocked action personality_id level) xs)
unlocked_in-map a personality_id level [] = refl
unlocked_in-map a personality_id level (x ∷ xs) =
    ground (arith, unlocked_in-map a personality_id level xs)

by_id-id :
    (id : String) (p : PersonalityDefinition)
    → personality_by_id id ≡ some p
    → p.personality_id ≡ id
unfolding personality_by_id
by_id-id id p h =
    (eq_iff p.personality_id id).0 (find-true (λ q. q.personality_id == id) personalities p h)

at-unlocked :
    (a : Adapter) (row : PetRow) (l : Option IntimacyLevel) (p : Option PersonalityDefinition)
    (es : List CatalogEntry) (d : Dashboard)
    → personality_by_id row.pet.personality_id ≡ p
    → catalog_at a row l ≡ ok es
    → dashboard_at row l p ≡ ok d
    → d.unlocked_action_ids ≡ unlocked_in es
at-unlocked a row none p es d pe he hd = absurd (ground arith)
at-unlocked a row (some l) none es d pe he hd = absurd (ground arith)
at-unlocked a row (some l) (some p) es d pe he hd =
    elim (Option-cases (style_for_level p l.level)) [
      | inl e ↦ absurd (ground (arith, e))
      | inr (s, e) ↦
          let entries : map (entry_of a row.pet.personality_id l.level) actions ≡ es =
            ground arith in
          let shown : d.unlocked_action_ids ≡ unlocked_ids p l.level = ground (arith, e) in
          shown
          ∙ ap (λ id. map id_of (filter (λ action. action_is_unlocked action id l.level) actions))
              (by_id-id row.pet.personality_id p pe)
          ∙ sym (unlocked_in-map a row.pet.personality_id l.level actions)
          ∙ ap unlocked_in entries
    ]

module _ (a : Adapter) (user_id pet_id : String) (db : Database) (row : PetRow)
    (es : List CatalogEntry) (owned : get_owned_pet user_id pet_id db ≡ (ok row, db))
    (shown : action_catalog a user_id pet_id db ≡ (ok es, db)) where
  catalog_of_row : catalog_at a row (level_for_points row.pet.intimacy_points) ≡ ok es
  unfolding action_catalog
  catalog_of_row =
      ap (λ x. x.0)
        (ap (of_row (λ r. catalog_at a r (level_for_points r.pet.intimacy_points))) (sym owned)
          ∙ shown)

  -- For a pet that is online, an entry of the catalogue is unlocked and available exactly if the tests of
  -- `execute_action` on the pet and the adapter let its action through.
  pub action_catalog-Promises : row.device.online ≡ true → All (Promises a row) es
  action_catalog-Promises on =
      catalog_at-Promises a row (level_for_points row.pet.intimacy_points) es on refl catalog_of_row

  -- The dashboard of the pet lists as unlocked exactly the entries that the catalogue shows as unlocked,
  -- in the same order.
  pub dashboard-action_catalog :
      (d : Dashboard)
      → dashboard user_id pet_id db ≡ (ok d, db)
      → d.unlocked_action_ids ≡ unlocked_in es
  unfolding dashboard
  dashboard-action_catalog d h =
      at-unlocked a row (level_for_points row.pet.intimacy_points)
        (personality_by_id row.pet.personality_id) es d refl catalog_of_row
        (ap (λ x. x.0)
          (ap
              (of_row (λ r.
                dashboard_at r (level_for_points r.pet.intimacy_points)
                  (personality_by_id r.pet.personality_id)))
              (sym owned)
            ∙ h))
