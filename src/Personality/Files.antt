-- ===== src/Personality/Files.antt =====
-- What the runtime file holds after the calls of the service, and what a call that does nothing for this
-- device leaves alone.
use ai_cat_controller.Base.{
  not, ◌||◌, ◌≡◌, ◌⊎◌, refl, ap, sym, subst, ◌∙◌, String, true, false, Option, none, some, ◌==◌,
  is_none, arith, if◌then◌else◌, Bool-cases, inl, inr, eq_iff,
}
use ai_cat_controller.Errors.{Exception}
use ai_cat_controller.Exec.{Result, ok, err, Exec-cases}
use ai_cat_controller.Config.{HardwareDriver, Settings}
use ai_cat_controller.Repository.Tables.{PetRow}
use ai_cat_controller.Personality.Profile.{RuntimeProfile, build_profile}
use ai_cat_controller.Personality.Sync.{
  ended, initialize_pet, initialize_serial, is_device, needs_writing, has_revision, SyncState,
  PersonalityService, Outside, read_device_serial, write_profile, activate, sync_pet, sync_profile,
  initialize,
}

-- the profile that the service takes for active is the one of the file, by its revision
abbrev IsHeld : Option RuntimeProfile → Option RuntimeProfile → Type 0
IsHeld none f = Unit
IsHeld (some p) none = Unit
IsHeld (some p) (some f) = f.revision ≡ p.revision

abbrev pub IsSynced : PersonalityService → Type 0
IsSynced s = IsHeld s.active_profile s.file

abbrev pub Holds : RuntimeProfile → Option RuntimeProfile → Type 0
Holds p none = ⊥
Holds p (some f) = f.revision ≡ p.revision

module _ (o : Outside) (p : RuntimeProfile) (s : PersonalityService) where
  activate_err : (e : Exception) (s' : PersonalityService) → activate o p s ≡ (err e, s') → s' ≡ s
  unfolding activate write_profile
  activate_err e s' h = ground arith

  held_same :
      (q : RuntimeProfile) (file : Option RuntimeProfile)
      → IsHeld (some q) file
      → q.revision ≡ p.revision
      → Holds p (if not (q.revision == p.revision) || is_none file then some p else file)
  held_same q none i e =
      subst (λ b. Holds p (if not b || true then some p else none))
        (sym ((eq_iff q.revision p.revision).1 e)) refl
  held_same q (some f) i e =
      subst (λ b. Holds p (if not b || false then some p else some f))
        (sym ((eq_iff q.revision p.revision).1 e)) (i ∙ e)

  held :
      (active file : Option RuntimeProfile)
      → IsHeld active file
      → Holds p (if not (has_revision p.revision active) || is_none file then some p else file)
  held none none i = refl
  held none (some f) i = refl
  held (some q) file i = elim (Bool-cases (q.revision == p.revision)) [
    | inl t ↦ held_same q file i ((eq_iff q.revision p.revision).0 t)
    | inr n ↦ subst (λ b. Holds p (if not b || is_none file then some p else file)) (sym n) refl
  ]

  activate_ok :
      (r : RuntimeProfile × SyncState) (s' : PersonalityService)
      → activate o p s ≡ (ok r, s')
      → (r ≡ (p, SyncState.configured))
        × (s'.active_profile ≡ some p)
        × (s'.file ≡ (if needs_writing p s then some p else s.file))
  unfolding activate write_profile
  activate_ok r s' h = ground arith

-- an answer that says that nothing is configured on this device
abbrev pub IsRefusal : Result (RuntimeProfile × SyncState) → Type 0
IsRefusal (err e) = Unit
IsRefusal (ok (p, SyncState.other_device)) = Unit
IsRefusal (ok (p, SyncState.configured)) = ⊥
IsRefusal (ok (p, SyncState.mock_only)) = ⊥
IsRefusal (ok (p, SyncState.not_configured)) = ⊥

module _ (settings : Settings) (o : Outside) (row : PetRow) (s : PersonalityService)
    (k : settings.hardware_driver ≡ HardwareDriver.local_k1) where
  sync_profile-cases :
      (profile : Option RuntimeProfile)
      → (IsRefusal (sync_profile settings o row profile s).0
          × ((sync_profile settings o row profile s).1 ≡ s))
        ⊎ ((p : RuntimeProfile) × (sync_profile settings o row profile s ≡ activate o p s))
  sync_profile-cases none = inl (tt, refl)
  sync_profile-cases (some p) =
      rw k (elim (Bool-cases (is_device (read_device_serial o.serial) row.device.serial_number)) [
        | inl t ↦ inr (p, (rw t refl))
        | inr n ↦ (rw n (inl (tt, refl)))
      ])

Holds-IsHeld :
    (p : RuntimeProfile) (file : Option RuntimeProfile) → Holds p file → IsHeld (some p) file
Holds-IsHeld p none h = absurd h
Holds-IsHeld p (some f) h = h

module _ (settings : Settings) (o : Outside) (row : PetRow) (s : PersonalityService)
    (k : settings.hardware_driver ≡ HardwareDriver.local_k1) where
  -- On the real device, if the file agreed with the active profile before, a synchronization that
  -- answers that the pet is configured leaves its profile active, and in the file one of the same
  -- revision, whether it wrote the file or found it up to date.
  pub sync_pet-configured :
      (p : RuntimeProfile) (s' : PersonalityService)
      → IsSynced s
      → sync_pet settings o row s ≡ (ok (p, SyncState.configured), s')
      → (s'.active_profile ≡ some p) × Holds p s'.file
  unfolding sync_pet
  sync_pet-configured p s' i h =
      elim (sync_profile-cases settings o row s k
        (build_profile o.revision_of settings.enable_tail_motion row)) [
          | inl (r, e) ↦ absurd (subst (λ x. IsRefusal x.0) h r)
          | inr (q, e) ↦
              let r = activate_ok o q s (p, SyncState.configured) s' (sym e ∙ h) in
              subst (λ x. (s'.active_profile ≡ some x) × Holds x s'.file) (ap (λ y. y.0) (sym r.0))
                (r.1, subst (Holds q) (sym r.2) (held o q s s.active_profile s.file i))
        ]

  -- On the real device, a synchronization keeps the agreement between the active profile and the file,
  -- however it ends.
  pub sync_pet-IsSynced : IsSynced s → IsSynced (sync_pet settings o row s).1
  unfolding sync_pet
  sync_pet-IsSynced i =
      elim (sync_profile-cases settings o row s k
        (build_profile o.revision_of settings.enable_tail_motion row)) [
          | inl (r, e) ↦ subst IsSynced (sym e) i
          | inr (q, e) ↦ elim (Exec-cases (activate o q s)) [
            | inl (x, s', f) ↦
                subst IsSynced (sym (ap (λ y. y.1) (e ∙ f) ∙ activate_err o q s x s' f)) i
            | inr (y, s', f) ↦
                let r = activate_ok o q s y s' f in
                subst IsSynced (sym (ap (λ z. z.1) (e ∙ f))) (
                  subst (λ a. IsHeld a s'.file) (sym r.1)
                    (Holds-IsHeld q s'.file
                      (subst (Holds q) (sym r.2) (held o q s s.active_profile s.file i))))
          ]
        ]

module _ (settings : Settings) (o : Outside) (s : PersonalityService)
    (k : settings.hardware_driver ≡ HardwareDriver.local_k1) where
  ended_state : (r : Result (RuntimeProfile × SyncState) × PersonalityService) → (ended r).1 ≡ r.1
  ended_state (err e, s') = refl
  ended_state (ok a, s') = refl

  initialize_pet-IsSynced :
      (row : Option PetRow) → IsSynced s → IsSynced (initialize_pet settings o row s).1
  initialize_pet-IsSynced none i = i
  initialize_pet-IsSynced (some row) i =
      subst IsSynced (sym (ended_state (sync_pet settings o row s)))
        (sync_pet-IsSynced settings o row s k i)

  initialize_serial-IsSynced :
      (find_pet : String → Option PetRow) (serial : Option String)
      → IsSynced s
      → IsSynced (initialize_serial settings o find_pet serial s).1
  initialize_serial-IsSynced find_pet none i = i
  initialize_serial-IsSynced find_pet (some serial) i = initialize_pet-IsSynced (find_pet serial) i

  initialize-eq :
      (find_pet : String → Option PetRow)
      → initialize settings o find_pet s
        ≡ initialize_serial settings o find_pet (read_device_serial o.serial) s
  unfolding initialize
  initialize-eq find_pet = ground arith

  -- On the real device, the start of the service keeps the agreement between the active profile and the
  -- file too, whichever pet is found.
  pub initialize-IsSynced :
      (find_pet : String → Option PetRow)
      → IsSynced s
      → IsSynced (initialize settings o find_pet s).1
  initialize-IsSynced find_pet i =
      subst (λ x. IsSynced x.1) (sym (initialize-eq find_pet))
        (initialize_serial-IsSynced find_pet (read_device_serial o.serial) i)
