-- ===== src/Autonomy/Playing.antt =====
-- What the playing of a phrase leaves behind, and what it lets the player open.
use ai_cat_controller.Base.{
  String, ◌≡◌, ◌⊎◌, inl, inr, refl, ap, ◌∙◌, true, false, Option, none, some, [], ◌∷◌, ◌++◌, arith,
}
use ai_cat_controller.Errors.{Exception}
use ai_cat_controller.Exec.{Result, ok, err}
use ai_cat_controller.Autonomy.Setup.{AutonomyConfig}
use ai_cat_controller.Autonomy.Client.{World}
use ai_cat_controller.Autonomy.Speech.{
  Ending, Files, phrase_asset_path, play, play_asset, play_command, play_expected, play_resolved,
  resolved_asset,
}

-- The file is the one that the path of an allowed phrase leads to, below the root and no symbolic link.
abbrev pub IsAsset : AutonomyConfig → Files → String → String → String → Type 0
IsAsset c fs id phrase asset =
    (expected : String) × (root : String) × (phrase_asset_path c.local_speech_asset_root id phrase
      ≡ ok expected)
    × (fs.is_symlink expected ≡ false)
    × (fs.resolve expected ≡ some asset)
    × (fs.resolve c.local_speech_asset_root ≡ some root)
    × (fs.is_relative_to asset root ≡ true)
    × (fs.is_file asset ≡ true)

resolved_asset-ok :
    (fs : Files) (expected : String) (root asset : Option String) (a : String)
    → resolved_asset fs expected root asset ≡ ok a
    → (r : String) × (fs.is_symlink expected ≡ false)
      × (asset ≡ some a)
      × (root ≡ some r)
      × (fs.is_relative_to a r ≡ true)
      × (fs.is_file a ≡ true)
resolved_asset-ok fs expected none asset a h = absurd (ground arith)
resolved_asset-ok fs expected (some r) none a h = absurd (ground arith)
resolved_asset-ok fs expected (some r) (some b) a h =
    (r, ground arith, ground arith, refl, ground arith, ground arith)

Result-cases :
    {A : Type 0} (r : Result A) → ((e : Exception) × (r ≡ err e)) ⊎ ((a : A) × (r ≡ ok a))
Result-cases (err e) = inl (e, refl)
Result-cases (ok a) = inr (a, refl)

module _ (c : AutonomyConfig) (fs : Files) (ending : Ending) where
  play_asset_sent : (asset : String) (w : World) → (play_asset c fs ending asset w).1.sent ≡ w.sent
  play_asset_sent asset w = ground arith

  play_asset_marker :
      (asset : String) (w : World) → (play_asset c fs ending asset w).1.marker ≡ w.marker
  play_asset_marker asset w = ground arith

  play_asset_commands :
      (asset : String) (w : World)
      → ((play_asset c fs ending asset w).1.commands ≡ w.commands)
        ⊎ ((play_asset c fs ending asset w).1.commands ≡ w.commands ++ play_command c asset ∷ [])
  play_asset_commands asset w = ground arith

  -- Where the play stops before it opens the marker, or goes on with an asset.
  play-cases :
      (id phrase : String) (w : World)
      → ((e : Exception) × (play c fs ending id phrase w ≡ (err e, w)))
        ⊎ ((asset : String) × IsAsset c fs id phrase asset
            × (play c fs ending id phrase w ≡ play_asset c fs ending asset w))
  unfolding play
  play-cases id phrase w =
      elim (Result-cases (phrase_asset_path c.local_speech_asset_root id phrase)) [
        | inl (e, f) ↦ (rw f (inl (e, refl)))
        | inr (expected, f) ↦
            let found =
              resolved_asset fs expected (fs.resolve c.local_speech_asset_root)
                (fs.resolve expected) in
            elim (Result-cases found) [
              | inl (e, g) ↦ inl (
                e,
                ap (λ x. play_expected c fs ending x w) f
                    ∙ ap (λ x. play_resolved c fs ending x w) g,
              )
              | inr (asset, g) ↦
                  let (r, l, a, b, k, m) =
                    resolved_asset-ok fs expected (fs.resolve c.local_speech_asset_root)
                      (fs.resolve expected) asset g in
                  inr (
                    asset,
                    (expected, r, f, l, a, b, k, m),
                    ap (λ x. play_expected c fs ending x w) f
                        ∙ ap (λ x. play_resolved c fs ending x w) g,
                  )
            ]
      ]

  pub play_sent : (id phrase : String) (w : World) → (play c fs ending id phrase w).1.sent ≡ w.sent
  play_sent id phrase w = elim (play-cases id phrase w) [
    | inl (e, f) ↦ ap (λ x. x.1.sent) f
    | inr (asset, i, f) ↦ ap (λ x. x.1.sent) f ∙ play_asset_sent asset w
  ]

  -- However the playing of a phrase ends, the marker is there afterwards exactly if it was before: the
  -- call removes what it has made, and leaves the marker of another.
  pub play_marker :
      (id phrase : String) (w : World) → (play c fs ending id phrase w).1.marker ≡ w.marker
  play_marker id phrase w = elim (play-cases id phrase w) [
    | inl (e, f) ↦ ap (λ x. x.1.marker) f
    | inr (asset, i, f) ↦ ap (λ x. x.1.marker) f ∙ play_asset_marker asset w
  ]

  -- A call runs no command or one: the fixed player, on a file that lies below the root of the assets
  -- and that the path of an allowed phrase of the personality leads to without being a symbolic link.
  pub play_commands :
      (id phrase : String) (w : World)
      → ((play c fs ending id phrase w).1.commands ≡ w.commands)
        ⊎ ((asset : String) × IsAsset c fs id phrase asset
            × ((play c fs ending id phrase w).1.commands ≡ w.commands ++ play_command c asset ∷ []))
  play_commands id phrase w = elim (play-cases id phrase w) [
    | inl (e, f) ↦ inl (ap (λ x. x.1.commands) f)
    | inr (asset, i, f) ↦ elim (play_asset_commands asset w) [
      | inl g ↦ inl (ap (λ x. x.1.commands) f ∙ g)
      | inr g ↦ inr (asset, i, ap (λ x. x.1.commands) f ∙ g)
    ]
  ]
