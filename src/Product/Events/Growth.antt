-- ===== src/Product/Events/Growth.antt =====
-- The voice process only appends to its file: what was read from it before is read again.
use ai_cat_controller.Base.{
  ℕ, ◌≤◌, ◌≡◌, refl, ap, ◌∙◌, String, Option, none, some, List, [], ◌∷◌, ◌++◌, arith,
}
use ai_cat_controller.Base.Int.{ℤ}
use ai_cat_controller.Repository.Dialogs.{NativeEvent}
use ai_cat_controller.Exec.{Result, ok, err}
use ai_cat_controller.Product.Events.{
  EventFile, Line, checked_events, joined, line_event, with_event, Turn, next_turns, normalize_from,
  normalize_native_turn_ids, normalized, read_native_dialog_events,
}

-- A reading that succeeds, split where lines were appended.
abbrev Splits : (ℤ → Result String) → List Line → List Line → List NativeEvent → Type 0
Splits isoformat ls ms es =
    (old : List NativeEvent) × (new : List NativeEvent) × (checked_events isoformat ls ≡ ok old)
    × (checked_events isoformat ms ≡ ok new)
    × (es ≡ old ++ new)

joined-ok :
    (o : Result (Option NativeEvent)) (r : Result (List NativeEvent)) (es : List NativeEvent)
    → joined o r ≡ ok es
    → (e : Option NativeEvent) × (rest : List NativeEvent) × (o ≡ ok e)
      × (r ≡ ok rest)
      × (es ≡ with_event e rest)
joined-ok (err x) r es h = absurd (ground arith)
joined-ok (ok e) (err x) es h = absurd (ground arith)
joined-ok (ok e) (ok rest) es h = (e, rest, refl, refl, ground arith)

with_event-append :
    (o : Option NativeEvent) (es fs : List NativeEvent)
    → with_event o (es ++ fs) ≡ with_event o es ++ fs
with_event-append none es fs = refl
with_event-append (some e) es fs = refl

checked_events-append :
    (isoformat : ℤ → Result String) (ls ms : List Line) (es : List NativeEvent)
    → checked_events isoformat (ls ++ ms) ≡ ok es
    → Splits isoformat ls ms es
unfolding checked_events
checked_events-append isoformat [] ms es h = ([], es, refl, h, refl)
checked_events-append isoformat (l ∷ ls) ms es h =
    let (o, rest, first, later, all) =
      joined-ok (line_event isoformat l) (checked_events isoformat (ls ++ ms)) es h in
    let (old, new, before, after, split) = checked_events-append isoformat ls ms rest later in
    (
      with_event o old,
      new,
      ap (λ r. joined r (checked_events isoformat ls)) first ∙ ap (joined (ok o)) before,
      after,
      all ∙ ap (with_event o) split ∙ with_event-append o old new,
    )

module _ (digest : String → String) where
  -- the turns after some events
  turns_after : List Turn → List NativeEvent → List Turn
  turns_after turns [] = turns
  turns_after turns (e ∷ es) = turns_after (next_turns digest turns e) es

  normalize_from-append :
      (turns : List Turn) (es fs : List NativeEvent)
      → normalize_from digest turns (es ++ fs)
        ≡ normalize_from digest turns es ++ normalize_from digest (turns_after turns es) fs
  unfolding normalize_from turns_after
  normalize_from-append turns [] fs = refl
  normalize_from-append turns (e ∷ es) fs =
      rw (normalize_from-append (next_turns digest turns e) es fs) refl

  normalized-ok :
      (r : Result (List NativeEvent)) (es : List NativeEvent)
      → normalized digest r ≡ ok es
      → (raw : List NativeEvent) × (r ≡ ok raw) × (es ≡ normalize_native_turn_ids digest raw)
  normalized-ok (err e) es h = absurd (ground arith)
  normalized-ok (ok raw) es h = (raw, refl, ground arith)

  -- When whole lines are appended to the file, the file has not passed 4 MiB, and the reading of it
  -- succeeds, then it succeeded before as well, and the events that were read before are read again, each
  -- with the same turn, in front of the new ones.
  pub read_native_dialog_events-append :
      (isoformat : ℤ → Result String) (before after : ℕ) (ls ms : List Line) (es : List NativeEvent)
      → before ≤ after
      → after ≤ 4194304
      → read_native_dialog_events digest isoformat (EventFile.readable after (ls ++ ms)) ≡ ok es
      → (old : List NativeEvent) × (news : List NativeEvent) × (read_native_dialog_events digest
            isoformat
            (EventFile.readable before ls)
          ≡ ok old)
        × (es ≡ old ++ news)
  unfolding read_native_dialog_events normalize_native_turn_ids
  read_native_dialog_events-append isoformat before after ls ms es le small h =
      let (raw, read, turned) =
        normalized-ok (checked_events isoformat (ls ++ ms)) es (ground arith) in
      let (old, new, was, is, split) = checked_events-append isoformat ls ms raw read in
      (
        normalize_from digest [] old,
        normalize_from digest (turns_after [] old) new,
        ground (arith, was),
        turned ∙ ap (normalize_from digest []) split ∙ normalize_from-append [] old new,
      )
