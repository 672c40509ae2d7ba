-- ===== src/Device/Liveness.antt =====
-- What stands behind a status of the voice process that is shown as current.
use ai_cat_controller.Base.{
  ℕ, ◌≡◌, ◌⊎◌, refl, ap, sym, ◌∙◌, inl, inr, true, false, arith, ◌==◌, Bool-cases,
}
use ai_cat_controller.Base.Int.{ℤ, pos, ◌≤ℤ◌, ◌+ℤ◌, ltb_ℤ, +ℤ_parts, -ℤ_parts}
use ai_cat_controller.Exec.{ok}
use ai_cat_controller.Autonomy.Values.{Value, Members, get, get_or}
use ai_cat_controller.Device.Reports.{
  DialogStatus, Python, StatusFile, is_stale, offline_dialog_status, payload_status,
  read_dialog_status, safe_int, stated, unavailable_dialog_status,
}

abbrev pub pid_of : Members → ℤ
pid_of payload = safe_int (get_or "pid" (Value.number (pos 0)) payload)

abbrev pub updated_at_of : Members → ℤ
updated_at_of payload = safe_int (get_or "updated_at_ms" (Value.number (pos 0)) payload)

-- The object's own time of update is after the time that is half a minute before the reading, perhaps even
-- after the reading; or its process is there.
abbrev pub IsCurrent : Python → ℕ → Members → Type 0
IsCurrent py now_ms payload =
    (pos now_ms ≤ℤ updated_at_of payload +ℤ pos 30000)
    ⊎ ((ltb_ℤ (pos 0) (pid_of payload) ≡ true) × (py.process_exists (pid_of payload) ≡ true))

is_stale-IsCurrent :
    (py : Python) (now_ms : ℕ) (payload : Members)
    → is_stale py now_ms payload ≡ false
    → IsCurrent py now_ms payload
is_stale-IsCurrent py now_ms payload h = ground (
  arith,
  -ℤ_parts (pos now_ms) (updated_at_of payload),
  +ℤ_parts (updated_at_of payload) (pos 30000),
)

-- what the file says, when the answer is made from it
abbrev pub Says : Python → ℕ → StatusFile → DialogStatus → Type 0
Says py now_ms f s =
    (payload : Members) × (f ≡ StatusFile.parsed (Value.object payload))
    × (get "state" payload ≡ Value.text s.state)
    × IsCurrent py now_ms payload

stated-IsCurrent :
    (py : Python) (now_ms : ℕ) (payload : Members) (v : Value) (s : DialogStatus)
    → stated py now_ms payload v ≡ s
    → s.stale ≡ false
    → (v ≡ Value.text s.state) × IsCurrent py now_ms payload
unfolding unavailable_dialog_status
stated-IsCurrent py now_ms payload (Value.text state) s h n = elim (Bool-cases (state == "")) [
  | inl e ↦ absurd (ground (arith, e))
  | inr e ↦
      let same : payload_status py now_ms payload state ≡ s = ground (arith, e) in
      (
        ap (λ x. Value.text x.state) same,
        is_stale-IsCurrent py now_ms payload (ap (λ x. x.stale) same ∙ n),
      )
]
stated-IsCurrent py now_ms payload Value.null s h n = absurd (ground arith)
stated-IsCurrent py now_ms payload (Value.boolean b) s h n = absurd (ground arith)
stated-IsCurrent py now_ms payload (Value.number i) s h n = absurd (ground arith)
stated-IsCurrent py now_ms payload (Value.array vs) s h n = absurd (ground arith)
stated-IsCurrent py now_ms payload (Value.object ms) s h n = absurd (ground arith)

-- A status that is neither stale nor "offline" is read from a file that holds an object with that state.
-- The `updated_at_ms` that the object gives, as an integer, is at most 30,000 below the clock (it may be
-- above it), or the object's `pid` is a positive number of a process that is there.
pub read_dialog_status-IsCurrent :
    (py : Python) (now_ms : ℕ) (f : StatusFile) (s : DialogStatus)
    → read_dialog_status py now_ms f ≡ ok s
    → s.stale ≡ false
    → (s.state == "offline") ≡ false
    → Says py now_ms f s
unfolding read_dialog_status unavailable_dialog_status offline_dialog_status
read_dialog_status-IsCurrent py now_ms StatusFile.too_large s h n o = absurd (ground arith)
read_dialog_status-IsCurrent py now_ms StatusFile.missing s h n o =
    let state : s.state ≡ "offline" = ground arith in
    let contradiction : true ≡ false = sym (ap (λ x. x == "offline") state) ∙ o in
    absurd (ground arith)
read_dialog_status-IsCurrent py now_ms (StatusFile.unreadable text) s h n o = absurd (ground arith)
read_dialog_status-IsCurrent py now_ms (StatusFile.parsed (Value.object payload)) s h n o =
    let same : stated py now_ms payload (get "state" payload) ≡ s = ground arith in
    let (state, current) = stated-IsCurrent py now_ms payload (get "state" payload) s same n in
    (payload, refl, state, current)
read_dialog_status-IsCurrent py now_ms (StatusFile.parsed _) s h n o = absurd (ground arith)
