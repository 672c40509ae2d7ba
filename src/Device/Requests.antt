-- ===== src/Device/Requests.antt =====
-- adapters/local_k1.py: the requests that a text or a text to speak leaves for the voice process.
use Prim.Native.String.{◌++◌ as text_append}
use ai_cat_controller.Base.{
  text_length, ℕ, ◌≤◌, ◌≡◌, ◌≢◌, ◌⊎◌, inl, inr, ap, sym, ◌∙◌, String, Bool, true, false, not,
  Option, none, some, [], ◌∷◌, ◌==◌, ◌||◌, arith, eq_iff, ltb, is_some, if◌then◌else◌,
}
use ai_cat_controller.Base.Int.{pos, eqb_ℤ}
use ai_cat_controller.Errors.{Exception, ai_cat, value_error, device_unavailable, action_conflict}
use ai_cat_controller.Exec.{Result, ok, err, Exec, lift, Exec-cases, ◌>>◌}
use ai_cat_controller.Commands.Runner.{CommandResult}
use ai_cat_controller.Commands.Factory.{CommandSettings}
use ai_cat_controller.Device.Motors.{Run}

pub data RequestKind : Type 0 where
  question speak : RequestKind

pub record DialogRequest : Type 0 where
  pub kind : RequestKind
  pub request_id : String
  pub content : String
  pub created_at_ms : ℕ

-- The file at `dialog_text_request_path`, if there is one.
pub record RequestFile : Type 0 where
  pub request : Option DialogRequest

-- `_write_dialog_request`; `written` is how the writing of the temporary file and its renaming end.
-- A failure there leaves no file at the path.
unfoldable pub write_dialog_request :
    ℕ → Result (Unit {0}) → String → String → RequestKind → Exec RequestFile Unit
write_dialog_request now_ms written content request_id kind f =
    if is_some f.request
    then (err (ai_cat action_conflict "已有文字或播报请求等待语音进程处理"), f)
    else if content == "" || ltb 500 (text_length content)
    then (err (value_error "对话文本长度必须为 1 到 500 个字符"), f)
    else if request_id == "" || ltb 64 (text_length request_id)
    then (err (value_error "对话 request_id 无效"), f)
    else elim written [
      | err e ↦ (err e, f)
      | ok _ ↦ (
        ok tt,
        record {
          request = some (record {
            kind = kind;
            request_id = request_id;
            content = content;
            created_at_ms = now_ms;
          });
        },
      )
    ]

abbrev signal_judged : Result CommandResult → Result (Unit {0})
signal_judged (err e) = err e
signal_judged (ok r) =
    if r.timed_out
    then err (ai_cat device_unavailable "发送对话控制信号超时")
    else if not (eqb_ℤ r.returncode (pos 0))
    then err (ai_cat device_unavailable "发送对话控制信号失败")
    else ok tt

-- `_signal_dialog`
unfoldable pub signal_dialog : CommandSettings → Run → String → Result (Unit {0})
signal_dialog s run signal_name =
    signal_judged (
      run s.systemctl_binary ("kill" ∷ text_append "--signal=" signal_name ∷ s.dialog_service ∷ []))

-- `except Exception` catches all but the cancellation
abbrev pub is_exception : Exception → Bool
is_exception Exception.cancelled = false
is_exception _ = true

-- `unlink(missing_ok=True)` and the `raise` behind it; where the unlinking raises, its own exception goes on
abbrev pub taken_away : Result (Unit {0}) → Exception → Exec RequestFile Unit
taken_away (ok _) e f = (err e, record { request = none })
taken_away (err u) e f = (err u, f)

-- how the signal behind a written request ended: where it raised an `Exception`, the file is taken away
-- again; `unlinked` is how that ends
unfoldable pub signal_or_unlink : Result (Unit {0}) → Result (Unit {0}) → Exec RequestFile Unit
signal_or_unlink unlinked (ok _) f = (ok tt, f)
signal_or_unlink unlinked (err e) f = if is_exception e then taken_away unlinked e f else (err e, f)

-- How what a call waits for ends: `_ensure_dialog_ready`, the writing and the renaming of the file, and
-- its unlinking; and whether the call is cancelled while the thread writes; the thread then ends its
-- work all the same.
pub record Course : Type 0 where
  pub ready : Result (Unit {0})
  pub written : Result (Unit {0})
  pub unlinked : Result (Unit {0})
  pub cancelled_writing : Bool

-- `asyncio.to_thread`
abbrev pub awaited : Bool → Exec RequestFile Unit → Exec RequestFile Unit
awaited cancelled_writing m f =
    if cancelled_writing then (err Exception.cancelled, (m f).1) else m f

-- `send_text_dialog` and `speak_text`, by the kind of the request
unfoldable pub send_dialog :
    CommandSettings → Run → ℕ → Course → RequestKind → String → String → Exec RequestFile Unit
unfolding write_dialog_request
send_dialog s run now_ms c kind content request_id = do
  lift c.ready
  awaited c.cancelled_writing (write_dialog_request now_ms c.written content request_id kind)
  signal_or_unlink c.unlinked (signal_dialog s run "SIGHUP")

abbrev pub HasRequest : RequestKind → String → String → Option DialogRequest → Type 0
HasRequest kind content request_id none = ⊥
HasRequest kind content request_id (some r) =
    (r.kind ≡ kind) × (r.content ≡ content) × (r.request_id ≡ request_id)

-- Where a sequence of two calls raises, the first raises or the second does.
sequence-err :
    (m k : Exec RequestFile Unit) (f f' : RequestFile) (e : Exception)
    → (m >> k) f ≡ (err e, f')
    → (m f ≡ (err e, f')) ⊎ ((d : RequestFile) × (m f ≡ (ok tt, d)) × (k d ≡ (err e, f')))
sequence-err m k f f' e h = elim (Exec-cases (m f)) [
  | inl (x, d, g) ↦ inl (ground (arith, g))
  | inr (x, d, g) ↦ inr (d, g, ground (arith, g))
]

awaited-err :
    (b : Bool) (m : Exec RequestFile Unit) (f f' : RequestFile) (e : Exception)
    → awaited b m f ≡ (err e, f')
    → (m f ≡ (err e, f')) ⊎ (e ≡ Exception.cancelled)
awaited-err true m f f' e h = inr (ground arith)
awaited-err false m f f' e h = inl h

awaited-ok :
    (b : Bool) (m : Exec RequestFile Unit) (f f' : RequestFile)
    → awaited b m f ≡ (ok tt, f')
    → m f ≡ (ok tt, f')
awaited-ok true m f f' h = absurd (ground arith)
awaited-ok false m f f' h = h

signal_or_unlink-err :
    (unlinked r : Result (Unit {0})) (f f' : RequestFile) (e : Exception)
    → signal_or_unlink unlinked r f ≡ (err e, f')
    → (f' ≡ record { request = none }) ⊎ (e ≡ Exception.cancelled) ⊎ (unlinked ≡ err e)
unfolding signal_or_unlink
signal_or_unlink-err unlinked r f f' e h = ground arith

module _ (now_ms : ℕ) (written : Result (Unit {0})) (content request_id : String)
    (kind : RequestKind) (f f' : RequestFile) where
  write_dialog_request-err :
      (e : Exception)
      → write_dialog_request now_ms written content request_id kind f ≡ (err e, f')
      → f' ≡ f
  unfolding write_dialog_request
  write_dialog_request-err e h = ground arith

  write_dialog_request-ok :
      write_dialog_request now_ms written content request_id kind f ≡ (ok tt, f')
      → f ≡ record { request = none }
  unfolding write_dialog_request
  write_dialog_request-ok h = ground arith

module _ (s : CommandSettings) (run : Run) (now_ms : ℕ) (c : Course) (kind : RequestKind)
    (content request_id : String) (f : RequestFile) where
  -- A call that raises leaves the file as it found it, unless it was cancelled, or raised what the taking
  -- away of the file had raised.
  pub send_dialog-err :
      (e : Exception) (f' : RequestFile)
      → send_dialog s run now_ms c kind content request_id f ≡ (err e, f')
      → (f' ≡ f) ⊎ (e ≡ Exception.cancelled) ⊎ (c.unlinked ≡ err e)
  unfolding send_dialog
  send_dialog-err e f' h =
      let write : Exec RequestFile Unit =
        write_dialog_request now_ms c.written content request_id kind in
      let signal : Exec RequestFile Unit =
        signal_or_unlink c.unlinked (signal_dialog s run "SIGHUP") in
      elim (sequence-err (lift c.ready) (awaited c.cancelled_writing write >> signal) f f' e h) [
        | inl g ↦ inl (sym (ap (λ x. x.1) g))
        | inr (d, g, q) ↦
            let same : d ≡ f = sym (ap (λ x. x.1) g) in
            elim (sequence-err (awaited c.cancelled_writing write) signal d f' e q) [
              | inl w ↦ elim (awaited-err c.cancelled_writing write d f' e w) [
                | inl v ↦ inl (
                    write_dialog_request-err now_ms c.written content request_id kind d f' e v
                    ∙ same)
                | inr v ↦ inr (inl v)
              ]
              | inr (d', w, v) ↦
                  let empty =
                    write_dialog_request-ok now_ms c.written content request_id kind d d'
                      (awaited-ok c.cancelled_writing write d d' w) in
                  elim (signal_or_unlink-err c.unlinked (signal_dialog s run "SIGHUP") d' f' e v) [
                    | inl gone ↦ inl (gone ∙ sym empty ∙ same)
                    | inr other ↦ inr other
                  ]
            ]
      ]

  -- A call that returns found no waiting request, a service that was ready and a text of at most 500
  -- characters, and has left the request for the service.
  pub send_dialog-ok :
      (f' : RequestFile)
      → send_dialog s run now_ms c kind content request_id f ≡ (ok tt, f')
      → (f.request ≡ none)
        × (c.ready ≡ ok tt)
        × (content ≢ "")
        × (text_length content ≤ 500)
        × HasRequest kind content request_id f'.request
  unfolding send_dialog signal_or_unlink
  send_dialog-ok f' h = ground (arith, eq_iff content "")
