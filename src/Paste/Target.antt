-- ===== src/Paste/Target.antt =====
-- `ConfirmedPaste` of crates/vbuff-platform/src/confirmed_paste.rs. The native calls are those of the
-- desktop: a method takes their answers, and says into which target it sent the keystroke, if it did.
-- `T` is a native target. The variants of `PasteError` stand for the messages.
use Prim.Native.String.{String}
use vbuff.Base.{Bool, not, Option, none, some}
use vbuff.Base.Results
use vbuff.Base.Results.{ok, err, ok_or, fail_if, ◌>>=◌, ◌>>◌}
use vbuff.Paste.Guard.{PasteGuardDecision}

pub data PasteError : Type 0 where
  not_captured not_foreground backend_unavailable clipboard_unavailable ledger_poisoned write_failed
        exclusion_required unverifiable target_timed_out :
      PasteError
  blocked : PasteGuardDecision → PasteError
  native : String → PasteError

abbrev pub Result : Type 0 → Type 0
Result A = Results.Result PasteError A

pub record ConfirmedPaste (T : Type 0) : Type 0 where
  pub target : Option T

module _ {T : Type 0} where
  unfoldable pub clear_target : ConfirmedPaste T → ConfirmedPaste T
  clear_target p = record { target = none }

  -- With the answer of `native::capture`.
  unfoldable pub capture_target : ConfirmedPaste T → Result T → ConfirmedPaste T × Result (Unit {0})
  capture_target p (ok target) = (record { target = some target }, ok tt)
  capture_target p (err e) = (record { target = none }, err e)

  unfoldable pub restore_target : ConfirmedPaste T → (T → Result (Unit {0})) → Result (Unit {0})
  restore_target p restore = do target ← ok_or p.target not_captured; restore target

  unfoldable pub target_is_foreground : ConfirmedPaste T → (T → Result Bool) → Result Bool
  target_is_foreground p is_foreground = do
    target ← ok_or p.target not_captured
    is_foreground target

  -- The target, where it is confirmed to be in front.
  unfoldable pub confirm : ConfirmedPaste T → (T → Result Bool) → Result T
  confirm p is_foreground = do
    target ← ok_or p.target not_captured
    confirmed ← is_foreground target
    fail_if (not confirmed) not_foreground
    ok target

  abbrev pub inject_into :
      ConfirmedPaste T
      → Result (Unit {0})
      → Result T
      → ConfirmedPaste T × Result (Unit {0}) × Option T
  inject_into p injected (err e) = (p, err e, none)
  inject_into p injected (ok target) = (record { target = none }, injected, some target)

  -- With the answers of `native::is_foreground` and of the injection.
  unfoldable pub paste :
      ConfirmedPaste T
      → (T → Result Bool)
      → Result (Unit {0})
      → ConfirmedPaste T × Result (Unit {0}) × Option T
  unfolding confirm
  paste p is_foreground injected = inject_into p injected (confirm p is_foreground)
