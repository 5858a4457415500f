-- ===== src/Paste/Coordinator.antt =====
-- `PasteCoordinator` of src/paste.rs over the confirmed paste backend. The clipboard and the desktop are
-- outside: an operation takes the answers that they give during it, in the order of its calls, and
-- `poll` says into which target a keystroke went. The content hash that the self-write ledger files
-- is a parameter. Instants are nanoseconds.
pub mod Confirmed
pub mod Once
pub mod Scheduled
pub mod Sensitive
use vbuff.Base.{
  ℕ, ◌+◌, ◌-◌, ◌*◌, Bool, true, false, not, ◌&&◌, ltb, if◌then◌else◌, Option, none, some, List, [],
  ◌∷◌, Bytes,
}
use vbuff.Base.Results.{ok, err, ok_or, fail_if, ◌>>=◌, ◌>>◌}
use vbuff.Types.Flavor.{Flavor}
use vbuff.Capture.SelfWrite.{SelfWriteLedger, register}
use vbuff.Paste.Guard.{
  PasteGuardFingerprint, PasteGuardDecision, allow, GuardOps, from_flavors, compare_guard,
}
use vbuff.Paste.Target.{
  PasteError, backend_unavailable, clipboard_unavailable, ledger_poisoned, write_failed,
  exclusion_required, unverifiable, target_timed_out, blocked, Result, ConfirmedPaste, clear_target,
  capture_target, restore_target, target_is_foreground, paste,
}

abbrev pub from_millis : ℕ → ℕ
from_millis ms = ms * 1_000_000

abbrev pub paste_delay : ℕ
paste_delay = from_millis 120

abbrev pub focus_confirm_delay : ℕ
focus_confirm_delay = from_millis 35

abbrev pub focus_confirm_timeout : ℕ
focus_confirm_timeout = from_millis 350

pub data PendingStage : Type 0 where
  restoring : PendingStage
  confirming : ℕ → PendingStage

pub data PasteOutcome : Type 0 where
  scheduled copied_only : PasteOutcome

pub data ClipboardRetention : Type 0 where
  unspecified system_default prefer_exclude require_exclude : ClipboardRetention

pub data ClipboardWriteReceipt : Type 0 where
  no_retention_requested retention_hint_applied retention_hint_unsupported : ClipboardWriteReceipt

-- Whether there is a clipboard writer, and the paste backend.
pub record PasteCoordinator (T : Type 0) : Type 0 where
  pub clipboard : Bool
  pub paste : Option (ConfirmedPaste T)
  pub pending_at : Option ℕ
  pub pending_stage : Option PendingStage
  pub pending_guard : Option PasteGuardFingerprint
  pub target_ready : Bool
  pub self_writes : SelfWriteLedger

-- The nonce, whether the lock is held, what the write gives by its retention, the instant of the
-- registration, and how long the write takes.
pub record CopyAnswers : Type 0 where
  pub nonce : Bytes
  pub locked : Bool
  pub write : ClipboardRetention → Option ClipboardWriteReceipt
  pub written_at : ℕ
  pub write_duration : ℕ

pub record PollAnswers (T : Type 0) : Type 0 where
  pub restored : T → Result (Unit {0})
  pub foreground : T → Result Bool
  pub read : Option (List Flavor)
  -- The answer to the question that the backend asks once more, right before the keystroke.
  pub foreground_again : T → Result Bool
  pub injected : Result (Unit {0})

abbrev pub is_some {ℓ} : {A : Type ℓ} → Option A → Bool
is_some none = false
is_some (some a) = true

abbrev pub map_option {ℓ κ} : {A : Type ℓ} {B : Type κ} → (A → B) → Option A → Option B
map_option f none = none
map_option f (some a) = some (f a)

abbrev pub retention_for : Bool → ClipboardRetention
retention_for true = require_exclude
retention_for false = prefer_exclude

abbrev pub is_applied : ClipboardWriteReceipt → Bool
is_applied retention_hint_applied = true
is_applied _ = false

abbrev pub is_allowed : PasteGuardDecision → Bool
is_allowed allow = true
is_allowed _ = false

module _ {T : Type 0} where
  unfoldable pub cancel_pending : PasteCoordinator T → PasteCoordinator T
  cancel_pending c = record c { pending_at = none; pending_stage = none; pending_guard = none }

  unfoldable pub cancel_target : PasteCoordinator T → PasteCoordinator T
  unfolding clear_target
  cancel_target c = record c { target_ready = false; paste = map_option clear_target c.paste }

  abbrev pub prepared :
      PasteCoordinator T → ConfirmedPaste T × Result (Unit {0}) → PasteCoordinator T × Bool
  prepared c (backend, ok _) = (record c { paste = some backend; target_ready = true }, true)
  prepared c (backend, err e) = (record c { paste = some backend; target_ready = false }, false)

  abbrev pub prepare_with :
      PasteCoordinator T → Option (ConfirmedPaste T) → Result T → PasteCoordinator T × Bool
  prepare_with c none captured = (record c { target_ready = false }, false)
  prepare_with c (some backend) captured =
      prepared c (capture_target (clear_target backend) captured)

  unfoldable pub prepare_target : PasteCoordinator T → Result T → PasteCoordinator T × Bool
  unfolding cancel_pending clear_target capture_target
  prepare_target c captured = prepare_with (cancel_pending c) c.paste captured

  abbrev pub check_copy : PasteCoordinator T → Bool → CopyAnswers → Result (Unit {0})
  check_copy c sensitive a = do
    fail_if (not c.clipboard) clipboard_unavailable
    fail_if (not a.locked) ledger_poisoned
    receipt ← ok_or (a.write (retention_for sensitive)) write_failed
    fail_if (sensitive && not (is_applied receipt)) exclusion_required

  -- What follows the copy.
  abbrev pub arm :
      Option PasteGuardFingerprint
      → ℕ
      → PasteCoordinator T × Result (Unit {0})
      → PasteCoordinator T × Result PasteOutcome
  arm guard at (c, err e) = (cancel_target c, err e)
  arm (some guard) at (c, ok _) = (
    record c { pending_guard = some guard; pending_stage = some restoring; pending_at = some at },
    ok scheduled,
  )
  arm none at (c, ok _) = (cancel_target c, ok copied_only)

  -- `std::mem::take`, where there is a backend.
  abbrev pub take_ready : PasteCoordinator T → PasteCoordinator T
  take_ready c = if is_some c.paste then record c { target_ready = false } else c

  unfoldable pub wait_duration : PasteCoordinator T → ℕ → Option ℕ
  wait_duration c now = map_option (λ due. due - now) c.pending_at

-- What `poll` returns, with the target of the keystroke if it was sent.
abbrev pub Polled : Type 0 → Type 0
Polled T = PasteCoordinator T × Option (Result (Unit {0})) × Option T

-- The guard of an automatic paste, where there is to be one.
abbrev pub guard_for : GuardOps → Bool → List Flavor → Result (Option PasteGuardFingerprint)
guard_for guard_ops false flavors = ok none
guard_for guard_ops true flavors = do
  guard ← ok_or (from_flavors guard_ops flavors) unverifiable
  ok (some guard)

module _ {T : Type 0} (guard_ops : GuardOps) (content_hash : List Flavor → Bytes) (latest : ℕ) where
  unfoldable pub copy :
      PasteCoordinator T → List Flavor → Bool → CopyAnswers → PasteCoordinator T × Result (Unit {0})
  unfolding cancel_pending register
  copy c flavors sensitive a = elim (check_copy c sensitive a) [
    | err e ↦ (cancel_pending c, err e)
    | ok _ ↦ (
      record (cancel_pending c) {
        self_writes = register latest c.self_writes (content_hash flavors) a.nonce a.written_at;
      },
      ok tt,
    )
  ]

  unfoldable pub schedule :
      PasteCoordinator T
      → List Flavor
      → Bool
      → ℕ
      → CopyAnswers
      → PasteCoordinator T × Result PasteOutcome
  unfolding copy cancel_target from_flavors
  schedule c flavors sensitive now a =
      elim (guard_for guard_ops (is_some c.paste && c.target_ready) flavors) [
        | err e ↦ (cancel_target (take_ready c), err e)
        | ok guard ↦
            arm guard (now + a.write_duration + paste_delay)
              (copy (take_ready c) flavors sensitive a)
      ]

module _ {T : Type 0} where
  abbrev pub abandon : PasteCoordinator T → PasteError → Polled T
  abandon c e = (cancel_target (cancel_pending c), some (err e), none)

  abbrev pub injected_with :
      PasteCoordinator T → ConfirmedPaste T × Result (Unit {0}) × Option T → Polled T
  injected_with c (backend, result, target) =
      (cancel_target (record c { paste = some backend }), some result, target)

  abbrev pub inject : PasteCoordinator T → Option (ConfirmedPaste T) → PollAnswers T → Polled T
  inject c none a = (cancel_target c, some (err backend_unavailable), none)
  inject c (some backend) a = injected_with c (paste backend a.foreground_again a.injected)

  abbrev pub restore_step : PasteCoordinator T → ℕ → Result (Unit {0}) → Polled T
  restore_step c now (err e) = abandon c e
  restore_step c now (ok _) = (
    record c {
      pending_stage = some (confirming (now + focus_confirm_timeout));
      pending_at = some (now + focus_confirm_delay);
    },
    none,
    none,
  )

abbrev pub observed_in : GuardOps → Bool → Option (List Flavor) → Option PasteGuardFingerprint
observed_in guard_ops true (some content) = from_flavors guard_ops content
observed_in guard_ops _ _ = none

abbrev pub decision_of :
    Option PasteGuardFingerprint → Option PasteGuardFingerprint → PasteGuardDecision
decision_of none observed = PasteGuardDecision.block_unreadable
decision_of (some expected) observed = compare_guard expected observed

module _ {T : Type 0} (guard_ops : GuardOps) where
  abbrev pub decision_for : PasteCoordinator T → Option (List Flavor) → PasteGuardDecision
  decision_for c content = decision_of c.pending_guard (observed_in guard_ops c.clipboard content)

  unfoldable pub deliver : PasteCoordinator T → PollAnswers T → Polled T
  unfolding cancel_pending cancel_target compare_guard from_flavors paste
  deliver c a =
      let decision = decision_for c a.read in
      if not (is_allowed decision)
      then (cancel_target (cancel_pending c), some (err (blocked decision)), none)
      else inject (cancel_pending c) c.paste a

  abbrev pub confirm_step : PasteCoordinator T → ℕ → ℕ → PollAnswers T → Result Bool → Polled T
  confirm_step c now deadline a (err e) = abandon c e
  confirm_step c now deadline a (ok true) = deliver c a
  confirm_step c now deadline a (ok false) =
      if ltb now deadline
      then (record c { pending_at = some (now + focus_confirm_delay) }, none, none)
      else abandon c target_timed_out

  abbrev pub due_step : PasteCoordinator T → ℕ → PollAnswers T → Option PendingStage → Polled T
  due_step c now a none = (c, none, none)
  due_step c now a (some restoring) =
      restore_step c now
        (ok_or c.paste backend_unavailable >>= λ backend. restore_target backend a.restored)
  due_step c now a (some (confirming deadline)) =
      confirm_step c now deadline a
        (ok_or c.paste backend_unavailable >>= λ backend. target_is_foreground backend a.foreground)

  abbrev pub poll_at : PasteCoordinator T → ℕ → PollAnswers T → Option ℕ → Polled T
  poll_at c now a none = (c, none, none)
  poll_at c now a (some due) =
      if ltb now due then (c, none, none) else due_step c now a c.pending_stage

  unfoldable pub poll : PasteCoordinator T → ℕ → PollAnswers T → Polled T
  unfolding deliver cancel_pending cancel_target restore_target target_is_foreground
  poll c now a = poll_at c now a c.pending_at
