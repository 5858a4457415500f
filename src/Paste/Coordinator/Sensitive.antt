-- ===== src/Paste/Coordinator/Sensitive.antt =====
-- What a sensitive clip demands of the clipboard.
use vbuff.Base.{
  ℕ, ◌+◌, ◌≡◌, ◌∙◌, refl, sym, ap, inl, inr, Bool, true, not, ◌&&◌, Option, some, List, arith,
  Bytes,
}
use vbuff.Base.Results.{
  ok, err, ok_or, fail_if, Result-cases, bind_inv, and_then, fail_if_inv, ok_or_inv, err_ne_ok,
  ◌>>=◌, ◌>>◌,
}
use vbuff.Types.Flavor.{Flavor}
use vbuff.Paste.Guard.{PasteGuardFingerprint, GuardOps}
use vbuff.Paste.Target.{
  clipboard_unavailable, ledger_poisoned, write_failed, exclusion_required, Result,
}
use vbuff.Paste.Coordinator.{
  PasteCoordinator, PasteOutcome, ClipboardWriteReceipt, no_retention_requested,
  retention_hint_applied, retention_hint_unsupported, require_exclude, is_applied, CopyAnswers,
  paste_delay, is_some, check_copy, copy, guard_for, arm, take_ready, schedule,
}

applied_inv :
    (receipt : ClipboardWriteReceipt) → is_applied receipt ≡ true → receipt ≡ retention_hint_applied
applied_inv no_retention_requested h = absurd (ground (arith, h))
applied_inv retention_hint_applied h = refl
applied_inv retention_hint_unsupported h = absurd (ground (arith, h))

module _ {T : Type 0} where
  check_copy_inv :
      (c : PasteCoordinator T) (a : CopyAnswers)
      → check_copy c true a ≡ ok tt
      → a.write require_exclude ≡ some retention_hint_applied
  check_copy_inv c a h =
      let excluded : ClipboardWriteReceipt → Result (Unit {0}) =
        λ receipt. fail_if (not (is_applied receipt)) exclusion_required in
      let written = ok_or (a.write require_exclude) write_failed >>= excluded in
      let locked = fail_if (not a.locked) ledger_poisoned in
      let (_, h) =
        and_then (fail_if (not c.clipboard) clipboard_unavailable) (locked >> written) tt h in
      let (_, h) = and_then locked written tt h in
      let (receipt, got, h) =
        bind_inv (ok_or (a.write require_exclude) write_failed) excluded tt h in
      let applied = fail_if_inv (not (is_applied receipt)) exclusion_required h in
      ok_or_inv (a.write require_exclude) write_failed receipt got
      ∙ ap (λ q. some q) (applied_inv receipt (ground (arith, applied)))

  arm-copied :
      (guard : Option PasteGuardFingerprint) (at : ℕ)
      (copied : PasteCoordinator T × Result (Unit {0})) (outcome : PasteOutcome)
      → (arm guard at copied).1 ≡ ok outcome
      → copied.1 ≡ ok tt
  arm-copied guard at (c, err e) outcome h = absurd (err_ne_ok h)
  arm-copied guard at (c, ok _) outcome h = refl

  module _ (ops : GuardOps) (content_hash : List Flavor → Bytes) (latest : ℕ) where
    copy-check_copy :
        (c : PasteCoordinator T) (flavors : List Flavor) (sensitive : Bool) (a : CopyAnswers)
        → (copy ops content_hash latest c flavors sensitive a).1 ≡ ok tt
        → check_copy c sensitive a ≡ ok tt
    unfolding copy
    copy-check_copy c flavors sensitive a h = elim (Result-cases (check_copy c sensitive a)) [
      | inl (e, bad) ↦ absurd (err_ne_ok {e = e} {t = tt} (sym (rw (bad, copy) refl) ∙ h))
      | inr (_, good) ↦ good
    ]

    -- A sensitive clip is copied, and its paste scheduled, only if the backend reports of the write that
    -- the clip is kept out of the history of the operating system.
    pub schedule-sensitive :
        (c : PasteCoordinator T) (flavors : List Flavor) (now : ℕ) (a : CopyAnswers)
        (outcome : PasteOutcome)
        → (schedule ops content_hash latest c flavors true now a).1 ≡ ok outcome
        → a.write require_exclude ≡ some retention_hint_applied
    unfolding schedule
    schedule-sensitive c flavors now a outcome h =
        elim (Result-cases (guard_for ops (is_some c.paste && c.target_ready) flavors)) [
          | inl (e, bad) ↦
              absurd (err_ne_ok {e = e} {t = outcome} (sym (rw (bad, schedule) refl) ∙ h))
          | inr (guard, good) ↦
              let copied = copy ops content_hash latest (take_ready c) flavors true a in
              let at = now + a.write_duration + paste_delay in
              let step : schedule ops content_hash latest c flavors true now a
                  ≡ arm guard at copied =
                rw (good, schedule) refl in
              let done = arm-copied guard at copied outcome (sym (ap (λ q. q.1) step) ∙ h) in
              check_copy_inv (take_ready c) a (copy-check_copy (take_ready c) flavors true a done)
        ]
