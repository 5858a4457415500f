-- ===== src/Paste/Coordinator/Scheduled.antt =====
-- From the schedule of a paste to its keystroke.
use vbuff.Base.{
  ℕ, ◌+◌, ◌≡◌, ◌⊎◌, ◌∙◌, refl, sym, ap, subst, inl, inr, Bool, true, false, ◌&&◌, ltb, Bool-cases,
  some_injective, Option, none, some, List, [], ◌∷◌, arith, Bytes,
}
use vbuff.Base.Results.{ok, err, ok_or, Result-cases, bind_inv, ok_or_inv, ok_injective, err_ne_ok}
use vbuff.Types.Flavor.{Flavor}
use vbuff.Paste.Guard.{PasteGuardFingerprint, GuardOps, from_flavors}
use vbuff.Paste.Target.{PasteError, target_timed_out, unverifiable, Result, ConfirmedPaste}
use vbuff.Paste.Coordinator.{
  PasteCoordinator, PasteOutcome, scheduled, copied_only, CopyAnswers, PollAnswers, PendingStage,
  restoring, confirming, paste_delay, is_some, is_allowed, cancel_pending, cancel_target,
  check_copy, copy, guard_for, arm, take_ready, schedule, abandon, decision_for, inject, deliver,
  restore_step, confirm_step, due_step, poll_at, poll,
}
use vbuff.Paste.Coordinator.Confirmed.{IsUnchanged, IsInFront, poll-IsInFront}

module _ {T : Type 0} where
  -- Nothing is pending any more, or the same paste into the same target is.
  abbrev pub IsKept : PasteCoordinator T → PasteCoordinator T → Type 0
  IsKept c after =
      (after.pending_at ≡ none)
      ⊎ ((after.pending_guard ≡ c.pending_guard) × (after.paste ≡ c.paste))

  abandon-IsKept : (c : PasteCoordinator T) (e : PasteError) → IsKept c (abandon c e).0
  unfolding cancel_pending cancel_target
  abandon-IsKept c e = inl refl

  inject-IsKept :
      (c : PasteCoordinator T) (backend : Option (ConfirmedPaste T)) (a : PollAnswers T)
      → IsKept c (inject (cancel_pending c) backend a).0
  unfolding cancel_pending cancel_target
  inject-IsKept c none a = inl refl
  inject-IsKept c (some p) a = inl refl

  restore_step-IsKept :
      (c : PasteCoordinator T) (now : ℕ) (answer : Result (Unit {0}))
      → IsKept c (restore_step c now answer).0
  restore_step-IsKept c now (err e) = abandon-IsKept c e
  restore_step-IsKept c now (ok _) = inr (refl, refl)

  module _ (ops : GuardOps) where
    deliver-IsKept : (c : PasteCoordinator T) (a : PollAnswers T) → IsKept c (deliver ops c a).0
    unfolding deliver cancel_pending cancel_target
    deliver-IsKept c a = elim (Bool-cases (is_allowed (decision_for ops c a.read))) [
      | inl e ↦ rw (e, deliver) (inject-IsKept c c.paste a)
      | inr e ↦ rw (e, deliver) (inl refl)
    ]

    confirm_step-IsKept :
        (c : PasteCoordinator T) (now deadline : ℕ) (a : PollAnswers T) (answer : Result Bool)
        → IsKept c (confirm_step ops c now deadline a answer).0
    confirm_step-IsKept c now deadline a (err e) = abandon-IsKept c e
    confirm_step-IsKept c now deadline a (ok true) = deliver-IsKept c a
    confirm_step-IsKept c now deadline a (ok false) = elim (Bool-cases (ltb now deadline)) [
      | inl e ↦ rw (e, confirm_step) (inr (refl, refl))
      | inr e ↦ rw (e, confirm_step) (abandon-IsKept c target_timed_out)
    ]

    due_step-IsKept :
        (c : PasteCoordinator T) (now : ℕ) (a : PollAnswers T) (stage : Option PendingStage)
        → IsKept c (due_step ops c now a stage).0
    due_step-IsKept c now a none = inr (refl, refl)
    due_step-IsKept c now a (some restoring) = restore_step-IsKept c now _
    due_step-IsKept c now a (some (confirming deadline)) = confirm_step-IsKept c now deadline a _

    poll_at-IsKept :
        (c : PasteCoordinator T) (now : ℕ) (a : PollAnswers T) (at : Option ℕ)
        → IsKept c (poll_at ops c now a at).0
    poll_at-IsKept c now a none = inr (refl, refl)
    poll_at-IsKept c now a (some due) = elim (Bool-cases (ltb now due)) [
      | inl e ↦ rw (e, poll_at) (inr (refl, refl))
      | inr e ↦ rw (e, poll_at) (due_step-IsKept c now a c.pending_stage)
    ]

    poll-idle :
        (c : PasteCoordinator T) (now : ℕ) (a : PollAnswers T)
        → c.pending_at ≡ none
        → poll ops c now a ≡ (c, none, none)
    unfolding poll
    poll-idle c now a h = ap (λ q. poll_at ops c now a q) h

    poll-IsKept :
        (c : PasteCoordinator T) (now : ℕ) (a : PollAnswers T) → IsKept c (poll ops c now a).0
    unfolding poll
    poll-IsKept c now a = poll_at-IsKept c now a c.pending_at

    IsKept-poll :
        (c after : PasteCoordinator T) (now : ℕ) (a : PollAnswers T)
        → IsKept c after
        → IsKept c (poll ops after now a).0
    IsKept-poll c after now a (inl idle) =
        inl (ap (λ q. q.0.pending_at) (poll-idle after now a idle) ∙ idle)
    IsKept-poll c after now a (inr (guard, backend)) = elim (poll-IsKept after now a) [
      | inl idle ↦ inl idle
      | inr (same_guard, same_backend) ↦ inr (same_guard ∙ guard, same_backend ∙ backend)
    ]

    -- Polls, with what the desktop answers at each.
    abbrev pub polls : PasteCoordinator T → List (ℕ × PollAnswers T) → PasteCoordinator T
    polls c [] = c
    polls c ((now, a) ∷ rest) = polls (poll ops c now a).0 rest

    polls-IsKept :
        (c after : PasteCoordinator T) (rest : List (ℕ × PollAnswers T))
        → IsKept c after
        → IsKept c (polls after rest)
    polls-IsKept c after [] h = h
    polls-IsKept c after ((now, a) ∷ rest) h =
        polls-IsKept c (poll ops after now a).0 rest (IsKept-poll c after now a h)

none_ne_some : {A : Type 0} {a : A} → ◌≡◌ {A = Option A} none (some a) → ⊥
none_ne_some h = ground (arith, h)

copied_ne_scheduled : ◌≡◌ {A = Result PasteOutcome} (ok copied_only) (ok scheduled) → ⊥
copied_ne_scheduled h = ground (arith, h)

guard_for_inv :
    (ops : GuardOps) (automatic : Bool) (flavors : List Flavor) (g : PasteGuardFingerprint)
    → guard_for ops automatic flavors ≡ ok (some g)
    → from_flavors ops flavors ≡ some g
guard_for_inv ops false flavors g h = absurd (none_ne_some (ok_injective h))
guard_for_inv ops true flavors g h =
    let (found, there, h) =
      bind_inv (ok_or (from_flavors ops flavors) unverifiable) (λ guard. ok (some guard)) (some g)
        h in
    ok_or_inv (from_flavors ops flavors) unverifiable g
      (there ∙ ap (λ q. ok q) (some_injective (ok_injective h)))

module _ {T : Type 0} where
  arm_inv :
      (guard : Option PasteGuardFingerprint) (at : ℕ)
      (copied : PasteCoordinator T × Result (Unit {0}))
      → (arm guard at copied).1 ≡ ok scheduled
      → (g : PasteGuardFingerprint) × (guard ≡ some g)
        × ((arm guard at copied).0.pending_guard ≡ some g)
        × ((arm guard at copied).0.paste ≡ copied.0.paste)
        × (copied.1 ≡ ok tt)
  arm_inv guard at (c, err e) h = absurd (err_ne_ok h)
  arm_inv (some g) at (c, ok _) h = (g, refl, refl, refl, refl)
  arm_inv none at (c, ok _) h = absurd (copied_ne_scheduled h)

  take_ready-paste : (c : PasteCoordinator T) → (take_ready c).paste ≡ c.paste
  take_ready-paste c = elim (Bool-cases (is_some c.paste)) [
    | inl e ↦ rw (e, take_ready) refl
    | inr e ↦ rw (e, take_ready) refl
  ]

  module _ (ops : GuardOps) (content_hash : List Flavor → Bytes) (latest : ℕ) where
    copy-paste :
        (c : PasteCoordinator T) (flavors : List Flavor) (sensitive : Bool) (a : CopyAnswers)
        → (copy ops content_hash latest c flavors sensitive a).0.paste ≡ c.paste
    unfolding copy cancel_pending
    copy-paste c flavors sensitive a = elim (Result-cases (check_copy c sensitive a)) [
      | inl (e, bad) ↦ rw (bad, copy) refl
      | inr (_, good) ↦ rw (good, copy) refl
    ]

    schedule_inv :
        (c : PasteCoordinator T) (flavors : List Flavor) (sensitive : Bool) (now : ℕ)
        (a : CopyAnswers)
        → (schedule ops content_hash latest c flavors sensitive now a).1 ≡ ok scheduled
        → ((schedule ops content_hash latest c flavors sensitive now a).0.pending_guard
            ≡ from_flavors ops flavors)
          × ((schedule ops content_hash latest c flavors sensitive now a).0.paste ≡ c.paste)
    unfolding schedule
    schedule_inv c flavors sensitive now a h =
        let automatic = is_some c.paste && c.target_ready in
        elim (Result-cases (guard_for ops automatic flavors)) [
          | inl (e, bad) ↦
              absurd (err_ne_ok {e = e} {t = scheduled} (sym (rw (bad, schedule) refl) ∙ h))
          | inr (guard, good) ↦
              let copied = copy ops content_hash latest (take_ready c) flavors sensitive a in
              let at = now + a.write_duration + paste_delay in
              let step : schedule ops content_hash latest c flavors sensitive now a
                  ≡ arm guard at copied =
                rw (good, schedule) refl in
              let (g, guarding, pending, backend, _) =
                arm_inv guard at copied (sym (ap (λ q. q.1) step) ∙ h) in
              let recorded =
                guard_for_inv ops automatic flavors g (good ∙ ap (λ q. ok q) guarding) in
              (
                ap (λ q. q.0.pending_guard) step ∙ (pending ∙ sym recorded),
                ap (λ q. q.0.paste) step
                    ∙ (backend
                        ∙ (copy-paste (take_ready c) flavors sensitive a ∙ take_ready-paste c)),
              )
        ]

    -- After a paste is scheduled and the coordinator polled any number of times, a keystroke goes out
    -- only into the target that was captured, while the desktop answers, twice over, that it is in front,
    -- and only if the clipboard, read at that time, has the digest and the kind of content of the clip
    -- that was selected.
    pub schedule-IsInFront :
        (c : PasteCoordinator T) (flavors : List Flavor) (sensitive : Bool) (at now : ℕ)
        (written : CopyAnswers) (rest : List (ℕ × PollAnswers T)) (a : PollAnswers T) (target : T)
        → (schedule ops content_hash latest c flavors sensitive at written).1 ≡ ok scheduled
        → (poll ops
            (polls ops (schedule ops content_hash latest c flavors sensitive at written).0 rest)
            now
            a).2
          ≡ some target
        → IsUnchanged ops (from_flavors ops flavors) a.read × IsInFront c.paste a target
    schedule-IsInFront c flavors sensitive at now written rest a target h sent =
        let after = (schedule ops content_hash latest c flavors sensitive at written).0 in
        let (recorded, kept) = schedule_inv c flavors sensitive at written h in
        elim (polls-IsKept ops after after rest (inr (refl, refl))) [
          | inl idle ↦ absurd (
              none_ne_some
                (sym (ap (λ q. q.2) (poll-idle ops (polls ops after rest) now a idle)) ∙ sent))
          | inr (guard, backend) ↦
              let (unchanged, front) =
                poll-IsInFront ops (polls ops after rest) now a target sent in
              (
                subst (λ q. IsUnchanged ops q a.read) (guard ∙ recorded) unchanged,
                subst (λ q. IsInFront q a target) (backend ∙ kept) front,
              )
        ]
