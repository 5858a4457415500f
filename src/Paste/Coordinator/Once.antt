-- ===== src/Paste/Coordinator/Once.antt =====
-- Any operations of the coordinator in any order, with whatever the desktop answers.
use vbuff.Base.{
  ℕ, ◌+◌, ◌≤◌, ◌≡◌, refl, ap, inl, inr, Bool, true, false, ◌&&◌, ltb, Bool-cases, Option-cases,
  Option, none, some, List, [], ◌∷◌, arith, Bytes,
}
use vbuff.Base.Results.{ok, err, Result-cases}
use vbuff.Types.Flavor.{Flavor}
use vbuff.Paste.Guard.{PasteGuardFingerprint, GuardOps}
use vbuff.Paste.Target.{
  PasteError, target_timed_out, Result, ConfirmedPaste, clear_target, capture_target, paste,
}
use vbuff.Paste.Coordinator.{
  PasteCoordinator, PasteOutcome, scheduled, CopyAnswers, PollAnswers, paste_delay, PendingStage,
  restoring, confirming, is_some, is_allowed, Polled, cancel_pending, cancel_target, prepared,
  prepare_with, prepare_target, check_copy, copy, guard_for, arm, take_ready, schedule, abandon,
  decision_for, inject, deliver, restore_step, confirm_step, due_step, poll_at, poll,
}

pub data Event (T : Type 0) : Type 0 where
  preparing : Result T → Event T
  cancelling : Event T
  copying : List Flavor → Bool → CopyAnswers → Event T
  scheduling : List Flavor → Bool → ℕ → CopyAnswers → Event T
  polling : ℕ → PollAnswers T → Event T

abbrev pub count {ℓ} : {A : Type ℓ} → Option A → ℕ
count none = 0
count (some a) = 1

abbrev pub count_scheduled : Result PasteOutcome → ℕ
count_scheduled (ok scheduled) = 1
count_scheduled _ = 0

count-le : {A : Type 0} (o : Option A) → count o ≤ 1
count-le none = omega arith
count-le (some a) = omega arith

module _ {T : Type 0} where
  -- Whether a paste is pending.
  abbrev pub armed : PasteCoordinator T → ℕ
  armed c = count c.pending_at

  abbrev cost : Polled T → ℕ
  cost (c, result, target) = count target + armed c

  armed-le : (c : PasteCoordinator T) → armed c ≤ 1
  armed-le c = elim (Option-cases c.pending_at) [
    | inl e ↦ rw e (omega arith)
    | inr (at, e) ↦ rw e (omega arith)
  ]

  armed-prepared :
      (c : PasteCoordinator T) (captured : ConfirmedPaste T × Result (Unit {0}))
      → armed (prepared c captured).0 ≡ armed c
  armed-prepared c (p, ok _) = refl
  armed-prepared c (p, err e) = refl

  armed-prepare_with :
      (c : PasteCoordinator T) (backend : Option (ConfirmedPaste T)) (captured : Result T)
      → armed (prepare_with c backend captured).0 ≡ armed c
  armed-prepare_with c none captured = refl
  armed-prepare_with c (some p) captured =
      armed-prepared c (capture_target (clear_target p) captured)

  armed-prepare_target :
      (c : PasteCoordinator T) (captured : Result T) → armed (prepare_target c captured).0 ≡ 0
  unfolding prepare_target cancel_pending
  armed-prepare_target c captured = armed-prepare_with (cancel_pending c) c.paste captured

  cost-abandon : (c : PasteCoordinator T) (e : PasteError) → cost (abandon c e) ≤ 1
  unfolding cancel_pending cancel_target
  cost-abandon c e = omega arith

  cost-inject :
      (c : PasteCoordinator T) (backend : Option (ConfirmedPaste T)) (a : PollAnswers T)
      → cost (inject (cancel_pending c) backend a) ≤ 1
  unfolding cancel_pending cancel_target
  cost-inject c none a = omega arith
  cost-inject c (some p) a =
      let le = count-le (paste p a.foreground_again a.injected).2 in omega (arith, le)

  cost-restore_step :
      (c : PasteCoordinator T) (now : ℕ) (answer : Result (Unit {0}))
      → cost (restore_step c now answer) ≤ 1
  unfolding cancel_pending cancel_target
  cost-restore_step c now (err e) = omega arith
  cost-restore_step c now (ok _) = omega arith

  module _ (ops : GuardOps) where
    cost-deliver : (c : PasteCoordinator T) (a : PollAnswers T) → cost (deliver ops c a) ≤ 1
    unfolding deliver cancel_pending cancel_target
    cost-deliver c a = elim (Bool-cases (is_allowed (decision_for ops c a.read))) [
      | inl e ↦ rw (e, deliver) (cost-inject c c.paste a)
      | inr e ↦ rw (e, deliver) (omega arith)
    ]

    cost-confirm_step :
        (c : PasteCoordinator T) (now deadline : ℕ) (a : PollAnswers T) (answer : Result Bool)
        → cost (confirm_step ops c now deadline a answer) ≤ 1
    cost-confirm_step c now deadline a (err e) = cost-abandon c e
    cost-confirm_step c now deadline a (ok true) = cost-deliver c a
    cost-confirm_step c now deadline a (ok false) = elim (Bool-cases (ltb now deadline)) [
      | inl e ↦ rw (e, confirm_step) (omega arith)
      | inr e ↦ rw (e, confirm_step) (cost-abandon c target_timed_out)
    ]

    cost-due_step :
        (c : PasteCoordinator T) (now : ℕ) (a : PollAnswers T) (stage : Option PendingStage)
        → cost (due_step ops c now a stage) ≤ 1
    cost-due_step c now a none = let le = armed-le c in omega (arith, le)
    cost-due_step c now a (some restoring) = cost-restore_step c now _
    cost-due_step c now a (some (confirming deadline)) = cost-confirm_step c now deadline a _

    cost-poll_at :
        (c : PasteCoordinator T) (now : ℕ) (a : PollAnswers T) (at : Option ℕ)
        → c.pending_at ≡ at
        → cost (poll_at ops c now a at) ≤ count at
    cost-poll_at c now a none h =
        let idle : count c.pending_at ≡ 0 = ap (λ q. count q) h in omega (arith, idle)
    cost-poll_at c now a (some due) h =
        let le = armed-le c in
        elim (Bool-cases (ltb now due)) [
          | inl k ↦ rw (k, poll_at) (omega (arith, le))
          | inr k ↦ rw (k, poll_at) (cost-due_step c now a c.pending_stage)
        ]

    cost-poll :
        (c : PasteCoordinator T) (now : ℕ) (a : PollAnswers T) → cost (poll ops c now a) ≤ armed c
    unfolding poll
    cost-poll c now a = cost-poll_at c now a c.pending_at refl

    module _ (content_hash : List Flavor → Bytes) (latest : ℕ) where
      armed-copy :
          (c : PasteCoordinator T) (flavors : List Flavor) (sensitive : Bool) (a : CopyAnswers)
          → armed (copy ops content_hash latest c flavors sensitive a).0 ≡ 0
      unfolding copy cancel_pending
      armed-copy c flavors sensitive a = elim (Result-cases (check_copy c sensitive a)) [
        | inl (e, bad) ↦ rw (bad, copy) refl
        | inr (_, good) ↦ rw (good, copy) refl
      ]

      armed-arm :
          (guard : Option PasteGuardFingerprint) (at : ℕ)
          (copied : PasteCoordinator T × Result (Unit {0}))
          → armed (arm guard at copied).0 ≤ armed copied.0 + count_scheduled (arm guard at copied).1
      unfolding cancel_target
      armed-arm guard at (c, err e) = omega arith
      armed-arm (some guard) at (c, ok _) = omega arith
      armed-arm none at (c, ok _) = omega arith

      armed-take_ready : (c : PasteCoordinator T) → armed (take_ready c) ≡ armed c
      armed-take_ready c = elim (Bool-cases (is_some c.paste)) [
        | inl e ↦ rw (e, take_ready) refl
        | inr e ↦ rw (e, take_ready) refl
      ]

      armed-schedule :
          (c : PasteCoordinator T) (flavors : List Flavor) (sensitive : Bool) (now : ℕ)
          (a : CopyAnswers)
          → armed (schedule ops content_hash latest c flavors sensitive now a).0
            ≤ armed c
              + count_scheduled (schedule ops content_hash latest c flavors sensitive now a).1
      unfolding schedule cancel_target
      armed-schedule c flavors sensitive now a =
          let kept = armed-take_ready c in
          elim (Result-cases (guard_for ops (is_some c.paste && c.target_ready) flavors)) [
            | inl (e, bad) ↦ rw (bad, schedule) (omega (arith, kept))
            | inr (guard, good) ↦
                let copied = copy ops content_hash latest (take_ready c) flavors sensitive a in
                let cleared = armed-copy (take_ready c) flavors sensitive a in
                let le = armed-arm guard (now + a.write_duration + paste_delay) copied in
                rw (good, schedule) (omega (arith, le, cleared))
          ]

      -- The coordinator after an operation, the pastes that it scheduled and the keystrokes it sent.
      abbrev pub step : PasteCoordinator T → Event T → PasteCoordinator T × ℕ × ℕ
      step c (preparing captured) = ((prepare_target c captured).0, 0, 0)
      step c cancelling = (cancel_target c, 0, 0)
      step c (copying flavors sensitive a) =
          ((copy ops content_hash latest c flavors sensitive a).0, 0, 0)
      step c (scheduling flavors sensitive now a) =
          let (after, outcome) = schedule ops content_hash latest c flavors sensitive now a in
          (after, count_scheduled outcome, 0)
      step c (polling now a) =
          let (after, result, target) = poll ops c now a in (after, 0, count target)

      -- The pastes that are scheduled in a run, and the keystrokes that are sent.
      abbrev pub run : PasteCoordinator T → List (Event T) → ℕ × ℕ
      run c [] = (0, 0)
      run c (e ∷ events) =
          let (after, pastes, keystrokes) = step c e in
          let (more_pastes, more_keystrokes) = run after events in
          (pastes + more_pastes, keystrokes + more_keystrokes)

      step-le :
          (c : PasteCoordinator T) (e : Event T)
          → (step c e).2 + armed (step c e).0 ≤ armed c + (step c e).1
      unfolding cancel_target
      step-le c (preparing captured) = let h = armed-prepare_target c captured in omega (arith, h)
      step-le c cancelling = omega arith
      step-le c (copying flavors sensitive a) =
          let h = armed-copy c flavors sensitive a in omega (arith, h)
      step-le c (scheduling flavors sensitive now a) =
          let h = armed-schedule c flavors sensitive now a in omega (arith, h)
      step-le c (polling now a) = let h = cost-poll c now a in omega (arith, h)

      run-le :
          (c : PasteCoordinator T) (events : List (Event T))
          → (run c events).1 ≤ armed c + (run c events).0
      run-le c [] = omega arith
      run-le c (e ∷ events) =
          let one = step-le c e in let rest = run-le (step c e).0 events in omega (arith, one, rest)

-- Over any operations in any order, whatever the desktop and the clipboard answer, no more keystrokes
-- are sent than pastes are scheduled, where none is pending at the start.
pub keystrokes-le-scheduled :
    {T : Type 0} (ops : GuardOps) (content_hash : List Flavor → Bytes) (latest : ℕ)
    (c : PasteCoordinator T) (events : List (Event T))
    → c.pending_at ≡ none
    → (run ops content_hash latest c events).1 ≤ (run ops content_hash latest c events).0
keystrokes-le-scheduled ops content_hash latest c events h =
    let le = run-le ops content_hash latest c events in
    let idle : armed c ≡ 0 = ap (λ q. count q) h in omega (arith, le, idle)
