-- ===== src/Paste/Coordinator/Confirmed.antt =====
-- When a keystroke goes out, and where to.
use vbuff.Base.{
  ℕ, ◌≡◌, ◌∙◌, refl, sym, ap, subst, inl, inr, Bool, true, false, not, ltb, Bool-cases,
  Option-cases, some_injective, Option, none, some, List, arith, same, same_iff, bytes_ord,
}
use vbuff.Base.Results.{
  ok, err, ok_or, fail_if, Result-cases, bind_inv, and_then, fail_if_inv, ok_or_inv, ok_injective,
  ◌>>=◌, ◌>>◌,
}
use vbuff.Types.Flavor.{Flavor}
use vbuff.Paste.Guard.{
  PasteGuardFingerprint, GuardOps, from_flavors, is_identity, compare_guard, compare_with,
}
use vbuff.Paste.Target.{
  not_captured, not_foreground, backend_unavailable, Result, ConfirmedPaste, target_is_foreground,
  confirm, inject_into, paste,
}
use vbuff.Paste.Coordinator.{
  PasteCoordinator, PollAnswers, PendingStage, restoring, confirming, is_allowed, cancel_pending,
  decision_for, decision_of, observed_in, inject, deliver, restore_step, confirm_step, due_step,
  poll,
}

none_ne_some : {A : Type 0} {a : A} → ◌≡◌ {A = Option A} none (some a) → ⊥
none_ne_some h = ground (arith, h)

-- The clipboard holds what was to be pasted.
abbrev pub IsUnchanged : GuardOps → Option PasteGuardFingerprint → Option (List Flavor) → Type 0
IsUnchanged ops guard read =
    (expected : PasteGuardFingerprint) × (observed : PasteGuardFingerprint) × (content : List
      Flavor)
    × (guard ≡ some expected)
    × (read ≡ some content)
    × (from_flavors ops content ≡ some observed)
    × (expected.digest ≡ observed.digest)
    × (is_identity expected.identity observed.identity ≡ true)

compare_guard_inv :
    (expected observed : PasteGuardFingerprint)
    → is_allowed (compare_guard expected (some observed)) ≡ true
    → (expected.digest ≡ observed.digest) × (is_identity expected.identity observed.identity ≡ true)
unfolding compare_guard compare_with
compare_guard_inv expected observed h =
    let same_digest : same expected.digest observed.digest ≡ true = ground (arith, h) in
    ((same_iff expected.digest observed.digest).0 same_digest, ground (arith, h))

decision_of_inv :
    (guard seen : Option PasteGuardFingerprint)
    → is_allowed (decision_of guard seen) ≡ true
    → (expected : PasteGuardFingerprint) × (observed : PasteGuardFingerprint) × (guard
        ≡ some expected)
      × (seen ≡ some observed)
      × (expected.digest ≡ observed.digest)
      × (is_identity expected.identity observed.identity ≡ true)
unfolding compare_guard
decision_of_inv none seen h = absurd (ground (arith, h))
decision_of_inv (some expected) none h = absurd (ground (arith, h))
decision_of_inv (some expected) (some observed) h =
    let (same_digest, same_identity) = compare_guard_inv expected observed h in
    (expected, observed, refl, refl, same_digest, same_identity)

observed_inv :
    (ops : GuardOps) (clipboard : Bool) (read : Option (List Flavor))
    (observed : PasteGuardFingerprint)
    → observed_in ops clipboard read ≡ some observed
    → (content : List Flavor) × (read ≡ some content) × (from_flavors ops content ≡ some observed)
observed_inv ops false read observed h = absurd (none_ne_some h)
observed_inv ops true none observed h = absurd (none_ne_some h)
observed_inv ops true (some content) observed h = (content, refl, h)

module _ {T : Type 0} where
  -- The target of the backend is in front, on both of the occasions when the desktop is asked.
  abbrev pub IsInFront : Option (ConfirmedPaste T) → PollAnswers T → T → Type 0
  IsInFront backend a target =
      (p : ConfirmedPaste T) × (backend ≡ some p)
      × (p.target ≡ some target)
      × (a.foreground target ≡ ok true)
      × (a.foreground_again target ≡ ok true)

  confirm_inv :
      (p : ConfirmedPaste T) (is_foreground : T → Result Bool) (target : T)
      → confirm p is_foreground ≡ ok target
      → (p.target ≡ some target) × (is_foreground target ≡ ok true)
  unfolding confirm
  confirm_inv p is_foreground target h =
      let rest : T → Bool → Result T =
        λ t confirmed. fail_if (not confirmed) not_foreground >> ok t in
      let asked : T → Result T = λ t. is_foreground t >>= λ confirmed. rest t confirmed in
      let (t, held, h) = bind_inv (ok_or p.target not_captured) asked target h in
      let (confirmed, answered, h) =
        bind_inv (is_foreground t) (λ confirmed. rest t confirmed) target h in
      let (front, h) = and_then (fail_if (not confirmed) not_foreground) (ok t) target h in
      let front : confirmed ≡ true =
        ground (arith, fail_if_inv (not confirmed) not_foreground front) in
      let one = ok_injective h in
      (
        ok_or_inv p.target not_captured t held ∙ ap (λ q. some q) one,
        subst (λ q. is_foreground q ≡ ok true) one (answered ∙ ap (λ q. ok q) front),
      )

  paste_inv :
      (p : ConfirmedPaste T) (is_foreground : T → Result Bool) (injected : Result (Unit {0}))
      (target : T)
      → (paste p is_foreground injected).2 ≡ some target
      → (p.target ≡ some target) × (is_foreground target ≡ ok true)
  unfolding paste
  paste_inv p is_foreground injected target h = elim (Result-cases (confirm p is_foreground)) [
    | inl (e, bad) ↦ absurd (none_ne_some (sym (ap (λ q. (inject_into p injected q).2) bad) ∙ h))
    | inr (t, good) ↦
        let one : t ≡ target =
          some_injective (sym (ap (λ q. (inject_into p injected q).2) good) ∙ h) in
        confirm_inv p is_foreground target (good ∙ ap (λ q. ok q) one)
  ]

  inject_inv :
      (c : PasteCoordinator T) (backend : Option (ConfirmedPaste T)) (a : PollAnswers T)
      (target : T)
      → (inject c backend a).2 ≡ some target
      → (p : ConfirmedPaste T) × (backend ≡ some p)
        × (p.target ≡ some target)
        × (a.foreground_again target ≡ ok true)
  inject_inv c none a target h = absurd (none_ne_some h)
  inject_inv c (some p) a target h =
      let (held, front) = paste_inv p a.foreground_again a.injected target h in
      (p, refl, held, front)

  module _ (ops : GuardOps) where
    decision_inv :
        (c : PasteCoordinator T) (read : Option (List Flavor))
        → is_allowed (decision_for ops c read) ≡ true
        → IsUnchanged ops c.pending_guard read
    decision_inv c read h =
        let (expected, observed, guarding, seen, same_digest, same_identity) =
          decision_of_inv c.pending_guard (observed_in ops c.clipboard read) h in
        let (content, held, computed) = observed_inv ops c.clipboard read observed seen in
        (expected, observed, content, guarding, held, computed, same_digest, same_identity)

    deliver_inv :
        (c : PasteCoordinator T) (a : PollAnswers T) (target : T)
        → (deliver ops c a).2 ≡ some target
        → IsUnchanged ops c.pending_guard a.read
          × ((p : ConfirmedPaste T) × (c.paste ≡ some p)
              × (p.target ≡ some target)
              × (a.foreground_again target ≡ ok true))
    unfolding deliver
    deliver_inv c a target h = elim (Bool-cases (is_allowed (decision_for ops c a.read))) [
      | inl e ↦ (
        decision_inv c a.read e,
        inject_inv (cancel_pending c) c.paste a target (sym (rw (e, deliver) refl) ∙ h),
      )
      | inr e ↦ absurd (none_ne_some {a = target} (sym (rw (e, deliver) refl) ∙ h))
    ]

    confirm_step_inv :
        (c : PasteCoordinator T) (now deadline : ℕ) (a : PollAnswers T) (answer : Result Bool)
        (target : T)
        → (confirm_step ops c now deadline a answer).2 ≡ some target
        → (answer ≡ ok true) × ((deliver ops c a).2 ≡ some target)
    confirm_step_inv c now deadline a (err e) target h = absurd (none_ne_some h)
    confirm_step_inv c now deadline a (ok true) target h = (refl, h)
    confirm_step_inv c now deadline a (ok false) target h = elim (Bool-cases (ltb now deadline)) [
      | inl e ↦ absurd (none_ne_some {a = target} (sym (rw (e, confirm_step) refl) ∙ h))
      | inr e ↦ absurd (none_ne_some {a = target} (sym (rw (e, confirm_step) refl) ∙ h))
    ]

    in_front_inv :
        (c : PasteCoordinator T) (a : PollAnswers T) (p : ConfirmedPaste T) (target : T)
        → c.paste ≡ some p
        → p.target ≡ some target
        → ok_or c.paste backend_unavailable
            >>= (λ backend. target_is_foreground backend a.foreground)
          ≡ ok true
        → a.foreground target ≡ ok true
    unfolding target_is_foreground
    in_front_inv c a p target there held h =
        let asked : ConfirmedPaste T → Result Bool =
          λ backend. target_is_foreground backend a.foreground in
        let (backend, kept, h) = bind_inv (ok_or c.paste backend_unavailable) asked true h in
        let one =
          some_injective (sym (ok_or_inv c.paste backend_unavailable backend kept) ∙ there) in
        let (t, aimed, answered) =
          bind_inv (ok_or backend.target not_captured) a.foreground true h in
        let same_target =
          some_injective (
            sym (ok_or_inv backend.target not_captured t aimed)
            ∙ (ap (λ q. q.target) one ∙ held)) in
        subst (λ q. a.foreground q ≡ ok true) same_target answered

    restore_step_quiet :
        (c : PasteCoordinator T) (now : ℕ) (answer : Result (Unit {0}))
        → (restore_step c now answer).2 ≡ none
    restore_step_quiet c now (err e) = refl
    restore_step_quiet c now (ok _) = refl

    due_step_inv :
        (c : PasteCoordinator T) (now : ℕ) (a : PollAnswers T) (stage : Option PendingStage)
        (target : T)
        → (due_step ops c now a stage).2 ≡ some target
        → IsUnchanged ops c.pending_guard a.read × IsInFront c.paste a target
    due_step_inv c now a none target h = absurd (none_ne_some h)
    due_step_inv c now a (some restoring) target h =
        absurd (none_ne_some (sym (restore_step_quiet c now _) ∙ h))
    due_step_inv c now a (some (confirming deadline)) target h =
        let (answered, h) = confirm_step_inv c now deadline a _ target h in
        let (unchanged, (p, there, held, again)) = deliver_inv c a target h in
        (unchanged, (p, there, held, in_front_inv c a p target there held answered, again))

    -- A keystroke goes out only into the target that was captured, while the desktop answers, twice over,
    -- that it is in front, and only if the clipboard, read at that time, has the digest and the kind of
    -- content that were recorded when the paste was scheduled.
    pub poll-IsInFront :
        (c : PasteCoordinator T) (now : ℕ) (a : PollAnswers T) (target : T)
        → (poll ops c now a).2 ≡ some target
        → IsUnchanged ops c.pending_guard a.read × IsInFront c.paste a target
    unfolding poll
    poll-IsInFront c now a target h = elim (Option-cases c.pending_at) [
      | inl e ↦ absurd (none_ne_some {a = target} (sym (rw (e, poll) refl) ∙ h))
      | inr (due, e) ↦ elim (Bool-cases (ltb now due)) [
        | inl k ↦ absurd (none_ne_some {a = target} (sym (rw (e, k, poll) refl) ∙ h))
        | inr k ↦ due_step_inv c now a c.pending_stage target (sym (rw (e, k, poll) refl) ∙ h)
      ]
    ]
