-- ===== src/Capture/Policy/Evidence.antt =====
-- What has been proven of a read that is captured.
use vbuff.Base.{◌≡◌, ◌≢◌, ◌⊎◌, ◌∙◌, refl, sym, inl, inr, true, false, not, ◌&&◌, Bool-cases, arith}
use vbuff.Base.Iter.{any}
use vbuff.Base.Results.{ok, fail_if, Result-cases, and_then, fail_if_inv, err_ne_ok, ◌>>◌}
use vbuff.Types.Ascii.{is_empty}
use vbuff.Types.Flavor.{is_realized}
use vbuff.Types.Evidence.{ConcealmentSignal, GenerationCoherence, SelectionIntent, SelectionSource}
use vbuff.Capture.Loss.{DropReason}
use vbuff.Capture.Policy.{
  CaptureAction, UnknownEvidencePolicy, PolicyOps, CaptureInput, Captured, captured, skipped,
  CapturePolicy,
}
use vbuff.Capture.Policy.Decide.{
  refuses_unknown, check_coherence, check_intent, check_concealment, is_unproven, guarded,
  check_evidence, rules_armed, capture_with, source_action, actionable_findings, judge, unproven,
  decide,
}

pub captured_injective : {a b : Captured} → captured a ≡ captured b → a ≡ b
captured_injective h = ground (arith, h)

pub skipped_ne_captured : {reason : DropReason} {c : Captured} → skipped reason ≡ captured c → ⊥
skipped_ne_captured h = ground (arith, h)

coherence_inv :
    (mode : UnknownEvidencePolicy) (signal : GenerationCoherence)
    → check_coherence mode signal ≡ ok tt
    → (signal ≢ GenerationCoherence.torn)
      × ((refuses_unknown mode ≡ false) ⊎ (signal ≡ GenerationCoherence.coherent))
coherence_inv mode GenerationCoherence.torn h = absurd (err_ne_ok h)
coherence_inv mode GenerationCoherence.unknown h = (
  λ e. ground (arith, e),
  inl (fail_if_inv (refuses_unknown mode) DropReason.coherence_unknown h),
)
coherence_inv mode GenerationCoherence.coherent h = (λ e. ground (arith, e), inr refl)

concealment_inv :
    (mode : UnknownEvidencePolicy) (signal : ConcealmentSignal)
    → check_concealment mode signal ≡ ok tt
    → (signal ≢ ConcealmentSignal.concealed)
      × ((refuses_unknown mode ≡ false) ⊎ (signal ≡ ConcealmentSignal.clear))
concealment_inv mode ConcealmentSignal.concealed h = absurd (err_ne_ok h)
concealment_inv mode ConcealmentSignal.unknown h = (
  λ e. ground (arith, e),
  inl (fail_if_inv (refuses_unknown mode) DropReason.concealment_unknown h),
)
concealment_inv mode ConcealmentSignal.clear h = (λ e. ground (arith, e), inr refl)

intent_inv :
    (source : SelectionSource) (intent : SelectionIntent)
    → check_intent source intent ≡ ok tt
    → (source ≡ SelectionSource.clipboard) ⊎ (intent ≡ SelectionIntent.intended)
intent_inv SelectionSource.clipboard intent h = inl refl
intent_inv SelectionSource.primary SelectionIntent.incidental h = absurd (err_ne_ok h)
intent_inv SelectionSource.primary SelectionIntent.unknown h = absurd (err_ne_ok h)
intent_inv SelectionSource.primary SelectionIntent.intended h = inr refl

module _ {R : Type 0} (p : CapturePolicy R) where
  -- What the checks of the evidence have established.
  abbrev pub IsEvident : CaptureInput → Type 0
  IsEvident input =
      (is_empty input.flavors ≡ false)
      × (input.coherence ≢ GenerationCoherence.torn)
      × (input.self_write ≡ false)
      × ((input.source ≡ SelectionSource.clipboard) ⊎ (input.intent ≡ SelectionIntent.intended))
      × (input.concealment ≢ ConcealmentSignal.concealed)
      × (any is_realized input.flavors ≡ true)

  abbrev pub IsKnown : CaptureInput → Type 0
  IsKnown input =
      ((refuses_unknown p.unknown_evidence ≡ false)
        ⊎ (input.coherence ≡ GenerationCoherence.coherent))
      × ((refuses_unknown p.unknown_evidence ≡ false)
          ⊎ (input.concealment ≡ ConcealmentSignal.clear))

  check_evidence_inv :
      (input : CaptureInput) → check_evidence p input ≡ ok tt → IsEvident input × IsKnown input
  unfolding check_evidence
  check_evidence_inv input h =
      let filled = fail_if (is_empty input.flavors) DropReason.empty in
      let coherence = check_coherence p.unknown_evidence input.coherence in
      let foreign = fail_if input.self_write DropReason.self_write_suppressed in
      let intent = check_intent input.source input.intent in
      let concealment = check_concealment p.unknown_evidence input.concealment in
      let held = fail_if (not (any is_realized input.flavors)) DropReason.no_realized_flavor in
      let (a, h) =
        and_then filled (coherence >> (foreign >> (intent >> (concealment >> held)))) tt h in
      let (b, h) = and_then coherence (foreign >> (intent >> (concealment >> held))) tt h in
      let (c, h) = and_then foreign (intent >> (concealment >> held)) tt h in
      let (d, h) = and_then intent (concealment >> held) tt h in
      let (e, f) = and_then concealment held tt h in
      let (whole, known) = coherence_inv p.unknown_evidence input.coherence b in
      let (open_text, clear) = concealment_inv p.unknown_evidence input.concealment e in
      let some_held =
        fail_if_inv (not (any is_realized input.flavors)) DropReason.no_realized_flavor f in
      (
        (
          fail_if_inv (is_empty input.flavors) DropReason.empty a,
          whole,
          fail_if_inv input.self_write DropReason.self_write_suppressed c,
          intent_inv input.source input.intent d,
          open_text,
          ground (arith, some_held),
        ),
        (known, clear),
      )

  module _ (ops : PolicyOps R) where
    pub judge_inv :
        (input : CaptureInput) (c : Captured)
        → judge p ops input ≡ captured c
        → (action : CaptureAction) × (source_action p ops input ≡ ok action)
          × (c ≡ capture_with p action (actionable_findings p ops input.flavors))
    unfolding judge
    judge_inv input c h = elim (Result-cases (source_action p ops input)) [
      | inl (reason, e) ↦
          absurd (skipped_ne_captured {reason = reason} (sym (rw (e, judge) refl) ∙ h))
      | inr (action, e) ↦ (action, e, captured_injective (sym h ∙ rw (e, judge) refl))
    ]

    unproven_inv :
        (mode : UnknownEvidencePolicy) (input : CaptureInput) (c : Captured)
        → unproven p ops mode input ≡ captured c
        → ((mode ≡ UnknownEvidencePolicy.guard) × (c ≡ guarded p))
          ⊎ ((mode ≡ UnknownEvidencePolicy.allow) × (judge p ops input ≡ captured c))
    unproven_inv UnknownEvidencePolicy.guard input c h = inl (refl, sym (captured_injective h))
    unproven_inv UnknownEvidencePolicy.skip input c h = absurd (skipped_ne_captured h)
    unproven_inv UnknownEvidencePolicy.allow input c h = inr (refl, h)

    -- The two ways to a capture: by guarding an unproven source, and by the rules and the content.
    pub decide_inv :
        (input : CaptureInput) (c : Captured)
        → decide p ops input ≡ captured c
        → (check_evidence p input ≡ ok tt)
          × (((rules_armed p && is_unproven input.provenance_confidence ≡ true)
                × (p.unknown_evidence ≡ UnknownEvidencePolicy.guard)
                × (c ≡ guarded p))
              ⊎ (((rules_armed p && is_unproven input.provenance_confidence ≡ false)
                    ⊎ (p.unknown_evidence ≡ UnknownEvidencePolicy.allow))
                  × (judge p ops input ≡ captured c)))
    unfolding decide
    decide_inv input c h = elim (Result-cases (check_evidence p input)) [
      | inl (reason, e) ↦
          absurd (skipped_ne_captured {reason = reason} (sym (rw (e, decide) refl) ∙ h))
      | inr (_, e) ↦ elim (Bool-cases (rules_armed p && is_unproven input.provenance_confidence)) [
        | inr k ↦ (e, inr (inl k, sym (rw (e, k, decide) refl) ∙ h))
        | inl k ↦
            elim (unproven_inv p.unknown_evidence input c (sym (rw (e, k, decide) refl) ∙ h)) [
              | inl (guarding, same_record) ↦ (e, inl (k, guarding, same_record))
              | inr (allowing, judged) ↦ (e, inr (inr allowing, judged))
            ]
      ]
    ]

    -- A read is captured only if it holds some flavor, was not torn, is not the program's own write, was
    -- not concealed, and, if it is of the primary selection, was intended. Where the policy refuses
    -- unknown evidence, it was read as a whole and was not marked, both for certain.
    pub decide-IsEvident :
        (input : CaptureInput) (c : Captured)
        → decide p ops input ≡ captured c
        → IsEvident input × IsKnown input
    decide-IsEvident input c h = check_evidence_inv input (decide_inv input c h).0
