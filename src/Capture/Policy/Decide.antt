-- ===== src/Capture/Policy/Decide.antt =====
-- `CapturePolicy::decide` of crates/vbuff-core/src/capture/policy.rs: the checks in the order of the
-- source, each with the reason of its skip.
use vbuff.Base.{
  ℕ, min, Bool, true, false, not, ◌&&◌, ◌||◌, if◌then◌else◌, Option, none, some, List, [], ◌∷◌, map,
}
use vbuff.Base.Iter.{any, all, retain, find, flat_map, filter_map}
use vbuff.Base.Results
use vbuff.Base.Results.{ok, err, fail_if, ◌>>=◌, ◌>>◌}
use vbuff.Types.Text.{Text, is_blank}
use vbuff.Types.Ascii.{is_empty, contains}
use vbuff.Types.Flavor.{Flavor, is_realized, is_text, as_text}
use vbuff.Types.Evidence.{
  SensitivityReason, ProvenanceConfidence, ConcealmentSignal, GenerationCoherence, SelectionIntent,
  SelectionSource,
}
use vbuff.Capture.Loss.{DropReason}
use vbuff.Capture.Secret.{one_time_password, SecretFinding, is_kind, strongest_finding}
use vbuff.Capture.Secret.Scan.{actionable_secrets, text_contains_actionable_secret}
use vbuff.Capture.Policy.{
  CaptureAction, UnknownEvidencePolicy, PolicyOps, CaptureRule, CaptureInput, Captured,
  CaptureDecision, captured, skipped, CapturePolicy, handling_for_secret,
  sensitivity_reason_for_secret, map_option, matches,
}

-- A check: the reason of a skip, or what the next steps go on with.
abbrev pub Checked : Type 0 → Type 0
Checked T = Results.Result DropReason T

abbrev pub refuses_unknown : UnknownEvidencePolicy → Bool
refuses_unknown UnknownEvidencePolicy.skip = true
refuses_unknown _ = false

abbrev pub check_coherence : UnknownEvidencePolicy → GenerationCoherence → Checked (Unit {0})
check_coherence mode GenerationCoherence.torn = err DropReason.torn_read
check_coherence mode GenerationCoherence.unknown =
    fail_if (refuses_unknown mode) DropReason.coherence_unknown
check_coherence mode GenerationCoherence.coherent = ok tt

abbrev pub check_intent : SelectionSource → SelectionIntent → Checked (Unit {0})
check_intent SelectionSource.clipboard intent = ok tt
check_intent SelectionSource.primary SelectionIntent.incidental =
    err DropReason.primary_without_intent
check_intent SelectionSource.primary SelectionIntent.unknown = err DropReason.intent_unknown
check_intent SelectionSource.primary SelectionIntent.intended = ok tt

abbrev pub check_concealment : UnknownEvidencePolicy → ConcealmentSignal → Checked (Unit {0})
check_concealment mode ConcealmentSignal.concealed = err DropReason.concealed
check_concealment mode ConcealmentSignal.unknown =
    fail_if (refuses_unknown mode) DropReason.concealment_unknown
check_concealment mode ConcealmentSignal.clear = ok tt

abbrev pub is_unproven : ProvenanceConfidence → Bool
is_unproven ProvenanceConfidence.unknown = true
is_unproven ProvenanceConfidence.proven = false

abbrev pub or_empty : Option Text → Text
or_empty none = []
or_empty (some text) = text

abbrev pub is_skip : CaptureAction → Bool
is_skip CaptureAction.skip = true
is_skip _ = false

abbrev pub is_forced : CaptureAction → Bool
is_forced CaptureAction.capture_sensitive = true
is_forced _ = false

-- `Option::or_else` of `bool::then_some`.
abbrev pub or_if {ℓ} : {A : Type ℓ} → Bool → A → Option A → Option A
or_if forced a (some b) = some b
or_if true a none = some a
or_if false a none = none

abbrev pub is_some {ℓ} : {A : Type ℓ} → Option A → Bool
is_some none = false
is_some (some a) = true

-- `Iterator::min`.
abbrev pub shortest : List ℕ → Option ℕ
shortest [] = none
shortest (n ∷ ns) = elim (shortest ns) [ none ↦ some n | some m ↦ some (min n m) ]

abbrev pub texts : List Flavor → List Text
texts flavors = filter_map as_text (retain is_realized flavors)

module _ {R : Type 0} (p : CapturePolicy R) where
  unfoldable pub guarded : Captured
  guarded = record {
    action = CaptureAction.capture;
    sensitive = true;
    sync_eligible = false;
    ai_allowed = false;
    memory_only = false;
    expires_after = some p.secret_ttl;
    sensitivity_reason = some SensitivityReason.operating_system_hint;
  }

  -- The checks that no source rule takes part in.
  unfoldable pub check_evidence : CaptureInput → Checked (Unit {0})
  unfolding is_realized
  check_evidence input = do
    fail_if (is_empty input.flavors) DropReason.empty
    check_coherence p.unknown_evidence input.coherence
    fail_if input.self_write DropReason.self_write_suppressed
    check_intent input.source input.intent
    check_concealment p.unknown_evidence input.concealment
    fail_if (not (any is_realized input.flavors)) DropReason.no_realized_flavor

  unfoldable pub rules_armed : Bool
  rules_armed = not (is_empty p.excluded_apps) || not (is_empty p.rules)

  -- The capture, from the action of the rules and the findings in the content.
  unfoldable pub capture_with : CaptureAction → List SecretFinding → Captured
  unfolding handling_for_secret sensitivity_reason_for_secret strongest_finding
  capture_with action findings =
      let reason =
        or_if (is_forced action) SensitivityReason.capture_rule
          (map_option (λ f. sensitivity_reason_for_secret f.kind) (strongest_finding findings)) in
      record {
        action = action;
        sensitive = is_some reason;
        sync_eligible = not (is_some reason);
        ai_allowed = not (is_some reason);
        memory_only = any (λ f. (handling_for_secret f.kind).memory_only) findings;
        expires_after =
            map_option (λ ttl. min ttl p.secret_ttl)
              (or_if (is_forced action) p.secret_ttl
                (shortest (map (λ f. (handling_for_secret f.kind).ttl) findings)));
        sensitivity_reason = reason;
      }

  module _ (ops : PolicyOps R) where
    abbrev pub action_of : Option (CaptureRule R) → CaptureAction
    action_of none = CaptureAction.capture
    action_of (some rule) = rule.action

    abbrev pub is_whitespace_only : List Flavor → Bool
    is_whitespace_only flavors =
        p.skip_whitespace_only
        && any (λ f. is_realized f && is_some (as_text f)) flavors
        && not (any (λ f. is_realized f && not (is_text f)) flavors)
        && all is_blank (texts flavors)

    unfoldable pub source_action : CaptureInput → Checked CaptureAction
    unfolding matches is_realized is_text as_text is_blank
    source_action input =
        let source_app = or_empty input.provenance.app_id in
        let action =
          action_of (find (λ rule. matches ops rule.predicate input.provenance) p.rules) in
        do
          fail_if
              (any (λ excluded. contains (ops.to_lowercase source_app) (ops.to_lowercase excluded))
                p.excluded_apps)
              DropReason.excluded_source
          fail_if (is_skip action) DropReason.source_rule
          fail_if (is_whitespace_only input.flavors) DropReason.whitespace_only
          ok action

    unfoldable pub actionable_findings : List Flavor → List SecretFinding
    unfolding actionable_secrets is_kind
    actionable_findings flavors =
        let findings = flat_map (λ text. actionable_secrets ops.has_entropy text) (texts flavors) in
        if not p.detect_secrets
        then retain (λ f. is_kind f.kind one_time_password) findings
        else findings

    unfoldable pub judge : CaptureInput → CaptureDecision
    unfolding source_action
    judge input = elim (source_action input) [
      | err reason ↦ skipped reason
      | ok action ↦ captured (capture_with action (actionable_findings input.flavors))
    ]

    -- With rules in force, and a source that is not proven.
    abbrev pub unproven : UnknownEvidencePolicy → CaptureInput → CaptureDecision
    unproven UnknownEvidencePolicy.guard input = captured guarded
    unproven UnknownEvidencePolicy.skip input = skipped DropReason.provenance_unknown
    unproven UnknownEvidencePolicy.allow input = judge input

    unfoldable pub decide : CaptureInput → CaptureDecision
    unfolding check_evidence
    decide input = elim (check_evidence input) [
      | err reason ↦ skipped reason
      | ok _ ↦
          if rules_armed && is_unproven input.provenance_confidence
          then unproven p.unknown_evidence input
          else judge input
    ]

    unfoldable pub text_requires_sensitive_handling : Text → Bool
    unfolding text_contains_actionable_secret
    text_requires_sensitive_handling text = text_contains_actionable_secret ops.has_entropy text
