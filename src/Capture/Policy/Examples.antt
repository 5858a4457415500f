-- ===== src/Capture/Policy/Examples.antt =====
-- Concrete reads: a one-time code, from a source that is proven and from one that is not.
use vbuff.Base.{min, ◌≡◌, ◌⊎◌, refl, inl, true, false, not, ◌||◌, none, some, List, [], ◌∷◌, Bytes}
use vbuff.Types.Text.{Text, len, len_utf8}
use vbuff.Types.Ascii.{is_empty, contains, to_ascii_lowercase}
use vbuff.Types.Flavor.{Flavor, is_realized, as_text, inline, FlavorOrigin, realized}
use vbuff.Types.Evidence.{
  ProvenanceConfidence, ConcealmentSignal, GenerationCoherence, SelectionIntent, SelectionSource,
}
use vbuff.Capture.Secret.{
  one_time_password, private_key, high_entropy, SecretFinding, strongest_finding,
  min_actionable_confidence,
}
use vbuff.Capture.Secret.Scan.{
  scan_parts, otp_finding, detect_secrets, actionable_secrets, text_contains_actionable_secret,
}
use vbuff.Capture.Secret.Tokens.{scan_token}
use vbuff.Capture.Secret.Findings.{
  AreDistinct, detect_secrets-AreDistinct, actionable_secrets-detect_secrets,
}
use vbuff.Capture.Secret.Strongest.{IsListed, IsAtLeastAll, strongest_finding-IsAtLeastAll}
use vbuff.Capture.Policy.{
  CaptureAction, PolicyOps, CaptureInput, captured, CapturePolicy, default_policy,
}
use vbuff.Capture.Policy.Decide.{
  guarded, rules_armed, judge, capture_with, decide, actionable_findings,
}
use vbuff.Capture.Policy.Evidence.{IsEvident, IsKnown, decide-IsEvident}
use vbuff.Capture.Policy.Sensitive.{
  IsSensitive, ttl_of, is_memory_only, decide-IsSensitive, decide-handling,
}

abbrev ops : PolicyOps Text
ops = record {
  to_lowercase = to_ascii_lowercase;
  new_regex = λ pattern. some pattern;
  is_match = λ pattern title. contains title pattern;
  parse_host = λ url. some (some url);
  has_entropy = λ text. false;
}

abbrev message : Bytes
message = b'c' ∷ b'o' ∷ b'd' ∷ b'e' ∷ 32 ∷ b'1' ∷ b'2' ∷ b'3' ∷ b'4' ∷ []

abbrev flavor : Flavor
flavor = record {
  mime = b't' ∷ b'e' ∷ b'x' ∷ b't' ∷ b'/' ∷ b'p' ∷ b'l' ∷ b'a' ∷ b'i' ∷ b'n' ∷ [];
  body = inline message;
  origin = FlavorOrigin.source;
  realization = realized;
  integrity_hash = none;
}

abbrev read : ProvenanceConfidence → CaptureInput
read confidence = record {
  flavors = flavor ∷ [];
  provenance = record {
    app_id = some (b'a' ∷ []);
    window_title = none;
    document_path = none;
    source_url = none;
  };
  source = SelectionSource.clipboard;
  intent = SelectionIntent.unknown;
  coherence = GenerationCoherence.unknown;
  concealment = ConcealmentSignal.unknown;
  provenance_confidence = confidence;
  self_write = false;
}

abbrev policy : CapturePolicy Text
policy = record default_policy { excluded_apps = (b'z' ∷ []) ∷ [] }

abbrev one_time : SecretFinding
one_time = record { kind = one_time_password; confidence = 96 }

found : actionable_findings policy ops (flavor ∷ []) ≡ one_time ∷ []
unfolding actionable_findings is_realized as_text detect_secrets scan_parts scan_token len len_utf8
    otp_finding min_actionable_confidence
found = refl

proven_run :
    decide policy ops (read ProvenanceConfidence.proven)
    ≡ captured (capture_with policy CaptureAction.capture (one_time ∷ []))
unfolding decide rules_armed judge actionable_findings is_realized as_text detect_secrets scan_parts
    scan_token len len_utf8 otp_finding min_actionable_confidence
proven_run = refl

unproven_run : decide policy ops (read ProvenanceConfidence.unknown) ≡ captured (guarded policy)
unfolding decide rules_armed
unproven_run = refl

decide-IsEvident_example :
    IsEvident policy (read ProvenanceConfidence.proven)
    × IsKnown policy (read ProvenanceConfidence.proven)
decide-IsEvident_example =
    decide-IsEvident policy ops (read ProvenanceConfidence.proven)
      (capture_with policy CaptureAction.capture (one_time ∷ [])) proven_run

decide-IsSensitive_example : IsSensitive (guarded policy) policy.secret_ttl
unfolding actionable_findings is_realized as_text detect_secrets scan_parts scan_token len len_utf8
    otp_finding min_actionable_confidence
decide-IsSensitive_example =
    decide-IsSensitive policy ops (read ProvenanceConfidence.unknown) (guarded policy) one_time
      unproven_run (inl refl)

decide-handling_example :
    IsSensitive
      (capture_with policy CaptureAction.capture (one_time ∷ []))
      (min (ttl_of one_time) policy.secret_ttl)
    × (not (is_memory_only one_time)
          || (capture_with policy CaptureAction.capture (one_time ∷ [])).memory_only
        ≡ true)
unfolding rules_armed actionable_findings is_realized as_text detect_secrets scan_parts scan_token
    len len_utf8 otp_finding min_actionable_confidence
decide-handling_example =
    decide-handling policy ops (read ProvenanceConfidence.proven)
      (capture_with policy CaptureAction.capture (one_time ∷ [])) one_time proven_run refl
      (inl refl)

detect_secrets-AreDistinct_example : AreDistinct (detect_secrets ops.has_entropy message)
detect_secrets-AreDistinct_example = detect_secrets-AreDistinct ops.has_entropy message

actionable_secrets-detect_secrets_example :
    (actionable_secrets ops.has_entropy message ≡ detect_secrets ops.has_entropy message)
    × (text_contains_actionable_secret ops.has_entropy message
        ≡ not (is_empty (detect_secrets ops.has_entropy message)))
actionable_secrets-detect_secrets_example =
    actionable_secrets-detect_secrets ops.has_entropy message

abbrev several : List SecretFinding
several =
    record { kind = high_entropy; confidence = 72 }
    ∷ record { kind = one_time_password; confidence = 96 }
    ∷ record { kind = private_key; confidence = 96 }
    ∷ []

strongest_finding-IsAtLeastAll_example :
    (several ≡ [])
    ⊎ ((best : SecretFinding) × (strongest_finding several ≡ some best)
        × IsListed best several
        × IsAtLeastAll best several)
strongest_finding-IsAtLeastAll_example = strongest_finding-IsAtLeastAll several
