-- ===== src/Capture/Policy.antt =====
-- The vocabulary of crates/vbuff-core/src/capture/policy.rs and its source rules, with the handling of
-- secrets of crates/vbuff-core/src/trust/secrets.rs. `PolicyOps` has the calls of the regex and url
-- crates, Unicode's lower case and the entropy in floating point; `R` is a compiled pattern.
pub mod Decide
pub mod Evidence
pub mod Sensitive
mod Examples
use vbuff.Base.{ℕ, ◌*◌, Bool, true, false, ◌&&◌, ◌||◌, Option, none, some, List, [], ◌∷◌}
use vbuff.Types.Text.{Text}
use vbuff.Types.Ascii.{is_empty, equals, contains}
use vbuff.Types.Flavor.{Flavor}
use vbuff.Types.Evidence.{
  SensitivityReason, ProvenanceConfidence, ConcealmentSignal, GenerationCoherence, SelectionIntent,
  SelectionSource, CaptureProvenance,
}
use vbuff.Capture.Loss.{DropReason}
use vbuff.Capture.Secret.{
  SecretKind, private_key, cloud_credential, access_token, json_web_token, payment_card,
  one_time_password, recovery_code, high_entropy,
}

pub data CaptureAction : Type 0 where
  capture skip plain_text_only strip_images capture_sensitive : CaptureAction

pub data UnknownEvidencePolicy : Type 0 where
  guard skip allow : UnknownEvidencePolicy

pub record PolicyOps (R : Type 0) : Type 0 where
  pub to_lowercase : Text → Text
  pub new_regex : Text → Option R
  pub is_match : R → Text → Bool
  -- The host of a URL that parses, if it has one.
  pub parse_host : Text → Option (Option Text)
  pub has_entropy : Text → Bool

pub record SourcePredicate (R : Type 0) : Type 0 where
  pub app_contains : Option Text
  pub title_regex : Option R
  pub url_host_suffix : Option Text

pub record CaptureRule (R : Type 0) : Type 0 where
  pub predicate : SourcePredicate R
  pub action : CaptureAction

pub record CaptureInput : Type 0 where
  pub flavors : List Flavor
  pub provenance : CaptureProvenance
  pub source : SelectionSource
  pub intent : SelectionIntent
  pub coherence : GenerationCoherence
  pub concealment : ConcealmentSignal
  pub provenance_confidence : ProvenanceConfidence
  pub self_write : Bool

-- What `CaptureDecision::Capture` holds.
pub record Captured : Type 0 where
  pub action : CaptureAction
  pub sensitive : Bool
  pub sync_eligible : Bool
  pub ai_allowed : Bool
  pub memory_only : Bool
  pub expires_after : Option ℕ
  pub sensitivity_reason : Option SensitivityReason

pub data CaptureDecision : Type 0 where
  captured : Captured → CaptureDecision
  skipped : DropReason → CaptureDecision

pub record CapturePolicy (R : Type 0) : Type 0 where
  pub skip_whitespace_only : Bool
  pub excluded_apps : List Text
  pub rules : List (CaptureRule R)
  pub detect_secrets : Bool
  pub secret_ttl : ℕ
  pub unknown_evidence : UnknownEvidencePolicy

abbrev pub from_secs : ℕ → ℕ
from_secs seconds = seconds * 1_000_000_000

-- `impl Default for CapturePolicy`.
abbrev pub default_policy : {R : Type 0} → CapturePolicy R
default_policy = record {
  skip_whitespace_only = true;
  excluded_apps = [];
  rules = [];
  detect_secrets = true;
  secret_ttl = from_secs (10 * 60);
  unknown_evidence = UnknownEvidencePolicy.guard;
}

pub record SecretHandling : Type 0 where
  pub ttl : ℕ
  pub memory_only : Bool

unfoldable pub handling : ℕ → Bool → SecretHandling
handling seconds memory_only = record { ttl = from_secs seconds; memory_only = memory_only }

unfoldable pub handling_for_secret : SecretKind → SecretHandling
unfolding handling
handling_for_secret private_key = handling 30 true
handling_for_secret cloud_credential = handling (5 * 60) false
handling_for_secret access_token = handling (5 * 60) false
handling_for_secret json_web_token = handling (2 * 60) false
handling_for_secret payment_card = handling (10 * 60) false
handling_for_secret one_time_password = handling 60 true
handling_for_secret recovery_code = handling 30 true
handling_for_secret high_entropy = handling (2 * 60) false

unfoldable pub sensitivity_reason_for_secret : SecretKind → SensitivityReason
sensitivity_reason_for_secret private_key = SensitivityReason.private_key
sensitivity_reason_for_secret cloud_credential = SensitivityReason.cloud_credential
sensitivity_reason_for_secret access_token = SensitivityReason.access_token
sensitivity_reason_for_secret json_web_token = SensitivityReason.json_web_token
sensitivity_reason_for_secret payment_card = SensitivityReason.payment_card
sensitivity_reason_for_secret one_time_password = SensitivityReason.one_time_password
sensitivity_reason_for_secret recovery_code = SensitivityReason.recovery_code
sensitivity_reason_for_secret high_entropy = SensitivityReason.possible_secret

abbrev pub ends_with : Text → Text → Bool
ends_with [] suffix = is_empty suffix
ends_with (c ∷ text) suffix = equals (c ∷ text) suffix || ends_with text suffix

-- `Option::is_none_or` and `Option::is_some_and`.
abbrev pub is_none_or {ℓ} : {A : Type ℓ} → Option A → (A → Bool) → Bool
is_none_or none test = true
is_none_or (some a) test = test a

abbrev pub is_some_and {ℓ} : {A : Type ℓ} → Option A → (A → Bool) → Bool
is_some_and none test = false
is_some_and (some a) test = test a

abbrev pub flatten : Option (Option Text) → Option Text
flatten none = none
flatten (some o) = o

abbrev pub map_option {ℓ κ} : {A : Type ℓ} {B : Type κ} → (A → B) → Option A → Option B
map_option f none = none
map_option f (some a) = some (f a)

module _ {R : Type 0} (ops : PolicyOps R) where
  abbrev pub predicate_with : Option Text → Option Text → Option R → SourcePredicate R
  predicate_with app_contains host title_regex = record {
    app_contains = app_contains;
    title_regex = title_regex;
    url_host_suffix = map_option ops.to_lowercase host;
  }

  -- `SourcePredicate::try_new`, without the message of a pattern that does not compile.
  unfoldable pub try_new : Option Text → Option Text → Option Text → Option (SourcePredicate R)
  try_new app_contains none host = some (predicate_with app_contains host none)
  try_new app_contains (some pattern) host =
      map_option (λ regex. predicate_with app_contains host (some regex)) (ops.new_regex pattern)

  unfoldable pub matches : SourcePredicate R → CaptureProvenance → Bool
  matches p provenance =
      is_none_or p.app_contains (λ needle.
        is_some_and provenance.app_id
          (λ app. contains (ops.to_lowercase app) (ops.to_lowercase needle)))
      && is_none_or p.title_regex
          (λ pattern. is_some_and provenance.window_title (λ title. ops.is_match pattern title))
      && is_none_or p.url_host_suffix (λ suffix. is_some_and provenance.source_url (λ raw.
        is_some_and (flatten (ops.parse_host raw)) (λ host.
          equals (ops.to_lowercase host) suffix
          || ends_with (ops.to_lowercase host) (b'.' ∷ suffix))))
