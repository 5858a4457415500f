-- ===== src/Update/Manifest.antt =====
-- The manifest of crates/vbuff-update/src/manifest.rs, its validation and the bytes that are signed.
-- `UpdateOps` has the calls of the url, semver, serde_json, ed25519_dalek and blake3 crates; `V` is
-- semver's `Version`. A string is its bytes.
use vbuff.Base.{
  ℕ, ◌*◌, Ordering, Bool, true, false, not, ◌&&◌, ◌||◌, ◌==◌, ltb, leb, same, Option, none, some,
  List, [], ◌∷◌, ◌++◌, Bytes, bytes_ord, length,
}
use vbuff.Base.Sets.{member, set_insert}
use vbuff.Base.Results.{ok, ok_or, fail_if, ◌>>=◌, ◌>>◌}
use vbuff.Sync.Validation.{is_valid_identifier}
use vbuff.Update.Error.{Result, invalid_manifest, serialization}

abbrev pub max_artifacts : ℕ
max_artifacts = 32

abbrev pub max_target_len : ℕ
max_target_len = 96

abbrev pub max_artifact_url_len : ℕ
max_artifact_url_len = 2 * 1_024

abbrev pub max_key_id_bytes : ℕ
max_key_id_bytes = 96

abbrev pub update_signature_domain : Bytes
update_signature_domain =
    b'v' ∷ b'b' ∷ b'u' ∷ b'f' ∷ b'f' ∷ b'-' ∷ b'u' ∷ b'p' ∷ b'd' ∷ b'a' ∷ b't' ∷ b'e' ∷ b'-' ∷ b'm'
    ∷ b'a' ∷ b'n' ∷ b'i' ∷ b'f' ∷ b'e' ∷ b's' ∷ b't' ∷ b'-' ∷ b'v' ∷ b'1' ∷ []

abbrev pub rotation_confirmation_domain : Bytes
rotation_confirmation_domain =
    b'v' ∷ b'b' ∷ b'u' ∷ b'f' ∷ b'f' ∷ b'-' ∷ b'u' ∷ b'p' ∷ b'd' ∷ b'a' ∷ b't' ∷ b'e' ∷ b'-' ∷ b'k'
    ∷ b'e' ∷ b'y' ∷ b'-' ∷ b'r' ∷ b'o' ∷ b't' ∷ b'a' ∷ b't' ∷ b'i' ∷ b'o' ∷ b'n' ∷ b'-' ∷ b'v'
    ∷ b'1' ∷ []

abbrev pub https : Bytes
https = b'h' ∷ b't' ∷ b't' ∷ b'p' ∷ b's' ∷ []

pub record Artifact : Type 0 where
  pub target : Bytes
  pub url : Bytes
  pub sha256 : Bytes
  pub byte_size : ℕ

pub record KeyRotation : Type 0 where
  pub key_id : Bytes
  pub public_key : Bytes
  pub activates_at_sequence : ℕ
  pub confirmation : Bytes

pub record UpdateManifest (V : Type 0) : Type 0 where
  pub schema : ℕ
  pub sequence : ℕ
  pub version : V
  pub minimum_client : V
  pub published_at_ms : ℕ
  pub rollout_percent : ℕ
  pub artifacts : List Artifact
  pub next_key : Option KeyRotation

pub record SignedUpdateManifest (V : Type 0) : Type 0 where
  pub key_id : Bytes
  pub manifest : UpdateManifest V
  pub signature : Bytes

-- What the code reads of a parsed URL.
pub record Url : Type 0 where
  pub scheme : Bytes
  pub host_str : Option Bytes

pub record UpdateOps (V : Type 0) : Type 0 where
  pub parse_url : Bytes → Option Url
  pub cmp_version : V → V → Ordering
  pub manifest_to_json : UpdateManifest V → Option Bytes
  -- Of the key identifier, the public key, the activation and the manifest's sequence.
  pub rotation_to_json : Bytes → Bytes → ℕ → ℕ → Option Bytes
  pub is_key : Bytes → Bool
  pub is_signature : Bytes → Bool
  pub verifying_key : Bytes → Bytes
  pub sign : Bytes → Bytes → Bytes
  -- Of the key, the message and the signature.
  pub verify_signature : Bytes → Bytes → Bytes → Bool
  pub blake3 : Bytes → Bytes

unfoldable pub valid_key_id : Bytes → Bool
valid_key_id key_id = is_valid_identifier key_id max_key_id_bytes

unfoldable pub validate_key_id : Bytes → Result (Unit {0})
unfolding valid_key_id
validate_key_id key_id = fail_if (not (valid_key_id key_id)) (invalid_manifest "key id is invalid")

-- The parts after the first one, each after a separator.
abbrev pub separated : List Bytes → Bytes
separated [] = []
separated (part ∷ parts) = 0 ∷ (part ++ separated parts)

abbrev pub framed : List Bytes → Bytes
framed [] = []
framed (part ∷ parts) = part ++ separated parts

unfoldable pub signing_preimage : Bytes → List Bytes → Bytes
signing_preimage domain parts = domain ++ 0 ∷ framed parts

abbrev pub is_some {ℓ} : {A : Type ℓ} → Option A → Bool
is_some none = false
is_some (some a) = true

abbrev pub is_empty {ℓ} : {A : Type ℓ} → List A → Bool
is_empty [] = true
is_empty (x ∷ xs) = false

module _ {V : Type 0} (ops : UpdateOps V) where
  -- The checks of one artifact, but that of its target against the earlier ones.
  unfoldable pub validate_artifact : Artifact → Result (Unit {0})
  validate_artifact a = do
    url ← ok_or (ops.parse_url a.url) (invalid_manifest "artifact URL is invalid")
    fail_if
        (ltb max_artifact_url_len (length a.url)
          || not (same url.scheme https)
          || not (is_some url.host_str)
          || a.byte_size == 0)
        (invalid_manifest "artifact URL or size is unsafe")

  unfoldable pub validate_artifacts : List Bytes → List Artifact → Result (Unit {0})
  unfolding validate_artifact
  validate_artifacts targets [] = ok tt
  validate_artifacts targets (a ∷ artifacts) =
      let rest = validate_artifacts (set_insert a.target targets) artifacts in
      do
        fail_if (not (is_valid_identifier a.target max_target_len))
            (invalid_manifest "artifact target is invalid")
        fail_if (member a.target targets) (invalid_manifest "artifact targets must be unique")
        validate_artifact a
        rest

  unfoldable pub validate_rotation : ℕ → Option KeyRotation → Result (Unit {0})
  unfolding validate_key_id
  validate_rotation sequence none = ok tt
  validate_rotation sequence (some rotation) = do
    validate_key_id rotation.key_id
    fail_if (leb rotation.activates_at_sequence sequence)
        (invalid_manifest "rotated key must activate after the signed manifest")
    fail_if (not (ops.is_key rotation.public_key)) (invalid_manifest "rotated key is invalid")
    fail_if (not (length rotation.confirmation == 64))
        (invalid_manifest "rotation confirmation is invalid")

  unfoldable pub validate : UpdateManifest V → Result (Unit {0})
  unfolding validate_artifacts validate_rotation
  validate m = do
    fail_if (not (m.schema == 1 || m.schema == 2)) (invalid_manifest "unsupported manifest schema")
    fail_if (m.schema == 1 && is_some m.next_key)
        (invalid_manifest "key rotation requires manifest schema 2")
    fail_if (m.sequence == 0) (invalid_manifest "release sequence must be non-zero")
    fail_if (ltb 100 m.rollout_percent) (invalid_manifest "rollout percent exceeds 100")
    fail_if (is_empty m.artifacts || ltb max_artifacts (length m.artifacts))
        (invalid_manifest "artifact count is outside the supported range")
    validate_artifacts [] m.artifacts
    validate_rotation m.sequence m.next_key

  unfoldable pub manifest_signing_bytes : Bytes → UpdateManifest V → Result Bytes
  unfolding validate_key_id signing_preimage
  manifest_signing_bytes key_id m = do
    validate_key_id key_id
    canonical ← ok_or (ops.manifest_to_json m) (serialization "manifest")
    ok (signing_preimage update_signature_domain (key_id ∷ canonical ∷ []))

  unfoldable pub confirmation_bytes : Bytes → Bytes → ℕ → ℕ → Result Bytes
  unfolding signing_preimage
  confirmation_bytes key_id public_key activates_at_sequence manifest_sequence = do
    payload ←
        ok_or (ops.rotation_to_json key_id public_key activates_at_sequence manifest_sequence)
          (serialization "rotation")
    ok (signing_preimage rotation_confirmation_domain (key_id ∷ payload ∷ []))

  unfoldable pub confirmed : Bytes → Bytes → ℕ → ℕ → Result KeyRotation
  unfolding validate_key_id confirmation_bytes
  confirmed key_id new_key activates_at_sequence manifest_sequence = do
    validate_key_id key_id
    blob ←
        confirmation_bytes key_id (ops.verifying_key new_key) activates_at_sequence
          manifest_sequence
    ok (record {
      key_id = key_id;
      public_key = ops.verifying_key new_key;
      activates_at_sequence = activates_at_sequence;
      confirmation = ops.sign new_key blob;
    })

  -- `SignedUpdateManifest::sign`.
  unfoldable pub sign : Bytes → UpdateManifest V → Bytes → Result (SignedUpdateManifest V)
  unfolding validate validate_key_id manifest_signing_bytes
  sign key_id m key = do
    validate m
    validate_key_id key_id
    bytes ← manifest_signing_bytes key_id m
    ok (record { key_id = key_id; manifest = m; signature = ops.sign key bytes })
