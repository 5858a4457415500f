-- ===== src/Update/Verifier.antt =====
-- `UpdateVerifier` of crates/vbuff-update/src/manifest.rs. A method that changes the verifier returns
-- it beside its result, on an error too.
pub mod Refusal
pub mod Rotation
use vbuff.Base.{
  ℕ, zero, suc, ◌+◌, ◌*◌, ◌%◌, Ordering, Bool, true, false, not, ◌||◌, ltb, leb, if◌then◌else◌,
  Option, none, some, List, [], ◌∷◌, ◌++◌, Bytes, length,
}
use vbuff.Base.Results.{ok, err, ok_or, fail_if, ◌>>=◌, ◌>>◌}
use vbuff.Sync.Preimage.{be_bytes}
use vbuff.Update.Error.{
  Result, invalid_signature, downgrade_or_replay, incompatible_client, rotation_not_confirmed,
}
use vbuff.Update.Manifest.{
  Artifact, KeyRotation, SignedUpdateManifest, UpdateOps, validate_key_id, validate,
  manifest_signing_bytes, confirmation_bytes,
}
use vbuff.Update.Keyring.{TrustedKey, UpdateKeyring, revoke, trust, active_key}

pub record UpdateVerifier : Type 0 where
  pub keyring : UpdateKeyring
  pub highest_accepted_sequence : ℕ

pub record VerifiedUpdate (V : Type 0) : Type 0 where
  pub version : V
  pub sequence : ℕ
  pub eligible_for_rollout : Bool
  pub artifacts : List Artifact

abbrev pub rollout_domain : Bytes
rollout_domain =
    b'v' ∷ b'b' ∷ b'u' ∷ b'f' ∷ b'f' ∷ b'-' ∷ b's' ∷ b't' ∷ b'a' ∷ b'g' ∷ b'e' ∷ b'd' ∷ b'-' ∷ b'r'
    ∷ b'o' ∷ b'l' ∷ b'l' ∷ b'o' ∷ b'u' ∷ b't' ∷ b'-' ∷ b'v' ∷ b'1' ∷ []

-- `u64::from_be_bytes` of the first eight bytes.
abbrev pub be_value : ℕ → ℕ → Bytes → ℕ
be_value n zero bytes = n
be_value n (suc width) [] = n
be_value n (suc width) (byte ∷ bytes) = be_value (256 * n + byte) width bytes

-- `a <= b` and `a < b` of versions.
abbrev pub is_le : Ordering → Bool
is_le Ordering.gt = false
is_le _ = true

abbrev pub is_lt : Ordering → Bool
is_lt Ordering.lt = true
is_lt _ = false

module _ {V : Type 0} (ops : UpdateOps V) where
  unfoldable pub rollout_bucket : Bytes → ℕ → ℕ
  unfolding be_bytes
  rollout_bucket installation_id sequence =
      be_value 0 8 (ops.blake3 (rollout_domain ++ (be_bytes 8 sequence ++ installation_id))) % 100

  -- What `verify` checks before the rotation, which changes nothing.
  unfoldable pub check_signed : UpdateVerifier → SignedUpdateManifest V → V → Result (Unit {0})
  unfolding validate_key_id
  check_signed v signed current_version = do
    validate ops signed.manifest
    validate_key_id signed.key_id
    key ← active_key ops v.keyring signed.key_id signed.manifest.sequence
    fail_if (not (ops.is_signature signed.signature)) invalid_signature
    bytes ← manifest_signing_bytes ops signed.key_id signed.manifest
    fail_if (not (ops.verify_signature key bytes signed.signature)) invalid_signature
    fail_if
        (leb signed.manifest.sequence v.highest_accepted_sequence
          || is_le (ops.cmp_version signed.manifest.version current_version))
        downgrade_or_replay
    fail_if (is_lt (ops.cmp_version current_version signed.manifest.minimum_client))
        incompatible_client

  unfoldable pub check_confirmation : KeyRotation → ℕ → Result (Unit {0})
  unfolding confirmation_bytes
  check_confirmation rotation sequence = do
    fail_if (not (ops.is_signature rotation.confirmation)) rotation_not_confirmed
    fail_if (not (ops.is_key rotation.public_key)) rotation_not_confirmed
    bytes ←
        confirmation_bytes ops rotation.key_id rotation.public_key rotation.activates_at_sequence
          sequence
    fail_if (not (ops.verify_signature rotation.public_key bytes rotation.confirmation))
        rotation_not_confirmed

  abbrev pub trusted_key : KeyRotation → TrustedKey
  trusted_key rotation = record {
    public_key = rotation.public_key;
    activates_at_sequence = rotation.activates_at_sequence;
    revoked_at_sequence = none;
  }

  -- The retirement of the signing key, after the new key is trusted.
  abbrev pub retire : UpdateKeyring → Bytes → ℕ → UpdateKeyring × Result (Unit {0})
  retire keyring key_id at = elim (revoke keyring key_id at) [
    | err e ↦ (keyring, err e)
    | ok retired ↦ (retired, ok tt)
  ]

  unfoldable pub rotate :
      UpdateKeyring → Bytes → ℕ → KeyRotation → UpdateKeyring × Result (Unit {0})
  unfolding check_confirmation
  rotate keyring signer sequence rotation =
      elim (check_confirmation rotation sequence
        >> trust ops keyring rotation.key_id (trusted_key rotation)) [
          | err e ↦ (keyring, err e)
          | ok grown ↦ retire grown signer rotation.activates_at_sequence
        ]

  unfoldable pub rotate_next :
      UpdateKeyring → Bytes → ℕ → Option KeyRotation → UpdateKeyring × Result (Unit {0})
  unfolding rotate
  rotate_next keyring signer sequence none = (keyring, ok tt)
  rotate_next keyring signer sequence (some rotation) = rotate keyring signer sequence rotation

  abbrev pub verified : SignedUpdateManifest V → Bytes → VerifiedUpdate V
  verified signed installation_id = record {
    version = signed.manifest.version;
    sequence = signed.manifest.sequence;
    eligible_for_rollout =
        ltb (rollout_bucket installation_id signed.manifest.sequence)
          signed.manifest.rollout_percent;
    artifacts = signed.manifest.artifacts;
  }

  -- The end of `verify`, from what the rotation gave.
  abbrev pub finish :
      UpdateVerifier
      → SignedUpdateManifest V
      → Bytes
      → UpdateKeyring × Result (Unit {0})
      → UpdateVerifier × Result (VerifiedUpdate V)
  finish v signed installation_id (keyring, err e) = (record v { keyring = keyring }, err e)
  finish v signed installation_id (keyring, ok _) = (
    record { keyring = keyring; highest_accepted_sequence = signed.manifest.sequence },
    ok (verified signed installation_id),
  )

  unfoldable pub verify :
      UpdateVerifier
      → SignedUpdateManifest V
      → V
      → Bytes
      → UpdateVerifier × Result (VerifiedUpdate V)
  verify v signed current_version installation_id = elim (check_signed v signed current_version) [
    | err e ↦ (v, err e)
    | ok _ ↦
        finish v signed installation_id
          (rotate_next v.keyring signed.key_id signed.manifest.sequence signed.manifest.next_key)
  ]
