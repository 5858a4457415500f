-- ===== src/Update/Keyring.antt =====
-- `UpdateKeyring` of crates/vbuff-update/src/manifest.rs. A method that fails changes nothing.
pub mod Revocation
use vbuff.Base.{
  ℕ, min, Bool, true, not, ◌&&◌, ltb, leb, if◌then◌else◌, Option, none, some, List, [], ◌∷◌, Bytes,
  bytes_ord,
}
use vbuff.Base.Maps.{get, map_insert, contains_key}
use vbuff.Base.Results.{ok, err, ok_or, fail_if, ◌>>=◌, ◌>>◌}
use vbuff.Update.Error.{Result, invalid_manifest, untrusted_key, duplicate_key_id}
use vbuff.Update.Manifest.{UpdateOps, validate_key_id}

pub record TrustedKey : Type 0 where
  pub public_key : Bytes
  pub activates_at_sequence : ℕ
  pub revoked_at_sequence : Option ℕ

pub record UpdateKeyring : Type 0 where
  pub keys : List (Bytes × TrustedKey)

-- `previous.map_or(at, |previous| previous.min(at))`.
abbrev pub earliest : Option ℕ → ℕ → ℕ
earliest none at = at
earliest (some previous) at = min previous at

unfoldable pub revoke : UpdateKeyring → Bytes → ℕ → Result UpdateKeyring
revoke keyring key_id at_sequence = do
  key ← ok_or (get key_id keyring.keys) untrusted_key
  ok (record {
    keys =
        map_insert key_id
          (record key { revoked_at_sequence = some (earliest key.revoked_at_sequence at_sequence) })
          keyring.keys;
  })

abbrev pub not_revoked : Option ℕ → ℕ → Bool
not_revoked none sequence = true
not_revoked (some revoked) sequence = ltb sequence revoked

unfoldable pub is_active : TrustedKey → ℕ → Bool
is_active key sequence =
    leb key.activates_at_sequence sequence && not_revoked key.revoked_at_sequence sequence

module _ {V : Type 0} (ops : UpdateOps V) where
  unfoldable pub trust : UpdateKeyring → Bytes → TrustedKey → Result UpdateKeyring
  unfolding validate_key_id
  trust keyring key_id key = do
    validate_key_id key_id
    fail_if (not (ops.is_key key.public_key)) (invalid_manifest "trusted key is invalid")
    fail_if (contains_key key_id keyring.keys) duplicate_key_id
    ok (record { keys = map_insert key_id key keyring.keys })

  unfoldable pub active_key : UpdateKeyring → Bytes → ℕ → Result Bytes
  unfolding is_active
  active_key keyring key_id sequence = do
    key ← ok_or (get key_id keyring.keys) untrusted_key
    fail_if (not (is_active key sequence)) untrusted_key
    fail_if (not (ops.is_key key.public_key)) untrusted_key
    ok key.public_key
