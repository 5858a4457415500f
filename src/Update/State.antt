-- ===== src/Update/State.antt =====
-- crates/vbuff-update/src/state.rs: the verifier's state on the disk. JSON and hexadecimal are those of
-- serde_json and blake3: `StateOps` has the calls. An atomic write has four steps, of which one may
-- fail, and the file has its old content until the last one is done.
pub mod Durable
pub mod Restarts
use Prim.Native.String.{String}
use vbuff.Base.{
  ℕ, Bool, true, false, not, ◌==◌, if◌then◌else◌, same, Option, none, some, List, [], ◌∷◌, ◌++◌,
  Bytes, bytes_ord,
}
use vbuff.Base.Results.{ok, err, ok_or, fail_if, ◌>>=◌, ◌>>◌}
use vbuff.Sync.Preimage.{be_bytes}
use vbuff.Update.Error.{Result, UpdateError, serialization, io}
use vbuff.Update.Manifest.{SignedUpdateManifest, UpdateOps}
use vbuff.Update.Keyring.{UpdateKeyring}
use vbuff.Update.Verifier.{UpdateVerifier, VerifiedUpdate, verify}

abbrev pub checksum_domain : Bytes
checksum_domain =
    b'v' ∷ b'b' ∷ b'u' ∷ b'f' ∷ b'f' ∷ b'-' ∷ b'u' ∷ b'p' ∷ b'd' ∷ b'a' ∷ b't' ∷ b'e' ∷ b'-' ∷ b'v'
    ∷ b'e' ∷ b'r' ∷ b'i' ∷ b'f' ∷ b'i' ∷ b'e' ∷ b'r' ∷ b'-' ∷ b's' ∷ b't' ∷ b'a' ∷ b't' ∷ b'e'
    ∷ b'-' ∷ b'v' ∷ b'1' ∷ 0 ∷ []

abbrev pub verifier_state_schema : ℕ
verifier_state_schema = 1

pub record VerifierState : Type 0 where
  pub keyring : UpdateKeyring
  pub highest_accepted_sequence : ℕ

pub record PersistedVerifierState : Type 0 where
  pub schema : ℕ
  pub state : VerifierState
  pub checksum : Bytes

pub record StateOps : Type 0 where
  pub state_to_json : VerifierState → Option Bytes
  pub persisted_to_json : PersistedVerifierState → Option Bytes
  -- The schema alone, and the whole envelope.
  pub probe_from_json : Bytes → Option ℕ
  pub persisted_from_json : Bytes → Option PersistedVerifierState
  pub blake3 : Bytes → Bytes
  pub to_hex : Bytes → Bytes
  pub from_hex : Bytes → Option Bytes

-- What there is at the path.
pub data StateFile : Type 0 where
  missing : StateFile
  contents : Bytes → StateFile
  unreadable : String → StateFile

pub data WriteStep : Type 0 where
  opening writing syncing committing : WriteStep

abbrev pub is_step : Option WriteStep → WriteStep → Bool
is_step (some opening) opening = true
is_step (some writing) writing = true
is_step (some syncing) syncing = true
is_step (some committing) committing = true
is_step _ _ = false

unfoldable pub from_state : VerifierState → UpdateVerifier
from_state s = record {
  keyring = s.keyring;
  highest_accepted_sequence = s.highest_accepted_sequence;
}

unfoldable pub state : UpdateVerifier → VerifierState
state v = record { keyring = v.keyring; highest_accepted_sequence = v.highest_accepted_sequence }

-- The steps of the write, of which the given one fails.
unfoldable pub write : Option WriteStep → Result (Unit {0})
write failing = do
  fail_if (is_step failing opening) (io "open")
  fail_if (is_step failing writing) (io "write_all")
  fail_if (is_step failing syncing) (io "sync_all")
  fail_if (is_step failing committing) (io "commit")

module _ (ops : StateOps) where
  unfoldable pub state_checksum : ℕ → VerifierState → Result Bytes
  unfolding be_bytes
  state_checksum schema s = do
    body ← ok_or (ops.state_to_json s) (serialization "verifier state")
    ok (ops.blake3 (checksum_domain ++ (be_bytes 4 schema ++ body)))

  unfoldable pub decode_state : Bytes → Result VerifierState
  unfolding state_checksum
  decode_state bytes = do
    schema ←
        ok_or (ops.probe_from_json bytes)
          (serialization "verifier state file has no readable schema version")
    fail_if (not (schema == verifier_state_schema))
        (serialization "verifier state schema is unsupported")
    persisted ← ok_or (ops.persisted_from_json bytes) (serialization "verifier state")
    stored ←
        ok_or (ops.from_hex persisted.checksum)
          (serialization "verifier state checksum is not a valid digest")
    expected ← state_checksum persisted.schema persisted.state
    fail_if (not (same stored expected))
        (serialization "verifier state checksum mismatch: the file is damaged or was edited")
    ok persisted.state

  unfoldable pub load : StateFile → UpdateKeyring → Result UpdateVerifier
  unfolding decode_state from_state
  load missing bootstrap = ok (record { keyring = bootstrap; highest_accepted_sequence = 0 })
  load (contents bytes) bootstrap = do s ← decode_state bytes; ok (from_state s)
  load (unreadable message) bootstrap = err (io message)

  -- The bytes that `store` writes.
  unfoldable pub encode_state : VerifierState → Result Bytes
  unfolding state_checksum
  encode_state s = do
    checksum ← state_checksum verifier_state_schema s
    ok_or
        (ops.persisted_to_json
          (record { schema = verifier_state_schema; state = s; checksum = ops.to_hex checksum }))
        (serialization "verifier state")

  abbrev pub stored_or : StateFile → Result Bytes → StateFile × Result (Unit {0})
  stored_or file (ok bytes) = (contents bytes, ok tt)
  stored_or file (err e) = (file, err e)

  -- The file afterwards, and the result.
  unfoldable pub store :
      UpdateVerifier → Option WriteStep → StateFile → StateFile × Result (Unit {0})
  unfolding encode_state write state
  store v failing file = stored_or file (do bytes ← encode_state (state v); write failing; ok bytes)

  -- A verifier and its file.
  pub record Installation : Type 0 where
    pub verifier : UpdateVerifier
    pub file : StateFile

  module _ {V : Type 0} (update_ops : UpdateOps V) where
    -- The end of `verify_and_store`: the roll back where the write fails.
    abbrev pub store_or_roll_back :
        VerifierState
        → UpdateVerifier
        → VerifiedUpdate V
        → StateFile × Result (Unit {0})
        → Installation × Result (VerifiedUpdate V)
    store_or_roll_back previous after update (file, ok _) =
        (record { verifier = after; file = file }, ok update)
    store_or_roll_back previous after update (file, err e) =
        (record { verifier = from_state previous; file = file }, err e)

    abbrev pub store_verified :
        Installation
        → Option WriteStep
        → UpdateVerifier × Result (VerifiedUpdate V)
        → Installation × Result (VerifiedUpdate V)
    store_verified d failing (after, err e) = (record d { verifier = after }, err e)
    store_verified d failing (after, ok update) =
        store_or_roll_back (state d.verifier) after update (store after failing d.file)

    unfoldable pub verify_and_store :
        Installation
        → SignedUpdateManifest V
        → V
        → Bytes
        → Option WriteStep
        → Installation × Result (VerifiedUpdate V)
    unfolding store state from_state
    verify_and_store d signed current_version installation_id failing =
        store_verified d failing
          (verify update_ops d.verifier signed current_version installation_id)
