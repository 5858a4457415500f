-- ===== src/Update/Examples.antt =====
-- Concrete updates: a file format with a toy checksum that is read back as it was written, and
-- signatures that name the key and the length of the message.
use vbuff.Base.{
  ℕ, ◌⊎◌, zero, suc, ◌≡◌, refl, ap, same, compare, Option, none, some, some_injective, List, [],
  ◌∷◌, ◌++◌, length, replicate, Bytes, bytes_ord, cmp_bytes, sym, ◌∙◌,
}
use vbuff.Base.Maps.{get, map_insert, contains_key}
use vbuff.Base.Sets.{member}
use vbuff.Sync.Validation.{is_valid_identifier}
use vbuff.Base.Results.{ok, err}
use vbuff.Update.Error.{UpdateError, duplicate_key_id}
use vbuff.Update.Manifest.{
  https, Artifact, KeyRotation, UpdateManifest, SignedUpdateManifest, UpdateOps, validate,
  manifest_signing_bytes,
}
use vbuff.Update.Keyring.{TrustedKey, UpdateKeyring, revoke, trust, active_key}
use vbuff.Update.Verifier.{UpdateVerifier, check_signed, rotate_next, verified, verify}
use vbuff.Update.Verifier.Refusal.{verify-refused}
use vbuff.Update.State.{
  PersistedVerifierState, StateOps, StateFile, missing, load, syncing, Installation,
  verify_and_store,
}
use vbuff.Update.State.Durable.{AreCodecs, verify_and_store-durable}
use vbuff.Update.State.Restarts.{
  Event, updating, restarting, AscendingFrom, NoneBy, accepted, accepted-ascending,
  rotated_out-never_accepted,
}

-- The file format: a string stands after its length.
abbrev after_first : {T : Type 0} → T → List T × Bytes → List T × Bytes
after_first x (xs, rest) = (x ∷ xs, rest)

abbrev split : ℕ → Bytes → Bytes × Bytes
split zero bytes = ([], bytes)
split (suc n) [] = ([], [])
split (suc n) (byte ∷ bytes) = after_first byte (split n bytes)

split-append : (s rest : Bytes) → split (length s) (s ++ rest) ≡ (s, rest)
split-append [] rest = refl
split-append (byte ∷ s) rest = ap (λ q. after_first byte q) (split-append s rest)

abbrev put_string : Bytes → Bytes → Bytes
put_string s rest = length s ∷ (s ++ rest)

abbrev get_string : Bytes → Bytes × Bytes
get_string [] = ([], [])
get_string (n ∷ bytes) = split n bytes

abbrev put_option : Option ℕ → Bytes → Bytes
put_option none rest = 0 ∷ rest
put_option (some n) rest = suc n ∷ rest

abbrev get_option : Bytes → Option ℕ × Bytes
get_option (zero ∷ rest) = (none, rest)
get_option (suc n ∷ rest) = (some n, rest)
get_option [] = (none, [])

get-put_option : (o : Option ℕ) (rest : Bytes) → get_option (put_option o rest) ≡ (o, rest)
get-put_option none rest = refl
get-put_option (some n) rest = refl

abbrev Entry : Type 0
Entry = Bytes × TrustedKey

abbrev put_entry : Entry → Bytes → Bytes
put_entry (id, key) rest = put_string id (
    put_string key.public_key (key.activates_at_sequence ∷ put_option key.revoked_at_sequence rest))

abbrev entry_with : Bytes → Bytes → ℕ → Option ℕ × Bytes → Entry × Bytes
entry_with id public_key at (revoked, rest) = (
  (
    id,
    record { public_key = public_key; activates_at_sequence = at; revoked_at_sequence = revoked },
  ),
  rest,
)

abbrev entry_from : Bytes → Bytes × Bytes → Entry × Bytes
entry_from id (public_key, []) = entry_with id public_key 0 (none, [])
entry_from id (public_key, at ∷ rest) = entry_with id public_key at (get_option rest)

abbrev named_entry : Bytes × Bytes → Entry × Bytes
named_entry (id, rest) = entry_from id (get_string rest)

abbrev get_entry : Bytes → Entry × Bytes
get_entry bytes = named_entry (get_string bytes)

get-put_entry : (e : Entry) (rest : Bytes) → get_entry (put_entry e rest) ≡ (e, rest)
get-put_entry (id, key) rest =
    let tail = key.activates_at_sequence ∷ put_option key.revoked_at_sequence rest in
    ap (λ q. named_entry q) (split-append id (put_string key.public_key tail))
    ∙ (ap (λ q. entry_from id q) (split-append key.public_key tail)
        ∙ ap (λ q. entry_with id key.public_key key.activates_at_sequence q)
            (get-put_option key.revoked_at_sequence rest))

abbrev put_entries : List Entry → Bytes → Bytes
put_entries [] rest = rest
put_entries (e ∷ entries) rest = put_entry e (put_entries entries rest)

abbrev then_entries : (Bytes → List Entry × Bytes) → Entry × Bytes → List Entry × Bytes
then_entries more (e, rest) = after_first e (more rest)

abbrev get_entries : ℕ → Bytes → List Entry × Bytes
get_entries zero bytes = ([], bytes)
get_entries (suc n) bytes = then_entries (λ q. get_entries n q) (get_entry bytes)

get-put_entries :
    (entries : List Entry) (rest : Bytes)
    → get_entries (length entries) (put_entries entries rest) ≡ (entries, rest)
get-put_entries [] rest = refl
get-put_entries (e ∷ entries) rest =
    ap (λ q. then_entries (λ q. get_entries (length entries) q) q)
      (get-put_entry e (put_entries entries rest))
    ∙ ap (λ q. after_first e q) (get-put_entries entries rest)

abbrev persisted : PersistedVerifierState → Bytes
persisted p =
    p.schema
    ∷ p.state.highest_accepted_sequence
    ∷ length p.state.keyring.keys
    ∷ put_entries p.state.keyring.keys p.checksum

abbrev envelope : ℕ → ℕ → List Entry × Bytes → PersistedVerifierState
envelope schema highest (keys, checksum) = record {
  schema = schema;
  state = record { keyring = record { keys = keys }; highest_accepted_sequence = highest };
  checksum = checksum;
}

abbrev read_envelope : Bytes → Option PersistedVerifierState
read_envelope (schema ∷ highest ∷ n ∷ bytes) = some (envelope schema highest (get_entries n bytes))
read_envelope _ = none

abbrev read_schema : Bytes → Option ℕ
read_schema [] = none
read_schema (schema ∷ bytes) = some schema

abbrev state_ops : StateOps
state_ops = record {
  state_to_json = λ s. some (s.highest_accepted_sequence ∷ put_entries s.keyring.keys []);
  persisted_to_json = λ p. some (persisted p);
  probe_from_json = read_schema;
  persisted_from_json = read_envelope;
  blake3 = λ bytes. length bytes ∷ [];
  to_hex = λ digest. digest;
  from_hex = λ text. some text;
}

state_ops-AreCodecs : AreCodecs state_ops
state_ops-AreCodecs = record {
  probes = λ p bytes h. ap (λ q. read_schema q) (sym (some_injective h));
  envelopes = λ p bytes h.
      ap (λ q. read_envelope q) (sym (some_injective h))
      ∙ ap (λ q. some (envelope p.schema p.state.highest_accepted_sequence q))
          (get-put_entries p.state.keyring.keys p.checksum);
  digests = λ digest. refl;
}

abbrev update_ops : UpdateOps ℕ
update_ops = record {
  parse_url = λ url. some (record { scheme = https; host_str = some url });
  cmp_version = compare;
  manifest_to_json = λ m. some (m.sequence ∷ m.version ∷ m.rollout_percent ∷ []);
  rotation_to_json = λ id key at sequence. some (id ++ (key ++ (at ∷ sequence ∷ [])));
  is_key = λ key. same (length key ∷ []) (1 ∷ []);
  is_signature = λ signature. same (length signature ∷ []) (64 ∷ []);
  verifying_key = λ key. key;
  sign = λ key message. key ++ replicate 63 (length message);
  verify_signature = λ key message signature. same signature (key ++ replicate 63 (length message));
  blake3 = λ bytes. length bytes ∷ [];
}

abbrev old_key : Bytes
old_key = b'o' ∷ []

abbrev new_key : Bytes
new_key = b'n' ∷ []

abbrev keyring : UpdateKeyring
keyring = record {
  keys =
      (
        old_key,
        record { public_key = 7 ∷ []; activates_at_sequence = 0; revoked_at_sequence = none },
      )
      ∷ [];
}

abbrev artifact : Artifact
artifact = record { target = b'l' ∷ []; url = b'u' ∷ []; sha256 = []; byte_size = 9 }

abbrev rotation : KeyRotation
rotation = record {
  key_id = new_key;
  public_key = 8 ∷ [];
  activates_at_sequence = 5;
  confirmation = 8 ∷ replicate 63 35;
}

abbrev manifest : ℕ → Option KeyRotation → UpdateManifest ℕ
manifest sequence next = record {
  schema = 2;
  sequence = sequence;
  version = sequence;
  minimum_client = 0;
  published_at_ms = 0;
  rollout_percent = 50;
  artifacts = artifact ∷ [];
  next_key = next;
}

abbrev signed_by : Bytes → ℕ → ℕ → Option KeyRotation → SignedUpdateManifest ℕ
signed_by key_id secret sequence next = record {
  key_id = key_id;
  manifest = manifest sequence next;
  signature = secret ∷ replicate 63 30;
}

abbrev installation : Installation state_ops
installation = record {
  verifier = record { keyring = keyring; highest_accepted_sequence = 0 };
  file = missing;
}

abbrev rotating : SignedUpdateManifest ℕ
rotating = signed_by old_key 7 3 (some rotation)

-- The rotation, an update that the old key signs too late, one whose write fails, a restart, and an
-- update that the new key signs.
abbrev later : List (Event ℕ)
later =
    updating (signed_by old_key 7 6 none) 0 [] none
    ∷ updating (signed_by new_key 8 6 none) 0 [] (some syncing)
    ∷ restarting
    ∷ updating (signed_by new_key 8 7 none) 0 [] none
    ∷ []

accepted_run :
    accepted state_ops update_ops keyring installation (updating rotating 0 [] none ∷ later)
    ≡ (old_key, 3) ∷ (new_key, 7) ∷ []
unfolding accepted verify_and_store verify check_signed validate is_valid_identifier member
    cmp_bytes active_key get manifest_signing_bytes rotate_next trust contains_key revoke map_insert
    load
accepted_run = refl

abbrev other_id : Bytes
other_id = b'x' ∷ []

abbrev own_rotation : KeyRotation
own_rotation = record {
  key_id = other_id;
  public_key = 7 ∷ [];
  activates_at_sequence = 6;
  confirmation = 7 ∷ replicate 63 35;
}

-- Before the new key activates, the old one rotates to its own public key under another identifier,
-- and signs under that one after the activation.
reregistered_run :
    accepted state_ops update_ops keyring installation (
      updating rotating 0 [] none
      ∷ updating (signed_by old_key 7 4 (some own_rotation)) 0 [] none
      ∷ updating (signed_by other_id 7 6 none) 0 [] none
      ∷ [])
    ≡ (old_key, 3) ∷ (old_key, 4) ∷ (other_id, 6) ∷ []
unfolding accepted verify_and_store verify check_signed validate is_valid_identifier member
    cmp_bytes active_key get manifest_signing_bytes rotate_next trust contains_key revoke map_insert
    load
reregistered_run = refl

accepted-ascending_example :
    AscendingFrom 0
      (accepted state_ops update_ops keyring installation (updating rotating 0 [] none ∷ later))
unfolding load
accepted-ascending_example =
    accepted-ascending state_ops update_ops keyring installation
      (updating rotating 0 [] none ∷ later) state_ops-AreCodecs refl

rotated_out-never_accepted_example : NoneBy old_key 5 (
    accepted state_ops update_ops keyring
      (verify_and_store state_ops update_ops installation rotating 0 [] none).0
      later)
unfolding verify_and_store verify check_signed validate is_valid_identifier member cmp_bytes
    active_key get manifest_signing_bytes rotate_next trust contains_key revoke map_insert
rotated_out-never_accepted_example =
    rotated_out-never_accepted state_ops update_ops keyring installation rotating rotation 0 [] none
      (verified update_ops rotating []) later state_ops-AreCodecs refl refl

-- The write is refused: the rotation is taken back.
verify_and_store-durable_example :
    ((e : UpdateError) × (verify_and_store state_ops update_ops installation rotating 0 []
          (some syncing)
        ≡ (installation, err e)))
    ⊎ ((after : UpdateVerifier) × (file : StateFile) × (verify update_ops installation.verifier
            rotating 0 []
          ≡ (after, ok (verified update_ops rotating [])))
        × (verify_and_store state_ops update_ops installation rotating 0 [] (some syncing)
            ≡ (record { verifier = after; file = file }, ok (verified update_ops rotating [])))
        × (load state_ops file keyring ≡ ok after))
verify_and_store-durable_example =
    verify_and_store-durable state_ops update_ops installation rotating 0 [] (some syncing) keyring
      state_ops-AreCodecs

-- The new key is trusted already, so its rotation is refused after its confirmation has been checked.
abbrev both : UpdateVerifier
both = record {
  keyring = record {
    keys =
        (
          new_key,
          record { public_key = 8 ∷ []; activates_at_sequence = 0; revoked_at_sequence = none },
        )
        ∷ keyring.keys;
  };
  highest_accepted_sequence = 2;
}

verify-refused_example : (verify update_ops both rotating 0 []).0 ≡ both
unfolding verify check_signed validate is_valid_identifier member cmp_bytes active_key get
    manifest_signing_bytes rotate_next trust contains_key
verify-refused_example = verify-refused update_ops both rotating 0 [] duplicate_key_id refl
