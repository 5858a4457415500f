-- ===== src/Sync/Membership/Examples.antt =====
-- A group of two devices, one of which is revoked.
use vbuff.Base.{
  ℕ, ◌≡◌, refl, true, if◌then◌else◌, same, same_iff, none, some, List, [], ◌∷◌, ◌++◌, Bytes,
  bytes_ord, cmp_bytes, length, checked_add, u64_max,
}
use vbuff.Base.Maps.{get, contains_key, map_insert}
use vbuff.Base.Maps.Remove.{map_remove}
use vbuff.Sync.Error.{Result, ok, err}
use vbuff.Sync.Validation.{is_valid_identifier, is_valid_identifier_with_extra}
use vbuff.Sync.Preimage.{new, fixed, var, byte, u32_be, u64_be, be_bytes, finish}
use vbuff.Sync.Clock.{HybridLogicalClock, cmp_clock}
use vbuff.Sync.Sealing.{SealOps, Randomness, seal_to, derive_sealed_key}
use vbuff.Sync.Chain.{
  Crypto, ChainLink, SignedChain, append, head, replay, last_hash, link_preimage, verify_link,
  verify_from,
}
use vbuff.Sync.Chain
use vbuff.Sync.Chain.Append.{Verifies}
use vbuff.Sync.Membership.{
  DeviceMember, add, MembershipEntry, default, apply, apply_action, extend_preimage, extend_action,
  validate_public_key, validate_entry_semantics, expected_signing_key, membership,
}
use vbuff.Sync.Membership.Epoch.{
  EpochTransition, decimal, epoch_label, append_change, active_members, seal_members, publish,
  revoke_and_rekey,
}
use vbuff.Sync.Membership.Rekey.{IsSealed, revoke_and_rekey-excludes}
use vbuff.Sync.Membership.Authors.{AllSigned, verify-AllSigned}

abbrev plain_crypto : Crypto
plain_crypto = record {
  blake3 = λ m. length m ∷ [];
  verifying_key = λ k. k;
  is_key = λ k. true;
  sign = λ k m. k ++ m;
  verify = λ k m s. same s (k ++ m);
}

plain_crypto-Verifies : Verifies plain_crypto
plain_crypto-Verifies = record {
  keys = λ k. refl;
  signatures = λ k m. (same_iff (k ++ m) (k ++ m)).1 refl;
}

abbrev plain_seal : SealOps
plain_seal = record {
  public_key = λ s. s;
  diffie_hellman = λ s p. s ++ p;
  was_contributory = λ s. true;
  hkdf_expand = λ salt secret purpose. some secret;
  encrypt = λ key nonce message aad. some (key ++ message);
}

abbrev desk : Bytes
desk = b'd' ∷ []

abbrev phone : Bytes
phone = b'p' ∷ []

abbrev at_time : ℕ → HybridLogicalClock
at_time now = record { physical_ms = now; logical = 0; node_id = desk }

abbrev member : Bytes → DeviceMember
member id = record { device_id = id; public_key = id; signing_key = id }

abbrev log_or : Result (SignedChain MembershipEntry × Bytes) → SignedChain MembershipEntry
log_or (ok (log, hash)) = log
log_or (err e) = record { entries = [] }

abbrev one_device : SignedChain MembershipEntry
one_device = log_or (
    append_change plain_crypto plain_seal (record { entries = [] }) (add (member desk)) desk
      (at_time 1) desk)

abbrev two_devices : SignedChain MembershipEntry
two_devices =
    log_or
      (append_change plain_crypto plain_seal one_device (add (member phone)) desk (at_time 2) desk)

abbrev draws : ℕ → Randomness
draws index = record { ephemeral_secret = index ∷ []; nonce = some (index ∷ []) }

abbrev outcome : Result (SignedChain MembershipEntry × EpochTransition)
outcome =
    revoke_and_rekey plain_crypto plain_seal draws two_devices phone desk (at_time 3) 4 (9 ∷ [])
      desk

abbrev rekeyed_or :
    Result (SignedChain MembershipEntry × EpochTransition)
    → SignedChain MembershipEntry × EpochTransition
rekeyed_or (ok rekeyed) = rekeyed
rekeyed_or (err e) = (
  record { entries = [] },
  record { epoch = 0; revoked_device = []; key_commitment = []; wrapped_group_keys = [] },
)

revoke_and_rekey-excludes_example :
    (Chain.verify (membership plain_seal) plain_crypto (rekeyed_or outcome).0 tt ≡ ok tt)
    × (get desk (active_members plain_crypto plain_seal (rekeyed_or outcome).0) ≡ (
        if same desk phone
        then none
        else get desk (active_members plain_crypto plain_seal two_devices)))
    × (checked_add u64_max 4 1 ≡ some (rekeyed_or outcome).1.epoch)
    × ((rekeyed_or outcome).1.revoked_device ≡ phone)
    × ((rekeyed_or outcome).1.key_commitment ≡ plain_crypto.blake3 (9 ∷ []))
    × IsSealed plain_crypto plain_seal draws
        (9 ∷ [])
        (epoch_label (rekeyed_or outcome).1.epoch)
        (if same desk phone
          then none
          else get desk (active_members plain_crypto plain_seal two_devices))
        (get desk (rekeyed_or outcome).1.wrapped_group_keys)
unfolding append head replay last_hash link_preimage new fixed var byte u32_be u64_be be_bytes
    finish Chain.verify verify_from verify_link cmp_bytes cmp_clock apply apply_action
    extend_preimage extend_action validate_public_key validate_entry_semantics expected_signing_key
    decimal epoch_label append_change active_members seal_members publish revoke_and_rekey seal_to
    derive_sealed_key get contains_key map_insert map_remove is_valid_identifier
    is_valid_identifier_with_extra
revoke_and_rekey-excludes_example =
    revoke_and_rekey-excludes plain_crypto plain_seal draws two_devices (rekeyed_or outcome).0 phone
      desk (at_time 3) 4 (9 ∷ []) desk (rekeyed_or outcome).1 desk plain_crypto-Verifies refl

abbrev desk_entry : MembershipEntry
desk_entry = record { action = add (member desk); added_by = desk; clock = at_time 1 }

abbrev unsigned : ChainLink MembershipEntry
unsigned = record { payload = desk_entry; previous_hash = []; hash = []; signature = [] }

abbrev first_of : List (ChainLink MembershipEntry) → ChainLink MembershipEntry
first_of [] = unsigned
first_of (l ∷ links) = l

abbrev rest_of : List (ChainLink MembershipEntry) → List (ChainLink MembershipEntry)
rest_of [] = []
rest_of (l ∷ links) = links

verify-AllSigned_example :
    AllSigned plain_crypto plain_seal desk (apply desk_entry default) (rest_of two_devices.entries)
unfolding append head replay last_hash link_preimage new fixed var byte u32_be u64_be be_bytes
    finish Chain.verify verify_from verify_link cmp_bytes cmp_clock apply apply_action
    extend_preimage extend_action validate_public_key validate_entry_semantics expected_signing_key
    append_change get contains_key map_insert map_remove is_valid_identifier
    is_valid_identifier_with_extra
verify-AllSigned_example =
    verify-AllSigned plain_crypto plain_seal two_devices (first_of two_devices.entries)
      (rest_of two_devices.entries) refl refl
