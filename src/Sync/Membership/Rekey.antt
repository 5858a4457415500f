-- ===== src/Sync/Membership/Rekey.antt =====
-- What a revocation with a fresh group key leaves.
use vbuff.Base.{
  Option-cases, ℕ, suc, ◌≡◌, ◌∙◌, refl, sym, ap, subst, Bool, true, false, if◌then◌else◌,
  Bool-cases, inl, inr, same, Option, none, some, List, [], ◌∷◌, ◌++◌, Bytes, bytes_ord, arith,
  checked_add, u64_max,
}
use vbuff.Base.Maps.{get, contains_key}
use vbuff.Base.Maps.Remove.{get-map_remove, map_remove}
use vbuff.Sync.Error.{ok, err, invalid, Result-cases, ok_injective, bind_inv, ◌>>=◌}
use vbuff.Sync.Clock.{HybridLogicalClock}
use vbuff.Sync.Sealing.{SealOps, SealedEnvelope, Randomness, seal_to}
use vbuff.Sync.Chain.{Crypto, ChainLink, SignedChain, append, replay, head}
use vbuff.Sync.Chain
use vbuff.Sync.Chain.Append.{Verifies, append-verify}
use vbuff.Sync.Membership.{
  DeviceMember, revoke, MembershipEntry, default, apply, apply_action, membership,
}
use vbuff.Sync.Membership.Epoch.{
  EpochTransition, epoch_label, append_change, active_members, seal_members, publish,
  revoke_and_rekey,
}
use vbuff.Sync.Membership.Active.{replay-IsAscending, replay-append}

module _ (c : Crypto) (seal : SealOps) where
  -- A member and what is sealed for it: the envelope holds the group key, sealed to the public key of
  -- the member with one of the draws. There is no envelope without a member, and no member without.
  abbrev pub IsSealed :
      (ℕ → Randomness) → Bytes → Bytes → Option DeviceMember → Option SealedEnvelope → Type 0
  IsSealed random group_key aad none none = Unit {0}
  IsSealed random group_key aad none (some envelope) = ⊥
  IsSealed random group_key aad (some member) none = ⊥
  IsSealed random group_key aad (some member) (some envelope) =
      (index : ℕ) × (seal_to seal (random index) member.public_key group_key aad ≡ ok envelope)

  IsSealed-head :
      (random : ℕ → Randomness) (index : ℕ) (group_key aad : Bytes) (head : Bool)
      (member : DeviceMember) (envelope : SealedEnvelope) (found : Option DeviceMember)
      (key : Option SealedEnvelope)
      → seal_to seal (random index) member.public_key group_key aad ≡ ok envelope
      → IsSealed random group_key aad found key
      → IsSealed random group_key aad
          (if head then some member else found)
          (if head then some envelope else key)
  IsSealed-head random index group_key aad true member envelope found key sealed rest =
      (index, sealed)
  IsSealed-head random index group_key aad false member envelope found key sealed rest = rest

  seal_members-IsSealed :
      (random : ℕ → Randomness) (index : ℕ) (group_key aad : Bytes)
      (members : List (Bytes × DeviceMember)) (keys : List (Bytes × SealedEnvelope)) (other : Bytes)
      → seal_members c seal random index group_key aad members ≡ ok keys
      → IsSealed random group_key aad (get other members) (get other keys)
  unfolding seal_members get
  seal_members-IsSealed random index group_key aad [] keys other h =
      subst (λ q. IsSealed random group_key aad none (get other q)) (ok_injective h) tt
  seal_members-IsSealed random index group_key aad ((device, member) ∷ members) keys other h =
      let rest = seal_members c seal random (suc index) group_key aad members in
      let (envelope, opened, h) =
        bind_inv (seal_to seal (random index) member.public_key group_key aad)
          (λ envelope. rest >>= (λ others. ok ((device, envelope) ∷ others))) keys h in
      let (others, sealed, h) = bind_inv rest (λ others. ok ((device, envelope) ∷ others)) keys h in
      let later =
        seal_members-IsSealed random (suc index) group_key aad members others other sealed in
      subst
        (λ q. IsSealed random group_key aad (get other ((device, member) ∷ members)) (get other q))
        (ok_injective h)
        (IsSealed-head random index group_key aad (same other device) member envelope
          (get other members) (get other others) opened later)

  -- The members after a link that revokes a device.
  get-revoked :
      (log after : SignedChain MembershipEntry) (l : ChainLink MembershipEntry)
      (device other : Bytes)
      → l.payload.action ≡ revoke device
      → after.entries ≡ log.entries ++ l ∷ []
      → get other (active_members c seal after)
        ≡ (if same other device then none else get other (active_members c seal log))
  unfolding active_members apply apply_action
  get-revoked log after l device other e extended =
      let before = replay (membership seal) default log.entries in
      let one : (replay (membership seal) default after.entries).active
          ≡ apply_action before.active l.payload.action =
        ap (λ q. (replay (membership seal) default q).active) extended
        ∙ ap (λ q. q.active) (replay-append seal default log.entries l) in
      let two : apply_action before.active l.payload.action ≡ map_remove device before.active =
        ap (λ q. apply_action before.active q) e in
      ap (λ q. get other q) (one ∙ two)
      ∙ get-map_remove other device before.active (replay-IsAscending seal default log.entries tt)

  module _ (random : ℕ → Randomness) (log : SignedChain MembershipEntry) (device : Bytes)
      (current : ℕ) (group_key : Bytes) where
    -- The transition: its epoch, what is sealed for the members of the new log, the device that is
    -- revoked and the commitment to the group key.
    abbrev IsRekeyed : SignedChain MembershipEntry × EpochTransition → Type 0
    IsRekeyed (after, t) =
        (checked_add u64_max current 1 ≡ some t.epoch)
        × (seal_members c seal random 0 group_key (epoch_label t.epoch)
              (active_members c seal after)
            ≡ ok t.wrapped_group_keys)
        × (t.revoked_device ≡ device)
        × (t.key_commitment ≡ c.blake3 group_key)

    publish_inv :
        (staged after : SignedChain MembershipEntry) (t : EpochTransition)
        → publish c seal random staged device current group_key ≡ ok (after, t)
        → (staged ≡ after) × IsRekeyed (after, t)
    unfolding publish
    publish_inv staged after t h =
        let published = publish c seal random staged device current group_key in
        elim (Option-cases (checked_add u64_max current 1)) [
          | inl exhausted ↦
              let refused : published ≡ err (invalid "membership epoch exhausted") =
                rw exhausted refl in
              absurd (ground (arith, h, refused))
          | inr (epoch, next) ↦
              let sealing =
                seal_members c seal random 0 group_key (epoch_label epoch)
                  (active_members c seal staged) in
              elim (Result-cases sealing) [
                | inl (e, bad) ↦
                    let refused : published ≡ err e = rw (next, bad) refl in
                    absurd (ground (arith, h, refused))
                | inr (keys, sealed) ↦
                    let transition : EpochTransition = record {
                      epoch = epoch;
                      revoked_device = device;
                      key_commitment = c.blake3 group_key;
                      wrapped_group_keys = keys;
                    } in
                    let written : published ≡ ok (staged, transition) = rw (next, sealed) refl in
                    let same_pair = ok_injective (sym written ∙ h) in
                    (ap (λ q. q.0) same_pair, subst IsRekeyed same_pair (next, sealed, refl, refl))
              ]
        ]

    module _ (author : Bytes) (clock : HybridLogicalClock) (author_key : Bytes) where
      revoke_and_rekey_inv :
          (after : SignedChain MembershipEntry) (t : EpochTransition)
          → revoke_and_rekey c seal random log device author clock current group_key author_key
            ≡ ok (after, t)
          → (Chain.verify (membership seal) c log tt ≡ ok tt)
            × ((hash : Bytes) × (append_change c seal log (revoke device) author clock author_key
                  ≡ ok (after, hash)))
            × IsRekeyed (after, t)
      unfolding revoke_and_rekey
      revoke_and_rekey_inv after t h =
          let outcome =
            revoke_and_rekey c seal random log device author clock current group_key author_key in
          elim (Result-cases (Chain.verify (membership seal) c log tt)) [
            | inl (e, bad) ↦
                let refused : outcome ≡ err e = rw bad refl in absurd (ground (arith, h, refused))
            | inr (_, verified) ↦
                elim (Bool-cases (contains_key device (active_members c seal log))) [
                  | inr absent ↦
                      let refused : outcome ≡ err (invalid "device is not an active member") =
                        rw (verified, absent) refl in
                      absurd (ground (arith, h, refused))
                  | inl present ↦
                      elim (Result-cases
                        (append_change c seal log (revoke device) author clock author_key)) [
                          | inl (e, bad) ↦
                              let refused : outcome ≡ err e = rw (verified, present, bad) refl in
                              absurd (ground (arith, h, refused))
                          | inr ((staged, hash), appended) ↦
                              let rest : outcome
                                  ≡ publish c seal random staged device current group_key =
                                rw (verified, present, appended) refl in
                              let (kept, rekeyed) = publish_inv staged after t (sym rest ∙ h) in
                              (verified, (hash, appended ∙ ap (λ q. ok (q, hash)) kept), rekeyed)
                        ]
                ]
          ]

-- A revocation that succeeds leaves a log that verifies. In it the revoked device is not active, and
-- every other device is as it was. The transition is to the epoch after the current one, for that
-- device, and commits to the new group key. For each device that was active and is not the revoked
-- one it holds the group key, sealed to the public key of the device under the label of the new
-- epoch, and it holds nothing for any other. The signatures of a key have to verify under its public
-- half.
pub revoke_and_rekey-excludes :
    (c : Crypto) (seal : SealOps) (random : ℕ → Randomness)
    (log after : SignedChain MembershipEntry) (device author : Bytes) (clock : HybridLogicalClock)
    (current : ℕ) (group_key author_key : Bytes) (t : EpochTransition) (other : Bytes)
    → Verifies c
    → revoke_and_rekey c seal random log device author clock current group_key author_key
      ≡ ok (after, t)
    → (Chain.verify (membership seal) c after tt ≡ ok tt)
      × (get other (active_members c seal after)
          ≡ (if same other device then none else get other (active_members c seal log)))
      × (checked_add u64_max current 1 ≡ some t.epoch)
      × (t.revoked_device ≡ device)
      × (t.key_commitment ≡ c.blake3 group_key)
      × IsSealed c seal random group_key
          (epoch_label t.epoch)
          (if same other device then none else get other (active_members c seal log))
          (get other t.wrapped_group_keys)
unfolding append_change
revoke_and_rekey-excludes c seal random log after device author clock current group_key author_key t
      other laws h =
    let (verified, (hash, appended), (next, sealed, revoked, committed)) =
      revoke_and_rekey_inv c seal random log device current group_key author clock author_key after
        t h in
    let entry : MembershipEntry = record {
      action = revoke device;
      added_by = author;
      clock = clock;
    } in
    let (still, _, (l, payload, _, extended)) =
      append-verify (membership seal) c log after entry tt author_key hash laws verified appended in
    let now = get-revoked c seal log after l device other (ap (λ q. q.action) payload) extended in
    let keys =
      seal_members-IsSealed c seal random 0 group_key (epoch_label t.epoch)
        (active_members c seal after) t.wrapped_group_keys other sealed in
    (
      still,
      now,
      next,
      revoked,
      committed,
      subst
          (λ q.
            IsSealed c seal random group_key (epoch_label t.epoch) q
              (get other t.wrapped_group_keys))
          now keys,
    )
