-- ===== src/Sync/Membership/Epoch.antt =====
-- `MembershipLog` and `revoke_and_rekey` of crates/vbuff-sync/src/membership.rs.
use vbuff.Base.{
  ℕ, zero, suc, ◌+◌, ◌/◌, ◌%◌, not, ltb, if◌then◌else◌, List, [], ◌∷◌, ◌++◌, Bytes, bytes_ord,
  checked_add, u64_max,
}
use vbuff.Base.Maps.{contains_key}
use vbuff.Sync.Error.{Result, ok, invalid, ok_or, fail_if, ◌>>=◌, ◌>>◌}
use vbuff.Sync.Clock.{HybridLogicalClock}
use vbuff.Sync.Sealing.{SealOps, SealedEnvelope, Randomness, seal_to}
use vbuff.Sync.Chain.{Crypto, SignedChain, append, replay}
use vbuff.Sync.Chain
use vbuff.Sync.Membership.{
  DeviceMember, MembershipAction, revoke, MembershipEntry, default, membership,
}

pub record EpochTransition : Type 0 where
  pub epoch : ℕ
  pub revoked_device : Bytes
  pub key_commitment : Bytes
  pub wrapped_group_keys : List (Bytes × SealedEnvelope)

-- The decimal digits of a number that has at most so many.
unfoldable pub decimal : ℕ → ℕ → Bytes
decimal zero n = []
decimal (suc digits) n =
    let front = decimal digits (n / 10) in
    let last = b'0' + n % 10 in if ltb n 10 then last ∷ [] else front ++ last ∷ []

-- `format!("vbuff-group-epoch-{epoch}")`; a u64 has at most 20 digits.
unfoldable pub epoch_label : ℕ → Bytes
unfolding decimal
epoch_label epoch =
    (b'v' ∷ b'b' ∷ b'u' ∷ b'f' ∷ b'f' ∷ b'-' ∷ b'g' ∷ b'r' ∷ b'o' ∷ b'u' ∷ b'p' ∷ b'-' ∷ b'e' ∷ b'p'
      ∷ b'o' ∷ b'c' ∷ b'h' ∷ b'-' ∷ [])
    ++ decimal 20 epoch

module _ (crypto_ops : Crypto) (seal : SealOps) where
  unfoldable pub append_change :
      SignedChain MembershipEntry
      → MembershipAction
      → Bytes
      → HybridLogicalClock
      → Bytes
      → Result (SignedChain MembershipEntry × Bytes)
  append_change log action added_by clock author_key =
      append (membership seal) crypto_ops log
        (record { action = action; added_by = added_by; clock = clock }) tt author_key

  unfoldable pub active_members : SignedChain MembershipEntry → List (Bytes × DeviceMember)
  active_members log = (replay (membership seal) default log.entries).active

  -- The group key, sealed to the members in the order of their identifiers, each with a new draw.
  unfoldable pub seal_members :
      (ℕ → Randomness)
      → ℕ
      → Bytes
      → Bytes
      → List (Bytes × DeviceMember)
      → Result (List (Bytes × SealedEnvelope))
  seal_members random index group_key aad [] = ok []
  seal_members random index group_key aad ((device, member) ∷ members) =
      let rest = seal_members random (suc index) group_key aad members in
      do
        envelope ← seal_to seal (random index) member.public_key group_key aad
        others ← rest
        ok ((device, envelope) ∷ others)

  -- The part of `revoke_and_rekey` that follows the append to the staged log.
  unfoldable pub publish :
      (ℕ → Randomness)
      → SignedChain MembershipEntry
      → Bytes
      → ℕ
      → Bytes
      → Result (SignedChain MembershipEntry × EpochTransition)
  unfolding seal_members active_members
  publish random staged revoked_device current_epoch group_key = do
    epoch ← ok_or (checked_add u64_max current_epoch 1) (invalid "membership epoch exhausted")
    keys ← seal_members random 0 group_key (epoch_label epoch) (active_members staged)
    ok (
      staged,
      record {
        epoch = epoch;
        revoked_device = revoked_device;
        key_commitment = crypto_ops.blake3 group_key;
        wrapped_group_keys = keys;
      },
    )

  -- A failure leaves the log as it was.
  unfoldable pub revoke_and_rekey :
      (ℕ → Randomness)
      → SignedChain MembershipEntry
      → Bytes
      → Bytes
      → HybridLogicalClock
      → ℕ
      → Bytes
      → Bytes
      → Result (SignedChain MembershipEntry × EpochTransition)
  unfolding append_change active_members publish
  revoke_and_rekey random log revoked_device added_by clock current_epoch group_key author_key = do
    Chain.verify (membership seal) crypto_ops log tt
    fail_if (not (contains_key revoked_device (active_members log)))
        (invalid "device is not an active member")
    staged ← append_change log (revoke revoked_device) added_by clock author_key
    publish random staged.0 revoked_device current_epoch group_key
