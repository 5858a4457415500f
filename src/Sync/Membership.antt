-- ===== src/Sync/Membership.antt =====
-- crates/vbuff-sync/src/membership.rs: the signed log of a group's devices, and revocation with a
-- fresh group key. The log is a `SignedChain` of `MembershipEntry`.
pub mod Epoch
pub mod Decimal
pub mod Active
pub mod Rekey
pub mod Authors
mod Examples
use vbuff.Base.{
  ℕ, zero, suc, ◌+◌, ◌/◌, ◌%◌, Bool, true, false, not, ◌==◌, ltb, if◌then◌else◌, same, at_least,
  Option, none, some, List, [], ◌∷◌, ◌++◌, Bytes, bytes_ord, replicate, checked_add, u64_max,
}
use vbuff.Base.Maps.{get, map_insert, contains_key}
use vbuff.Base.Maps.Remove.{map_remove}
use vbuff.Sync.Error.{Result, ok, err, invalid, crypto, ok_or, fail_if, ◌>>=◌, ◌>>◌}
use vbuff.Sync.Preimage.{Preimage, fixed, var, byte, u32_be, u64_be}
use vbuff.Sync.Clock.{HybridLogicalClock, clock_ord}
use vbuff.Sync.Validation.{is_valid_identifier}
use vbuff.Sync.Sealing.{SealOps}
use vbuff.Sync.Chain.{ChainEntry}

abbrev pub max_device_id_bytes : ℕ
max_device_id_bytes = 128

abbrev pub max_membership_entries : ℕ
max_membership_entries = 1_024

pub record DeviceMember : Type 0 where
  pub device_id : Bytes
  pub public_key : Bytes
  pub signing_key : Bytes

pub data MembershipAction : Type 0 where
  add : DeviceMember → MembershipAction
  revoke : Bytes → MembershipAction

pub record MembershipEntry : Type 0 where
  pub action : MembershipAction
  pub added_by : Bytes
  pub clock : HybridLogicalClock

pub record MembershipState : Type 0 where
  pub owner : Option Bytes
  pub active : List (Bytes × DeviceMember)
  pub previous_clock : Option HybridLogicalClock

abbrev pub default : MembershipState
default = record { owner = none; active = []; previous_clock = none }

abbrev pub membership_domain : Bytes
membership_domain =
    b'v' ∷ b'b' ∷ b'u' ∷ b'f' ∷ b'f' ∷ b'-' ∷ b'm' ∷ b'e' ∷ b'm' ∷ b'b' ∷ b'e' ∷ b'r' ∷ b's' ∷ b'h'
    ∷ b'i' ∷ b'p' ∷ b'-' ∷ b'e' ∷ b'n' ∷ b't' ∷ b'r' ∷ b'y' ∷ b'-' ∷ b'v' ∷ b'3' ∷ []

unfoldable pub extend_action : MembershipAction → Preimage → Preimage
extend_action (add member) p =
    fixed (fixed (var (byte p 1) member.device_id) member.public_key) member.signing_key
extend_action (revoke device_id) p = var (byte p 2) device_id

unfoldable pub extend_preimage : MembershipEntry → Preimage → Preimage
unfolding extend_action
extend_preimage e p =
    u32_be
      (u64_be (var (var (extend_action e.action p) e.added_by) e.clock.node_id) e.clock.physical_ms)
      e.clock.logical

unfoldable pub apply_action :
    List (Bytes × DeviceMember) → MembershipAction → List (Bytes × DeviceMember)
apply_action active (add member) = map_insert member.device_id member active
apply_action active (revoke device_id) = map_remove device_id active

abbrev pub or_owner : Option Bytes → Bytes → Option Bytes
or_owner none author = some author
or_owner (some owner) author = some owner

unfoldable pub apply : MembershipEntry → MembershipState → MembershipState
unfolding apply_action
apply e state = record {
  owner = or_owner state.owner e.added_by;
  active = apply_action state.active e.action;
  previous_clock = some e.clock;
}

-- `state.owner.as_deref() != Some(author)`.
abbrev pub is_not_owner : Option Bytes → Bytes → Bool
is_not_owner none author = true
is_not_owner (some owner) author = not (same owner author)

abbrev pub is_not_after : Option HybridLogicalClock → HybridLogicalClock → Bool
is_not_after none clock = false
is_not_after (some previous) clock = at_least previous clock

abbrev pub fail_first : MembershipEntry → MembershipAction → Result (Unit {0})
fail_first e (add member) =
    fail_if (not (same member.device_id e.added_by))
      (invalid "first membership entry must be self-added")
fail_first e (revoke device_id) = err (invalid "membership log must start by adding its owner")

module _ (seal : SealOps) where
  unfoldable pub validate_public_key : Bytes → Result (Unit {0})
  validate_public_key bytes =
      fail_if (not (seal.was_contributory (seal.diffie_hellman (replicate 32 0xa5) bytes)))
        (invalid "non-contributory device public key")

  abbrev pub validate_action : MembershipState → MembershipAction → Result (Unit {0})
  validate_action state (add member) = do
    fail_if (not (is_valid_identifier member.device_id max_device_id_bytes))
        (invalid "device identifier is invalid")
    fail_if (contains_key member.device_id state.active) (invalid "device is already active")
    validate_public_key member.public_key
  validate_action state (revoke device_id) = do
    fail_if (not (is_valid_identifier device_id max_device_id_bytes))
        (invalid "device identifier is invalid")
    fail_if (not (contains_key device_id state.active))
        (invalid "cannot revoke a device that is not active")

  -- The part of the check that tells the first entry from the others.
  abbrev pub validate_author : Bool → MembershipState → MembershipEntry → Result (Unit {0})
  validate_author true state e = fail_first e e.action
  validate_author false state e = do
    fail_if (is_not_owner state.owner e.added_by)
        (invalid "membership entries after the first are authored only by the owner")
    fail_if (not (contains_key e.added_by state.active))
        (invalid "membership change was not authorized by an active device")

  unfoldable pub validate_entry_semantics :
      Bool → MembershipState → MembershipEntry → Result (Unit {0})
  unfolding validate_public_key
  validate_entry_semantics first state e = do
    fail_if (not (is_valid_identifier e.added_by max_device_id_bytes))
        (invalid "membership author identifier is invalid")
    fail_if (not (is_valid_identifier e.clock.node_id max_device_id_bytes))
        (invalid "membership clock node identifier is invalid")
    validate_author first state e
    fail_if (is_not_after state.previous_clock e.clock)
        (invalid "membership clock must advance monotonically")
    validate_action state e.action

  -- The key of the first entry's member, and that of the author of a later entry.
  abbrev pub key_of_first : MembershipAction → Result Bytes
  key_of_first (add member) = ok member.signing_key
  key_of_first (revoke device_id) = err (invalid "membership log must start by adding its owner")

  abbrev pub key_of_author : Option DeviceMember → Result Bytes
  key_of_author none = err (invalid "membership change was not authorized by an active device")
  key_of_author (some member) = ok member.signing_key

  unfoldable pub expected_signing_key :
      MembershipEntry → ℕ → MembershipState → Unit {0} → Result Bytes
  unfolding validate_entry_semantics
  expected_signing_key e index state authority = do
    validate_entry_semantics (index == 0) state e
    if index == 0 then key_of_first e.action else key_of_author (get e.added_by state.active)

  abbrev pub membership : ChainEntry MembershipEntry MembershipState (Unit {0})
  membership = record {
    domain = membership_domain;
    max_entries = max_membership_entries;
    label = "membership log";
    initial = default;
    extend_preimage = extend_preimage;
    expected_signing_key = expected_signing_key;
    apply = apply;
  }
