-- ===== src/Sync/Conflict.antt =====
-- crates/vbuff-sync/src/conflict.rs: conflict resolution. `T: PartialEq` is the parameter
-- `value_eq`, the type's `==`.
pub mod Resolve
use vbuff.Base.{
  Ordering, ◌≡◌, refl, Bool, true, false, not, Option, none, some, if◌then◌else◌, ◌==◌, arith,
  at_least,
}
use vbuff.Sync.Clock.{HybridLogicalClock, clock_ord}

pub record ConflictCandidate {ℓ} (T : Type ℓ) : Type ℓ where
  pub value : T
  pub clock : HybridLogicalClock

pub data ConflictReason : Type 0 where
  newer_physical_time higher_logical_counter deterministic_device_tie_break identical :
      ConflictReason

pub record ConflictResolution {ℓ} (T : Type ℓ) : Type ℓ where
  pub winner : ConflictCandidate T
  pub alternative : Option (ConflictCandidate T)
  pub reason : ConflictReason
  pub keep_both_available : Bool

unfoldable pub clock_reason : HybridLogicalClock → HybridLogicalClock → ConflictReason
clock_reason left right =
    if not (left.physical_ms == right.physical_ms)
    then newer_physical_time
    else if not (left.logical == right.logical)
    then higher_logical_counter
    else deterministic_device_tie_break

module _ {ℓ} {T : Type ℓ} (value_eq : T → T → Bool) where
  unfoldable pub resolve : ConflictCandidate T → ConflictCandidate T → ConflictResolution T
  unfolding clock_reason
  resolve left right =
      if value_eq left.value right.value
      then record {
        winner = if at_least left.clock right.clock then left else right;
        alternative = none;
        reason = identical;
        keep_both_available = false;
      }
      else record {
        winner = if at_least left.clock right.clock then left else right;
        alternative = some (if at_least left.clock right.clock then right else left);
        reason = clock_reason left.clock right.clock;
        keep_both_available = true;
      }
