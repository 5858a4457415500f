-- ===== src/Sync/Conflict/Resolve.antt =====
-- What `resolve` decides, and that the order of its arguments does not matter.
use vbuff.Base.{◌≡◌, Bool, arith}
use vbuff.Sync.Clock.{HybridLogicalClock, cmp_clock_eq, cmp_clock_flip}
use vbuff.Sync.Conflict.{ConflictCandidate, resolve, clock_reason}

clock_reason_comm : (a b : HybridLogicalClock) → clock_reason a b ≡ clock_reason b a
unfolding clock_reason
clock_reason_comm a b = ground arith

module _ {ℓ} {T : Type ℓ} (value_eq : T → T → Bool) (left right : ConflictCandidate T) where
  -- Two replicas that resolve a conflict with the sides exchanged reach the same resolution,
  -- provided `==` is symmetric and candidates with equal clocks are equal.
  pub resolve_comm :
      value_eq left.value right.value ≡ value_eq right.value left.value
      → (left.clock ≡ right.clock → left ≡ right)
      → resolve value_eq left right ≡ resolve value_eq right left
  unfolding resolve
  resolve_comm s u = ground (
    arith,
    cmp_clock_eq left.clock right.clock,
    cmp_clock_flip left.clock right.clock,
    clock_reason_comm left.clock right.clock,
  )
