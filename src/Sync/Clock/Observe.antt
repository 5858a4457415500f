-- ===== src/Sync/Clock/Observe.antt =====
-- Observing a remote clock.
use vbuff.Base.{ℕ, ◌+◌, ◌≤◌, ◌<◌, max, ◌≡◌, Ordering, arith, u64_max, then_with, compare}
use vbuff.Sync.Clock.{
  HybridLogicalClock, InRange, max_remote_future_ms, bounded_at, observe, advance_logical,
}

-- The order of two stamps, whatever nodes they come from.
abbrev pub cmp_stamp : HybridLogicalClock → HybridLogicalClock → Ordering
cmp_stamp a b = then_with (compare a.physical_ms b.physical_ms) (compare a.logical b.logical)

-- With the wall time and both clocks short of the last millisecond, the clock that has observed a
-- remote one is in range, keeps its node, and has a stamp later than its own before and later than
-- the remote one as clamped to the tolerance.
pub observe-after_both :
    (c remote : HybridLogicalClock) (now_ms : ℕ)
    → InRange c
    → InRange remote
    → now_ms < u64_max
    → c.physical_ms < u64_max
    → remote.physical_ms < u64_max
    → (cmp_stamp c (observe c remote now_ms) ≡ Ordering.lt)
      × (cmp_stamp (bounded_at remote now_ms) (observe c remote now_ms) ≡ Ordering.lt)
      × InRange (observe c remote now_ms)
      × ((observe c remote now_ms).node_id ≡ c.node_id)
unfolding observe bounded_at advance_logical
observe-after_both c remote now_ms r s n p q = ground arith

-- However far ahead a remote clock claims to be, observing it moves the physical part at most one
-- millisecond past the larger of its own and the wall time with the tolerance added.
pub observe-drift :
    (c remote : HybridLogicalClock) (now_ms : ℕ)
    → (observe c remote now_ms).physical_ms ≤ max c.physical_ms (now_ms + max_remote_future_ms) + 1
unfolding observe bounded_at advance_logical
observe-drift c remote now_ms = ground arith
