-- ===== src/Sync/Clock/Advance.antt =====
-- Local ticks of the hybrid logical clock move it forward.
use vbuff.Base.{ℕ, ◌≤◌, ◌≡◌, Ordering, arith, u32_max, u64_max}
use vbuff.Sync.Clock.{HybridLogicalClock, InRange, cmp_clock, advance_logical, tick}

-- A clock at the end of its range, where no further stamp exists.
abbrev pub IsSaturated : HybridLogicalClock → Type 0
IsSaturated c = (c.physical_ms ≡ u64_max) × (c.logical ≡ u32_max)

pub advance_logical-advances :
    (c : HybridLogicalClock)
    → InRange c
    → ¬ IsSaturated c
    → cmp_clock c (advance_logical c) ≡ Ordering.lt
unfolding cmp_clock advance_logical
advance_logical-advances c r h = ground arith

-- A tick of a clock in range that is not saturated gives a strictly later clock in range, of the
-- same node, and not behind the wall time.
pub tick-advances :
    (c : HybridLogicalClock) (now_ms : ℕ)
    → InRange c
    → now_ms ≤ u64_max
    → ¬ IsSaturated c
    → (cmp_clock c (tick c now_ms) ≡ Ordering.lt)
      × InRange (tick c now_ms)
      × ((tick c now_ms).node_id ≡ c.node_id)
      × (now_ms ≤ (tick c now_ms).physical_ms)
unfolding cmp_clock tick advance_logical
tick-advances c now_ms r n h = ground arith
