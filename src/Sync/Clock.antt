-- ===== src/Sync/Clock.antt =====
-- crates/vbuff-sync/src/clock.rs: the hybrid logical clock. Its fields are a u64, a u32 and a
-- string; the derived order compares them in that order.
pub mod Advance
pub mod Observe
use vbuff.Base.{
  ℕ, ◌+◌, ◌*◌, ◌≤◌, min, max, compare, Ordering, ◌≡◌, refl, ◌↔◌, Bool, ◌&&◌, Option, none, some,
  arith, if◌then◌else◌, ◌==◌, ltb, Bytes, Ord, cmp_bytes, cmp_bytes_eq, cmp_bytes_flip,
  cmp_bytes_trans, then_with, reversed, u32_max, u64_max, saturating_add, checked_add,
}

abbrev pub max_remote_future_ms : ℕ
max_remote_future_ms = 5 * 60 * 1_000

pub record HybridLogicalClock : Type 0 where
  pub physical_ms : ℕ
  pub logical : ℕ
  pub node_id : Bytes

-- The fields are in the range of their Rust types.
pub record InRange (c : HybridLogicalClock) : Type 0 where
  pub physical : c.physical_ms ≤ u64_max
  pub logical : c.logical ≤ u32_max

unfoldable pub cmp_clock : HybridLogicalClock → HybridLogicalClock → Ordering
cmp_clock a b =
    then_with (compare a.physical_ms b.physical_ms)
      (then_with (compare a.logical b.logical) (cmp_bytes a.node_id b.node_id))

pub cmp_clock_eq : (a b : HybridLogicalClock) → (cmp_clock a b ≡ Ordering.eq) ↔ (a ≡ b)
unfolding cmp_clock
cmp_clock_eq a b = (
  λ h. ground (arith, cmp_bytes_eq a.node_id b.node_id),
  λ h. ground (arith, cmp_bytes_eq a.node_id b.node_id),
)

pub cmp_clock_flip : (a b : HybridLogicalClock) → cmp_clock b a ≡ reversed (cmp_clock a b)
unfolding cmp_clock
cmp_clock_flip a b = ground (arith, cmp_bytes_flip a.node_id b.node_id)

pub cmp_clock_trans :
    (a b c : HybridLogicalClock)
    → cmp_clock a b ≡ Ordering.lt
    → cmp_clock b c ≡ Ordering.lt
    → cmp_clock a c ≡ Ordering.lt
unfolding cmp_clock
cmp_clock_trans a b c h k = ground (
  arith,
  cmp_bytes_trans a.node_id b.node_id c.node_id,
  cmp_bytes_eq a.node_id b.node_id,
  cmp_bytes_eq b.node_id c.node_id,
)

instance abbrev pub clock_ord : Ord HybridLogicalClock
clock_ord = record {
  cmp = cmp_clock;
  cmp_eq = cmp_clock_eq;
  cmp_flip = cmp_clock_flip;
  cmp_trans = cmp_clock_trans;
}

unfoldable pub new : Bytes → ℕ → HybridLogicalClock
new node_id now_ms = record { physical_ms = now_ms; logical = 0; node_id = node_id }

-- A full counter carries into the physical part; a clock full in both parts stays as it is.
unfoldable pub advance_logical : HybridLogicalClock → HybridLogicalClock
advance_logical c = elim (checked_add u32_max c.logical 1) [
  | some next ↦ record c { logical = next }
  | none ↦ elim (checked_add u64_max c.physical_ms 1) [
    | some next_physical ↦ record c { physical_ms = next_physical; logical = 0 }
    | none ↦ c
  ]
]

unfoldable pub tick : HybridLogicalClock → ℕ → HybridLogicalClock
tick c now_ms =
    if ltb c.physical_ms now_ms
    then record c { physical_ms = now_ms; logical = 0 }
    else advance_logical c

unfoldable pub bounded_at : HybridLogicalClock → ℕ → HybridLogicalClock
bounded_at c now_ms = record c {
  physical_ms = min c.physical_ms (saturating_add u64_max now_ms max_remote_future_ms);
}

-- The `base_logical` of `observe`: the counter of whichever clock gave the largest physical part.
unfoldable pub base_logical : HybridLogicalClock → HybridLogicalClock → ℕ → Option ℕ
base_logical local remote max_physical =
    if max_physical == local.physical_ms && max_physical == remote.physical_ms
    then some (max local.logical remote.logical)
    else if max_physical == local.physical_ms
    then some local.logical
    else if max_physical == remote.physical_ms
    then some remote.logical
    else none

unfoldable pub observe : HybridLogicalClock → HybridLogicalClock → ℕ → HybridLogicalClock
unfolding base_logical
observe c untrusted now_ms =
    let remote = bounded_at untrusted now_ms in
    let max_physical = max (max now_ms c.physical_ms) remote.physical_ms in
    elim (base_logical c remote max_physical) [
      | some logical ↦ advance_logical (record c { physical_ms = max_physical; logical = logical })
      | none ↦ record c { physical_ms = max_physical; logical = 0 }
    ]
