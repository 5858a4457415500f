-- ===== src/Base/Words.antt =====
-- Rust's bounded unsigned integers: the range of each width, saturating and checked arithmetic.
use Prim.Native.Nat.{ℕ, ◌+◌, min}
use mathlib.Core.Option.{Option, none, some}
use vbuff.Base.Tests.{leb, if◌then◌else◌}

abbrev pub u8_max : ℕ
u8_max = 255

abbrev pub u32_max : ℕ
u32_max = 4_294_967_295

abbrev pub u64_max : ℕ
u64_max = 18_446_744_073_709_551_615

-- `a.saturating_add(b)` at a width whose largest value is `top`.
abbrev pub saturating_add : ℕ → ℕ → ℕ → ℕ
saturating_add top a b = min (a + b) top

-- `a.checked_add(b)` at a width whose largest value is `top`.
abbrev pub checked_add : ℕ → ℕ → ℕ → Option ℕ
checked_add top a b = if leb (a + b) top then some (a + b) else none
