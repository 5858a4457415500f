-- ===== src/Sync/Merkle/Ranges.antt =====
-- The hash of a range of a power of two, without fuel.
use Prim.Native.Nat.{◌^◌}
use native.Mathlib.Nat.{two-pow-succ, one-le-pow}
use vbuff.Base.{
  subst, inl, inr, leb→le, ℕ, zero, suc, ◌+◌, ◌*◌, ◌/◌, ◌≤◌, ◌<◌, ◌≡◌, refl, ap, ◌∙◌, false, leb,
  ◌==◌, Bool-cases, arith, some, List, Bytes,
}
use vbuff.Sync.Merkle.{leaf_at, doubled_to, next_power_of_two, node_hash, range_hash}

pub half_power : (k : ℕ) → 2 ^ suc k / 2 ≡ 2 ^ k
half_power k = omega (arith, two-pow-succ k)

pub power_ne_one : (k : ℕ) → (2 ^ suc k == 1) ≡ false
power_ne_one k = ground (arith, two-pow-succ k, one-le-pow k 2)

module _ (blake3 : Bytes → Bytes) where
  unfoldable pub tree_hash : ℕ → List Bytes → ℕ → Bytes
  tree_hash zero leaves start = leaf_at leaves start
  tree_hash (suc k) leaves start =
      node_hash blake3 (tree_hash k leaves start) (tree_hash k leaves (start + 2 ^ k))

  pub range_hash-total :
      (f k : ℕ) (leaves : List Bytes) (start : ℕ)
      → k < f
      → range_hash blake3 f leaves start (2 ^ k) ≡ some (tree_hash k leaves start)
  unfolding range_hash tree_hash
  range_hash-total zero k leaves start h = absurd (omega arith)
  range_hash-total (suc f) zero leaves start h = refl
  range_hash-total (suc f) (suc k) leaves start h =
      rw
        (
          half_power k,
          power_ne_one k,
          range_hash-total f k leaves start (omega arith),
          range_hash-total f k leaves (start + 2 ^ k) (omega arith),
        )
        refl

-- A power of two that is not below the number.
doubled_to-power :
    (f n j : ℕ)
    → n ≤ 2 ^ (j + f)
    → (k : ℕ) × (doubled_to f n (2 ^ j) ≡ 2 ^ k) × (n ≤ 2 ^ k) × (k ≤ j + f)
unfolding doubled_to
doubled_to-power zero n j h =
    let e : j + 0 ≡ j = omega arith in (j, refl, subst (λ q. n ≤ 2 ^ q) e h, omega arith)
doubled_to-power (suc f) n j h = elim (Bool-cases (leb n (2 ^ j))) [
  | inl fits ↦ (j, rw fits refl, leb→le n (2 ^ j) fits, omega arith)
  | inr small ↦
      let shift : j + suc f ≡ suc j + f = omega arith in
      let (k, e, below, bound) = doubled_to-power f n (suc j) (subst (λ q. n ≤ 2 ^ q) shift h) in
      let twice : 2 * 2 ^ j ≡ 2 ^ suc j = omega (arith, two-pow-succ j) in
      (k, rw small (ap (doubled_to f n) twice ∙ e), below, omega arith)
]

-- The size of a tree is a power of two that is not below the number of leaves.
pub next_power_of_two-power :
    (n : ℕ) → n ≤ 2 ^ 64 → (k : ℕ) × (next_power_of_two n ≡ 2 ^ k) × (n ≤ 2 ^ k) × (k ≤ 64)
unfolding next_power_of_two
next_power_of_two-power n h = doubled_to-power 64 n 0 h
