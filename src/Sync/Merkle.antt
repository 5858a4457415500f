-- ===== src/Sync/Merkle.antt =====
-- crates/vbuff-sync/src/merkle.rs: reconciliation by the hashes of ranges. The hash is that of the
-- blake3 crate, a parameter. A range is halved at most 64 times, since its size is a `usize`: the
-- fuel of `range_hash` and `diff_range` is one more, and `none` says that it ran out.
pub mod Ranges
pub mod Differing
pub mod Reconcile
mod Examples
use vbuff.Base.{
  ℕ, zero, suc, ◌+◌, ◌*◌, ◌/◌, ◌%◌, max, Ordering, Bool, true, false, ◌==◌, leb, if◌then◌else◌,
  same, Option, none, some, List, [], ◌∷◌, ◌++◌, map, Bytes, bytes_ord, cmp_bytes, then_with,
  length, replicate,
}
use vbuff.Sync.Error.{Result, ok, err}
use vbuff.Sync.Preimage.{Preimage, fixed, var, finish}
use vbuff.Sync.Preimage
use vbuff.Sync.Clock.{HybridLogicalClock, cmp_clock}

abbrev pub leaf_domain : Bytes
leaf_domain =
    b'v' ∷ b'b' ∷ b'u' ∷ b'f' ∷ b'f' ∷ b'-' ∷ b'm' ∷ b'e' ∷ b'r' ∷ b'k' ∷ b'l' ∷ b'e' ∷ b'-' ∷ b'l'
    ∷ b'e' ∷ b'a' ∷ b'f' ∷ b'-' ∷ b'v' ∷ b'3' ∷ []

abbrev pub node_domain : Bytes
node_domain =
    b'v' ∷ b'b' ∷ b'u' ∷ b'f' ∷ b'f' ∷ b'-' ∷ b'm' ∷ b'e' ∷ b'r' ∷ b'k' ∷ b'l' ∷ b'e' ∷ b'-' ∷ b'n'
    ∷ b'o' ∷ b'd' ∷ b'e' ∷ b'-' ∷ b'v' ∷ b'2' ∷ []

pub record MerkleRecord : Type 0 where
  pub clock : HybridLogicalClock
  pub record_id : Bytes
  pub digest : Bytes

pub record MerkleTree : Type 0 where
  pub records : List MerkleRecord
  pub leaf_hashes : List Bytes

-- The comparison that `new` sorts by.
unfoldable pub cmp_record : MerkleRecord → MerkleRecord → Ordering
cmp_record a b = then_with (cmp_clock a.clock b.clock) (cmp_bytes a.record_id b.record_id)

-- `records.sort_by`, which is stable.
unfoldable pub insert_record : MerkleRecord → List MerkleRecord → List MerkleRecord
insert_record x [] = x ∷ []
insert_record x (y ∷ ys) =
    let rest = insert_record x ys in
    elim (cmp_record x y) [ Ordering.gt ↦ y ∷ rest | _ ↦ x ∷ y ∷ ys ]

unfoldable pub sort_records : List MerkleRecord → List MerkleRecord
sort_records [] = []
sort_records (x ∷ xs) = insert_record x (sort_records xs)

-- `to_le_bytes` of a number in so many bytes.
unfoldable pub le_bytes : ℕ → ℕ → Bytes
le_bytes zero n = []
le_bytes (suc w) n = (n % 256) ∷ le_bytes w (n / 256)

abbrev pub no_hash : Bytes
no_hash = replicate 32 0

-- `leaves.get(index).copied().unwrap_or([0; 32])`.
unfoldable pub leaf_at : List Bytes → ℕ → Bytes
leaf_at [] index = no_hash
leaf_at (leaf ∷ leaves) zero = leaf
leaf_at (leaf ∷ leaves) (suc index) = leaf_at leaves index

-- `n.next_power_of_two()`: the first of the doublings of `power` that is not below `n`.
unfoldable pub doubled_to : ℕ → ℕ → ℕ → ℕ
doubled_to zero n power = power
doubled_to (suc f) n power =
    let more = doubled_to f n (2 * power) in if leb n power then power else more

unfoldable pub next_power_of_two : ℕ → ℕ
unfolding doubled_to
next_power_of_two n = doubled_to 64 n 1

abbrev pub range_fuel : ℕ
range_fuel = 65

-- Whether two hashes are the same one, and the differences of two halves.
abbrev pub agree : Option Bytes → Option Bytes → Option Bool
agree (some a) (some b) = some (same a b)
agree none b = none
agree (some a) none = none

abbrev pub both : Option (List ℕ) → Option (List ℕ) → Option (List ℕ)
both (some a) (some b) = some (a ++ b)
both none b = none
both (some a) none = none

module _ (blake3 : Bytes → Bytes) where
  abbrev pub hash_or_zero : Result Bytes → Bytes
  hash_or_zero (ok bytes) = blake3 bytes
  hash_or_zero (err e) = no_hash

  unfoldable pub leaf_hash : MerkleRecord → Bytes
  leaf_hash r = hash_or_zero (
      finish (
        var
          (fixed
            (fixed (var (fixed (Preimage.new leaf_domain) r.digest) r.record_id)
              (le_bytes 8 r.clock.physical_ms))
            (le_bytes 4 r.clock.logical))
          r.clock.node_id))

  unfoldable pub new : List MerkleRecord → MerkleTree
  new records =
      let sorted = sort_records records in
      record { records = sorted; leaf_hashes = map leaf_hash sorted }

  unfoldable pub node_hash : Bytes → Bytes → Bytes
  node_hash left right = hash_or_zero (finish (fixed (fixed (Preimage.new node_domain) left) right))

  abbrev pub node_of : Option Bytes → Option Bytes → Option Bytes
  node_of (some left) (some right) = some (node_hash left right)
  node_of none right = none
  node_of (some left) none = none

  unfoldable pub range_hash : ℕ → List Bytes → ℕ → ℕ → Option Bytes
  range_hash zero leaves start size = none
  range_hash (suc f) leaves start size =
      let left = range_hash f leaves start (size / 2) in
      let right = range_hash f leaves (start + size / 2) (size / 2) in
      if size == 1 then some (leaf_at leaves start) else node_of left right

  -- The differing indices of a range, in the order in which they are pushed.
  unfoldable pub diff_range : ℕ → List Bytes → List Bytes → ℕ → ℕ → Option (List ℕ)
  diff_range zero left right start size = none
  diff_range (suc f) left right start size =
      let lower = diff_range f left right start (size / 2) in
      let upper = diff_range f left right (start + size / 2) (size / 2) in
      elim (agree (range_hash (suc f) left start size) (range_hash (suc f) right start size)) [
        | none ↦ none
        | some true ↦ some []
        | some false ↦ if size == 1 then some (start ∷ []) else both lower upper
      ]

  unfoldable pub root : MerkleTree → Option Bytes
  root t = range_hash range_fuel t.leaf_hashes 0 (next_power_of_two (max (length t.leaf_hashes) 1))

  unfoldable pub differing_indices : MerkleTree → MerkleTree → Option (List ℕ)
  differing_indices t u =
      diff_range range_fuel t.leaf_hashes u.leaf_hashes 0
        (next_power_of_two (max (max (length t.leaf_hashes) (length u.leaf_hashes)) 1))
