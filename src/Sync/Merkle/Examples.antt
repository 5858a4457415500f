-- ===== src/Sync/Merkle/Examples.antt =====
-- A reconciliation of two small trees.
use vbuff.Base.{
  ℕ, ◌+◌, ◌*◌, ◌≡◌, refl, arith, some, List, [], ◌∷◌, Bytes, bytes_ord, cmp_bytes, replicate,
}
use vbuff.Sync.Clock.{HybridLogicalClock, cmp_clock}
use vbuff.Sync.Preimage.{new, fixed, var, be_bytes, finish}
use vbuff.Sync.Merkle.{
  MerkleRecord, MerkleTree, cmp_record, insert_record, sort_records, le_bytes, leaf_at, leaf_hash,
  doubled_to, next_power_of_two, node_hash, differing_indices,
}
use vbuff.Sync.Merkle
use vbuff.Sync.Merkle.Ranges.{tree_hash}
use vbuff.Sync.Merkle.Differing.{differing}
use vbuff.Sync.Merkle.Reconcile.{Separates, differing_indices-differing}

abbrev weigh : Bytes → ℕ
weigh [] = 1
weigh (b ∷ bs) = b + 257 * weigh bs

abbrev digest : Bytes → Bytes
digest message = replicate 32 (weigh message)

abbrev at_time : ℕ → HybridLogicalClock
at_time ms = record { physical_ms = ms; logical = 0; node_id = b'p' ∷ [] }

abbrev item : ℕ → ℕ → MerkleRecord
item ms hash = record { clock = at_time ms; record_id = b'r' ∷ []; digest = replicate 32 hash }

abbrev here : List MerkleRecord
here = item 2_000 5 ∷ item 1_000 4 ∷ []

abbrev there : List MerkleRecord
there = item 1_000 4 ∷ item 2_000 6 ∷ []

differing_indices-differing_example :
    differing_indices digest (Merkle.new digest here) (Merkle.new digest there)
    ≡ some
        (differing (Merkle.new digest here).leaf_hashes (Merkle.new digest there).leaf_hashes 0 2)
unfolding Merkle.new sort_records insert_record cmp_record cmp_clock cmp_bytes leaf_hash le_bytes
    new fixed var be_bytes finish doubled_to next_power_of_two tree_hash node_hash Separates leaf_at
differing_indices-differing_example =
    differing_indices-differing digest here there 1 (omega arith) refl (omega arith) (λ m. refl)
      (λ e. absurd (ground (arith, e)), tt, tt)
