-- ===== src/Sync/Merkle/Reconcile.antt =====
-- What the comparison of two trees reports, against their leaves.
use Prim.Native.Nat.{◌^◌}
use native.Mathlib.Nat.{two-pow-succ}
use vbuff.Base.{
  ℕ, zero, suc, ◌+◌, ◌/◌, ◌≤◌, ◌<◌, max, ◌≡◌, refl, ap, sym, ◌∙◌, Bool, true, false, ◌==◌,
  if◌then◌else◌, Bool-cases, inl, inr, arith, same, same_iff, some, List, [], ◌∷◌, ◌++◌, map, Bytes,
  bytes_ord, length, length-append,
}
use vbuff.Sync.Error.{Result, ok, err}
use vbuff.Sync.Preimage.{fixed, finish}
use vbuff.Sync.Preimage
use vbuff.Sync.Preimage.Framing.{append_split}
use vbuff.Sync.Merkle.{
  MerkleRecord, MerkleTree, node_domain, leaf_at, range_fuel, agree, both, hash_or_zero, leaf_hash,
  new, node_hash, range_hash, diff_range, differing_indices, next_power_of_two,
}
use vbuff.Sync.Merkle.Differing.{differing, differing-add, one_differs, differing-take}
use vbuff.Sync.Merkle.Ranges.{
  half_power, power_ne_one, tree_hash, range_hash-total, next_power_of_two-power,
}

-- The preimage of a node over two hashes.
abbrev node_preimage : Bytes → Bytes → Bytes
node_preimage left right = ((node_domain ++ 0 ∷ []) ++ left) ++ right

module _ (blake3 : Bytes → Bytes) where
  -- The hash separates the nodes over one range of two trees, down to the leaves.
  unfoldable pub Separates : ℕ → List Bytes → List Bytes → ℕ → Type 0
  Separates zero left right start = Unit {0}
  Separates (suc k) left right start =
      (blake3 (
            node_preimage (tree_hash blake3 k left start) (tree_hash blake3 k left (start + 2 ^ k)))
          ≡ blake3 (
              node_preimage (tree_hash blake3 k right start)
                (tree_hash blake3 k right (start + 2 ^ k)))
        → node_preimage (tree_hash blake3 k left start) (tree_hash blake3 k left (start + 2 ^ k))
          ≡ node_preimage (tree_hash blake3 k right start)
              (tree_hash blake3 k right (start + 2 ^ k)))
      × Separates k left right start
      × Separates k left right (start + 2 ^ k)

  node_hash_lem :
      (left right : Bytes) → node_hash blake3 left right ≡ blake3 (node_preimage left right)
  unfolding node_hash fixed finish Preimage.new
  node_hash_lem left right = refl

abbrev AllHashes : List Bytes → Type 0
AllHashes [] = Unit {0}
AllHashes (leaf ∷ leaves) = (length leaf ≡ 32) × AllHashes leaves

leaf_at-length :
    (leaves : List Bytes) (start : ℕ) → AllHashes leaves → length (leaf_at leaves start) ≡ 32
unfolding leaf_at
leaf_at-length [] start h = refl
leaf_at-length (leaf ∷ leaves) zero h = h.0
leaf_at-length (leaf ∷ leaves) (suc start) h = leaf_at-length leaves start h.1

module _ (blake3 : Bytes → Bytes) (digests : (message : Bytes) → length (blake3 message) ≡ 32) where
  tree_hash-length :
      (k : ℕ) (leaves : List Bytes) (start : ℕ)
      → AllHashes leaves
      → length (tree_hash blake3 k leaves start) ≡ 32
  unfolding tree_hash
  tree_hash-length zero leaves start h = leaf_at-length leaves start h
  tree_hash-length (suc k) leaves start h =
      ap length (
        node_hash_lem blake3 (tree_hash blake3 k leaves start)
          (tree_hash blake3 k leaves (start + 2 ^ k)))
      ∙ digests (
          node_preimage (tree_hash blake3 k leaves start)
            (tree_hash blake3 k leaves (start + 2 ^ k)))

  node_preimage-split :
      (a b c d : Bytes)
      → length a ≡ length c
      → node_preimage a b ≡ node_preimage c d
      → (a ≡ c) × (b ≡ d)
  node_preimage-split a b c d h e =
      let (front, back) =
        append_split ((node_domain ++ 0 ∷ []) ++ a) ((node_domain ++ 0 ∷ []) ++ c) b d
          (omega (
            arith,
            length-append (node_domain ++ 0 ∷ []) a,
            length-append (node_domain ++ 0 ∷ []) c,
          ))
          e in
      let (_, first) =
        append_split (node_domain ++ 0 ∷ []) (node_domain ++ 0 ∷ []) a c refl front in
      (first, back)

  -- Equal ranges have no differences.
  differing_of_same :
      (k : ℕ) (left right : List Bytes) (start : ℕ)
      → AllHashes left
      → AllHashes right
      → Separates blake3 k left right start
      → tree_hash blake3 k left start ≡ tree_hash blake3 k right start
      → differing left right start (2 ^ k) ≡ []
  unfolding differing tree_hash Separates
  differing_of_same zero left right start hl hr s e =
      rw ((same_iff (leaf_at left start) (leaf_at right start)).1 e) refl
  differing_of_same (suc k) left right start hl hr s e =
      let l0 = tree_hash blake3 k left start in
      let l1 = tree_hash blake3 k left (start + 2 ^ k) in
      let r0 = tree_hash blake3 k right start in
      let r1 = tree_hash blake3 k right (start + 2 ^ k) in
      let (lower, upper) =
        node_preimage-split l0 l1 r0 r1
          (tree_hash-length k left start hl ∙ sym (tree_hash-length k right start hr))
          (s.0 (sym (node_hash_lem blake3 l0 l1) ∙ e ∙ node_hash_lem blake3 r0 r1)) in
      ap (differing left right start) (two-pow-succ k)
      ∙ differing-add left right start (2 ^ k) (2 ^ k)
      ∙ rw
          (
            differing_of_same k left right start hl hr s.1 lower,
            differing_of_same k left right (start + 2 ^ k) hl hr s.2 upper,
          )
          refl

  agree-tree :
      (f k : ℕ) (left right : List Bytes) (start : ℕ) (answer : Bool)
      → k < f
      → same (tree_hash blake3 k left start) (tree_hash blake3 k right start) ≡ answer
      → agree (range_hash blake3 f left start (2 ^ k)) (range_hash blake3 f right start (2 ^ k))
        ≡ some answer
  agree-tree f k left right start answer h e =
      rw (range_hash-total blake3 f k left start h, range_hash-total blake3 f k right start h)
        (ap some e)

  diff_range-same :
      (f size start : ℕ) (left right : List Bytes)
      → agree
          (range_hash blake3 (suc f) left start size)
          (range_hash blake3 (suc f) right start size)
        ≡ some true
      → diff_range blake3 (suc f) left right start size ≡ some []
  unfolding diff_range
  diff_range-same f size start left right e = rw (e, diff_range) refl

  diff_range-other :
      (f size start : ℕ) (left right : List Bytes)
      → agree
          (range_hash blake3 (suc f) left start size)
          (range_hash blake3 (suc f) right start size)
        ≡ some false
      → diff_range blake3 (suc f) left right start size ≡ (
          if size == 1
          then some (start ∷ [])
          else both
              (diff_range blake3 f left right start (size / 2))
              (diff_range blake3 f left right (start + size / 2) (size / 2)))
  unfolding diff_range
  diff_range-other f size start left right e = rw (e, diff_range) refl

  diff_equal :
      (f k : ℕ) (left right : List Bytes) (start : ℕ)
      → k < suc f
      → AllHashes left
      → AllHashes right
      → Separates blake3 k left right start
      → same (tree_hash blake3 k left start) (tree_hash blake3 k right start) ≡ true
      → diff_range blake3 (suc f) left right start (2 ^ k)
        ≡ some (differing left right start (2 ^ k))
  diff_equal f k left right start h hl hr s e =
      let equal = (same_iff (tree_hash blake3 k left start) (tree_hash blake3 k right start)).0 e in
      diff_range-same f (2 ^ k) start left right (agree-tree (suc f) k left right start true h e)
      ∙ ap some (sym (differing_of_same k left right start hl hr s equal))

  diff_range-differing :
      (f k : ℕ) (left right : List Bytes) (start : ℕ)
      → k < f
      → AllHashes left
      → AllHashes right
      → Separates blake3 k left right start
      → diff_range blake3 f left right start (2 ^ k) ≡ some (differing left right start (2 ^ k))
  unfolding Separates
  diff_range-differing zero k left right start h hl hr s = absurd (omega arith)
  diff_range-differing (suc f) zero left right start h hl hr s =
      elim (Bool-cases
        (same (tree_hash blake3 zero left start) (tree_hash blake3 zero right start))) [
          | inl e ↦ diff_equal f zero left right start h hl hr s e
          | inr e ↦
              diff_range-other f 1 start left right
                (agree-tree (suc f) zero left right start false h e)
              ∙ ap some (sym (unfold tree_hash in one_differs left right start e))
        ]
  diff_range-differing (suc f) (suc k) left right start h hl hr s =
      elim (Bool-cases
        (same (tree_hash blake3 (suc k) left start) (tree_hash blake3 (suc k) right start))) [
          | inl e ↦ diff_equal f (suc k) left right start h hl hr s e
          | inr e ↦
              diff_range-other f (2 ^ suc k) start left right
                (agree-tree (suc f) (suc k) left right start false h e)
              ∙ rw
                  (
                    power_ne_one k,
                    half_power k,
                    diff_range-differing f k left right start (omega arith) hl hr s.1,
                    diff_range-differing f k left right (start + 2 ^ k) (omega arith) hl hr s.2,
                  )
                  (ap some (
                    sym (
                      ap (differing left right start) (two-pow-succ k)
                      ∙ differing-add left right start (2 ^ k) (2 ^ k))))
        ]

  hash_or_zero-length : (r : Result Bytes) → length (hash_or_zero blake3 r) ≡ 32
  hash_or_zero-length (ok bytes) = digests bytes
  hash_or_zero-length (err e) = refl

  leaf_hash-length : (r : MerkleRecord) → length (leaf_hash blake3 r) ≡ 32
  unfolding leaf_hash
  leaf_hash-length r = hash_or_zero-length _

  leaf_hashes-AllHashes : (records : List MerkleRecord) → AllHashes (map (leaf_hash blake3) records)
  leaf_hashes-AllHashes [] = tt
  leaf_hashes-AllHashes (r ∷ records) = (leaf_hash-length r, leaf_hashes-AllHashes records)

-- The number of leaves of the longer tree.
abbrev span : MerkleTree → MerkleTree → ℕ
span t u = max (length t.leaf_hashes) (length u.leaf_hashes)

-- The comparison of two trees ends with the fuel that it is given, and reports exactly the indices
-- at which their leaf hashes differ, in ascending order. An index that one tree lacks has the hash of
-- zeros there, and so has a record whose ids do not fit the framing: these agree with one another,
-- and no difference is reported between them. The trees have at most 2 ^ 64 leaves, which the
-- comparison rounds up to 2 ^ k; digests have 32 bytes, and no two nodes over one range of the trees
-- collide.
pub differing_indices-differing :
    (blake3 : Bytes → Bytes) (records others : List MerkleRecord) (k : ℕ)
    → max (span (new blake3 records) (new blake3 others)) 1 ≤ 2 ^ 64
    → next_power_of_two (max (span (new blake3 records) (new blake3 others)) 1) ≡ 2 ^ k
    → k ≤ 64
    → ((message : Bytes) → length (blake3 message) ≡ 32)
    → Separates blake3 k (new blake3 records).leaf_hashes (new blake3 others).leaf_hashes 0
    → differing_indices blake3 (new blake3 records) (new blake3 others)
      ≡ some (
          differing
            (new blake3 records).leaf_hashes
            (new blake3 others).leaf_hashes
            0
            (span (new blake3 records) (new blake3 others)))
unfolding differing_indices new
differing_indices-differing blake3 records others k small power bound digests separates =
    let t = new blake3 records in
    let u = new blake3 others in
    let (j, same_power, above, _) = next_power_of_two-power (max (span t u) 1) small in
    ap (λ q. diff_range blake3 range_fuel t.leaf_hashes u.leaf_hashes 0 q) power
    ∙ diff_range-differing blake3 digests range_fuel k t.leaf_hashes u.leaf_hashes 0 (omega arith)
        (leaf_hashes-AllHashes blake3 digests t.records)
        (leaf_hashes-AllHashes blake3 digests u.records) separates
    ∙ ap some (
        differing-take t.leaf_hashes u.leaf_hashes (span t u) (2 ^ k) (omega arith) (omega arith)
          (omega (arith, power, same_power, above)))
