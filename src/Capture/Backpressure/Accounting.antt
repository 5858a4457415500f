-- ===== src/Capture/Backpressure/Accounting.antt =====
-- The counters against the queue of payloads that they account for.
use vbuff.Base.{
  ℕ, ◌+◌, ◌≤◌, ◌<◌, min, ◌≡◌, ◌↔◌, Bool-cases, leb, ltb, ◌||◌, saturating_add, ◌⊎◌, inl, inr, Bool,
  true, List, [], ◌∷◌, ◌++◌, arith, length, length-append, u64_max,
}
use vbuff.Capture.Backpressure.{
  Admission, full, shed, preview, ByteBackpressure, new, admit, release, update_limits,
}

unfoldable pub sum : List ℕ → ℕ
sum [] = 0
sum (x ∷ xs) = x + sum xs

sum-append : (xs ys : List ℕ) → sum (xs ++ ys) ≡ sum xs + sum ys
unfolding sum
sum-append [] ys = omega arith
sum-append (x ∷ xs) ys = omega (arith, sum-append xs ys)

-- The counters are those of the queue of accounted payload sizes, which is within the limits.
pub record Tracks (b : ByteBackpressure) (queue : List ℕ) : Type 0 where
  pub bytes : b.queued_bytes ≡ sum queue
  pub items : b.queued_items ≡ length queue
  pub fits : sum queue ≤ b.hard_bytes
  pub room : length queue ≤ b.max_items
  pub ordered : b.soft_bytes ≤ b.hard_bytes
  pub byte_range : b.hard_bytes < u64_max
  pub item_range : b.max_items ≤ u64_max

pub new-Tracks :
    (soft_bytes hard_bytes max_items preview_bytes : ℕ)
    → soft_bytes < u64_max
    → hard_bytes < u64_max
    → max_items ≤ u64_max
    → Tracks (new soft_bytes hard_bytes max_items preview_bytes) []
unfolding new sum
new-Tracks s h m p a b c = omega arith

-- The two tests of `admit`.
abbrev is_over : ByteBackpressure → ℕ → Bool
is_over b payload_bytes =
    leb b.max_items b.queued_items
    || ltb b.hard_bytes (saturating_add u64_max b.queued_bytes payload_bytes)

abbrev is_large : ByteBackpressure → ℕ → Bool
is_large b payload_bytes = ltb b.soft_bytes (saturating_add u64_max b.queued_bytes payload_bytes)

-- What `admit` puts at the end of the queue.
unfoldable pub queued_after : List ℕ → ℕ → Admission → List ℕ
queued_after queue payload_bytes shed = queue
queued_after queue payload_bytes full = queue ++ payload_bytes ∷ []
queued_after queue payload_bytes (preview max_bytes) = queue ++ max_bytes ∷ []

-- An admission keeps the counters those of the queue, and the queue within its limits in bytes and
-- items, where the soft limit is at most the hard one and the hard one is below usize::MAX.
pub admit-Tracks :
    (b : ByteBackpressure) (queue : List ℕ) (payload_bytes : ℕ)
    → Tracks b queue
    → Tracks (admit b payload_bytes).0 (queued_after queue payload_bytes (admit b payload_bytes).1)
unfolding admit queued_after sum
admit-Tracks b queue payload_bytes t = elim (Bool-cases (is_over b payload_bytes)) [
  | inl e ↦ rw (e, admit) t
  | inr e ↦ elim (Bool-cases (is_large b payload_bytes)) [
    | inl f ↦
        rw (e, f, admit)
          (let size = min b.preview_bytes payload_bytes in
            ground (arith, sum-append queue (size ∷ []), length-append queue (size ∷ [])))
    | inr f ↦
        rw (e, f, admit)
          (ground (
            arith,
            sum-append queue (payload_bytes ∷ []),
            length-append queue (payload_bytes ∷ []),
          ))
  ]
]

-- Which admission a payload gets: it is shed exactly when the queue has no slot left or the payload
-- would pass the hard limit, and is taken whole exactly when it stays within the soft limit.
pub admit_cases :
    (b : ByteBackpressure) (queue : List ℕ) (payload_bytes : ℕ)
    → Tracks b queue
    → (((admit b payload_bytes).1 ≡ shed)
        ↔ ((b.max_items ≤ length queue) ⊎ (b.hard_bytes < sum queue + payload_bytes)))
      × (((admit b payload_bytes).1 ≡ full)
          ↔ ((length queue < b.max_items) × (sum queue + payload_bytes ≤ b.soft_bytes)))
unfolding admit
admit_cases b queue payload_bytes t = ground arith

-- Releasing a queued payload, by the size that it was accounted for, takes it off the counters.
pub release-Tracks :
    (b : ByteBackpressure) (before after : List ℕ) (size : ℕ)
    → Tracks b (before ++ size ∷ after)
    → Tracks (release b size) (before ++ after)
unfolding release sum
release-Tracks b before after size t = ground (
  arith,
  sum-append before (size ∷ after),
  length-append before (size ∷ after),
  sum-append before after,
  length-append before after,
)

-- The limits change exactly when nothing is queued, and the counters then stay those of the empty
-- queue.
pub update_limits-Tracks :
    (b : ByteBackpressure) (queue : List ℕ) (soft_bytes hard_bytes preview_bytes : ℕ)
    → Tracks b queue
    → soft_bytes < u64_max
    → hard_bytes < u64_max
    → Tracks (update_limits b soft_bytes hard_bytes preview_bytes).0 queue
      × (((update_limits b soft_bytes hard_bytes preview_bytes).1 ≡ true) ↔ (queue ≡ []))
unfolding update_limits sum
update_limits-Tracks b [] s h p t a c = ground arith
update_limits-Tracks b (x ∷ queue) s h p t a c = ground arith
