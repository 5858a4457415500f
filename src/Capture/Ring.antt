-- ===== src/Capture/Ring.antt =====
-- The two bounded rings of the capture side: `CaptureForensicRing` of
-- crates/vbuff-core/src/reliability.rs and `SkippedCaptureRing` of
-- crates/vbuff-core/src/capture/ledger.rs. A `VecDeque` is a list with its front at the head; what
-- an entry records is a parameter.
pub mod Recent
use vbuff.Base.{ℕ, max, ◌==◌, Bool, Option, none, some, List, [], ◌∷◌, ◌++◌, if◌then◌else◌, length}

-- `pop_front`, whose result the rings drop.
abbrev pub pop_front {ℓ} : {A : Type ℓ} → List A → List A
pop_front [] = []
pop_front (x ∷ xs) = xs

abbrev pub back {ℓ} : {A : Type ℓ} → List A → Option A
back [] = none
back (x ∷ []) = some x
back (x ∷ y ∷ xs) = back (y ∷ xs)

pub record CaptureForensicRing {ℓ} (Event : Type ℓ) : Type ℓ where
  pub capacity : ℕ
  pub entries : List Event

module _ {ℓ} {Event : Type ℓ} where
  unfoldable pub new_forensic_ring : ℕ → CaptureForensicRing Event
  new_forensic_ring capacity = record { capacity = max capacity 1; entries = [] }

  unfoldable pub push_forensic : CaptureForensicRing Event → Event → CaptureForensicRing Event
  push_forensic r event =
      let kept = if length r.entries == r.capacity then pop_front r.entries else r.entries in
      record r { entries = kept ++ event ∷ [] }

pub record SkippedCaptureRing {ℓ} (Skipped : Type ℓ) : Type ℓ where
  pub capacity : ℕ
  pub entries : List Skipped

module _ {ℓ} {Skipped : Type ℓ} where
  unfoldable pub new_skipped_ring : ℕ → SkippedCaptureRing Skipped
  new_skipped_ring capacity = record { capacity = max capacity 1; entries = [] }

  unfoldable pub push_skipped : SkippedCaptureRing Skipped → Skipped → SkippedCaptureRing Skipped
  push_skipped r entry =
      let kept = if length r.entries == r.capacity then pop_front r.entries else r.entries in
      record r { entries = kept ++ entry ∷ [] }

  unfoldable pub latest : SkippedCaptureRing Skipped → Option Skipped
  latest r = back r.entries
