-- ===== src/Capture/Generation/Accounting.antt =====
-- What the observations of one clipboard epoch add up to.
use vbuff.Base.{ℕ, max, ◌+◌, ◌≡◌, refl, some, List, [], ◌∷◌, arith}
use vbuff.Capture.Generation.{
  CaptureGeneration, GenerationObservation, first, consecutive, epoch_changed, stale, gap,
  GenerationTracker, observe,
}

-- A generation of the given epoch.
abbrev pub at : ℕ → ℕ → CaptureGeneration
at epoch sequence = record { epoch = epoch; sequence = sequence }

-- The generations that an observation stands for: itself and those missed before it.
pub covered : GenerationObservation → ℕ
covered first = 1
covered consecutive = 1
covered epoch_changed = 1
covered stale = 0
covered (gap missed) = missed + 1

-- The tracker, and the number of generations covered, after the sequence numbers of one epoch.
pub follow : ℕ → GenerationTracker → List ℕ → GenerationTracker × ℕ
follow epoch t [] = (t, 0)
follow epoch t (n ∷ ns) =
    let (t', o) = observe t (at epoch n) in
    let (u, total) = follow epoch t' ns in (u, covered o + total)

-- The largest of a number and the members of a list.
pub highest : ℕ → List ℕ → ℕ
highest from [] = from
highest from (n ∷ ns) = highest (max from n) ns

observe-max :
    (epoch from n : ℕ)
    → ((observe (record { last = some (at epoch from) }) (at epoch n)).0
        ≡ record { last = some (at epoch (max from n)) })
      × (from + covered (observe (record { last = some (at epoch from) }) (at epoch n)).1
          ≡ max from n)
unfolding observe covered
observe-max epoch from n = ground arith

-- Within an epoch the tracker stands at the highest sequence number so far, and the generations
-- that it counted as seen or as missed add up to the distance it went, whatever the order and the
-- repetitions of the observations.
pub follow-highest :
    (epoch from : ℕ) (ns : List ℕ)
    → ((follow epoch (record { last = some (at epoch from) }) ns).0
        ≡ record { last = some (at epoch (highest from ns)) })
      × (from + (follow epoch (record { last = some (at epoch from) }) ns).1 ≡ highest from ns)
unfolding follow highest
follow-highest epoch from [] = (refl, omega arith)
follow-highest epoch from (n ∷ ns) =
    let (next, distance) = observe-max epoch from n in
    let (tracker, rest) = follow-highest epoch (max from n) ns in
    (rw next tracker, rw next (omega (arith, distance, rest)))
