-- ===== src/Capture/Loss/Totals.antt =====
-- The counters against the events that they count.
use mathlib.Core.Option.{get_or}
use vbuff.Base.{
  ℕ, ◌+◌, ◌≤◌, ◌≡◌, refl, ◌∙◌, Bool, ◌⊎◌, inl, inr, List, [], ◌∷◌, arith, same, same_iff, u64_max,
  if◌then◌else◌, saturating_add,
}
use vbuff.Base.Maps.{get, entry, get-map_insert}
use vbuff.Capture.Loss.{
  DropClass, intentional, loss, DropReason, class, reason_ord, CaptureCounters, default,
  count_captured, count_class, dropped_n,
}

pub data Event : Type 0 where
  captured : Event
  drops : DropReason → ℕ → Event

unfoldable pub step : CaptureCounters → Event → CaptureCounters
step c captured = count_captured c
step c (drops reason count) = dropped_n c reason count

unfoldable pub run : CaptureCounters → List Event → CaptureCounters
run c [] = c
run c (e ∷ es) = run (step c e) es

abbrev pub size : List Event → ℕ
size [] = 0
size (captured ∷ es) = 1 + size es
size (drops reason count ∷ es) = count + size es

abbrev pub captures : List Event → ℕ
captures [] = 0
captures (captured ∷ es) = 1 + captures es
captures (drops reason count ∷ es) = captures es

abbrev pub of_class : DropClass → DropClass → ℕ → ℕ
of_class intentional intentional n = n
of_class loss loss n = n
of_class intentional loss n = 0
of_class loss intentional n = 0

abbrev pub total_class : DropClass → List Event → ℕ
total_class k [] = 0
total_class k (captured ∷ es) = total_class k es
total_class k (drops reason count ∷ es) = of_class k (class reason) count + total_class k es

abbrev pub total_reason : DropReason → List Event → ℕ
total_reason r [] = 0
total_reason r (captured ∷ es) = total_reason r es
total_reason r (drops reason count ∷ es) = (if same r reason then count else 0) + total_reason r es

abbrev pub count_of : DropReason → CaptureCounters → ℕ
count_of r c = get_or (get r c.by_reason) 0

DropClass-cases : (k : DropClass) → (k ≡ intentional) ⊎ (k ≡ loss)
DropClass-cases intentional = inl refl
DropClass-cases loss = inr refl

of_class-le : (k l : DropClass) (n : ℕ) → of_class k l n ≤ n
of_class-le intentional intentional n = omega arith
of_class-le intentional loss n = omega arith
of_class-le loss intentional n = omega arith
of_class-le loss loss n = omega arith

if-le : (b : Bool) (n : ℕ) → (if b then n else 0) ≤ n
if-le b n = ground arith

-- One event, with the totals of the events after it.
Counted : CaptureCounters → CaptureCounters → DropReason → List Event → Type 0
Counted c d r es =
    (d.captured ≡ c.captured + captures es)
    × (d.intentionally_skipped ≡ c.intentionally_skipped + total_class intentional es)
    × (d.lost ≡ c.lost + total_class loss es)
    × (count_of r d ≡ count_of r c + total_reason r es)

count_of-entry :
    (reason r : DropReason) (count : ℕ) (m : List (DropReason × ℕ))
    → get_or (get r m) 0 + count ≤ u64_max
    → get_or (get r (entry reason 0 (λ n. saturating_add u64_max n count) m)) 0
      ≡ get_or (get r m) 0 + (if same r reason then count else 0)
unfolding entry
count_of-entry reason r count m h = ground (
  arith,
  get-map_insert r reason (saturating_add u64_max (get_or (get reason m) 0) count) m,
  same_iff r reason,
)

step-drops :
    (c : CaptureCounters) (reason r : DropReason) (count : ℕ)
    → count_of r c + count ≤ u64_max
    → c.intentionally_skipped + count ≤ u64_max
    → c.lost + count ≤ u64_max
    → Counted c (step c (drops reason count)) r (drops reason count ∷ [])
unfolding Counted step dropped_n
step-drops c reason r count a b d = elim (DropClass-cases (class reason)) [
  | inl e ↦
      rw (e, count_class)
        (
          omega arith,
          omega arith,
          omega arith,
          count_of-entry reason r count c.by_reason a ∙ omega arith,
        )
  | inr e ↦
      rw (e, count_class)
        (
          omega arith,
          omega arith,
          omega arith,
          count_of-entry reason r count c.by_reason a ∙ omega arith,
        )
]

step-captured :
    (c : CaptureCounters) (r : DropReason)
    → c.captured + 1 ≤ u64_max
    → Counted c (step c captured) r (captured ∷ [])
unfolding Counted step count_captured
step-captured c r h = ground arith

run-Counted :
    (c : CaptureCounters) (es : List Event) (r : DropReason)
    → c.captured + size es ≤ u64_max
    → c.intentionally_skipped + size es ≤ u64_max
    → c.lost + size es ≤ u64_max
    → count_of r c + size es ≤ u64_max
    → Counted c (run c es) r es
unfolding Counted run
run-Counted c [] r a b d e = omega arith
run-Counted c (captured ∷ es) r a b d e =
    let (p, q, s, t) = step-captured c r (omega arith) in
    omega (
      arith,
      p,
      q,
      s,
      t,
      run-Counted (step c captured) es r (omega (arith, p)) (omega (arith, q)) (omega (arith, s))
          (omega (arith, t)),
    )
run-Counted c (drops reason count ∷ es) r a b d e =
    let (p, q, s, t) = step-drops c reason r count (omega arith) (omega arith) (omega arith) in
    let small = of_class-le intentional (class reason) count in
    let lossy = of_class-le loss (class reason) count in
    let mine = if-le (same r reason) count in
    omega (
      arith,
      p,
      q,
      s,
      t,
      run-Counted (step c (drops reason count)) es r (omega (arith, p)) (omega (arith, q, small))
          (omega (arith, s, lossy)) (omega (arith, t, mine)),
    )

-- From zero, after any captures and drops whose counts add up to at most the range of the counters,
-- each counter is exact: the captures, the drops of each class, and the drops for each reason.
pub run-totals :
    (es : List Event) (r : DropReason)
    → size es ≤ u64_max
    → ((run default es).captured ≡ captures es)
      × ((run default es).intentionally_skipped ≡ total_class intentional es)
      × ((run default es).lost ≡ total_class loss es)
      × (count_of r (run default es) ≡ total_reason r es)
unfolding Counted get
run-totals es r h =
    omega (arith, run-Counted default es r (omega arith) (omega arith) (omega arith) (omega arith))
