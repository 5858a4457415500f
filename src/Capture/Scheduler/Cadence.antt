-- ===== src/Capture/Scheduler/Cadence.antt =====
-- The polling interval stays within its bounds, follows activity, and grows back when idle.
use native.Mathlib.Nat.{pow-succ', mul-le-mul_left, mul-le-mul_right, one-le-pow}
use vbuff.Base.{
  ℕ, zero, suc, ◌*◌, ◌^◌, ◌≤◌, min, ◌≡◌, ◌∙◌, refl, ap, inl, inr, leb, Bool-cases, true, List, [],
  ◌∷◌, arith,
}
use vbuff.Capture.Scheduler.{
  PollObservation, activity, clipboard_changed, stable, miss_risk, AdaptivePollScheduler,
  millisecond, new, is_idle, observe, back_off,
}

pub record IsBounded (s : AdaptivePollScheduler) : Type 0 where
  pub floor : 10 * millisecond ≤ s.minimum
  pub low : s.minimum ≤ s.current
  pub high : s.current ≤ s.maximum

pub data Event : Type 0 where
  observed : PollObservation → ℕ → Event
  backed_off : Event

unfoldable pub step : AdaptivePollScheduler → Event → AdaptivePollScheduler
step s (observed o now) = (observe s o now).0
step s backed_off = (back_off s).0

unfoldable pub run : AdaptivePollScheduler → List Event → AdaptivePollScheduler
run s [] = s
run s (e ∷ es) = run (step s e) es

step-IsBounded :
    (s : AdaptivePollScheduler) (e : Event)
    → IsBounded s
    → IsBounded (step s e) × ((step s e).minimum ≡ s.minimum) × ((step s e).maximum ≡ s.maximum)
unfolding step observe back_off
step-IsBounded s (observed activity now) b = ground arith
step-IsBounded s (observed clipboard_changed now) b = ground arith
step-IsBounded s (observed stable now) b = ground arith
step-IsBounded s (observed miss_risk now) b = ground arith
step-IsBounded s backed_off b = ground arith

run-IsBounded :
    (s : AdaptivePollScheduler) (es : List Event)
    → IsBounded s
    → IsBounded (run s es) × ((run s es).minimum ≡ s.minimum) × ((run s es).maximum ≡ s.maximum)
unfolding run
run-IsBounded s [] b = (b, refl, refl)
run-IsBounded s (e ∷ es) b =
    ground (arith, step-IsBounded s e b, run-IsBounded (step s e) es (step-IsBounded s e b).0)

-- After any observations and back-offs, at whatever times, the interval of a new scheduler lies
-- between its bounds, which stay those of the start, and is at least ten milliseconds.
pub run-new_bounds :
    (minimum initial maximum : ℕ) (es : List Event)
    → let s = new minimum initial maximum in
      IsBounded (run s es) × ((run s es).minimum ≡ s.minimum) × ((run s es).maximum ≡ s.maximum)
run-new_bounds minimum initial maximum es =
    run-IsBounded (new minimum initial maximum) es (unfold new in omega arith)

-- Consecutive stable polls at one time.
pub settle : ℕ → AdaptivePollScheduler → ℕ → AdaptivePollScheduler
settle zero s now = s
settle (suc n) s now = settle n (observe s stable now).0 now

two_polls :
    (s : AdaptivePollScheduler) (now : ℕ)
    → IsBounded s
    → is_idle s.active_until now ≡ true
    → let t = (observe (observe s stable now).0 stable now).0 in
      IsBounded t
      × (is_idle t.active_until now ≡ true)
      × (t.maximum ≡ s.maximum)
      × (min (2 * s.current) s.maximum ≤ t.current)
unfolding observe
two_polls s now b i = ground arith

abbrev pub double : ℕ → ℕ
double zero = 0
double (suc k) = suc (suc (double k))

reach_step : (k c d m : ℕ) → min (2 * c) m ≤ d → m ≤ c * 2 ^ suc k → m ≤ d * 2 ^ k
reach_step k c d m h q = elim (Bool-cases (leb (2 * c) m)) [
  | inl e ↦
      let doubled : 2 * c ≤ d = ground arith in
      omega (arith, ap (λ (t : ℕ). c * t) (pow-succ' 2 k), mul-le-mul_right (2 ^ k) doubled)
  | inr e ↦
      let above : m ≤ d = ground arith in
      omega (arith, mul-le-mul_left d (one-le-pow k 2 (omega arith)))
]

-- An idle scheduler reaches its longest interval: `2 k` stable polls are enough when doubling the
-- current interval `k` times is.
pub settle-maximum :
    (k : ℕ) (s : AdaptivePollScheduler) (now : ℕ)
    → IsBounded s
    → is_idle s.active_until now ≡ true
    → s.maximum ≤ s.current * 2 ^ k
    → (settle (double k) s now).current ≡ s.maximum
unfolding settle
settle-maximum zero s now b i h = omega arith
settle-maximum (suc k) s now b i h =
    let (bounded, idle, same_maximum, grown) = two_polls s now b i in
    settle-maximum k (observe (observe s stable now).0 stable now).0 now bounded idle
      (rw same_maximum (reach_step k s.current _ s.maximum grown h))
    ∙ same_maximum
