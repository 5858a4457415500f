-- ===== src/Capture/Supervisor/Escalation.antt =====
-- How a run of lost subscriptions escalates.
use vbuff.Base.{ℕ, zero, suc, ◌+◌, ◌≤◌, ◌<◌, ◌≡◌, if◌then◌else◌, ltb, arith, u8_max}
use vbuff.Capture.Supervisor.{
  resubscribe, restart_backend, enter_degraded_mode, SupervisorObservation, healthy,
  subscription_lost, backend_failed, recovery_succeeded, CaptureSupervisor, second, new,
  request_restart, observe,
}

-- The counters stay within their limits, and the limits are what `new` makes of u8 arguments.
pub record IsValid (s : CaptureSupervisor) : Type 0 where
  pub some_resubscription : 1 ≤ s.resubscribe_limit
  pub some_restart : 1 ≤ s.restart_limit
  pub retry : second ≤ s.degraded_retry
  pub failures : s.failures ≤ s.resubscribe_limit
  pub restarts : s.restarts ≤ s.restart_limit

pub new-IsValid :
    (resubscribe_limit restart_limit retry : ℕ)
    → IsValid (new resubscribe_limit restart_limit retry)
unfolding new
new-IsValid a b c = omega arith

pub observe-IsValid :
    (s : CaptureSupervisor) (o : SupervisorObservation) → IsValid s → IsValid (observe s o).0
unfolding observe request_restart
observe-IsValid s healthy v = ground arith
observe-IsValid s recovery_succeeded v = ground arith
observe-IsValid s subscription_lost v = ground arith
observe-IsValid s backend_failed v = ground arith

-- The state and the last action after a number of consecutive lost subscriptions.
pub lose : ℕ → CaptureSupervisor → CaptureSupervisor
lose zero s = s
lose (suc n) s = (observe (lose n s) subscription_lost).0

-- One more than the losses that it takes to ask for a restart.
abbrev pub round : CaptureSupervisor → ℕ
round s = s.resubscribe_limit + 1

lose_within :
    (n : ℕ) (s : CaptureSupervisor)
    → s.resubscribe_limit < u8_max
    → s.failures ≡ 0
    → n ≤ s.resubscribe_limit
    → lose n s ≡ record s { failures = n }
unfolding lose observe
lose_within zero s h f b = ground arith
lose_within (suc n) s h f b = ground (arith, lose_within n s h f)

-- From a healthy state, with limits below 255, each of the first `resubscribe_limit` losses is
-- answered by a re-subscription, and the next one asks the backend to restart while restarts are
-- left, and enters degraded mode with the configured delay otherwise.
pub observe-lose :
    (n : ℕ) (s : CaptureSupervisor)
    → s.resubscribe_limit < u8_max
    → s.restart_limit < u8_max
    → s.failures ≡ 0
    → n ≤ s.resubscribe_limit
    → (observe (lose n s) subscription_lost).1 ≡ (
        if ltb n s.resubscribe_limit
        then resubscribe
        else if ltb s.restarts s.restart_limit
        then restart_backend
        else enter_degraded_mode s.degraded_retry)
unfolding observe request_restart
observe-lose n s h k f b = rw (lose_within n s h f b) (ground arith)

-- A round is the losses from a healthy state up to a request for a restart.
pub rounds : ℕ → CaptureSupervisor → CaptureSupervisor
rounds zero s = s
rounds (suc k) s = (observe (lose s.resubscribe_limit (rounds k s)) subscription_lost).0

rounds_within :
    (k : ℕ) (s : CaptureSupervisor)
    → s.resubscribe_limit < u8_max
    → s.restart_limit < u8_max
    → s.failures ≡ 0
    → s.restarts ≡ 0
    → k ≤ s.restart_limit
    → rounds k s ≡ record s { restarts = k }
unfolding rounds observe request_restart
rounds_within zero s h q f r b = ground arith
rounds_within (suc k) s h q f r b =
    rw (rounds_within k s h q f r (omega arith), rounds)
      (rw (lose_within s.resubscribe_limit (record s { restarts = k }) h f (omega arith))
        (ground arith))

-- From a fresh state with limits below 255, `restart_limit` rounds and the losses of one more enter
-- degraded mode with the configured delay, and leave the supervisor as it was at the start.
pub rounds-degraded :
    (s : CaptureSupervisor)
    → s.resubscribe_limit < u8_max
    → s.restart_limit < u8_max
    → s.failures ≡ 0
    → s.restarts ≡ 0
    → observe (lose s.resubscribe_limit (rounds s.restart_limit s)) subscription_lost
      ≡ (s, enter_degraded_mode s.degraded_retry)
unfolding observe request_restart
rounds-degraded s h q f r = rw (rounds_within s.restart_limit s h q f r (omega arith)) (
    rw (lose_within s.resubscribe_limit (record s { restarts = s.restart_limit }) h f (omega arith))
      (ground arith))

lose_saturates :
    (n : ℕ) (s : CaptureSupervisor)
    → s.resubscribe_limit ≡ u8_max
    → (lose n s).resubscribe_limit ≡ u8_max
unfolding lose observe
lose_saturates zero s h = h
lose_saturates (suc n) s h = ground (arith, lose_saturates n s h)

-- With a re-subscription limit of 255 no run of lost subscriptions ever asks for a restart, however
-- long it is: the counter saturates at the limit.
pub observe-lose_unlimited :
    (n : ℕ) (s : CaptureSupervisor)
    → s.resubscribe_limit ≡ u8_max
    → (observe (lose n s) subscription_lost).1 ≡ resubscribe
unfolding observe
observe-lose_unlimited n s h = ground (arith, lose_saturates n s h)
