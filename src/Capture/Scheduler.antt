-- ===== src/Capture/Scheduler.antt =====
-- `AdaptivePollScheduler` of crates/vbuff-core/src/capture/scheduler.rs. Durations and instants are
-- nanoseconds that do not overflow.
pub mod Cadence
use vbuff.Base.{
  ℕ, zero, suc, ◌+◌, ◌*◌, ◌/◌, min, max, Bool, true, false, Option, none, some, if◌then◌else◌, leb,
}

pub data PollObservation : Type 0 where
  activity clipboard_changed stable miss_risk : PollObservation

pub record AdaptivePollScheduler : Type 0 where
  pub minimum : ℕ
  pub maximum : ℕ
  pub current : ℕ
  pub active_for : ℕ
  pub active_until : Option ℕ

abbrev pub millisecond : ℕ
millisecond = 1_000_000

unfoldable pub new : ℕ → ℕ → ℕ → AdaptivePollScheduler
new minimum initial maximum =
    let low = max minimum (10 * millisecond) in
    let high = max maximum low in
    record {
      minimum = low;
      maximum = high;
      current = min (max initial low) high;
      active_for = 3_000 * millisecond;
      active_until = none;
    }

-- `active_until.is_none_or(|until| now >= until)`.
unfoldable pub is_idle : Option ℕ → ℕ → Bool
is_idle none now = true
is_idle (some until) now = leb until now

unfoldable pub observe : AdaptivePollScheduler → PollObservation → ℕ → AdaptivePollScheduler × ℕ
observe s activity now =
    (record s { current = s.minimum; active_until = some (now + s.active_for) }, s.minimum)
observe s clipboard_changed now =
    (record s { current = s.minimum; active_until = some (now + s.active_for) }, s.minimum)
observe s miss_risk now =
    (record s { current = s.minimum; active_until = some (now + s.active_for * 2) }, s.minimum)
observe s stable now =
    let grown = min (s.current + s.current / 2) s.maximum in
    if is_idle s.active_until now then (record s { current = grown }, grown) else (s, s.current)

unfoldable pub back_off : AdaptivePollScheduler → AdaptivePollScheduler × ℕ
back_off s =
    let current = min (s.current * 2) s.maximum in (record s { current = current }, current)
