-- ===== src/Ipc/Replay.antt =====
-- `EventReplayCursor` of crates/vbuff-ipc/src/operations/runtime.rs.
pub mod Complete
mod Examples
use vbuff.Base.{ℕ, min, Bool, true, false, ◌||◌, ◌==◌, ltb, leb, List, [], ◌∷◌, Bytes}
use vbuff.Base.Iter.{any, retain, take}
use vbuff.Base.Results.{ok, fail_if, ◌>>◌, ◌>>=◌}
use vbuff.Ipc.Operation.{OperationResult, invalid, cursor_expired, validate_id}
use vbuff.Ipc.Event.{EventEnvelope}

pub record EventReplayCursor : Type 0 where
  pub stream_id : Bytes
  pub next_sequence : ℕ

unfoldable pub validate : EventReplayCursor → OperationResult (Unit {0})
unfolding validate_id
validate c = do
  validate_id c.stream_id
  fail_if (c.next_sequence == 0) (invalid "invalid_replay_sequence")

-- `events.windows(2)` has a pair that does not ascend.
abbrev pub is_unordered : List EventEnvelope → Bool
is_unordered [] = false
is_unordered (e ∷ []) = false
is_unordered (e ∷ f ∷ events) = leb f.sequence e.sequence || is_unordered (f ∷ events)

abbrev pub wanted : ℕ → List EventEnvelope → List EventEnvelope
wanted next events = retain (λ e. leb next e.sequence) events

unfoldable pub select :
    EventReplayCursor → ℕ → List EventEnvelope → ℕ → OperationResult (List EventEnvelope)
unfolding validate
select c retained_first_sequence events limit = do
  validate c
  fail_if (retained_first_sequence == 0 || limit == 0) (invalid "invalid_replay_window")
  fail_if (ltb c.next_sequence retained_first_sequence) cursor_expired
  fail_if (any (λ e. ltb e.sequence retained_first_sequence) events || is_unordered events)
      (invalid "replay_events_not_strictly_ordered")
  ok (take (min limit 1_024) (wanted c.next_sequence events))
