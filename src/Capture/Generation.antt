-- ===== src/Capture/Generation.antt =====
-- `GenerationTracker` and `SelfTestState` of crates/vbuff-core/src/capture/ledger.rs, and
-- `CaptureGeneration` of crates/vbuff-types/src/lib.rs.
pub mod Accounting
pub mod SelfTest
use vbuff.Base.{
  ℕ, suc, ◌+◌, ◌-◌, Bool, not, Option, none, some, if◌then◌else◌, leb, ◌==◌, Bytes, replicate,
}

pub record CaptureGeneration : Type 0 where
  pub epoch : ℕ
  pub sequence : ℕ

pub data GenerationObservation : Type 0 where
  first consecutive epoch_changed stale : GenerationObservation
  gap : ℕ → GenerationObservation

pub record GenerationTracker : Type 0 where
  pub last : Option CaptureGeneration

unfoldable pub judge : Option CaptureGeneration → CaptureGeneration → GenerationObservation
judge none generation = first
judge (some last) generation =
    if not (generation.epoch == last.epoch)
    then epoch_changed
    else if leb generation.sequence last.sequence
    then stale
    else if generation.sequence == last.sequence + 1
    then consecutive
    else gap (generation.sequence - last.sequence - 1)

unfoldable pub advance :
    GenerationTracker → CaptureGeneration → GenerationObservation → GenerationTracker
advance t generation stale = t
advance t generation o = record t { last = some generation }

unfoldable pub observe :
    GenerationTracker → CaptureGeneration → GenerationTracker × GenerationObservation
unfolding judge advance
observe t generation =
    let observation = judge t.last generation in (advance t generation observation, observation)

pub data SelfTestState : Type 0 where
  idle awaiting_restore passed failed : SelfTestState
  awaiting_echo : Bytes → SelfTestState

pub data SelfTestObservation : Type 0 where
  started echo_confirmed restore_confirmed unexpected_echo timed_out : SelfTestObservation

abbrev pub zero_hash : Bytes
zero_hash = replicate 32 0

unfoldable pub observe_self_test : SelfTestState → SelfTestObservation → SelfTestState
observe_self_test idle started = awaiting_echo zero_hash
observe_self_test (awaiting_echo hash) echo_confirmed = awaiting_restore
observe_self_test awaiting_restore restore_confirmed = passed
observe_self_test state unexpected_echo = failed
observe_self_test state timed_out = failed
observe_self_test state other = state
