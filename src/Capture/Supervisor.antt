-- ===== src/Capture/Supervisor.antt =====
-- `CaptureSupervisor` of crates/vbuff-core/src/reliability.rs. Its counters are u8.
pub mod Escalation
use vbuff.Base.{ℕ, ◌*◌, max, Bool, if◌then◌else◌, leb, u8_max, saturating_add}

pub data RecoveryAction : Type 0 where
  no_action resubscribe restart_backend : RecoveryAction
  enter_degraded_mode : ℕ → RecoveryAction

pub data SupervisorObservation : Type 0 where
  healthy subscription_lost backend_failed recovery_succeeded : SupervisorObservation

pub record CaptureSupervisor : Type 0 where
  pub resubscribe_limit : ℕ
  pub restart_limit : ℕ
  pub failures : ℕ
  pub restarts : ℕ
  pub degraded_retry : ℕ

abbrev pub second : ℕ
second = 1_000_000_000

unfoldable pub new : ℕ → ℕ → ℕ → CaptureSupervisor
new resubscribe_limit restart_limit degraded_retry = record {
  resubscribe_limit = max resubscribe_limit 1;
  restart_limit = max restart_limit 1;
  failures = 0;
  restarts = 0;
  degraded_retry = max degraded_retry second;
}

unfoldable pub request_restart : CaptureSupervisor → CaptureSupervisor × RecoveryAction
request_restart s =
    let restarts = saturating_add u8_max s.restarts 1 in
    if leb restarts s.restart_limit
    then (record s { restarts = restarts }, restart_backend)
    else (record s { restarts = 0 }, enter_degraded_mode s.degraded_retry)

unfoldable pub observe :
    CaptureSupervisor → SupervisorObservation → CaptureSupervisor × RecoveryAction
observe s healthy = (record s { failures = 0; restarts = 0 }, no_action)
observe s recovery_succeeded = (record s { failures = 0; restarts = 0 }, no_action)
observe s subscription_lost =
    let failures = saturating_add u8_max s.failures 1 in
    if leb failures s.resubscribe_limit
    then (record s { failures = failures }, resubscribe)
    else request_restart (record s { failures = 0 })
observe s backend_failed = request_restart s
