-- ===== src/Plugin/Supervisor.antt =====
-- `PluginSupervisor` of crates/vbuff-plugin/src/governance/supervisor.rs, with the identifier test of
-- governance/mod.rs beside it. Strings are bytes.
pub mod Disabled
pub mod Failures
mod Examples
use Prim.Native.String.{String}
use vbuff.Base.{
  ℕ, Bool, true, false, not, ◌&&◌, ◌||◌, ◌==◌, leb, if◌then◌else◌, Option, none, some, List, [],
  ◌∷◌, ◌++◌, Bytes, bytes_ord, length, checked_add, u64_max,
}
use vbuff.Base.Maps.{get, map_insert, contains_key}
use vbuff.Sync.Validation.{all, is_alphanumeric}

abbrev pub max_failures : ℕ
max_failures = 256

abbrev pub max_supervised_plugins : ℕ
max_supervised_plugins = 1_024

-- An `i64`.
pub data ℤ : Type 0 where
  pos negsuc : ℕ → ℤ

abbrev pub is_negative : ℤ → Bool
is_negative (pos n) = false
is_negative (negsuc n) = true

pub data PluginRuntimeState : Type 0 where
  ready disabled_after_panic disabled_by_policy : PluginRuntimeState

pub record PluginFailureReport : Type 0 where
  pub plugin_id : Bytes
  pub action_id : Bytes
  pub occurred_at_ms : ℤ
  pub failure_sequence : ℕ
  pub state : PluginRuntimeState

pub record PluginSupervisor : Type 0 where
  pub states : List (Bytes × PluginRuntimeState)
  pub failures : List PluginFailureReport
  pub failure_sequence : ℕ

abbrev pub default : PluginSupervisor
default = record { states = []; failures = []; failure_sequence = 0 }

-- The error is always `PluginError::InvalidBundle`, with its message.
pub data SupervisorResult (T : Type 0) : Type 0 where
  ok : T → SupervisorResult T
  invalid : String → SupervisorResult T

unfoldable pub valid_id : Bytes → Bool
valid_id value =
    not (length value == 0)
    && leb (length value) 128
    && all (λ b. is_alphanumeric b || (b == b'.' || b == b'-' || b == b'_')) value

-- `entry(plugin_id).or_insert(Ready)`, from what is there.
abbrev pub or_ready : Option PluginRuntimeState → PluginRuntimeState
or_ready none = ready
or_ready (some state) = state

-- A method that changes the supervisor returns it beside its result, on an error too.
unfoldable pub register : PluginSupervisor → Bytes → PluginSupervisor × SupervisorResult (Unit {0})
unfolding valid_id
register s plugin_id =
    if not (valid_id plugin_id)
    then (s, invalid "supervised plugin id is invalid")
    else if not (contains_key plugin_id s.states) && leb max_supervised_plugins (length s.states)
    then (s, invalid "too many supervised plugins")
    else (
      record s { states = map_insert plugin_id (or_ready (get plugin_id s.states)) s.states },
      ok tt,
    )

unfoldable pub state : PluginSupervisor → Bytes → Option PluginRuntimeState
state s plugin_id = get plugin_id s.states

abbrev pub is_ready : Option PluginRuntimeState → Bool
is_ready (some ready) = true
is_ready _ = false

unfoldable pub can_run : PluginSupervisor → Bytes → Bool
unfolding state
can_run s plugin_id = is_ready (state s plugin_id)

unfoldable pub disable_by_policy :
    PluginSupervisor → Bytes → PluginSupervisor × SupervisorResult (Unit {0})
disable_by_policy s plugin_id =
    if contains_key plugin_id s.states
    then (record s { states = map_insert plugin_id disabled_by_policy s.states }, ok tt)
    else (s, invalid "plugin is not supervised")

abbrev pub pop_front : List PluginFailureReport → List PluginFailureReport
pop_front [] = []
pop_front (report ∷ reports) = reports

-- The end of `record_panic`, with the next sequence number if there is one.
abbrev pub report_panic :
    PluginSupervisor
    → Bytes
    → Bytes
    → ℤ
    → Option ℕ
    → PluginSupervisor × SupervisorResult PluginFailureReport
report_panic s plugin_id action_id occurred_at_ms none = (s, invalid "failure sequence overflow")
report_panic s plugin_id action_id occurred_at_ms (some sequence) =
    let report : PluginFailureReport = record {
      plugin_id = plugin_id;
      action_id = action_id;
      occurred_at_ms = occurred_at_ms;
      failure_sequence = sequence;
      state = disabled_after_panic;
    } in
    let kept = if length s.failures == max_failures then pop_front s.failures else s.failures in
    (record s { failures = kept ++ report ∷ []; failure_sequence = sequence }, ok report)

-- The plugin is disabled before the sequence number is taken, which may fail.
unfoldable pub record_panic :
    PluginSupervisor → Bytes → Bytes → ℤ → PluginSupervisor × SupervisorResult PluginFailureReport
unfolding valid_id
record_panic s plugin_id action_id occurred_at_ms =
    if not (valid_id action_id)
    then (s, invalid "failed action id is invalid")
    else if is_negative occurred_at_ms
    then (s, invalid "plugin failure timestamp is invalid")
    else if contains_key plugin_id s.states
    then report_panic (record s { states = map_insert plugin_id disabled_after_panic s.states })
        plugin_id action_id occurred_at_ms (checked_add u64_max s.failure_sequence 1)
    else (s, invalid "plugin is not supervised")

-- A call of the supervisor, and the supervisor after calls.
pub data Call : Type 0 where
  registering disabling : Bytes → Call
  panicking : Bytes → Bytes → ℤ → Call

unfoldable pub perform : PluginSupervisor → Call → PluginSupervisor
perform s (registering plugin_id) = (register s plugin_id).0
perform s (disabling plugin_id) = (disable_by_policy s plugin_id).0
perform s (panicking plugin_id action_id at) = (record_panic s plugin_id action_id at).0

abbrev pub run : PluginSupervisor → List Call → PluginSupervisor
run s [] = s
run s (call ∷ calls) = run (perform s call) calls
