-- ===== src/Plugin/Supervisor/Examples.antt =====
-- A plugin that panics, and calls that follow.
use vbuff.Base.{◌≡◌, refl, false, List, [], ◌∷◌, Bytes, cmp_bytes}
use vbuff.Base.Maps.{get, contains_key}
use vbuff.Plugin.Supervisor.{
  pos, PluginSupervisor, ready, valid_id, record_panic, can_run, Call, registering, disabling,
  panicking, default, run,
}
use vbuff.Plugin.Supervisor.Disabled.{record_panic-never_runs}
use vbuff.Plugin.Supervisor.Failures.{IsWellFormed, run-new_bounded}

abbrev upper : Bytes
upper = b'u' ∷ b'p' ∷ []

abbrev supervised : PluginSupervisor
supervised = record { states = (upper, ready) ∷ []; failures = []; failure_sequence = 0 }

abbrev again : List Call
again = registering upper ∷ disabling upper ∷ registering upper ∷ []

record_panic-never_runs_example :
    can_run (run (record_panic supervised upper upper (pos 7)).0 again) upper ≡ false
unfolding valid_id contains_key get cmp_bytes
record_panic-never_runs_example =
    record_panic-never_runs supervised upper upper (pos 7) again refl refl refl

run-new_bounded_example :
    IsWellFormed (run default (registering upper ∷ panicking upper upper (pos 7) ∷ []))
run-new_bounded_example = run-new_bounded (registering upper ∷ panicking upper upper (pos 7) ∷ [])
