-- ===== src/Plugin/Supervisor/Disabled.antt =====
-- A plugin that panicked stays disabled.
use vbuff.Base.{
  ℕ, ◌≡◌, refl, sym, subst, Bool, true, false, not, ◌&&◌, leb, Bool-cases, inl, inr, same, same_iff,
  Option, none, some, List, [], ◌∷◌, Bytes, bytes_ord, arith, length, checked_add, u64_max,
}
use vbuff.Base.Maps.{get, map_insert, contains_key, get-map_insert}
use vbuff.Plugin.Supervisor.{
  ℤ, is_negative, max_supervised_plugins, PluginRuntimeState, ready, disabled_after_panic,
  disabled_by_policy, PluginSupervisor, valid_id, or_ready, register, state, is_ready, can_run,
  disable_by_policy, report_panic, record_panic, Call, registering, disabling, panicking, perform,
  run,
}

abbrev is_disabled : Option PluginRuntimeState → Bool
is_disabled none = false
is_disabled (some ready) = false
is_disabled (some disabled_after_panic) = true
is_disabled (some disabled_by_policy) = true

-- The supervisor knows the plugin, and it is not ready.
IsDisabled : PluginSupervisor → Bytes → Type 0
IsDisabled s plugin_id = is_disabled (get plugin_id s.states) ≡ true

or_ready-disabled :
    (found : Option PluginRuntimeState)
    → is_disabled found ≡ true
    → is_disabled (some (or_ready found)) ≡ true
or_ready-disabled none h = absurd (ground (arith, h))
or_ready-disabled (some ready) h = h
or_ready-disabled (some disabled_after_panic) h = h
or_ready-disabled (some disabled_by_policy) h = h

insert-disabled :
    (id other : Bytes) (kind : PluginRuntimeState) (s : PluginSupervisor)
    → (other ≡ id → is_disabled (some kind) ≡ true)
    → IsDisabled s id
    → is_disabled (get id (map_insert other kind s.states)) ≡ true
unfolding IsDisabled
insert-disabled id other kind s own h = elim (Bool-cases (same id other)) [
  | inl e ↦ rw (get-map_insert id other kind s.states, e) (own (sym ((same_iff id other).0 e)))
  | inr e ↦ rw (get-map_insert id other kind s.states, e) h
]

report_panic-states :
    (s : PluginSupervisor) (id action : Bytes) (at : ℤ) (next : Option ℕ)
    → (report_panic s id action at next).0.states ≡ s.states
report_panic-states s id action at none = refl
report_panic-states s id action at (some sequence) = refl

register-IsDisabled :
    (s : PluginSupervisor) (id other : Bytes) → IsDisabled s id → IsDisabled (register s other).0 id
unfolding register IsDisabled
register-IsDisabled s id other h = elim (Bool-cases (valid_id other)) [
  | inr bad ↦ rw bad h
  | inl good ↦
      elim (Bool-cases
        (not (contains_key other s.states) && leb max_supervised_plugins (length s.states))) [
          | inl crowded ↦ rw (good, crowded) h
          | inr room ↦
              let kept : other ≡ id → is_disabled (some (or_ready (get other s.states))) ≡ true =
                λ e.
                  or_ready-disabled (get other s.states)
                    (subst (λ q. is_disabled (get q s.states) ≡ true) (sym e) h) in
              rw (good, room) (insert-disabled id other (or_ready (get other s.states)) s kept h)
        ]
]

disable_by_policy-IsDisabled :
    (s : PluginSupervisor) (id other : Bytes)
    → IsDisabled s id
    → IsDisabled (disable_by_policy s other).0 id
unfolding disable_by_policy IsDisabled
disable_by_policy-IsDisabled s id other h = elim (Bool-cases (contains_key other s.states)) [
  | inl e ↦ rw e (insert-disabled id other disabled_by_policy s (λ same_id. refl) h)
  | inr e ↦ rw e h
]

record_panic-IsDisabled :
    (s : PluginSupervisor) (id other action : Bytes) (at : ℤ)
    → IsDisabled s id
    → IsDisabled (record_panic s other action at).0 id
unfolding record_panic IsDisabled
record_panic-IsDisabled s id other action at h = elim (Bool-cases (valid_id action)) [
  | inr bad ↦ rw bad h
  | inl good ↦ elim (Bool-cases (is_negative at)) [
    | inl past ↦ rw (good, past) h
    | inr now ↦ elim (Bool-cases (contains_key other s.states)) [
      | inr absent ↦ rw (good, now, absent) h
      | inl known ↦
          let disabled : PluginSupervisor = record s {
            states = map_insert other disabled_after_panic s.states;
          } in
          let next = checked_add u64_max s.failure_sequence 1 in
          rw (good, now, known)
            (subst (λ q. is_disabled (get id q) ≡ true)
              (sym (report_panic-states disabled other action at next))
              (insert-disabled id other disabled_after_panic s (λ same_id. refl) h))
    ]
  ]
]

run-IsDisabled :
    (s : PluginSupervisor) (id : Bytes) (calls : List Call)
    → IsDisabled s id
    → IsDisabled (run s calls) id
unfolding perform
run-IsDisabled s id [] h = h
run-IsDisabled s id (registering other ∷ calls) h =
    run-IsDisabled (register s other).0 id calls (register-IsDisabled s id other h)
run-IsDisabled s id (disabling other ∷ calls) h =
    run-IsDisabled (disable_by_policy s other).0 id calls
      (disable_by_policy-IsDisabled s id other h)
run-IsDisabled s id (panicking other action at ∷ calls) h =
    run-IsDisabled (record_panic s other action at).0 id calls
      (record_panic-IsDisabled s id other action at h)

not_ready : (found : Option PluginRuntimeState) → is_disabled found ≡ true → is_ready found ≡ false
not_ready none h = refl
not_ready (some ready) h = sym h
not_ready (some disabled_after_panic) h = refl
not_ready (some disabled_by_policy) h = refl

panicked-IsDisabled :
    (s : PluginSupervisor) (id action : Bytes) (at : ℤ)
    → valid_id action ≡ true
    → is_negative at ≡ false
    → contains_key id s.states ≡ true
    → IsDisabled (record_panic s id action at).0 id
unfolding record_panic IsDisabled
panicked-IsDisabled s id action at good now known =
    let disabled : PluginSupervisor = record s {
      states = map_insert id disabled_after_panic s.states;
    } in
    let next = checked_add u64_max s.failure_sequence 1 in
    let self : same id id ≡ true = (same_iff id id).1 refl in
    let written : is_disabled (get id disabled.states) ≡ true =
      rw (get-map_insert id id disabled_after_panic s.states, self) refl in
    rw (good, now, known)
      (subst (λ q. is_disabled (get id q) ≡ true)
        (sym (report_panic-states disabled id action at next)) written)

-- A supervised plugin whose panic is recorded, with a valid action and time, never runs again,
-- whatever is registered, disabled or reported afterwards, and even where the panic gets no sequence
-- number.
pub record_panic-never_runs :
    (s : PluginSupervisor) (id action : Bytes) (at : ℤ) (calls : List Call)
    → valid_id action ≡ true
    → is_negative at ≡ false
    → contains_key id s.states ≡ true
    → can_run (run (record_panic s id action at).0 calls) id ≡ false
unfolding can_run state IsDisabled
record_panic-never_runs s id action at calls good now known =
    let after = run (record_panic s id action at).0 calls in
    not_ready (get id after.states) (
      run-IsDisabled (record_panic s id action at).0 id calls
        (panicked-IsDisabled s id action at good now known))
