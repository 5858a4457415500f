-- ===== src/Plugin/Supervisor/Failures.antt =====
-- The bounds of a supervisor and the order of its failure reports.
use vbuff.Base.{
  some_injective, ◌∙◌, ℕ, ◌+◌, ◌≤◌, ◌<◌, ◌≡◌, refl, sym, subst, true, false, not, ◌&&◌, leb,
  Bool-cases, Option-cases, inl, inr, Option, none, some, List, [], ◌∷◌, ◌++◌, Bytes, bytes_ord,
  arith, length, length-append, checked_add, u64_max, ◌==◌,
}
use vbuff.Base.Maps.{
  get, map_insert, contains_key, is_some, IsAscending, map_insert-IsAscending, length-map_insert,
  length-map_insert_present,
}
use vbuff.Plugin.Supervisor.{
  ℤ, is_negative, max_failures, max_supervised_plugins, PluginRuntimeState, disabled_after_panic,
  disabled_by_policy, PluginFailureReport, PluginSupervisor, default, valid_id, or_ready, register,
  disable_by_policy, pop_front, report_panic, record_panic, Call, registering, disabling, panicking,
  perform, run,
}

-- The sequence numbers ascend strictly from above one number to no more than another.
abbrev Between : ℕ → List PluginFailureReport → ℕ → Type 0
Between low [] high = low ≤ high
Between low (report ∷ reports) high =
    (low < report.failure_sequence) × Between report.failure_sequence reports high

Between-lower :
    (low lower : ℕ) (reports : List PluginFailureReport) (high : ℕ)
    → lower ≤ low
    → Between low reports high
    → Between lower reports high
Between-lower low lower [] high h b = omega (arith, h, b)
Between-lower low lower (report ∷ reports) high h b = (omega (arith, h, b.0), b.1)

Between-pop_front :
    (reports : List PluginFailureReport) (high : ℕ)
    → Between 0 reports high
    → Between 0 (pop_front reports) high
Between-pop_front [] high b = b
Between-pop_front (report ∷ reports) high b =
    Between-lower report.failure_sequence 0 reports high (omega arith) b.1

Between-append :
    (low : ℕ) (reports : List PluginFailureReport) (high : ℕ) (report : PluginFailureReport)
    → high < report.failure_sequence
    → Between low reports high
    → Between low (reports ++ report ∷ []) report.failure_sequence
Between-append low [] high report h b = (omega (arith, h, b), omega arith)
Between-append low (r ∷ reports) high report h b =
    (b.0, Between-append r.failure_sequence reports high report h b.1)

checked_add-lt : (n next : ℕ) → checked_add u64_max n 1 ≡ some next → n < next
checked_add-lt n next h = elim (Bool-cases (leb (n + 1) u64_max)) [
  | inl e ↦
      let sum : checked_add u64_max n 1 ≡ some (n + 1) = rw (e, checked_add) refl in
      omega (arith, some_injective (sym sum ∙ h))
  | inr e ↦
      let over : checked_add u64_max n 1 ≡ none = rw (e, checked_add) refl in
      absurd (ground (arith, h, over))
]

length-pop_front :
    (reports : List PluginFailureReport)
    → length reports ≡ max_failures
    → length (pop_front reports) + 1 ≡ max_failures
length-pop_front [] h = omega (arith, h)
length-pop_front (report ∷ reports) h = omega (arith, h)

-- At most 1,024 plugins, each of them once.
abbrev StatesFit : List (Bytes × PluginRuntimeState) → Type 0
StatesFit states = (length states ≤ max_supervised_plugins) × IsAscending states

insert-StatesFit :
    (id : Bytes) (kind : PluginRuntimeState) (states : List (Bytes × PluginRuntimeState))
    → not (contains_key id states) && leb max_supervised_plugins (length states) ≡ false
    → StatesFit states
    → StatesFit (map_insert id kind states)
unfolding contains_key
insert-StatesFit id kind states room f =
    let ascending = map_insert-IsAscending id kind states f.1 in
    elim (Option-cases (get id states)) [
      | inl e ↦
          let test : not (is_some (get id states)) ≡ true = rw e refl in
          let space : leb max_supervised_plugins (length states) ≡ false =
            ground (arith, room, test) in
          (ground (arith, space, length-map_insert id kind states), ascending)
      | inr (old, e) ↦
          (omega (arith, length-map_insert_present id kind old states f.1 e, f.0), ascending)
    ]

abbrev ReportsFit : PluginSupervisor → Type 0
ReportsFit s = (length s.failures ≤ max_failures) × Between 0 s.failures s.failure_sequence

abbrev pub IsWellFormed : PluginSupervisor → Type 0
IsWellFormed s = StatesFit s.states × ReportsFit s

report_panic-IsWellFormed :
    (s : PluginSupervisor) (id action : Bytes) (at : ℤ) (next : Option ℕ)
    → checked_add u64_max s.failure_sequence 1 ≡ next
    → IsWellFormed s
    → IsWellFormed (report_panic s id action at next).0
report_panic-IsWellFormed s id action at none e w = w
report_panic-IsWellFormed s id action at (some sequence) e w =
    let later : s.failure_sequence < sequence = checked_add-lt s.failure_sequence sequence e in
    let report : PluginFailureReport = record {
      plugin_id = id;
      action_id = action;
      occurred_at_ms = at;
      failure_sequence = sequence;
      state = disabled_after_panic;
    } in
    elim (Bool-cases (length s.failures == max_failures)) [
      | inl full ↦
          let total = length-append (pop_front s.failures) (report ∷ []) in
          let popped = length-pop_front s.failures (ground (arith, full)) in
          rw full (
            w.0,
            (
              omega (arith, total, popped),
              Between-append 0 (pop_front s.failures) s.failure_sequence report later
                  (Between-pop_front s.failures s.failure_sequence w.1.1),
            ),
          )
      | inr open_slot ↦
          let total = length-append s.failures (report ∷ []) in
          rw open_slot (
            w.0,
            (
              ground (arith, total, open_slot, w.1.0),
              Between-append 0 s.failures s.failure_sequence report later w.1.1,
            ),
          )
    ]

register-IsWellFormed :
    (s : PluginSupervisor) (id : Bytes) → IsWellFormed s → IsWellFormed (register s id).0
unfolding register
register-IsWellFormed s id w = elim (Bool-cases (valid_id id)) [
  | inr bad ↦ let kept : (register s id).0 ≡ s = rw bad refl in subst IsWellFormed (sym kept) w
  | inl good ↦
      elim (Bool-cases
        (not (contains_key id s.states) && leb max_supervised_plugins (length s.states))) [
          | inl crowded ↦
              let kept : (register s id).0 ≡ s = rw (good, crowded) refl in
              subst IsWellFormed (sym kept) w
          | inr room ↦
              let added : PluginSupervisor = record s {
                states = map_insert id (or_ready (get id s.states)) s.states;
              } in
              let written : (register s id).0 ≡ added = rw (good, room) refl in
              subst IsWellFormed (sym written)
                (insert-StatesFit id (or_ready (get id s.states)) s.states room w.0, w.1)
        ]
]

-- A plugin that is there takes no room.
known-room :
    (id : Bytes) (states : List (Bytes × PluginRuntimeState))
    → contains_key id states ≡ true
    → not (contains_key id states) && leb max_supervised_plugins (length states) ≡ false
known-room id states known = rw known refl

disable_by_policy-IsWellFormed :
    (s : PluginSupervisor) (id : Bytes) → IsWellFormed s → IsWellFormed (disable_by_policy s id).0
unfolding disable_by_policy
disable_by_policy-IsWellFormed s id w = elim (Bool-cases (contains_key id s.states)) [
  | inr absent ↦
      let kept : (disable_by_policy s id).0 ≡ s = rw absent refl in subst IsWellFormed (sym kept) w
  | inl known ↦
      let changed : PluginSupervisor = record s {
        states = map_insert id disabled_by_policy s.states;
      } in
      let written : (disable_by_policy s id).0 ≡ changed = rw known refl in
      subst IsWellFormed (sym written)
        (insert-StatesFit id disabled_by_policy s.states (known-room id s.states known) w.0, w.1)
]

record_panic-IsWellFormed :
    (s : PluginSupervisor) (id action : Bytes) (at : ℤ)
    → IsWellFormed s
    → IsWellFormed (record_panic s id action at).0
unfolding record_panic
record_panic-IsWellFormed s id action at w = elim (Bool-cases (valid_id action)) [
  | inr bad ↦
      let kept : (record_panic s id action at).0 ≡ s = rw bad refl in
      subst IsWellFormed (sym kept) w
  | inl good ↦ elim (Bool-cases (is_negative at)) [
    | inl past ↦
        let kept : (record_panic s id action at).0 ≡ s = rw (good, past) refl in
        subst IsWellFormed (sym kept) w
    | inr now ↦ elim (Bool-cases (contains_key id s.states)) [
      | inr absent ↦
          let kept : (record_panic s id action at).0 ≡ s = rw (good, now, absent) refl in
          subst IsWellFormed (sym kept) w
      | inl known ↦
          let disabled : PluginSupervisor = record s {
            states = map_insert id disabled_after_panic s.states;
          } in
          let next = checked_add u64_max s.failure_sequence 1 in
          let fits =
            insert-StatesFit id disabled_after_panic s.states (known-room id s.states known) w.0 in
          let written : (record_panic s id action at).0
              ≡ (report_panic disabled id action at next).0 =
            rw (good, now, known) refl in
          subst IsWellFormed (sym written)
            (report_panic-IsWellFormed disabled id action at next refl (fits, w.1))
    ]
  ]
]

perform-IsWellFormed :
    (s : PluginSupervisor) (call : Call) → IsWellFormed s → IsWellFormed (perform s call)
unfolding perform
perform-IsWellFormed s (registering id) w = register-IsWellFormed s id w
perform-IsWellFormed s (disabling id) w = disable_by_policy-IsWellFormed s id w
perform-IsWellFormed s (panicking id action at) w = record_panic-IsWellFormed s id action at w

run-IsWellFormed :
    (s : PluginSupervisor) (calls : List Call) → IsWellFormed s → IsWellFormed (run s calls)
run-IsWellFormed s [] w = w
run-IsWellFormed s (call ∷ calls) w =
    run-IsWellFormed (perform s call) calls (perform-IsWellFormed s call w)

-- After any calls of a new supervisor there are at most 1,024 plugins and 256 failure reports, and the
-- sequence numbers of the reports ascend strictly, up to the supervisor's own.
pub run-new_bounded : (calls : List Call) → IsWellFormed (run default calls)
run-new_bounded calls =
    run-IsWellFormed default calls ((omega arith, tt), (omega arith, omega arith))
