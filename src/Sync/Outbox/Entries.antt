-- ===== src/Sync/Outbox/Entries.antt =====
-- What holds of every outbox that the operations make.
use vbuff.Base.{
  ◌∙◌, subst, sym, leb, saturating_add, u8_max, ℕ, ◌+◌, ◌≤◌, ◌<◌, ◌≡◌, inl, inr, Bool-cases,
  Option-cases, true, false, Option, none, some, arith, Bytes, bytes_ord, length, refl,
}
use vbuff.Base.Maps.{
  get, map_insert, AllValues, IsAscending, get-AllValues, map_insert-AllValues,
  map_insert-IsAscending, length-map_insert, length-map_insert_present,
}
use vbuff.Sync.Error.{ok_injective, Result, ok}
use vbuff.Sync.Outbox.{
  OutboxStatus, pending, waiting_retry, delivered, failed, OutboxEntry, SyncOutbox, default,
  max_plan_items, enqueue, is_code, retried, record_retry, mark_delivered, is_open, is_some,
  is_pending, is_refused,
}

-- The fields that a status goes with.
abbrev pub Agrees : OutboxStatus → ℕ → Option ℕ → Option Bytes → Type 0
Agrees pending attempts at code = (attempts ≡ 0) × (at ≡ none) × (code ≡ none)
Agrees waiting_retry attempts at code =
    (1 ≤ attempts) × (attempts < 8) × ((t : ℕ) × (at ≡ some t)) × ((c : Bytes) × (code ≡ some c))
Agrees delivered attempts at code = (attempts < 8) × (at ≡ none) × (code ≡ none)
Agrees failed attempts at code = (attempts ≡ 8) × (at ≡ none) × ((c : Bytes) × (code ≡ some c))

unfoldable pub IsConsistent : OutboxEntry → Type 0
IsConsistent e = Agrees e.status e.attempts e.next_retry_ms e.last_error_code

pub record IsWellFormed (o : SyncOutbox) : Type 0 where
  pub ascending : IsAscending o.entries
  pub consistent : AllValues IsConsistent o.entries
  pub bounded : length o.entries ≤ max_plan_items

pub data Operation : Type 0 where
  enqueuing : OutboxEntry → Operation
  retrying : Bytes → ℕ → Bytes → Operation
  delivering : Bytes → Operation

unfoldable pub perform : SyncOutbox → Operation → Result SyncOutbox
perform o (enqueuing e) = enqueue o e
perform o (retrying event_id at_ms code) = record_retry o event_id at_ms code
perform o (delivering event_id) = mark_delivered o event_id

open_attempts :
    (s : OutboxStatus) (n : ℕ) (at : Option ℕ) (code : Option Bytes)
    → is_open s ≡ true
    → Agrees s n at code
    → n < 8
open_attempts pending n at code h k = omega arith
open_attempts waiting_retry n at code h k = k.1
open_attempts delivered n at code h k = absurd (ground arith)
open_attempts failed n at code h k = absurd (ground arith)

fresh-Agrees :
    (s : OutboxStatus) (n : ℕ) (at : Option ℕ) (code : Option Bytes)
    → is_pending s ≡ true
    → n ≡ 0
    → is_some at ≡ false
    → is_some code ≡ false
    → Agrees s n at code
fresh-Agrees pending n none none h k a c = (k, refl, refl)
fresh-Agrees s n (some t) code h k a c = absurd (ground arith)
fresh-Agrees s n at (some b) h k a c = absurd (ground arith)
fresh-Agrees waiting_retry n at code h k a c = absurd (ground arith)
fresh-Agrees delivered n at code h k a c = absurd (ground arith)
fresh-Agrees failed n at code h k a c = absurd (ground arith)

pub retried-IsConsistent :
    (e : OutboxEntry) (at_ms : ℕ) (code : Bytes)
    → is_open e.status ≡ true
    → IsConsistent e
    → IsConsistent (retried e at_ms code)
unfolding IsConsistent retried
retried-IsConsistent e at_ms code h k =
    let few = open_attempts e.status e.attempts e.next_retry_ms e.last_error_code h k in
    let one : saturating_add u8_max e.attempts 1 ≡ e.attempts + 1 = omega arith in
    elim (Bool-cases (leb 8 (saturating_add u8_max e.attempts 1))) [
      | inl last ↦ rw (last, retried) (ground (arith, one, last), refl, (code, refl))
      | inr more ↦
          rw (more, retried)
            (omega (arith, one), ground (arith, one, more), (at_ms, refl), (code, refl))
    ]

enqueue-IsWellFormed :
    (o after : SyncOutbox) (e : OutboxEntry)
    → IsWellFormed o
    → enqueue o e ≡ ok after
    → IsWellFormed after
unfolding enqueue is_refused IsConsistent
enqueue-IsWellFormed o after e w h = elim (Bool-cases (is_refused o e)) [
  | inl refused ↦ absurd (ground arith)
  | inr taken ↦
      let written : after ≡ record { entries = map_insert e.event_id e o.entries } =
        ground (arith, taken) in
      let fresh : IsConsistent e =
        fresh-Agrees e.status e.attempts e.next_retry_ms e.last_error_code (ground (arith, taken))
          (ground (arith, taken)) (ground (arith, taken)) (ground (arith, taken)) in
      let room : length o.entries < max_plan_items = ground (arith, taken) in
      subst IsWellFormed (sym written) (record {
        ascending = map_insert-IsAscending e.event_id e o.entries w.ascending;
        consistent = map_insert-AllValues IsConsistent e.event_id e o.entries fresh w.consistent;
        bounded = omega (arith, length-map_insert e.event_id e o.entries);
      })
]

-- The outbox with an entry in the place of the one at an identifier.
replaced-IsWellFormed :
    (o : SyncOutbox) (event_id : Bytes) (old new : OutboxEntry)
    → IsWellFormed o
    → get event_id o.entries ≡ some old
    → IsConsistent new
    → IsWellFormed (record { entries = map_insert event_id new o.entries })
replaced-IsWellFormed o event_id old new w h k = record {
  ascending = map_insert-IsAscending event_id new o.entries w.ascending;
  consistent = map_insert-AllValues IsConsistent event_id new o.entries k w.consistent;
  bounded = omega (arith, length-map_insert_present event_id new old o.entries w.ascending h);
}

-- What a retry that succeeds has done.
pub record_retry_inv :
    (o after : SyncOutbox) (event_id : Bytes) (at_ms : ℕ) (code : Bytes)
    → record_retry o event_id at_ms code ≡ ok after
    → (e : OutboxEntry) × (get event_id o.entries ≡ some e)
      × (is_open e.status ≡ true)
      × (after ≡ record { entries = map_insert event_id (retried e at_ms code) o.entries })
unfolding record_retry
record_retry_inv o after event_id at_ms code h = elim (Bool-cases (is_code code)) [
  | inr other ↦ absurd (ground arith)
  | inl coded ↦ elim (Option-cases (get event_id o.entries)) [
    | inl missing ↦ absurd (ground arith)
    | inr (e, found) ↦ elim (Bool-cases (is_open e.status)) [
      | inr closed ↦ absurd (ground arith)
      | inl ready ↦
          let written : record_retry o event_id at_ms code
              ≡ ok (record { entries = map_insert event_id (retried e at_ms code) o.entries }) =
            rw (coded, found, ready) refl in
          (e, found, ready, ok_injective (sym h ∙ written))
    ]
  ]
]

-- The changes of `mark_delivered` to its entry.
abbrev pub done : OutboxEntry → OutboxEntry
done e = record e { status = delivered; next_retry_ms = none; last_error_code = none }

-- What a delivery that succeeds has done.
pub mark_delivered_inv :
    (o after : SyncOutbox) (event_id : Bytes)
    → mark_delivered o event_id ≡ ok after
    → (e : OutboxEntry) × (get event_id o.entries ≡ some e)
      × (is_open e.status ≡ true)
      × (after ≡ record { entries = map_insert event_id (done e) o.entries })
unfolding mark_delivered
mark_delivered_inv o after event_id h = elim (Option-cases (get event_id o.entries)) [
  | inl missing ↦ absurd (ground arith)
  | inr (e, found) ↦ elim (Bool-cases (is_open e.status)) [
    | inr closed ↦ absurd (ground arith)
    | inl ready ↦
        let written : mark_delivered o event_id
            ≡ ok (record { entries = map_insert event_id (done e) o.entries }) =
          rw (found, ready) refl in
        (e, found, ready, ok_injective (sym h ∙ written))
  ]
]

done-IsConsistent :
    (e : OutboxEntry) → is_open e.status ≡ true → IsConsistent e → IsConsistent (done e)
unfolding IsConsistent
done-IsConsistent e h k =
    (open_attempts e.status e.attempts e.next_retry_ms e.last_error_code h k, refl, refl)

-- Every operation that succeeds keeps the outbox ascending in the identifiers, within its bound,
-- and each entry's attempts, retry time and error code those that go with its status.
pub perform-IsWellFormed :
    (o after : SyncOutbox) (operation : Operation)
    → IsWellFormed o
    → perform o operation ≡ ok after
    → IsWellFormed after
unfolding perform
perform-IsWellFormed o after (enqueuing e) w h = enqueue-IsWellFormed o after e w h
perform-IsWellFormed o after (retrying event_id at_ms code) w h =
    let (e, found, ready, written) = record_retry_inv o after event_id at_ms code h in
    subst IsWellFormed (sym written) (
      replaced-IsWellFormed o event_id e (retried e at_ms code) w found (
        retried-IsConsistent e at_ms code ready
          (get-AllValues IsConsistent event_id o.entries e w.consistent found)))
perform-IsWellFormed o after (delivering event_id) w h =
    let (e, found, ready, written) = mark_delivered_inv o after event_id h in
    subst IsWellFormed (sym written) (
      replaced-IsWellFormed o event_id e (done e) w found (
        done-IsConsistent e ready
          (get-AllValues IsConsistent event_id o.entries e w.consistent found)))

pub default-IsWellFormed : IsWellFormed default
default-IsWellFormed = record { ascending = tt; consistent = tt; bounded = omega arith }
