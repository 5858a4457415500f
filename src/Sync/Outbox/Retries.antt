-- ===== src/Sync/Outbox/Retries.antt =====
-- Retries of one event, up to the attempt that gives up.
use vbuff.Base.{
  ℕ, suc, ◌+◌, ◌≤◌, ◌<◌, ◌≡◌, ◌≢◌, ◌∙◌, refl, sym, ap, inl, inr, Bool-cases, true, false, some,
  List, [], ◌∷◌, arith, Bytes, bytes_ord, length, ltb, leb, same, same_iff, saturating_add, u8_max,
}
use vbuff.Base.Maps.{get, map_insert, get-map_insert}
use vbuff.Sync.Error.{ok_injective, Result, Result-cases, ok, ◌>>=◌}
use vbuff.Sync.Outbox.{
  OutboxEntry, SyncOutbox, is_code, is_open, retried, record_retry, mark_delivered,
}
use vbuff.Sync.Outbox.Entries.{record_retry_inv, mark_delivered_inv}

-- Retries at these times with these error codes, one after the other.
unfoldable pub retry_all : SyncOutbox → Bytes → List (ℕ × Bytes) → Result SyncOutbox
retry_all o event_id [] = ok o
retry_all o event_id ((at_ms, code) ∷ steps) =
    record_retry o event_id at_ms code >>= (λ next. retry_all next event_id steps)

abbrev pub AllCodes : List (ℕ × Bytes) → Type 0
AllCodes [] = Unit {0}
AllCodes ((at_ms, code) ∷ steps) = (is_code code ≡ true) × AllCodes steps

retried-attempts :
    (e : OutboxEntry) (at_ms : ℕ) (code : Bytes)
    → e.attempts < 8
    → ((retried e at_ms code).attempts ≡ suc e.attempts)
      × (is_open (retried e at_ms code).status ≡ ltb (suc e.attempts) 8)
unfolding retried
retried-attempts e at_ms code h =
    let one : saturating_add u8_max e.attempts 1 ≡ suc e.attempts = omega arith in
    elim (Bool-cases (leb 8 (saturating_add u8_max e.attempts 1))) [
      | inl last ↦ rw (last, retried) (one, ground (arith, one, last))
      | inr more ↦ rw (more, retried) (one, ground (arith, one, more))
    ]

get-inserted :
    (o : SyncOutbox) (event_id : Bytes) (e : OutboxEntry)
    → get event_id (map_insert event_id e o.entries) ≡ some e
get-inserted o event_id e =
    get-map_insert event_id event_id e o.entries ∙ rw ((same_iff event_id event_id).1 refl) refl

get-other :
    (o : SyncOutbox) (event_id z : Bytes) (e : OutboxEntry)
    → z ≢ event_id
    → get z (map_insert event_id e o.entries) ≡ get z o.entries
get-other o event_id z e n = elim (Bool-cases (same z event_id)) [
  | inl s ↦ absurd (n ((same_iff z event_id).0 s))
  | inr s ↦ get-map_insert z event_id e o.entries ∙ rw s refl
]

record_retry_open :
    (o : SyncOutbox) (event_id : Bytes) (e : OutboxEntry) (at_ms : ℕ) (code : Bytes)
    → get event_id o.entries ≡ some e
    → is_open e.status ≡ true
    → is_code code ≡ true
    → record_retry o event_id at_ms code
      ≡ ok (record { entries = map_insert event_id (retried e at_ms code) o.entries })
unfolding record_retry
record_retry_open o event_id e at_ms code h k c = rw (c, h, k) refl

-- Retries of an open event that reach at most its eighth attempt all succeed: they count their
-- attempts and leave the event open exactly while it has fewer than eight. The error codes have to
-- be well formed.
pub retry_all-counts :
    (o : SyncOutbox) (event_id : Bytes) (e : OutboxEntry) (steps : List (ℕ × Bytes))
    → get event_id o.entries ≡ some e
    → is_open e.status ≡ true
    → e.attempts < 8
    → e.attempts + length steps ≤ 8
    → AllCodes steps
    → (after : SyncOutbox) × (last : OutboxEntry) × (retry_all o event_id steps ≡ ok after)
      × (get event_id after.entries ≡ some last)
      × (last.attempts ≡ e.attempts + length steps)
      × (is_open last.status ≡ ltb last.attempts 8)
unfolding retry_all
retry_all-counts o event_id e [] h k few room c = (o, e, refl, h, omega arith, k ∙ ground arith)
retry_all-counts o event_id e ((at_ms, code) ∷ []) h k few room c =
    let (count, still) = retried-attempts e at_ms code few in
    let step = record_retry_open o event_id e at_ms code h k c.0 in
    (
      record { entries = map_insert event_id (retried e at_ms code) o.entries },
      retried e at_ms code,
      rw step refl,
      get-inserted o event_id (retried e at_ms code),
      omega (arith, count),
      still ∙ ap (λ n. ltb n 8) (sym count),
    )
retry_all-counts o event_id e ((at_ms, code) ∷ (later, again) ∷ steps) h k few room c =
    let (count, still) = retried-attempts e at_ms code few in
    let step = record_retry_open o event_id e at_ms code h k c.0 in
    let next : SyncOutbox = record {
      entries = map_insert event_id (retried e at_ms code) o.entries;
    } in
    let (after, last, run, found, counted, closes) =
      retry_all-counts next event_id (retried e at_ms code) ((later, again) ∷ steps)
        (get-inserted o event_id (retried e at_ms code)) (still ∙ ground arith)
        (omega (arith, count)) (omega (arith, count)) c.1 in
    (after, last, rw step run, found, omega (arith, counted, count), closes)

-- Retries of one event, as many as succeed, leave every other event as it was.
pub retry_all-others :
    (o after : SyncOutbox) (event_id z : Bytes) (steps : List (ℕ × Bytes))
    → z ≢ event_id
    → retry_all o event_id steps ≡ ok after
    → get z after.entries ≡ get z o.entries
unfolding retry_all
retry_all-others o after event_id z [] n h = ap (λ q. get z q.entries) (sym (ok_injective h))
retry_all-others o after event_id z ((at_ms, code) ∷ steps) n h =
    elim (Result-cases (record_retry o event_id at_ms code)) [
      | inl (_, refused) ↦ absurd (ground arith)
      | inr (next, taken) ↦
          let (e, found, ready, written) = record_retry_inv o next event_id at_ms code taken in
          let others : get z next.entries ≡ get z o.entries =
            ap (λ q. get z q.entries) written ∙ get-other o event_id z (retried e at_ms code) n in
          retry_all-others next after event_id z steps n (ground (arith, taken)) ∙ others
    ]

-- An event that is delivered or has failed is final: it is neither retried nor delivered.
pub closed_is_final :
    (o after : SyncOutbox) (event_id : Bytes) (e : OutboxEntry) (at_ms : ℕ) (code : Bytes)
    → get event_id o.entries ≡ some e
    → is_open e.status ≡ false
    → (record_retry o event_id at_ms code ≢ ok after) × (mark_delivered o event_id ≢ ok after)
closed_is_final o after event_id e at_ms code h k = (
  λ done.
      (let (_, found, ready, _) = record_retry_inv o after event_id at_ms code done in
        absurd (ground (arith, h, found, ready, k))),
  λ done.
      (let (_, found, ready, _) = mark_delivered_inv o after event_id done in
        absurd (ground (arith, h, found, ready, k))),
)
