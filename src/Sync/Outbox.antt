-- ===== src/Sync/Outbox.antt =====
-- `SyncOutbox` of crates/vbuff-sync/src/device_experience/outbox.rs: events that wait for their
-- delivery to a device. Identifiers, hashes and error codes are lists of bytes.
pub mod Entries
pub mod Retries
mod Examples
use vbuff.Base.{
  ℕ, Bool, true, false, not, ◌&&◌, ◌||◌, ◌==◌, ltb, leb, if◌then◌else◌, Option, none, some, List,
  [], ◌∷◌, Bytes, bytes_ord, length, saturating_add, u8_max,
}
use vbuff.Base.Maps.{get, map_insert}
use vbuff.Sync.Validation.{all, all_zero, is_alphanumeric}
use vbuff.Sync.Error.{Result, ok, err, invalid, ok_or, fail_if, ◌>>=◌, ◌>>◌}

pub data OutboxStatus : Type 0 where
  pending waiting_retry delivered failed : OutboxStatus

pub record OutboxEntry : Type 0 where
  pub event_id : Bytes
  pub item_hash : Bytes
  pub target_device_hash : Bytes
  pub attempts : ℕ
  pub status : OutboxStatus
  pub next_retry_ms : Option ℕ
  pub last_error_code : Option Bytes

pub record SyncOutbox : Type 0 where
  pub entries : List (Bytes × OutboxEntry)

abbrev pub default : SyncOutbox
default = record { entries = [] }

abbrev pub max_plan_items : ℕ
max_plan_items = 10_000

abbrev pub is_some : {A : Type 0} → Option A → Bool
is_some none = false
is_some (some a) = true

abbrev pub is_pending : OutboxStatus → Bool
is_pending pending = true
is_pending _ = false

-- Whether the status is one that a retry or a delivery starts from.
abbrev pub is_open : OutboxStatus → Bool
is_open pending = true
is_open waiting_retry = true
is_open _ = false

-- The test of `enqueue`.
unfoldable pub is_refused : SyncOutbox → OutboxEntry → Bool
unfolding all_zero
is_refused o e =
    all_zero e.event_id
    || all_zero e.item_hash
    || all_zero e.target_device_hash
    || not (e.attempts == 0)
    || not (is_pending e.status)
    || is_some e.next_retry_ms
    || is_some e.last_error_code
    || leb max_plan_items (length o.entries)
    || is_some (get e.event_id o.entries)

unfoldable pub enqueue : SyncOutbox → OutboxEntry → Result SyncOutbox
unfolding is_refused
enqueue o e =
    if is_refused o e
    then err (invalid "invalid outbox entry")
    else ok (record { entries = map_insert e.event_id e o.entries })

-- `byte.is_ascii_alphanumeric() || byte == b'_'`.
abbrev is_code_byte : ℕ → Bool
is_code_byte b = is_alphanumeric b || b == b'_'

unfoldable pub is_code : Bytes → Bool
is_code code = not (length code == 0) && not (ltb 64 (length code)) && all is_code_byte code

-- The changes of `record_retry` to its entry.
unfoldable pub retried : OutboxEntry → ℕ → Bytes → OutboxEntry
retried e at_ms code =
    let attempts = saturating_add u8_max e.attempts 1 in
    if leb 8 attempts
    then record e {
      attempts = attempts;
      status = failed;
      next_retry_ms = none;
      last_error_code = some code;
    }
    else record e {
      attempts = attempts;
      status = waiting_retry;
      next_retry_ms = some at_ms;
      last_error_code = some code;
    }

unfoldable pub record_retry : SyncOutbox → Bytes → ℕ → Bytes → Result SyncOutbox
unfolding is_code retried
record_retry o event_id at_ms code = do
  fail_if (not (is_code code)) (invalid "invalid outbox error code")
  e ← ok_or (get event_id o.entries) (invalid "outbox event not found")
  fail_if (not (is_open e.status)) (invalid "outbox event cannot be retried")
  ok (record { entries = map_insert event_id (retried e at_ms code) o.entries })

unfoldable pub mark_delivered : SyncOutbox → Bytes → Result SyncOutbox
mark_delivered o event_id = do
  e ← ok_or (get event_id o.entries) (invalid "outbox event not found")
  fail_if (not (is_open e.status)) (invalid "outbox event cannot be delivered")
  ok (record {
    entries =
        map_insert event_id
          (record e { status = delivered; next_retry_ms = none; last_error_code = none }) o.entries;
  })
