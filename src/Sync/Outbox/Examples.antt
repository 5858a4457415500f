-- ===== src/Sync/Outbox/Examples.antt =====
-- Concrete runs of the outbox.
use vbuff.Base.{
  ℕ, ◌+◌, ◌≡◌, refl, none, some, List, [], ◌∷◌, arith, Bytes, ltb, bytes_ord, cmp_bytes, replicate,
}
use vbuff.Base.Maps.{get, map_insert}
use vbuff.Sync.Error.{ok}
use vbuff.Sync.Validation.{all_zero}
use vbuff.Sync.Outbox.{
  pending, waiting_retry, delivered, OutboxEntry, SyncOutbox, default, enqueue, is_refused, is_open,
  is_code,
}
use vbuff.Sync.Outbox.Entries.{
  IsWellFormed, enqueuing, perform, perform-IsWellFormed, default-IsWellFormed,
}
use vbuff.Sync.Outbox.Retries.{retry_all, retry_all-counts}

abbrev this_event : Bytes
this_event = replicate 16 1

abbrev other_event : Bytes
other_event = replicate 16 2

abbrev new_entry : OutboxEntry
new_entry = record {
  event_id = this_event;
  item_hash = replicate 32 3;
  target_device_hash = replicate 32 4;
  attempts = 0;
  status = pending;
  next_retry_ms = none;
  last_error_code = none;
}

abbrev one_event : SyncOutbox
one_event = record { entries = (this_event, new_entry) ∷ [] }

abbrev timeout : Bytes
timeout = b't' ∷ b'_' ∷ b'1' ∷ []

perform-IsWellFormed_example : IsWellFormed one_event
unfolding perform enqueue is_refused all_zero get map_insert
perform-IsWellFormed_example =
    perform-IsWellFormed default one_event (enqueuing new_entry) default-IsWellFormed refl

abbrev two_steps : List (ℕ × Bytes)
two_steps = (1_000, timeout) ∷ (2_000, timeout) ∷ []

retry_all-counts_example :
    (after : SyncOutbox) × (last : OutboxEntry) × (retry_all one_event this_event two_steps
      ≡ ok after)
    × (get this_event after.entries ≡ some last)
    × (last.attempts ≡ 0 + 2)
    × (is_open last.status ≡ ltb last.attempts 8)
unfolding get is_code cmp_bytes
retry_all-counts_example =
    retry_all-counts one_event this_event new_entry two_steps refl refl (omega arith) (omega arith)
      (refl, (refl, tt))

abbrev waiting_entry : OutboxEntry
waiting_entry = record new_entry {
  attempts = 1;
  status = waiting_retry;
  next_retry_ms = some 1_000;
  last_error_code = some timeout;
}

abbrev delivered_entry : OutboxEntry
delivered_entry = record new_entry { status = delivered }

abbrev one_delivered : SyncOutbox
one_delivered = record { entries = (this_event, delivered_entry) ∷ [] }
