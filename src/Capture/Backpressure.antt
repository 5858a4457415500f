-- ===== src/Capture/Backpressure.antt =====
-- `ByteBackpressure` of crates/vbuff-core/src/reliability.rs. A `usize` has 64 bits.
pub mod Accounting
use vbuff.Base.{
  ℕ, ◌+◌, ◌-◌, ◌/◌, min, max, Bool, true, false, ◌||◌, not, Option, none, some, if◌then◌else◌, ltb,
  leb, ◌==◌, u64_max, saturating_add,
}

pub data Admission : Type 0 where
  full shed : Admission
  preview : ℕ → Admission

pub record ByteBackpressure : Type 0 where
  pub soft_bytes : ℕ
  pub hard_bytes : ℕ
  pub max_items : ℕ
  pub preview_bytes : ℕ
  pub queued_bytes : ℕ
  pub queued_items : ℕ

unfoldable pub new : ℕ → ℕ → ℕ → ℕ → ByteBackpressure
new soft_bytes hard_bytes max_items preview_bytes =
    let soft = max soft_bytes 1 in
    record {
      soft_bytes = soft;
      hard_bytes = max hard_bytes soft;
      max_items = max max_items 1;
      preview_bytes = max preview_bytes 1;
      queued_bytes = 0;
      queued_items = 0;
    }

-- The bytes that an admission accounts for.
unfoldable pub accounted : ℕ → Admission → ℕ
accounted payload_bytes full = payload_bytes
accounted payload_bytes (preview max_bytes) = max_bytes
accounted payload_bytes shed = 0

unfoldable pub admit : ByteBackpressure → ℕ → ByteBackpressure × Admission
unfolding accounted
admit b payload_bytes =
    if leb b.max_items b.queued_items
      || ltb b.hard_bytes (saturating_add u64_max b.queued_bytes payload_bytes)
    then (b, shed)
    else (let admission =
          if ltb b.soft_bytes (saturating_add u64_max b.queued_bytes payload_bytes)
          then preview (min b.preview_bytes payload_bytes)
          else full in
        (
          record b {
            queued_bytes =
                saturating_add u64_max b.queued_bytes (accounted payload_bytes admission);
            queued_items = saturating_add u64_max b.queued_items 1;
          },
          admission,
        ))

unfoldable pub release : ByteBackpressure → ℕ → ByteBackpressure
release b accounted_bytes = record b {
  queued_bytes = b.queued_bytes - accounted_bytes;
  queued_items = b.queued_items - 1;
}

unfoldable pub update_limits : ByteBackpressure → ℕ → ℕ → ℕ → ByteBackpressure × Bool
update_limits b soft_bytes hard_bytes preview_bytes =
    if not (b.queued_items == 0) then (b, false) else (
      record b {
        soft_bytes = max soft_bytes 1;
        hard_bytes = max hard_bytes (max soft_bytes 1);
        preview_bytes = max preview_bytes 1;
      },
      true,
    )
