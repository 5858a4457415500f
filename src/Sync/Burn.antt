-- ===== src/Sync/Burn.antt =====
-- `BurnSession` of crates/vbuff-sync/src/burn.rs, and the wipe receipts of
-- crates/vbuff-sync/src/ledger.rs that it accepts. A verifying key is its bytes.
pub mod Wipe
pub mod Issue
mod Examples
use vbuff.Base.{
  replicate, ℕ, Bool, true, false, not, ◌&&◌, ◌||◌, ◌==◌, if◌then◌else◌, same, Option, none, some,
  List, [], ◌∷◌, Bytes, bytes_ord,
}
use vbuff.Base.Sets.{member, set_insert}
use vbuff.Base.Maps.{get}
use vbuff.Sync.Validation.{is_valid_identifier}
use vbuff.Sync.Error.{Result, ok, err, invalid, crypto, ok_or, fail_if, ◌>>=◌, ◌>>◌}
use vbuff.Sync.Preimage.{Preimage, var, fixed, u64_be, finish}
use vbuff.Sync.Preimage
use vbuff.Sync.Chain.{Crypto}

pub record WipeReceipt : Type 0 where
  pub schema : ℕ
  pub device_id : Bytes
  pub item_hash : Bytes
  pub epoch : ℕ
  pub applied_at_ms : ℕ
  pub signature : Bytes

abbrev pub wipe_receipt_schema : ℕ
wipe_receipt_schema = 2

abbrev pub wipe_receipt_domain : Bytes
wipe_receipt_domain =
    b'v' ∷ b'b' ∷ b'u' ∷ b'f' ∷ b'f' ∷ b'-' ∷ b'w' ∷ b'i' ∷ b'p' ∷ b'e' ∷ b'-' ∷ b'r' ∷ b'e' ∷ b'c'
    ∷ b'e' ∷ b'i' ∷ b'p' ∷ b't' ∷ b'-' ∷ b'v' ∷ b'1' ∷ []

unfoldable pub receipt_payload : WipeReceipt → Result Bytes
receipt_payload r = finish (
    u64_be
      (u64_be
        (fixed (var (u64_be (Preimage.new wipe_receipt_domain) r.schema) r.device_id) r.item_hash)
        r.epoch)
      r.applied_at_ms)

unfoldable pub verify_wipe_receipt : Crypto → WipeReceipt → Bytes → Result (Unit {0})
unfolding receipt_payload
verify_wipe_receipt crypto_ops r key = do
  fail_if (not (r.schema == wipe_receipt_schema)) (invalid "wipe receipt schema is unsupported")
  payload ← receipt_payload r
  fail_if (not (crypto_ops.verify key payload r.signature)) crypto

abbrev pub max_device_id_bytes : ℕ
max_device_id_bytes = 128

-- A signing key is its secret bytes.
unfoldable pub issue_wipe_receipt : Crypto → Bytes → Bytes → ℕ → ℕ → Bytes → Result WipeReceipt
unfolding receipt_payload
issue_wipe_receipt crypto_ops device_id item_hash epoch applied_at_ms signing_key =
    let receipt : WipeReceipt = record {
      schema = wipe_receipt_schema;
      device_id = device_id;
      item_hash = item_hash;
      epoch = epoch;
      applied_at_ms = applied_at_ms;
      signature = replicate 64 0;
    } in
    do
      fail_if (not (is_valid_identifier device_id max_device_id_bytes))
          (invalid "wipe receipt device identifier is invalid")
      payload ← receipt_payload receipt
      ok (record receipt { signature = crypto_ops.sign signing_key payload })

pub data BurnState : Type 0 where
  armed : BurnState
  delivered pasted : Bytes → BurnState
  wiping complete : BurnState

pub record BurnSession : Type 0 where
  pub item_hash : Bytes
  pub epoch : ℕ
  pub expected_devices : List Bytes
  pub wiped_devices : List Bytes
  pub state : BurnState

-- Whether one of the devices has no name.
abbrev any_empty : List Bytes → Bool
any_empty [] = false
any_empty ([] ∷ ds) = true
any_empty ((b ∷ d) ∷ ds) = any_empty ds

abbrev is_empty : List Bytes → Bool
is_empty [] = true
is_empty (d ∷ ds) = false

unfoldable pub new : Bytes → ℕ → List Bytes → Result BurnSession
new item_hash epoch expected_devices =
    if epoch == 0 || is_empty expected_devices || any_empty expected_devices
    then err (invalid "invalid burn session")
    else ok (record {
      item_hash = item_hash;
      epoch = epoch;
      expected_devices = expected_devices;
      wiped_devices = [];
      state = armed;
    })

abbrev is_armed : BurnState → Bool
is_armed armed = true
is_armed _ = false

unfoldable pub deliver : BurnSession → Bytes → Result BurnSession
deliver s target_device = do
  fail_if (not (is_armed s.state)) (invalid "burn clip was already delivered")
  fail_if (not (member target_device s.expected_devices)) (invalid "unexpected burn target")
  ok (record s { state = delivered target_device })

abbrev pasted_from : BurnSession → BurnState → Result BurnSession
pasted_from s (delivered target_device) = ok (record s { state = pasted target_device })
pasted_from s _ = err (invalid "burn clip cannot be pasted in this state")

unfoldable pub pasted_once : BurnSession → Result BurnSession
pasted_once s = pasted_from s s.state

abbrev is_pasted : BurnState → Bool
is_pasted (pasted target_device) = true
is_pasted _ = false

unfoldable pub begin_wipe : BurnSession → Result BurnSession
begin_wipe s = do
  fail_if (not (is_pasted s.state)) (invalid "burn clip was not pasted")
  ok (record s { state = wiping })

abbrev pub is_wiping : BurnState → Bool
is_wiping wiping = true
is_wiping _ = false

-- Equality of two sets of devices.
abbrev pub same_devices : List Bytes → List Bytes → Bool
same_devices [] [] = true
same_devices [] (e ∷ es) = false
same_devices (d ∷ ds) [] = false
same_devices (d ∷ ds) (e ∷ es) = same d e && same_devices ds es

-- The first test of `accept_receipt`.
unfoldable pub matches_session : BurnSession → WipeReceipt → Bool
matches_session s r =
    is_wiping s.state
    && same r.item_hash s.item_hash
    && r.epoch == s.epoch
    && member r.device_id s.expected_devices

-- The end of `accept_receipt`, once the receipt is verified.
unfoldable pub wiped : BurnSession → Bytes → BurnSession × Bool
wiped s device_id =
    let wiped_devices = set_insert device_id s.wiped_devices in
    if same_devices wiped_devices s.expected_devices
    then (record s { wiped_devices = wiped_devices; state = complete }, true)
    else (record s { wiped_devices = wiped_devices }, false)

unfoldable pub accept_receipt :
    Crypto → BurnSession → WipeReceipt → List (Bytes × Bytes) → Result (BurnSession × Bool)
unfolding matches_session wiped verify_wipe_receipt
accept_receipt crypto_ops s r keys = do
  fail_if (not (matches_session s r)) (invalid "wipe receipt does not match burn session")
  key ← ok_or (get r.device_id keys) (invalid "unknown wipe signer")
  _ ← verify_wipe_receipt crypto_ops r key
  ok (wiped s r.device_id)
