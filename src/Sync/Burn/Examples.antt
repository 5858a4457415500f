-- ===== src/Sync/Burn/Examples.antt =====
-- A concrete wipe.
use vbuff.Base.{
  ◌≡◌, same_iff, true, ◌∷◌, ◌++◌, [], List, refl, Bytes, same, bytes_ord, cmp_bytes, replicate,
}
use vbuff.Base.Sets.{member, set_insert}
use vbuff.Base.Maps.{get}
use vbuff.Sync.Preimage.{new, fixed, var, u64_be, be_bytes, finish}
use vbuff.Sync.Chain.{Crypto}
use vbuff.Sync.Burn.{
  WipeReceipt, wipe_receipt_domain, receipt_payload, verify_wipe_receipt, BurnSession, wiping,
  complete, matches_session, wiped, accept_receipt,
}
use vbuff.Sync.Error.{ok}
use vbuff.Sync.Validation.{is_valid_identifier, is_valid_identifier_with_extra}
use vbuff.Sync.Chain.Append.{Verifies}
use vbuff.Sync.Burn.{issue_wipe_receipt}
use vbuff.Sync.Burn.Issue.{accept_receipt-issue}
use vbuff.Sync.Burn.Wipe.{HasReceipt, accept_all, complete-receipts}

-- A signature that is its key and message.
abbrev open_crypto : Crypto
open_crypto = record {
  blake3 = λ m. m;
  verifying_key = λ k. k;
  is_key = λ k. true;
  sign = λ k m. k ++ m;
  verify = λ k m s. same s (k ++ m);
}

abbrev phone : Bytes
phone = b'p' ∷ []

abbrev secret_hash : Bytes
secret_hash = replicate 32 3

abbrev keys : List (Bytes × Bytes)
keys = (phone, 9 ∷ []) ∷ []

abbrev payload : Bytes
payload =
    wipe_receipt_domain
    ++ 0
      ∷ (replicate 7 0
          ++ 2
            ∷ 0
            ∷ 0
            ∷ 0
            ∷ 1
            ∷ b'p'
            ∷ (secret_hash ++ replicate 7 0 ++ 4 ∷ (replicate 7 0 ++ 100 ∷ [])))

abbrev receipt : WipeReceipt
receipt = record {
  schema = 2;
  device_id = phone;
  item_hash = secret_hash;
  epoch = 4;
  applied_at_ms = 100;
  signature = 9 ∷ payload;
}

abbrev started : BurnSession
started = record {
  item_hash = secret_hash;
  epoch = 4;
  expected_devices = phone ∷ [];
  wiped_devices = [];
  state = wiping;
}

abbrev finished : BurnSession
finished = record started { wiped_devices = phone ∷ []; state = complete }

complete-receipts_example : HasReceipt open_crypto keys started phone (receipt ∷ [])
unfolding accept_all accept_receipt verify_wipe_receipt receipt_payload matches_session wiped new
    fixed var u64_be be_bytes finish get member set_insert cmp_bytes
complete-receipts_example =
    complete-receipts open_crypto keys started finished (receipt ∷ []) phone refl refl refl refl
      refl

open_crypto-Verifies : Verifies open_crypto
open_crypto-Verifies = record {
  keys = λ k. refl;
  signatures = λ k m. (same_iff (k ++ m) (k ++ m)).1 refl;
}

accept_receipt-issue_example :
    accept_receipt open_crypto started receipt keys ≡ ok (wiped started phone)
unfolding issue_wipe_receipt is_valid_identifier is_valid_identifier_with_extra receipt_payload new
    fixed var u64_be be_bytes finish get member cmp_bytes
accept_receipt-issue_example =
    accept_receipt-issue open_crypto started phone 100 (9 ∷ []) keys receipt open_crypto-Verifies
      refl refl refl refl
