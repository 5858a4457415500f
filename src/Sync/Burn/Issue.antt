-- ===== src/Sync/Burn/Issue.antt =====
-- Receipts that a device issues, against the session that accepts them.
use vbuff.Base.{
  ℕ, ◌≡◌, ◌∙◌, refl, sym, ap, inl, inr, true, arith, same, same_iff, ◌==◌, ==_iff, Bool-cases, some,
  List, Bytes, bytes_ord, replicate,
}
use vbuff.Base.Sets.{member}
use vbuff.Base.Maps.{get}
use vbuff.Sync.Error.{Result-cases, ok, ok_injective}
use vbuff.Sync.Validation.{is_valid_identifier}
use vbuff.Sync.Chain.{Crypto}
use vbuff.Sync.Chain.Append.{Verifies}
use vbuff.Sync.Burn.{
  WipeReceipt, wipe_receipt_schema, max_device_id_bytes, receipt_payload, verify_wipe_receipt,
  issue_wipe_receipt, BurnSession, wiping, matches_session, wiped, accept_receipt,
}

-- The receipt of these fields with this signature.
abbrev receipt_of : Bytes → Bytes → ℕ → ℕ → Bytes → WipeReceipt
receipt_of device_id item_hash epoch applied_at_ms signature = record {
  schema = wipe_receipt_schema;
  device_id = device_id;
  item_hash = item_hash;
  epoch = epoch;
  applied_at_ms = applied_at_ms;
  signature = signature;
}

issue_wipe_receipt_inv :
    (c : Crypto) (device_id item_hash : Bytes) (epoch applied_at_ms : ℕ) (key : Bytes)
    (r : WipeReceipt)
    → issue_wipe_receipt c device_id item_hash epoch applied_at_ms key ≡ ok r
    → (payload : Bytes) × (receipt_payload r ≡ ok payload)
      × (r ≡ receipt_of device_id item_hash epoch applied_at_ms (c.sign key payload))
unfolding issue_wipe_receipt receipt_payload
issue_wipe_receipt_inv c device_id item_hash epoch applied_at_ms key r h =
    elim (Bool-cases (is_valid_identifier device_id max_device_id_bytes)) [
      | inr bad ↦ absurd (ground arith)
      | inl good ↦
          elim (Result-cases (
            receipt_payload
              (receipt_of device_id item_hash epoch applied_at_ms (replicate 64 0)))) [
                | inl (_, long) ↦ absurd (ground arith)
                | inr (payload, built) ↦
                    let made : issue_wipe_receipt c device_id item_hash epoch applied_at_ms key
                        ≡ ok (
                            receipt_of device_id item_hash epoch applied_at_ms
                              (c.sign key payload)) =
                      rw (good, built) refl in
                    let e : r
                        ≡ receipt_of device_id item_hash epoch applied_at_ms (c.sign key payload) =
                      ok_injective (sym h ∙ made) in
                    (payload, ap receipt_payload e ∙ built, e)
              ]
    ]

-- A receipt that an expected device issues for the item and epoch of a session that is being wiped
-- is accepted, with the wipe of that device recorded. The session has to know the device's key, and
-- the signatures of a key have to verify under its public half.
pub accept_receipt-issue :
    (c : Crypto) (s : BurnSession) (device_id : Bytes) (applied_at_ms : ℕ) (key : Bytes)
    (keys : List (Bytes × Bytes)) (r : WipeReceipt)
    → Verifies c
    → s.state ≡ wiping
    → member device_id s.expected_devices ≡ true
    → get device_id keys ≡ some (c.verifying_key key)
    → issue_wipe_receipt c device_id s.item_hash s.epoch applied_at_ms key ≡ ok r
    → accept_receipt c s r keys ≡ ok (wiped s device_id)
unfolding accept_receipt matches_session verify_wipe_receipt
accept_receipt-issue c s device_id applied_at_ms key keys r laws start expected known h =
    let (payload, built, e) =
      issue_wipe_receipt_inv c device_id s.item_hash s.epoch applied_at_ms key r h in
    let named : r.device_id ≡ device_id = ap (λ q. q.device_id) e in
    let schema : r.schema ≡ 2 = ap (λ q. q.schema) e in
    let signature : r.signature ≡ c.sign key payload = ap (λ q. q.signature) e in
    let wipes : same r.item_hash s.item_hash ≡ true =
      (same_iff r.item_hash s.item_hash).1 (ap (λ q. q.item_hash) e) in
    let in_epoch : (r.epoch == s.epoch) ≡ true = (==_iff r.epoch s.epoch).1 (ap (λ q. q.epoch) e) in
    let member_named : member r.device_id s.expected_devices ≡ true =
      ap (λ q. member q s.expected_devices) named ∙ expected in
    let fits : matches_session s r ≡ true = rw (start, wipes, in_epoch, member_named) refl in
    let verified : verify_wipe_receipt c r (c.verifying_key key) ≡ ok tt =
      rw (built, schema, signature, laws.signatures key payload) refl in
    rw (fits, ap (λ q. get q keys) named ∙ known, verified) (ap (λ q. ok (wiped s q)) named)
