-- ===== src/Sync/Burn/Wipe.antt =====
-- What a burn session that is complete has seen.
use vbuff.Base.{
  ==_iff, ◌≡◌, ◌⊎◌, ◌∙◌, subst, refl, sym, ap, inl, inr, Bool, true, arith, same, same_iff,
  Bool-cases, Option-cases, some, List, [], ◌∷◌, Bytes, bytes_ord,
}
use vbuff.Base.Sets.{member, set_insert, member-set_insert}
use vbuff.Base.Maps.{get}
use vbuff.Sync.Error.{Result, ok, ◌>>=◌, ok_injective, Result-cases}
use vbuff.Sync.Chain.{Crypto}
use vbuff.Sync.Burn.{
  WipeReceipt, verify_wipe_receipt, BurnSession, wiping, complete, is_wiping, same_devices,
  matches_session, wiped, accept_receipt,
}

-- A receipt of the session's wipe, signed by the device that it names.
pub record IsReceipt (c : Crypto) (keys : List (Bytes × Bytes)) (s : BurnSession) (device : Bytes)
    (r : WipeReceipt) : Type 0 where
  pub names : r.device_id ≡ device
  pub wipes : r.item_hash ≡ s.item_hash
  pub in_epoch : r.epoch ≡ s.epoch
  pub key : Bytes
  pub known : get device keys ≡ some key
  pub signed : verify_wipe_receipt c r key ≡ ok tt

-- One of the receipts is such a receipt.
abbrev pub HasReceipt :
    Crypto → List (Bytes × Bytes) → BurnSession → Bytes → List WipeReceipt → Type 0
HasReceipt c keys s device [] = ⊥
HasReceipt c keys s device (r ∷ rs) = IsReceipt c keys s device r ⊎ HasReceipt c keys s device rs

-- The receipts accepted one after the other.
unfoldable pub accept_all :
    Crypto → BurnSession → List WipeReceipt → List (Bytes × Bytes) → Result BurnSession
accept_all c s [] keys = ok s
accept_all c s (r ∷ rs) keys = accept_receipt c s r keys >>= (λ next. accept_all c next.0 rs keys)

same_devices_eq : (ds es : List Bytes) → same_devices ds es ≡ true → ds ≡ es
same_devices_eq [] [] h = refl
same_devices_eq [] (e ∷ es) h = absurd (ground arith)
same_devices_eq (d ∷ ds) [] h = absurd (ground arith)
same_devices_eq (d ∷ ds) (e ∷ es) h = ground (arith, same_iff d e, same_devices_eq ds es)

accept_receipt_inv :
    (c : Crypto) (s : BurnSession) (r : WipeReceipt) (keys : List (Bytes × Bytes))
    (next : BurnSession × Bool)
    → accept_receipt c s r keys ≡ ok next
    → IsReceipt c keys s r.device_id r × (next ≡ wiped s r.device_id) × (is_wiping s.state ≡ true)
unfolding accept_receipt matches_session
accept_receipt_inv c s r keys next h = elim (Bool-cases (matches_session s r)) [
  | inr other ↦ absurd (ground arith)
  | inl fits ↦ elim (Option-cases (get r.device_id keys)) [
    | inl missing ↦ absurd (ground arith)
    | inr (key, known) ↦ elim (Result-cases (verify_wipe_receipt c r key)) [
      | inl (_, forged) ↦ absurd (ground arith)
      | inr (tt, signed) ↦
          let written : accept_receipt c s r keys ≡ ok (wiped s r.device_id) =
            rw (fits, known, signed) refl in
          (
            record {
              names = refl;
              wipes = (same_iff r.item_hash s.item_hash).0 (ground (arith, fits));
              in_epoch = ground (arith, fits, ==_iff r.epoch s.epoch);
              key = key;
              known = known;
              signed = signed;
            },
            ok_injective (sym h ∙ written),
            ground (arith, fits),
          )
    ]
  ]
]

-- The fields of a session that a receipt does not change.
wiped-keeps :
    (s : BurnSession) (device : Bytes)
    → ((wiped s device).0.item_hash ≡ s.item_hash)
      × ((wiped s device).0.epoch ≡ s.epoch)
      × ((wiped s device).0.expected_devices ≡ s.expected_devices)
      × ((wiped s device).0.wiped_devices ≡ set_insert device s.wiped_devices)
unfolding wiped
wiped-keeps s device =
    elim (Bool-cases (same_devices (set_insert device s.wiped_devices) s.expected_devices)) [
      | inl e ↦ rw (e, wiped) (refl, refl, refl, refl)
      | inr e ↦ rw (e, wiped) (refl, refl, refl, refl)
    ]

unfoldable IsFinished : BurnSession → Type 0
IsFinished s = s.state ≡ complete → s.wiped_devices ≡ s.expected_devices

wiped-IsFinished :
    (s : BurnSession) (device : Bytes) → is_wiping s.state ≡ true → IsFinished (wiped s device).0
unfolding wiped IsFinished
wiped-IsFinished s device h =
    elim (Bool-cases (same_devices (set_insert device s.wiped_devices) s.expected_devices)) [
      | inl e ↦
          rw (e, wiped)
            (λ k. same_devices_eq (set_insert device s.wiped_devices) s.expected_devices e)
      | inr e ↦ rw (e, wiped) (λ k. absurd (ground (arith, h, k)))
    ]

HasReceipt-wiped :
    (c : Crypto) (keys : List (Bytes × Bytes)) (s : BurnSession) (device by : Bytes)
    (rs : List WipeReceipt)
    → HasReceipt c keys (wiped s by).0 device rs
    → HasReceipt c keys s device rs
HasReceipt-wiped c keys s device by [] h = h
HasReceipt-wiped c keys s device by (r ∷ rs) (inl h) =
    let (item, time, _, _) = wiped-keeps s by in
    inl (record {
      names = h.names;
      wipes = h.wipes ∙ item;
      in_epoch = h.in_epoch ∙ time;
      key = h.key;
      known = h.known;
      signed = h.signed;
    })
HasReceipt-wiped c keys s device by (r ∷ rs) (inr h) =
    inr (HasReceipt-wiped c keys s device by rs h)

accept_all-wiped :
    (c : Crypto) (keys : List (Bytes × Bytes)) (s after : BurnSession) (rs : List WipeReceipt)
    (device : Bytes)
    → IsFinished s
    → accept_all c s rs keys ≡ ok after
    → IsFinished after
      × (after.expected_devices ≡ s.expected_devices)
      × (member device after.wiped_devices ≡ true
          → (member device s.wiped_devices ≡ true) ⊎ HasReceipt c keys s device rs)
unfolding accept_all
accept_all-wiped c keys s after [] device f h =
    let e : s ≡ after = ok_injective h in
    (subst IsFinished e f, ap (λ q. q.expected_devices) (sym e), λ m. inl (ground (arith, e, m)))
accept_all-wiped c keys s after (r ∷ rs) device f h =
    elim (Result-cases (accept_receipt c s r keys)) [
      | inl (_, refused) ↦ absurd (ground arith)
      | inr (next, taken) ↦
          let (receipt, e, ready) = accept_receipt_inv c s r keys next taken in
          let rest : accept_all c (wiped s r.device_id).0 rs keys ≡ ok after =
            subst (λ q. accept_all c q.0 rs keys ≡ ok after) e (ground (arith, taken)) in
          let (item, time, expected, grown) = wiped-keeps s r.device_id in
          let (finished, same_expected, members) =
            accept_all-wiped c keys (wiped s r.device_id).0 after rs device
              (wiped-IsFinished s r.device_id ready) rest in
          (
            finished,
            same_expected ∙ expected,
            λ m. elim (members m) [
              | inr later ↦ inr (inr (HasReceipt-wiped c keys s device r.device_id rs later))
              | inl before ↦ elim (Bool-cases (same device r.device_id)) [
                | inl named ↦
                    let this : r.device_id ≡ device = sym ((same_iff device r.device_id).0 named) in
                    inr (inl (subst (λ q. IsReceipt c keys s q r) this receipt))
                | inr other ↦ inl (
                    ground (
                      arith,
                      before,
                      grown,
                      other,
                      member-set_insert device r.device_id s.wiped_devices,
                    ))
              ]
            ],
          )
    ]

-- A wipe that starts with no receipt and is complete after a run of accepted receipts has one from
-- every expected device: for the session's item and epoch, and verified with the key of that
-- device.
pub complete-receipts :
    (c : Crypto) (keys : List (Bytes × Bytes)) (s after : BurnSession) (rs : List WipeReceipt)
    (device : Bytes)
    → s.state ≡ wiping
    → s.wiped_devices ≡ []
    → accept_all c s rs keys ≡ ok after
    → after.state ≡ complete
    → member device s.expected_devices ≡ true
    → HasReceipt c keys s device rs
unfolding IsFinished member
complete-receipts c keys s after rs device start none_yet h done expected =
    let (finished, same_expected, members) =
      accept_all-wiped c keys s after rs device (λ k. absurd (ground (arith, start, k))) h in
    let is_member : member device after.wiped_devices ≡ true =
      ap (member device) (finished done ∙ same_expected) ∙ expected in
    elim (members is_member) [
      | inl before ↦ absurd (ground (arith, before, none_yet))
      | inr found ↦ found
    ]
