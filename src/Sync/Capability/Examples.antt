-- ===== src/Sync/Capability/Examples.antt =====
-- Concrete tokens, over codecs that keep their laws.
use vbuff.Base.{
  ℕ, suc, zero, ◌+◌, ◌-◌, ◌≡◌, ◌≢◌, refl, ap, arith, Option, none, some, List, [], ◌∷◌, ◌++◌, Bytes,
  bytes_ord, length,
}
use vbuff.Types.Mac.{hmac_proof, finish}
use vbuff.Sync.Error.{ok}
use vbuff.Sync.Capability.{
  CapabilityAction, CapabilityScope, capability_domain, CapabilityVerifier, TokenOps, push_one_item,
  token_proof, issue, read_token, default, verify_and_consume,
}
use vbuff.Sync.Capability.Spent.{Call, verifying, revoking}
use vbuff.Sync.Capability.OneShot.{run, verify_and_consume_once}
use vbuff.Sync.Capability.Tokens.{NoDot, AreCodecs, read_token-issue, verify_and_consume-issue}

abbrev shift : Bytes → Bytes
shift [] = []
shift (b ∷ bs) = (b + 47) ∷ shift bs

abbrev unshift : Bytes → Bytes
unshift [] = []
unshift (b ∷ bs) = (b - 47) ∷ unshift bs

shift-NoDot : (bytes : Bytes) → NoDot (shift bytes)
shift-NoDot [] = tt
shift-NoDot (b ∷ bs) = (omega arith, shift-NoDot bs)

unshift-shift : (bytes : Bytes) → unshift (shift bytes) ≡ bytes
unshift-shift [] = refl
unshift-shift (b ∷ bs) = ground (arith, unshift-shift bs)

-- The first bytes of a text, and the rest.
abbrev split_at : ℕ → Bytes → Bytes × Bytes
split_at zero bs = ([], bs)
split_at (suc n) [] = ([], [])
split_at (suc n) (b ∷ bs) = (b ∷ (split_at n bs).0, (split_at n bs).1)

split_at-append : (left right : Bytes) → split_at (length left) (left ++ right) ≡ (left, right)
split_at-append [] right = refl
split_at-append (b ∷ left) right = ap (λ q. (b ∷ q.0, q.1)) (split_at-append left right)

-- A text behind its length.
abbrev framed : Bytes → Bytes → Bytes
framed text rest = length text ∷ (text ++ rest)

abbrev unframed : Bytes → Bytes × Bytes
unframed [] = ([], [])
unframed (n ∷ bs) = split_at n bs

abbrev to_json : CapabilityScope → Bytes
to_json s = s.expires_at_ms ∷ framed s.target_device (framed s.item_hash (framed s.nonce []))

abbrev parts_of : ℕ → Bytes → CapabilityScope
parts_of expires bs =
    let (device, rest) = unframed bs in
    let (hash, last) = unframed rest in
    record {
      target_device = device;
      item_hash = hash;
      action = push_one_item;
      expires_at_ms = expires;
      nonce = (unframed last).0;
    }

abbrev from_json : Bytes → Option CapabilityScope
from_json [] = none
from_json (expires ∷ bs) = some (parts_of expires bs)

abbrev plain_ops : TokenOps
plain_ops = record {
  hmac = λ key message. key ++ message;
  encode = shift;
  decode = λ bytes. some (unshift bytes);
  to_json = to_json;
  from_json = from_json;
}

only_action : (a : CapabilityAction) → push_one_item ≡ a
only_action push_one_item = refl

from_json-to_json : (s : CapabilityScope) → from_json (to_json s) ≡ some s
from_json-to_json s =
    rw
      (
        split_at-append s.target_device (framed s.item_hash (framed s.nonce [])),
        split_at-append s.item_hash (framed s.nonce []),
        split_at-append s.nonce [],
      )
      (ap (λ a. some (record s { action = a })) (only_action s.action))

plain_ops-AreCodecs : AreCodecs plain_ops
plain_ops-AreCodecs = record {
  dotless = shift-NoDot;
  decodes = λ bytes. ap some (unshift-shift bytes);
  reads = from_json-to_json;
}

abbrev scope : CapabilityScope
scope = record {
  target_device = b'p' ∷ [];
  item_hash = 7 ∷ [];
  action = push_one_item;
  expires_at_ms = 5_000;
  nonce = [];
}

abbrev issued : CapabilityScope
issued = record scope { nonce = 1 ∷ 2 ∷ [] }

abbrev secret : Bytes
secret = 9 ∷ []

abbrev payload : Bytes
payload = to_json issued

abbrev token : Bytes
token = shift payload ++ b'.' ∷ shift (9 ∷ (capability_domain.label ++ 0 ∷ (payload ++ [])))

read_token-issue_example : read_token plain_ops secret token ≡ ok issued
unfolding issue token_proof hmac_proof finish capability_domain
read_token-issue_example =
    read_token-issue plain_ops plain_ops-AreCodecs secret (1 ∷ 2 ∷ []) token scope refl
      (omega arith)

verify_and_consume-issue_example :
    (verify_and_consume plain_ops default secret token 1_000).1 ≡ ok issued
unfolding issue token_proof hmac_proof finish capability_domain
verify_and_consume-issue_example =
    verify_and_consume-issue plain_ops plain_ops-AreCodecs secret (1 ∷ 2 ∷ []) token scope 1_000
      refl (omega arith) (omega arith)

abbrev other_calls : List Call
other_calls = verifying secret token 3_000 ∷ revoking (4 ∷ []) 9_000 ∷ []

verify_and_consume_once_example :
    (verify_and_consume plain_ops
      (run plain_ops (verify_and_consume plain_ops default secret token 1_000).0 other_calls)
      secret
      token
      500).1
    ≢ ok issued
verify_and_consume_once_example =
    verify_and_consume_once plain_ops default secret token 1_000 500 issued issued other_calls
      verify_and_consume-issue_example

abbrev revoked_verifier : CapabilityVerifier
revoked_verifier = record {
  consumed = record { entries = []; clock_floor_ms = 0; capacity = 4_096 };
  revoked = record {
    entries = (1 ∷ 2 ∷ [], record { state = tt; expires_at_ms = 5_000 }) ∷ [];
    clock_floor_ms = 0;
    capacity = 4_096;
  };
}
