-- ===== src/Sync/Capability.antt =====
-- crates/vbuff-sync/src/capability.rs: scoped, expiring tokens that work once. Base64, JSON and the
-- code over a message are those of the base64, serde_json and hmac crates: `TokenOps` has the calls
-- that are made.
pub mod Spent
pub mod OneShot
pub mod Tokens
mod Examples
use Prim.Native.String.{String}
use vbuff.Base.{
  ℕ, Bool, true, false, not, ◌||◌, ◌==◌, ltb, leb, if◌then◌else◌, Option, none, some, List, [], ◌∷◌,
  ◌++◌, Bytes, bytes_ord, length,
}
use vbuff.Types.Replay.{ReplayGuard, advance_to, contains, burn, max_replay_entries}
use vbuff.Types.Replay
use vbuff.Types.Mac.{MacProof, hmac_proof}
use vbuff.Types.Mac
use vbuff.Sync.Error.{
  SyncError, Result, ok, err, invalid, crypto, serialization, ok_or, fail_if, ◌>>=◌, ◌>>◌,
}

abbrev pub max_token_bytes : ℕ
max_token_bytes = 4_096

pub data CapabilityAction : Type 0 where
  push_one_item : CapabilityAction

pub record CapabilityScope : Type 0 where
  pub target_device : Bytes
  pub item_hash : Bytes
  pub action : CapabilityAction
  pub expires_at_ms : ℕ
  pub nonce : Bytes

pub record TokenOps : Type 0 where
  pub hmac : Bytes → Bytes → Bytes
  pub encode : Bytes → Bytes
  pub decode : Bytes → Option Bytes
  pub to_json : CapabilityScope → Bytes
  pub from_json : Bytes → Option CapabilityScope

abbrev pub capability_domain : Mac.MacDomain
unfolding Mac.new
capability_domain = Mac.new (
    b'v' ∷ b'b' ∷ b'u' ∷ b'f' ∷ b'f' ∷ b'-' ∷ b'c' ∷ b'a' ∷ b'p' ∷ b'a' ∷ b'b' ∷ b'i' ∷ b'l' ∷ b'i'
    ∷ b't' ∷ b'y' ∷ b'-' ∷ b't' ∷ b'o' ∷ b'k' ∷ b'e' ∷ b'n' ∷ b'-' ∷ b'v' ∷ b'2' ∷ [])

unfoldable pub token_proof : Bytes → Bytes → MacProof
token_proof secret payload = hmac_proof capability_domain secret (payload ∷ [])

-- `text.split_once('.')`.
unfoldable pub split_once : Bytes → Option (Bytes × Bytes)
split_once [] = none
split_once (b ∷ bs) =
    let rest = split_once bs in
    if b == b'.' then some ([], bs) else elim rest [ none ↦ none | some (l, r) ↦ some (b ∷ l, r) ]

pub record CapabilityVerifier : Type 0 where
  pub consumed : ReplayGuard Bytes (Unit {0})
  pub revoked : ReplayGuard Bytes (Unit {0})

unfoldable pub default : CapabilityVerifier
unfolding Replay.new
default = record {
  consumed = Replay.new max_replay_entries;
  revoked = Replay.new max_replay_entries;
}

-- The part that checks and spends the scope.
unfoldable pub spend : CapabilityVerifier → CapabilityScope → ℕ → Result CapabilityVerifier
unfolding contains burn
spend v scope now_ms = do
  fail_if (leb scope.expires_at_ms now_ms) (invalid "capability expired")
  fail_if (contains v.revoked scope.nonce || contains v.consumed scope.nonce)
      (invalid "capability already consumed or revoked")
  consumed ←
      ok_or (burn v.consumed scope.nonce scope.expires_at_ms)
        (invalid "capability replay window is full")
  ok (record v { consumed = consumed })

-- Both windows with their clocks advanced, and the clamped clock.
unfoldable pub advance : CapabilityVerifier → ℕ → CapabilityVerifier × ℕ
unfolding advance_to
advance v now_ms =
    let (consumed, now) = advance_to v.consumed now_ms in
    let (revoked, later) = advance_to v.revoked now in
    (record { consumed = consumed; revoked = revoked }, later)

abbrev spent_or :
    CapabilityVerifier
    → CapabilityScope
    → Result CapabilityVerifier
    → CapabilityVerifier × Result CapabilityScope
spent_or v scope (ok after) = (after, ok scope)
spent_or v scope (err e) = (v, err e)

-- The end of `verify_and_consume`, from what the token says.
abbrev pub consume :
    CapabilityVerifier → ℕ → Result CapabilityScope → CapabilityVerifier × Result CapabilityScope
consume v now_ms (ok scope) = spent_or v scope (spend v scope now_ms)
consume v now_ms (err e) = (v, err e)

module _ (ops : TokenOps) where
  -- A token of a scope that has its random nonce, `none` where no randomness is to be had.
  unfoldable pub issue : Bytes → CapabilityScope → Option Bytes → Result Bytes
  unfolding token_proof Mac.finish
  issue secret scope random = do
    nonce ← ok_or random crypto
    let payload = ops.to_json (record scope { nonce = nonce })
    ok (ops.encode payload ++ b'.' ∷ ops.encode (Mac.finish ops.hmac (token_proof secret payload)))

  -- The part of `verify_and_consume` that reads the token.
  unfoldable pub read_token : Bytes → Bytes → Result CapabilityScope
  unfolding token_proof split_once Mac.verify
  read_token secret token = do
    fail_if (ltb max_token_bytes (length token)) (invalid "capability token is too large")
    parts ← ok_or (split_once token) (invalid "malformed capability token")
    payload ← ok_or (ops.decode parts.0) (invalid "invalid capability payload")
    signature ← ok_or (ops.decode parts.1) (invalid "invalid capability signature")
    fail_if (not (Mac.verify ops.hmac (token_proof secret payload) signature)) crypto
    ok_or (ops.from_json payload) serialization

  -- The verifier changes on a refusal too: its clocks have advanced.
  unfoldable pub verify_and_consume :
      CapabilityVerifier → Bytes → Bytes → ℕ → CapabilityVerifier × Result CapabilityScope
  verify_and_consume v secret token now_ms =
      let (advanced, now) = advance v now_ms in consume advanced now (read_token secret token)

unfoldable pub revoke : CapabilityVerifier → Bytes → ℕ → Result CapabilityVerifier
unfolding burn
revoke v nonce expires_at_ms = do
  revoked ←
      ok_or (burn v.revoked nonce expires_at_ms) (invalid "capability revocation window is full")
  ok (record v { revoked = revoked })
