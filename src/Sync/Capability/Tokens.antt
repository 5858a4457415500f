-- ===== src/Sync/Capability/Tokens.antt =====
-- Tokens that are issued, against the verifier.
use vbuff.Base.{
  ℕ, ◌≤◌, ◌<◌, ◌≡◌, ◌≢◌, ◌∙◌, max, refl, sym, ap, true, false, ltb, leb, arith, some, [], ◌∷◌, ◌++◌,
  Bytes, bytes_ord, same_iff, length,
}
use vbuff.Base.Maps.{get, retain, contains_key}
use vbuff.Types.Replay.{advance_to, contains, burn, record_key}
use vbuff.Types.Mac
use vbuff.Sync.Error.{ok, ok_injective}
use vbuff.Sync.Capability.{
  CapabilityScope, TokenOps, token_proof, split_once, max_token_bytes, issue, read_token, spend,
  advance, default, verify_and_consume,
}

-- No byte of the text is a dot, as in URL-safe Base64.
abbrev pub NoDot : Bytes → Type 0
NoDot [] = Unit {0}
NoDot (b ∷ bs) = (b ≢ b'.') × NoDot bs

-- What the codecs promise: a dotless encoding, and decoding what was encoded.
pub record AreCodecs (ops : TokenOps) : Type 0 where
  pub dotless : (bytes : Bytes) → NoDot (ops.encode bytes)
  pub decodes : (bytes : Bytes) → ops.decode (ops.encode bytes) ≡ some bytes
  pub reads : (scope : CapabilityScope) → ops.from_json (ops.to_json scope) ≡ some scope

split_once-append :
    (left right : Bytes) → NoDot left → split_once (left ++ b'.' ∷ right) ≡ some (left, right)
unfolding split_once
split_once-append [] right n = refl
split_once-append (b ∷ left) right n = ground (arith, n.0, split_once-append left right n.1)

verify-finish :
    (hmac : Bytes → Bytes → Bytes) (p : Mac.MacProof) → Mac.verify hmac p (Mac.finish hmac p) ≡ true
unfolding Mac.verify Mac.finish
verify-finish hmac p = (same_iff (hmac p.key p.message) (hmac p.key p.message)).1 refl

module _ (ops : TokenOps) (laws : AreCodecs ops) where
  -- Reading an issued token gives back its scope, with the nonce that it was issued with, if the
  -- token is within the size limit.
  pub read_token-issue :
      (secret nonce token : Bytes) (scope : CapabilityScope)
      → issue ops secret scope (some nonce) ≡ ok token
      → length token ≤ max_token_bytes
      → read_token ops secret token ≡ ok (record scope { nonce = nonce })
  unfolding issue read_token
  read_token-issue secret nonce token scope h fits =
      let own : CapabilityScope = record scope { nonce = nonce } in
      let payload : Bytes = ops.to_json own in
      let tag : Bytes = Mac.finish ops.hmac (token_proof secret payload) in
      let made : token ≡ ops.encode payload ++ b'.' ∷ ops.encode tag = sym (ok_injective h) in
      let small : ltb max_token_bytes (length token) ≡ false = ground (arith, fits) in
      let split : split_once token ≡ some (ops.encode payload, ops.encode tag) =
        ap split_once made
        ∙ split_once-append (ops.encode payload) (ops.encode tag) (laws.dotless payload) in
      rw
        (
          small,
          split,
          laws.decodes payload,
          laws.decodes tag,
          verify-finish ops.hmac (token_proof secret payload),
          laws.reads own,
        )
        refl

  -- A fresh verifier accepts an issued token that is within the size limit and not yet expired.
  pub verify_and_consume-issue :
      (secret nonce token : Bytes) (scope : CapabilityScope) (now : ℕ)
      → issue ops secret scope (some nonce) ≡ ok token
      → length token ≤ max_token_bytes
      → now < scope.expires_at_ms
      → (verify_and_consume ops default secret token now).1 ≡ ok (record scope { nonce = nonce })
  unfolding verify_and_consume default spend advance burn contains contains_key get advance_to
      retain record_key
  verify_and_consume-issue secret nonce token scope now h fits live =
      let late : leb scope.expires_at_ms (max 0 (max 0 now)) ≡ false = ground (arith, live) in
      rw (read_token-issue secret nonce token scope h fits) (rw late refl)
