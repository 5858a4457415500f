-- ===== src/Sync/Capability/OneShot.antt =====
-- A token that was spent or revoked is refused ever after.
use vbuff.Base.{
  ℕ, ◌≡◌, ◌≢◌, ◌∙◌, inl, inr, refl, sym, ap, subst, arith, List, [], ◌∷◌, Bytes, bytes_ord,
}
use vbuff.Sync.Error.{ok, ok_injective, Result-cases}
use vbuff.Sync.Capability.{
  CapabilityScope, CapabilityVerifier, TokenOps, read_token, spend, advance, verify_and_consume,
  revoke,
}
use vbuff.Sync.Capability.Spent.{
  Call, verifying, revoking, IsSpent, revoked_or, advance-IsSpent, spend-IsSpent, spend-IsSpent_own,
  spend_refused, revoke-IsSpent, revoke-IsSpent_own,
}

module _ (ops : TokenOps) where
  -- The verifier after calls in any order.
  unfoldable pub run : CapabilityVerifier → List Call → CapabilityVerifier
  run v [] = v
  run v (verifying secret token now ∷ calls) =
      run (verify_and_consume ops v secret token now).0 calls
  run v (revoking nonce expires ∷ calls) = run (revoked_or v (revoke v nonce expires)) calls

  -- What an accepted token went through.
  verify_inv :
      (v : CapabilityVerifier) (secret token : Bytes) (now : ℕ) (scope : CapabilityScope)
      → (verify_and_consume ops v secret token now).1 ≡ ok scope
      → (read_token ops secret token ≡ ok scope)
        × (spend (advance v now).0 scope (advance v now).1
            ≡ ok (verify_and_consume ops v secret token now).0)
  unfolding verify_and_consume
  verify_inv v secret token now scope h = elim (Result-cases (read_token ops secret token)) [
    | inl (e, unread) ↦ absurd (ground (arith, unread))
    | inr (own, read) ↦ elim (Result-cases (spend (advance v now).0 own (advance v now).1)) [
      | inl (e, refused) ↦ absurd (ground (arith, read, refused))
      | inr (after, taken) ↦
          let this : own ≡ scope = ground (arith, read, taken) in
          (
            read ∙ ap ok this,
            ap (λ q. spend (advance v now).0 q (advance v now).1) (sym this)
                ∙ taken
                ∙ rw (read, taken) refl,
          )
    ]
  ]

  verify-IsSpent :
      (v : CapabilityVerifier) (secret token : Bytes) (now : ℕ) (nonce : Bytes) (expires : ℕ)
      → IsSpent v nonce expires
      → IsSpent (verify_and_consume ops v secret token now).0 nonce expires
  unfolding verify_and_consume
  verify-IsSpent v secret token now nonce expires c =
      elim (Result-cases (read_token ops secret token)) [
        | inl (e, unread) ↦ rw unread (advance-IsSpent v now nonce expires c)
        | inr (own, read) ↦ elim (Result-cases (spend (advance v now).0 own (advance v now).1)) [
          | inl (e, refused) ↦ rw (read, refused) (advance-IsSpent v now nonce expires c)
          | inr (after, taken) ↦
              rw (read, taken)
                (spend-IsSpent (advance v now).0 after own (advance v now).1 nonce expires taken
                  (advance-IsSpent v now nonce expires c))
        ]
      ]

  run-IsSpent :
      (v : CapabilityVerifier) (calls : List Call) (nonce : Bytes) (expires : ℕ)
      → IsSpent v nonce expires
      → IsSpent (run v calls) nonce expires
  unfolding run
  run-IsSpent v [] nonce expires c = c
  run-IsSpent v (verifying secret token now ∷ calls) nonce expires c =
      run-IsSpent (verify_and_consume ops v secret token now).0 calls nonce expires
        (verify-IsSpent v secret token now nonce expires c)
  run-IsSpent v (revoking other until ∷ calls) nonce expires c =
      elim (Result-cases (revoke v other until)) [
        | inl (e, full) ↦
            subst (λ q. IsSpent (run q calls) nonce expires) (sym (ap (revoked_or v) full))
              (run-IsSpent v calls nonce expires c)
        | inr (after, done) ↦
            subst (λ q. IsSpent (run q calls) nonce expires) (sym (ap (revoked_or v) done))
              (run-IsSpent after calls nonce expires
                (revoke-IsSpent v after other nonce until expires done c))
      ]

  verify_refused :
      (v : CapabilityVerifier) (secret token : Bytes) (now : ℕ) (scope found : CapabilityScope)
      → read_token ops secret token ≡ ok scope
      → IsSpent v scope.nonce scope.expires_at_ms
      → (verify_and_consume ops v secret token now).1 ≢ ok found
  verify_refused v secret token now scope found read c h =
      let (again, taken) = verify_inv v secret token now found h in
      let same_scope : found ≡ scope = ok_injective (sym again ∙ read) in
      spend_refused v (verify_and_consume ops v secret token now).0 found now
        (advance-IsSpent v now found.nonce found.expires_at_ms
          (subst (λ q. IsSpent v q.nonce q.expires_at_ms) (sym same_scope) c))
        taken

  -- A token that was accepted is refused ever after, at any clock reading and whatever tokens are
  -- verified or nonces revoked in between.
  pub verify_and_consume_once :
      (v : CapabilityVerifier) (secret token : Bytes) (now later : ℕ)
      (scope found : CapabilityScope) (calls : List Call)
      → (verify_and_consume ops v secret token now).1 ≡ ok scope
      → (verify_and_consume ops
          (run (verify_and_consume ops v secret token now).0 calls)
          secret
          token
          later).1
        ≢ ok found
  verify_and_consume_once v secret token now later scope found calls h =
      let (read, taken) = verify_inv v secret token now scope h in
      let next : CapabilityVerifier = (verify_and_consume ops v secret token now).0 in
      verify_refused (run next calls) secret token later scope found read (
        run-IsSpent next calls scope.nonce scope.expires_at_ms
          (spend-IsSpent_own (advance v now).0 next scope (advance v now).1 taken))

  -- A token whose nonce is revoked until its expiry is refused ever after, at any clock reading and
  -- whatever tokens are verified or nonces revoked in between.
  pub revoke-refuses :
      (v after : CapabilityVerifier) (secret token : Bytes) (later : ℕ)
      (scope found : CapabilityScope) (calls : List Call)
      → read_token ops secret token ≡ ok scope
      → revoke v scope.nonce scope.expires_at_ms ≡ ok after
      → (verify_and_consume ops (run after calls) secret token later).1 ≢ ok found
  revoke-refuses v after secret token later scope found calls read h =
      verify_refused (run after calls) secret token later scope found read (
        run-IsSpent after calls scope.nonce scope.expires_at_ms
          (revoke-IsSpent_own v after scope.nonce scope.expires_at_ms h))
