-- ===== src/Update/Verifier/Rotation.antt =====
-- What an accepted manifest does to the keys that are revoked.
use vbuff.Base.{ℕ, ◌≡◌, ◌∙◌, sym, ap, subst, inl, inr, Option, none, some, Bytes, bytes_ord}
use vbuff.Base.Maps.{get}
use vbuff.Base.Results.{ok, err_ne_ok}
use vbuff.Update.Manifest.{KeyRotation, SignedUpdateManifest, UpdateOps}
use vbuff.Update.Keyring.{TrustedKey, UpdateKeyring}
use vbuff.Update.Keyring.Revocation.{
  IsRevoked, revoke-IsRevoked, revoke-IsRevoked_other, trust-IsRevoked, active_key_inv,
}
use vbuff.Update.Verifier.{
  UpdateVerifier, check_signed, trusted_key, rotate, rotate_next, verified, verify,
}
use vbuff.Update.Verifier.Refusal.{check_signed_inv, rotate-cases, verify-cases}

module _ {V : Type 0} (ops : UpdateOps V) where
  -- The signing key is in the keyring.
  signer_found :
      (v : UpdateVerifier) (signed : SignedUpdateManifest V) (current : V)
      → check_signed ops v signed current ≡ ok tt
      → (key : TrustedKey) × (get signed.key_id v.keyring.keys ≡ some key)
  signer_found v signed current checked =
      let ((public_key, _, active, _, _), _, _) = check_signed_inv ops v signed current checked in
      let (key, found, _, _) =
        active_key_inv ops v.keyring signed.key_id signed.manifest.sequence public_key active in
      (key, found)

  rotate_next-IsRevoked :
      (keyring after : UpdateKeyring) (signer id : Bytes) (sequence at : ℕ)
      (next : Option KeyRotation) (key : TrustedKey)
      → get signer keyring.keys ≡ some key
      → rotate_next ops keyring signer sequence next ≡ (after, ok tt)
      → IsRevoked keyring id at
      → IsRevoked after id at
  unfolding rotate_next
  rotate_next-IsRevoked keyring after signer id sequence at none key found h r =
      subst (λ q. IsRevoked q id at) (ap (λ q. q.0) h) r
  rotate_next-IsRevoked keyring after signer id sequence at (some rotation) key found h r =
      elim (rotate-cases ops keyring signer sequence rotation key found) [
        | inl (e, bad) ↦ absurd (err_ne_ok (sym (ap (λ q. q.1) bad) ∙ ap (λ q. q.1) h))
        | inr (grown, retired, trusted, revoked, done) ↦
            subst (λ q. IsRevoked q id at) (sym (ap (λ q. q.0) done) ∙ ap (λ q. q.0) h)
              (revoke-IsRevoked_other grown retired id signer at rotation.activates_at_sequence
                revoked
                (trust-IsRevoked ops keyring grown id rotation.key_id (trusted_key ops rotation) at
                  trusted r))
      ]

  pub accepted-IsRevoked :
      (v : UpdateVerifier) (signed : SignedUpdateManifest V) (current : V) (after : UpdateKeyring)
      (id : Bytes) (at : ℕ)
      → check_signed ops v signed current ≡ ok tt
      → rotate_next ops v.keyring signed.key_id signed.manifest.sequence signed.manifest.next_key
        ≡ (after, ok tt)
      → IsRevoked v.keyring id at
      → IsRevoked after id at
  accepted-IsRevoked v signed current after id at checked h r =
      let (key, found) = signer_found v signed current checked in
      rotate_next-IsRevoked v.keyring after signed.key_id id signed.manifest.sequence at
        signed.manifest.next_key key found h r

  -- A rotation retires the key that signed it.
  pub rotate-IsRevoked :
      (v : UpdateVerifier) (signed : SignedUpdateManifest V) (current : V) (after : UpdateKeyring)
      (rotation : KeyRotation)
      → check_signed ops v signed current ≡ ok tt
      → signed.manifest.next_key ≡ some rotation
      → rotate_next ops v.keyring signed.key_id signed.manifest.sequence signed.manifest.next_key
        ≡ (after, ok tt)
      → IsRevoked after signed.key_id rotation.activates_at_sequence
  unfolding rotate_next
  rotate-IsRevoked v signed current after rotation checked next h =
      let (key, found) = signer_found v signed current checked in
      let h : rotate ops v.keyring signed.key_id signed.manifest.sequence rotation
          ≡ (after, ok tt) =
        ap (λ q. rotate_next ops v.keyring signed.key_id signed.manifest.sequence q) (sym next)
        ∙ h in
      elim (rotate-cases ops v.keyring signed.key_id signed.manifest.sequence rotation key found) [
        | inl (e, bad) ↦ absurd (err_ne_ok (sym (ap (λ q. q.1) bad) ∙ ap (λ q. q.1) h))
        | inr (grown, retired, trusted, revoked, done) ↦
            subst (λ q. IsRevoked q signed.key_id rotation.activates_at_sequence)
              (sym (ap (λ q. q.0) done) ∙ ap (λ q. q.0) h)
              (revoke-IsRevoked grown retired signed.key_id rotation.activates_at_sequence revoked)
      ]

  -- What an accepted manifest has passed, and what the verifier is afterwards.
  pub verify-accepted :
      (v after : UpdateVerifier) (signed : SignedUpdateManifest V) (current : V)
      (installation : Bytes)
      → verify ops v signed current installation ≡ (after, ok (verified ops signed installation))
      → (check_signed ops v signed current ≡ ok tt)
        × (rotate_next ops v.keyring signed.key_id signed.manifest.sequence signed.manifest.next_key
            ≡ (after.keyring, ok tt))
        × (after.highest_accepted_sequence ≡ signed.manifest.sequence)
  verify-accepted v after signed current installation h =
      elim (verify-cases ops v signed current installation) [
        | inl (e, kept) ↦ absurd (err_ne_ok (sym (ap (λ q. q.1) kept) ∙ ap (λ q. q.1) h))
        | inr (keyring, checked, rotated, done) ↦
            let e = sym (ap (λ q. q.0) done) ∙ ap (λ q. q.0) h in
            (
              checked,
              rotated ∙ ap (λ (q : UpdateVerifier). (q.keyring, ok tt)) e,
              sym (ap (λ (q : UpdateVerifier). q.highest_accepted_sequence) e),
            )
      ]
