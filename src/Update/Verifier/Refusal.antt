-- ===== src/Update/Verifier/Refusal.antt =====
-- What `verify` checks of a manifest, and what a refusal leaves.
use vbuff.Base.{
  ℕ, ◌<◌, ◌≡◌, ◌⊎◌, ◌∙◌, refl, sym, ap, inl, inr, true, false, not, ◌||◌, leb, Bool-cases, same,
  arith, Option, none, some, Bytes, bytes_ord,
}
use vbuff.Base.Maps.{get, get-map_insert, map_insert}
use vbuff.Base.Results.{
  ok, err, fail_if, Result-cases, bind_inv, and_then, fail_if_inv, err_ne_ok, ◌>>=◌, ◌>>◌,
}
use vbuff.Update.Error.{
  Result, UpdateError, invalid_signature, downgrade_or_replay, incompatible_client,
}
use vbuff.Update.Manifest.{
  KeyRotation, SignedUpdateManifest, UpdateOps, validate_key_id, validate, manifest_signing_bytes,
}
use vbuff.Update.Keyring.{TrustedKey, UpdateKeyring, revoke, trust, active_key}
use vbuff.Update.Keyring.Revocation.{revoked_key, revoke_lem, trust_inv, active_key_inv}
use vbuff.Update.Verifier.{
  UpdateVerifier, is_le, is_lt, check_signed, check_confirmation, trusted_key, retire, rotate,
  rotate_next, verified, finish, verify,
}

module _ {V : Type 0} (ops : UpdateOps V) where
  -- The manifest is signed by a key that is active at its sequence, and newer than what was accepted
  -- and what runs.
  abbrev pub IsFresh : UpdateVerifier → SignedUpdateManifest V → V → Type 0
  IsFresh v signed current =
      ((key : Bytes) × (bytes : Bytes) × (active_key ops v.keyring signed.key_id
            signed.manifest.sequence
          ≡ ok key)
        × (manifest_signing_bytes ops signed.key_id signed.manifest ≡ ok bytes)
        × (ops.verify_signature key bytes signed.signature ≡ true))
      × (v.highest_accepted_sequence < signed.manifest.sequence)
      × (is_le (ops.cmp_version signed.manifest.version current) ≡ false)

  pub check_signed_inv :
      (v : UpdateVerifier) (signed : SignedUpdateManifest V) (current : V)
      → check_signed ops v signed current ≡ ok tt
      → IsFresh v signed current
  unfolding check_signed
  check_signed_inv v signed current h =
      let m = signed.manifest in
      let behind =
        leb m.sequence v.highest_accepted_sequence || is_le (ops.cmp_version m.version current) in
      let newer = fail_if behind downgrade_or_replay in
      let able = fail_if (is_lt (ops.cmp_version current m.minimum_client)) incompatible_client in
      let well_formed = fail_if (not (ops.is_signature signed.signature)) invalid_signature in
      let holds : Bytes → Bytes → Result (Unit {0}) = λ key bytes.
        fail_if (not (ops.verify_signature key bytes signed.signature)) invalid_signature in
      let signs : Bytes → Result (Unit {0}) = λ key.
        well_formed
        >> (manifest_signing_bytes ops signed.key_id m >>= λ bytes.
            holds key bytes >> (newer >> able)) in
      let keyed = active_key ops v.keyring signed.key_id m.sequence in
      let (_, h) =
        and_then (validate ops m) (validate_key_id signed.key_id >> (keyed >>= signs)) tt h in
      let (_, h) = and_then (validate_key_id signed.key_id) (keyed >>= signs) tt h in
      let (key, active, h) = bind_inv keyed signs tt h in
      let (_, h) =
        and_then well_formed
          (manifest_signing_bytes ops signed.key_id m >>= λ bytes.
            holds key bytes >> (newer >> able))
          tt h in
      let (bytes, built, h) =
        bind_inv (manifest_signing_bytes ops signed.key_id m)
          (λ bytes. holds key bytes >> (newer >> able)) tt h in
      let (signature, h) = and_then (holds key bytes) (newer >> able) tt h in
      let (fresh, _) = and_then newer able tt h in
      let signature =
        fail_if_inv (not (ops.verify_signature key bytes signed.signature)) invalid_signature
          signature in
      let fresh = fail_if_inv behind downgrade_or_replay fresh in
      (
        (key, bytes, active, built, ground (arith, signature)),
        ground (arith, fresh),
        ground (arith, fresh),
      )

  trusted-get :
      (keyring after : UpdateKeyring) (id other : Bytes) (new key : TrustedKey)
      → trust ops keyring other new ≡ ok after
      → get id keyring.keys ≡ some key
      → (kept : TrustedKey) × (get id after.keys ≡ some kept)
  trusted-get keyring after id other new key h found =
      let (_, written, _) = trust_inv ops keyring after other new h in
      elim (Bool-cases (same id other)) [
        | inl e ↦ (new, rw (written, get-map_insert id other new keyring.keys, e) refl)
        | inr e ↦ (key, rw (written, get-map_insert id other new keyring.keys, e) found)
      ]

  retire_lem :
      (keyring after : UpdateKeyring) (id : Bytes) (at : ℕ)
      → revoke keyring id at ≡ ok after
      → retire ops keyring id at ≡ (after, ok tt)
  retire_lem keyring after id at h = rw (h, retire) refl

  -- The rotation fails as a whole or not at all, since the signing key is in the keyring.
  pub rotate-cases :
      (keyring : UpdateKeyring) (signer : Bytes) (sequence : ℕ) (rotation : KeyRotation)
      (key : TrustedKey)
      → get signer keyring.keys ≡ some key
      → ((e : UpdateError) × (rotate ops keyring signer sequence rotation ≡ (keyring, err e)))
        ⊎ ((grown : UpdateKeyring) × (after : UpdateKeyring) × (trust ops keyring rotation.key_id
                (trusted_key ops rotation)
              ≡ ok grown)
            × (revoke grown signer rotation.activates_at_sequence ≡ ok after)
            × (rotate ops keyring signer sequence rotation ≡ (after, ok tt)))
  unfolding rotate
  rotate-cases keyring signer sequence rotation key found =
      let growing = trust ops keyring rotation.key_id (trusted_key ops rotation) in
      elim (Result-cases (check_confirmation ops rotation sequence)) [
        | inl (e, bad) ↦ inl (e, rw (bad, rotate) refl)
        | inr (_, confirmed) ↦ elim (Result-cases growing) [
          | inl (e, bad) ↦ inl (e, rw (confirmed, bad, rotate) refl)
          | inr (grown, trusted) ↦
              let (kept, there) =
                trusted-get keyring grown signer rotation.key_id (trusted_key ops rotation) key
                  trusted found in
              let retired = revoke_lem grown signer rotation.activates_at_sequence kept there in
              inr (
                grown,
                record {
                  keys =
                      map_insert signer (revoked_key kept rotation.activates_at_sequence)
                        grown.keys;
                },
                trusted,
                retired,
                rw (confirmed, trusted, rotate)
                    (retire_lem grown
                      (record {
                        keys =
                            map_insert signer (revoked_key kept rotation.activates_at_sequence)
                              grown.keys;
                      })
                      signer rotation.activates_at_sequence retired),
              )
        ]
      ]

  rotate_next-refused :
      (keyring : UpdateKeyring) (signer : Bytes) (sequence : ℕ) (next : Option KeyRotation)
      (key : TrustedKey) (e : UpdateError)
      → get signer keyring.keys ≡ some key
      → (rotate_next ops keyring signer sequence next).1 ≡ err e
      → rotate_next ops keyring signer sequence next ≡ (keyring, err e)
  unfolding rotate_next
  rotate_next-refused keyring signer sequence none key e found h = absurd (err_ne_ok (sym h))
  rotate_next-refused keyring signer sequence (some rotation) key e found h =
      elim (rotate-cases keyring signer sequence rotation key found) [
        | inl (other, same_error) ↦
            same_error ∙ ap (λ q. (keyring, q)) (sym (ap (λ q. q.1) same_error) ∙ h)
        | inr (grown, after, _, _, done) ↦ absurd (err_ne_ok (sym h ∙ ap (λ q. q.1) done))
      ]

  -- What `verify` does, by what it checks and what the rotation gives.
  pub verify-cases :
      (v : UpdateVerifier) (signed : SignedUpdateManifest V) (current : V) (installation : Bytes)
      → ((e : UpdateError) × (verify ops v signed current installation ≡ (v, err e)))
        ⊎ ((keyring : UpdateKeyring) × (check_signed ops v signed current ≡ ok tt)
            × (rotate_next ops v.keyring signed.key_id signed.manifest.sequence
                  signed.manifest.next_key
                ≡ (keyring, ok tt))
            × (verify ops v signed current installation ≡ (
              record { keyring = keyring; highest_accepted_sequence = signed.manifest.sequence },
              ok (verified ops signed installation),
            )))
  unfolding verify
  verify-cases v signed current installation =
      let rotated =
        rotate_next ops v.keyring signed.key_id signed.manifest.sequence signed.manifest.next_key in
      elim (Result-cases (check_signed ops v signed current)) [
        | inl (e, bad) ↦ inl (e, rw (bad, verify) refl)
        | inr (_, checked) ↦
            let ((key, _, active, _, _), _, _) = check_signed_inv v signed current checked in
            let (held, found, _, _) =
              active_key_inv ops v.keyring signed.key_id signed.manifest.sequence key active in
            elim (Result-cases rotated.1) [
              | inl (e, bad) ↦
                  let whole =
                    rotate_next-refused v.keyring signed.key_id signed.manifest.sequence
                      signed.manifest.next_key held e found bad in
                  inl (e, rw (checked, whole, verify) refl)
              | inr (_, good) ↦
                  let whole : rotated ≡ (rotated.0, ok tt) = ap (λ q. (rotated.0, q)) good in
                  inr (
                    rotated.0,
                    checked,
                    whole,
                    rw (checked, verify) (ap (λ q. finish ops v signed installation q) whole),
                  )
            ]
      ]

  -- A manifest that is refused, for whatever reason, leaves the keyring and the watermark as they
  -- were, also where the refusal comes after the first step of a key rotation.
  pub verify-refused :
      (v : UpdateVerifier) (signed : SignedUpdateManifest V) (current : V) (installation : Bytes)
      (e : UpdateError)
      → (verify ops v signed current installation).1 ≡ err e
      → (verify ops v signed current installation).0 ≡ v
  verify-refused v signed current installation e h =
      elim (verify-cases v signed current installation) [
        | inl (_, kept) ↦ ap (λ q. q.0) kept
        | inr (_, _, _, done) ↦ absurd (err_ne_ok (sym h ∙ ap (λ q. q.1) done))
      ]
