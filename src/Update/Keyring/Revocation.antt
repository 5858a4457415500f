-- ===== src/Update/Keyring/Revocation.antt =====
-- What the methods of a keyring leave of its keys.
use vbuff.Base.{
  ℕ, ◌≤◌, ◌≡◌, ◌∙◌, refl, sym, ap, subst, inl, inr, true, false, not, Bool-cases, same, same_iff,
  some_injective, arith, Option, none, some, Bytes, bytes_ord,
}
use vbuff.Base.Maps.{get, map_insert, contains_key, get-map_insert, is_some}
use vbuff.Base.Results.{
  ok, ok_or, fail_if, bind_inv, and_then, fail_if_inv, ok_or_inv, ok_injective, ◌>>◌,
}
use vbuff.Update.Error.{Result, invalid_manifest, untrusted_key, duplicate_key_id}
use vbuff.Update.Manifest.{UpdateOps, validate_key_id}
use vbuff.Update.Keyring.{
  TrustedKey, UpdateKeyring, earliest, revoke, not_revoked, is_active, trust, active_key,
}

abbrev pub revoked_key : TrustedKey → ℕ → TrustedKey
revoked_key key at = record key { revoked_at_sequence = some (earliest key.revoked_at_sequence at) }

pub revoke_inv :
    (keyring after : UpdateKeyring) (id : Bytes) (at : ℕ)
    → revoke keyring id at ≡ ok after
    → (key : TrustedKey) × (get id keyring.keys ≡ some key)
      × (after.keys ≡ map_insert id (revoked_key key at) keyring.keys)
unfolding revoke
revoke_inv keyring after id at h =
    let changed : TrustedKey → Result UpdateKeyring =
      λ key. ok (record { keys = map_insert id (revoked_key key at) keyring.keys }) in
    let (key, found, h) = bind_inv (ok_or (get id keyring.keys) untrusted_key) changed after h in
    (
      key,
      ok_or_inv (get id keyring.keys) untrusted_key key found,
      ap (λ q. q.keys) (sym (ok_injective h)),
    )

pub revoke_lem :
    (keyring : UpdateKeyring) (id : Bytes) (at : ℕ) (key : TrustedKey)
    → get id keyring.keys ≡ some key
    → revoke keyring id at ≡ ok (record { keys = map_insert id (revoked_key key at) keyring.keys })
unfolding revoke
revoke_lem keyring id at key found = rw found refl

module _ {V : Type 0} (ops : UpdateOps V) where
  pub trust_inv :
      (keyring after : UpdateKeyring) (id : Bytes) (key : TrustedKey)
      → trust ops keyring id key ≡ ok after
      → (contains_key id keyring.keys ≡ false)
        × (after.keys ≡ map_insert id key keyring.keys)
        × (ops.is_key key.public_key ≡ true)
  unfolding trust
  trust_inv keyring after id key h =
      let written : Result UpdateKeyring = ok (record { keys = map_insert id key keyring.keys }) in
      let fresh = fail_if (contains_key id keyring.keys) duplicate_key_id in
      let valid =
        fail_if (not (ops.is_key key.public_key)) (invalid_manifest "trusted key is invalid") in
      let (_, h) = and_then (validate_key_id id) (valid >> (fresh >> written)) after h in
      let (good, h) = and_then valid (fresh >> written) after h in
      let (new, h) = and_then fresh written after h in
      let good =
        fail_if_inv (not (ops.is_key key.public_key)) (invalid_manifest "trusted key is invalid")
          good in
      (
        fail_if_inv (contains_key id keyring.keys) duplicate_key_id new,
        ap (λ q. q.keys) (sym (ok_injective h)),
        ground (arith, good),
      )

  pub active_key_inv :
      (keyring : UpdateKeyring) (id : Bytes) (sequence : ℕ) (public_key : Bytes)
      → active_key ops keyring id sequence ≡ ok public_key
      → (key : TrustedKey) × (get id keyring.keys ≡ some key)
        × (is_active key sequence ≡ true)
        × (key.public_key ≡ public_key)
  unfolding active_key
  active_key_inv keyring id sequence public_key h =
      let usable : TrustedKey → Result Bytes =
        λ key. fail_if (not (ops.is_key key.public_key)) untrusted_key >> ok key.public_key in
      let checked : TrustedKey → Result Bytes =
        λ key. fail_if (not (is_active key sequence)) untrusted_key >> usable key in
      let (key, found, h) =
        bind_inv (ok_or (get id keyring.keys) untrusted_key) checked public_key h in
      let (active, h) =
        and_then (fail_if (not (is_active key sequence)) untrusted_key) (usable key) public_key h in
      let (_, h) =
        and_then (fail_if (not (ops.is_key key.public_key)) untrusted_key) (ok key.public_key)
          public_key h in
      let active = fail_if_inv (not (is_active key sequence)) untrusted_key active in
      (
        key,
        ok_or_inv (get id keyring.keys) untrusted_key key found,
        ground (arith, active),
        ok_injective h,
      )

-- The key is revoked from a sequence on.
abbrev pub IsRevoked : UpdateKeyring → Bytes → ℕ → Type 0
IsRevoked keyring id at =
    (key : TrustedKey) × (revoked : ℕ) × (get id keyring.keys ≡ some key)
    × (key.revoked_at_sequence ≡ some revoked)
    × (revoked ≤ at)

earliest-bounds : (previous : Option ℕ) (at : ℕ) → earliest previous at ≤ at
earliest-bounds none at = omega arith
earliest-bounds (some previous) at = omega arith

earliest-le :
    (previous : Option ℕ) (revoked at : ℕ)
    → previous ≡ some revoked
    → earliest previous at ≤ revoked
earliest-le previous revoked at h = subst (λ q. earliest q at ≤ revoked) (sym h) (omega arith)

pub revoke-IsRevoked :
    (keyring after : UpdateKeyring) (id : Bytes) (at : ℕ)
    → revoke keyring id at ≡ ok after
    → IsRevoked after id at
revoke-IsRevoked keyring after id at h =
    let (key, found, written) = revoke_inv keyring after id at h in
    let self : same id id ≡ true = (same_iff id id).1 refl in
    (
      revoked_key key at,
      earliest key.revoked_at_sequence at,
      rw (written, get-map_insert id id (revoked_key key at) keyring.keys, self) refl,
      refl,
      earliest-bounds key.revoked_at_sequence at,
    )

pub revoke-IsRevoked_other :
    (keyring after : UpdateKeyring) (id other : Bytes) (at until : ℕ)
    → revoke keyring other until ≡ ok after
    → IsRevoked keyring id at
    → IsRevoked after id at
revoke-IsRevoked_other keyring after id other at until h (key, revoked, found, r, le) =
    let (old, present, written) = revoke_inv keyring after other until h in
    elim (Bool-cases (same id other)) [
      | inr e ↦ (
        key,
        revoked,
        rw (written, get-map_insert id other (revoked_key old until) keyring.keys, e) found,
        r,
        le,
      )
      | inl e ↦
          let one : old ≡ key = some_injective (
            sym present
            ∙ subst (λ q. get q keyring.keys ≡ some key) ((same_iff id other).0 e) found) in
          let old_revoked : old.revoked_at_sequence ≡ some revoked =
            ap (λ q. q.revoked_at_sequence) one ∙ r in
          (
            revoked_key old until,
            earliest old.revoked_at_sequence until,
            rw (written, get-map_insert id other (revoked_key old until) keyring.keys, e) refl,
            refl,
            omega (arith, le, earliest-le old.revoked_at_sequence revoked until old_revoked),
          )
    ]

pub trust-IsRevoked :
    {V : Type 0} (ops : UpdateOps V) (keyring after : UpdateKeyring) (id other : Bytes)
    (new : TrustedKey) (at : ℕ)
    → trust ops keyring other new ≡ ok after
    → IsRevoked keyring id at
    → IsRevoked after id at
unfolding contains_key
trust-IsRevoked ops keyring after id other new at h (key, revoked, found, r, le) =
    let (fresh, written, _) = trust_inv ops keyring after other new h in
    elim (Bool-cases (same id other)) [
      | inr e ↦
          (key, revoked, rw (written, get-map_insert id other new keyring.keys, e) found, r, le)
      | inl e ↦
          let there : is_some (get other keyring.keys) ≡ true =
            subst (λ q. is_some (get q keyring.keys) ≡ true) ((same_iff id other).0 e)
              (rw found refl) in
          absurd (ground (arith, there, fresh))
    ]

-- A key that is revoked from a sequence on is not active at that sequence or later.
pub IsRevoked-inactive :
    {V : Type 0} (ops : UpdateOps V) (keyring : UpdateKeyring) (id public_key : Bytes)
    (at sequence : ℕ)
    → IsRevoked keyring id at
    → at ≤ sequence
    → active_key ops keyring id sequence ≡ ok public_key
    → ⊥
unfolding is_active
IsRevoked-inactive ops keyring id public_key at sequence (key, revoked, found, r, le) later h =
    let (other, there, active, _) = active_key_inv ops keyring id sequence public_key h in
    let one : other ≡ key = some_injective (sym there ∙ found) in
    let other_revoked : other.revoked_at_sequence ≡ some revoked =
      ap (λ q. q.revoked_at_sequence) one ∙ r in
    let late : not_revoked other.revoked_at_sequence sequence ≡ false =
      subst (λ q. not_revoked q sequence ≡ false) (sym other_revoked) (ground (arith, le, later)) in
    ground (arith, active, late)
