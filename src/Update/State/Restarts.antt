-- ===== src/Update/State/Restarts.antt =====
-- Updates and restarts in any order.
use vbuff.Base.{
  ℕ, ◌<◌, ◌≡◌, ◌∙◌, refl, sym, ap, subst, inl, inr, false, ◌&&◌, leb, same, same_iff, Bool-cases,
  Option, some, List, [], ◌∷◌, arith, Bytes, bytes_ord,
}
use vbuff.Base.Results.{ok, err, err_ne_ok}
use vbuff.Update.Error.{Result, UpdateError}
use vbuff.Update.Manifest.{KeyRotation, SignedUpdateManifest, UpdateOps}
use vbuff.Update.Keyring.{UpdateKeyring}
use vbuff.Update.Keyring.Revocation.{IsRevoked, IsRevoked-inactive}
use vbuff.Update.Verifier.{UpdateVerifier, VerifiedUpdate, check_signed, verified}
use vbuff.Update.Verifier.Refusal.{check_signed_inv}
use vbuff.Update.Verifier.Rotation.{accepted-IsRevoked, rotate-IsRevoked, verify-accepted}
use vbuff.Update.State.{StateOps, WriteStep, load, Installation, verify_and_store}
use vbuff.Update.State.Durable.{AreCodecs, verify_and_store-durable}

-- An update that is offered, with the step of the write that fails, or a restart of the program.
pub data Event (V : Type 0) : Type 0 where
  updating : SignedUpdateManifest V → V → Bytes → Option WriteStep → Event V
  restarting : Event V

-- An accepted update: the identifier of the key that signed it, and its sequence number.
abbrev pub Accepted : Type 0
Accepted = Bytes × ℕ

-- The sequence numbers ascend strictly from above the given one.
abbrev pub AscendingFrom : ℕ → List Accepted → Type 0
AscendingFrom low [] = Unit {0}
AscendingFrom low ((key, sequence) ∷ accepted) = (low < sequence) × AscendingFrom sequence accepted

-- None is signed under the identifier at the sequence or later.
abbrev pub NoneBy : Bytes → ℕ → List Accepted → Type 0
NoneBy id at [] = Unit {0}
NoneBy id at ((key, sequence) ∷ accepted) =
    (same id key && leb at sequence ≡ false) × NoneBy id at accepted

module _ {V : Type 0} (ops : StateOps) (update_ops : UpdateOps V) (bootstrap : UpdateKeyring) where
  abbrev pub counted : {T : Type 0} → Accepted → List Accepted → Result T → List Accepted
  counted one rest (ok update) = one ∷ rest
  counted one rest (err e) = rest

  -- The updates that are accepted. A restart that cannot load the state ends the run.
  unfoldable pub accepted : Installation ops → List (Event V) → List Accepted
  accepted d [] = []
  accepted d (updating signed current installation_id failing ∷ events) =
      let (after, result) =
        verify_and_store ops update_ops d signed current installation_id failing in
      counted (signed.key_id, signed.manifest.sequence) (accepted after events) result
  accepted d (restarting ∷ events) = elim (load ops d.file bootstrap) [
    | err e ↦ []
    | ok v ↦ accepted (record d { verifier = v }) events
  ]

  accepted-restarting :
      (d : Installation ops) (events : List (Event V))
      → load ops d.file bootstrap ≡ ok d.verifier
      → accepted d (restarting ∷ events) ≡ accepted d events
  unfolding accepted
  accepted-restarting d events h = rw (h, accepted) refl

  module _ (d after : Installation ops) (signed : SignedUpdateManifest V) (current : V)
      (installation_id : Bytes) (failing : Option WriteStep) (events : List (Event V)) where
    accepted-kept :
        (e : UpdateError)
        → verify_and_store ops update_ops d signed current installation_id failing ≡ (after, err e)
        → accepted d (updating signed current installation_id failing ∷ events)
          ≡ accepted after events
    unfolding accepted
    accepted-kept e h = rw (h, accepted) refl

    accepted-stored :
        (update : VerifiedUpdate V)
        → verify_and_store ops update_ops d signed current installation_id failing
          ≡ (after, ok update)
        → accepted d (updating signed current installation_id failing ∷ events)
          ≡ (signed.key_id, signed.manifest.sequence) ∷ accepted after events
    unfolding accepted
    accepted-stored update h = rw (h, accepted) refl

  accepted-AscendingFrom :
      (d : Installation ops) (events : List (Event V))
      → AreCodecs ops
      → load ops d.file bootstrap ≡ ok d.verifier
      → AscendingFrom d.verifier.highest_accepted_sequence (accepted d events)
  unfolding accepted
  accepted-AscendingFrom d [] c h = tt
  accepted-AscendingFrom d (restarting ∷ events) c h =
      subst (AscendingFrom d.verifier.highest_accepted_sequence)
        (sym (accepted-restarting d events h)) (accepted-AscendingFrom d events c h)
  accepted-AscendingFrom d (updating signed current installation_id failing ∷ events) c h =
      elim (verify_and_store-durable ops update_ops d signed current installation_id failing
        bootstrap c) [
          | inl (e, kept) ↦
              subst (AscendingFrom d.verifier.highest_accepted_sequence)
                (sym (accepted-kept d d signed current installation_id failing events e kept))
                (accepted-AscendingFrom d events c h)
          | inr (after, file, step, done, loads) ↦
              let (checked, _, raised) =
                verify-accepted update_ops d.verifier after signed current installation_id step in
              let (_, higher, _) = check_signed_inv update_ops d.verifier signed current checked in
              let next : Installation ops = record { verifier = after; file = file } in
              subst (AscendingFrom d.verifier.highest_accepted_sequence)
                (sym (
                  accepted-stored d next signed current installation_id failing events
                    (verified update_ops signed installation_id) done))
                (
                  higher,
                  subst
                      (λ q.
                        AscendingFrom q
                          (accepted (record { verifier = after; file = file }) events))
                      raised
                      (accepted-AscendingFrom (record { verifier = after; file = file }) events c
                        loads),
                )
        ]

  not_by :
      (v : UpdateVerifier) (signed : SignedUpdateManifest V) (current : V) (id : Bytes) (at : ℕ)
      → check_signed update_ops v signed current ≡ ok tt
      → IsRevoked v.keyring id at
      → same id signed.key_id && leb at signed.manifest.sequence ≡ false
  not_by v signed current id at checked r =
      let ((public_key, _, active, _, _), _, _) =
        check_signed_inv update_ops v signed current checked in
      elim (Bool-cases (same id signed.key_id && leb at signed.manifest.sequence)) [
        | inr e ↦ e
        | inl e ↦
            let own : id ≡ signed.key_id = (same_iff id signed.key_id).0 (ground (arith, e)) in
            absurd (
              IsRevoked-inactive update_ops v.keyring signed.key_id public_key at
                signed.manifest.sequence (subst (λ q. IsRevoked v.keyring q at) own r)
                (ground (arith, e)) active)
      ]

  accepted-NoneBy :
      (d : Installation ops) (events : List (Event V)) (id : Bytes) (at : ℕ)
      → AreCodecs ops
      → load ops d.file bootstrap ≡ ok d.verifier
      → IsRevoked d.verifier.keyring id at
      → NoneBy id at (accepted d events)
  unfolding accepted
  accepted-NoneBy d [] id at c h r = tt
  accepted-NoneBy d (restarting ∷ events) id at c h r =
      subst (NoneBy id at) (sym (accepted-restarting d events h))
        (accepted-NoneBy d events id at c h r)
  accepted-NoneBy d (updating signed current installation_id failing ∷ events) id at c h r =
      elim (verify_and_store-durable ops update_ops d signed current installation_id failing
        bootstrap c) [
          | inl (e, kept) ↦
              subst (NoneBy id at)
                (sym (accepted-kept d d signed current installation_id failing events e kept))
                (accepted-NoneBy d events id at c h r)
          | inr (after, file, step, done, loads) ↦
              let (checked, rotated, _) =
                verify-accepted update_ops d.verifier after signed current installation_id step in
              let kept =
                accepted-IsRevoked update_ops d.verifier signed current after.keyring id at checked
                  rotated r in
              let next : Installation ops = record { verifier = after; file = file } in
              subst (NoneBy id at)
                (sym (
                  accepted-stored d next signed current installation_id failing events
                    (verified update_ops signed installation_id) done))
                (
                  not_by d.verifier signed current id at checked r,
                  accepted-NoneBy (record { verifier = after; file = file }) events id at c loads
                      kept,
                )
        ]

-- Over any updates, offered in any order, with any failing writes and restarts between them, the
-- sequence numbers of the updates that are accepted ascend strictly, from above the watermark at the
-- start, where the file holds the verifier at the start. JSON and hexadecimal have to be read back as
-- they were written.
pub accepted-ascending :
    {V : Type 0} (ops : StateOps) (update_ops : UpdateOps V) (bootstrap : UpdateKeyring)
    (d : Installation ops) (events : List (Event V))
    → AreCodecs ops
    → load ops d.file bootstrap ≡ ok d.verifier
    → AscendingFrom d.verifier.highest_accepted_sequence
        (accepted ops update_ops bootstrap d events)
accepted-ascending ops update_ops bootstrap d events c h =
    accepted-AscendingFrom ops update_ops bootstrap d events c h

-- After an update with a key rotation is verified and stored, no update is ever accepted under the
-- identifier of the rotated-out key for the activation sequence of the new key or a later one,
-- whatever is offered afterwards and through any restarts. This is about the identifier: the same
-- public key may be registered under another one by a further rotation, and sign there. JSON and
-- hexadecimal have to be read back as they were written.
pub rotated_out-never_accepted :
    {V : Type 0} (ops : StateOps) (update_ops : UpdateOps V) (bootstrap : UpdateKeyring)
    (d : Installation ops) (signed : SignedUpdateManifest V) (rotation : KeyRotation) (current : V)
    (installation_id : Bytes) (failing : Option WriteStep) (update : VerifiedUpdate V)
    (events : List (Event V))
    → AreCodecs ops
    → signed.manifest.next_key ≡ some rotation
    → (verify_and_store ops update_ops d signed current installation_id failing).1 ≡ ok update
    → NoneBy signed.key_id rotation.activates_at_sequence (
        accepted ops update_ops bootstrap
          (verify_and_store ops update_ops d signed current installation_id failing).0
          events)
rotated_out-never_accepted ops update_ops bootstrap d signed rotation current installation_id
      failing update events c next h =
    elim (verify_and_store-durable ops update_ops d signed current installation_id failing bootstrap
      c) [
        | inl (e, kept) ↦ absurd (err_ne_ok (sym (ap (λ q. q.1) kept) ∙ h))
        | inr (after, file, step, done, loads) ↦
            let (checked, rotated, _) =
              verify-accepted update_ops d.verifier after signed current installation_id step in
            let retired =
              rotate-IsRevoked update_ops d.verifier signed current after.keyring rotation checked
                next rotated in
            let start : Installation ops = record { verifier = after; file = file } in
            subst
              (λ q.
                NoneBy signed.key_id rotation.activates_at_sequence
                  (accepted ops update_ops bootstrap q events))
              (sym (ap (λ q. q.0) done))
              (accepted-NoneBy ops update_ops bootstrap start events signed.key_id
                rotation.activates_at_sequence c loads retired)
      ]
