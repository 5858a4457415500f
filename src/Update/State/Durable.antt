-- ===== src/Update/State/Durable.antt =====
-- What a stored state loads as, and what a failure leaves.
use vbuff.Base.{
  ◌≡◌, ◌⊎◌, ◌∙◌, refl, ap, inl, inr, true, same, same_iff, Option, some, Bytes, bytes_ord,
}
use vbuff.Base.Results.{ok, err, ok_or, Result-cases, bind_inv, ok_or_inv}
use vbuff.Update.Error.{Result, UpdateError, serialization}
use vbuff.Update.Manifest.{SignedUpdateManifest, UpdateOps}
use vbuff.Update.Keyring.{UpdateKeyring}
use vbuff.Update.Verifier.{UpdateVerifier, verify, verified}
use vbuff.Update.Verifier.Refusal.{verify-cases}
use vbuff.Update.State.{
  verifier_state_schema, VerifierState, PersistedVerifierState, StateOps, StateFile, contents,
  WriteStep, from_state, state, write, state_checksum, decode_state, load, encode_state, store,
  Installation, store_or_roll_back, store_verified, verify_and_store,
}

-- JSON and hexadecimal are read back as they were written.
pub record AreCodecs (ops : StateOps) : Type 0 where
  pub probes :
      (p : PersistedVerifierState) (bytes : Bytes)
      → ops.persisted_to_json p ≡ some bytes
      → ops.probe_from_json bytes ≡ some p.schema
  pub envelopes :
      (p : PersistedVerifierState) (bytes : Bytes)
      → ops.persisted_to_json p ≡ some bytes
      → ops.persisted_from_json bytes ≡ some p
  pub digests : (digest : Bytes) → ops.from_hex (ops.to_hex digest) ≡ some digest

module _ (ops : StateOps) where
  encode_inv :
      (s : VerifierState) (bytes : Bytes)
      → encode_state ops s ≡ ok bytes
      → (checksum : Bytes) × (state_checksum ops verifier_state_schema s ≡ ok checksum)
        × (ops.persisted_to_json
              (record { schema = verifier_state_schema; state = s; checksum = ops.to_hex checksum })
            ≡ some bytes)
  unfolding encode_state
  encode_inv s bytes h =
      let envelope : Bytes → Option Bytes = λ checksum.
        ops.persisted_to_json
          (record { schema = verifier_state_schema; state = s; checksum = ops.to_hex checksum }) in
      let (checksum, hashed, h) =
        bind_inv (state_checksum ops verifier_state_schema s)
          (λ checksum. ok_or (envelope checksum) (serialization "verifier state")) bytes h in
      (checksum, hashed, ok_or_inv (envelope checksum) (serialization "verifier state") bytes h)

  decode-encode :
      (s : VerifierState) (bytes : Bytes)
      → AreCodecs ops
      → encode_state ops s ≡ ok bytes
      → decode_state ops bytes ≡ ok s
  unfolding decode_state
  decode-encode s bytes c h =
      let (checksum, hashed, written) = encode_inv s bytes h in
      let p : PersistedVerifierState = record {
        schema = verifier_state_schema;
        state = s;
        checksum = ops.to_hex checksum;
      } in
      let self : same checksum checksum ≡ true = (same_iff checksum checksum).1 refl in
      rw (c.probes p bytes written, c.envelopes p bytes written, c.digests checksum, hashed, self)
        refl

  -- A write that succeeds leaves a file that loads as the verifier, and one that fails leaves the file.
  store-cases :
      (v : UpdateVerifier) (failing : Option WriteStep) (file : StateFile)
      (bootstrap : UpdateKeyring)
      → AreCodecs ops
      → ((e : UpdateError) × (store ops v failing file ≡ (file, err e)))
        ⊎ ((after : StateFile) × (store ops v failing file ≡ (after, ok tt))
            × (load ops after bootstrap ≡ ok v))
  unfolding store load from_state state
  store-cases v failing file bootstrap c = elim (Result-cases (encode_state ops (state v))) [
    | inl (e, bad) ↦ inl (e, rw (bad, store) refl)
    | inr (bytes, encoded) ↦ elim (Result-cases (write failing)) [
      | inl (e, bad) ↦ inl (e, rw (encoded, bad, store) refl)
      | inr (_, done) ↦ inr (
        contents bytes,
        rw (encoded, done, store) refl,
        rw (decode-encode (state v) bytes c encoded) refl,
      )
    ]
  ]

  module _ {V : Type 0} (update_ops : UpdateOps V) where
    -- An update that is verified and stored leaves a file from which a restart gets the very verifier
    -- that accepted it; one that is refused, or cannot be stored, leaves both the verifier and the
    -- file as they were. JSON and hexadecimal have to be read back as they were written.
    pub verify_and_store-durable :
        (d : Installation ops) (signed : SignedUpdateManifest V) (current : V)
        (installation_id : Bytes) (failing : Option WriteStep) (bootstrap : UpdateKeyring)
        → AreCodecs ops
        → ((e : UpdateError) × (verify_and_store ops update_ops d signed current installation_id
                failing
              ≡ (d, err e)))
          ⊎ ((after : UpdateVerifier) × (file : StateFile) × (verify update_ops d.verifier signed
                  current installation_id
                ≡ (after, ok (verified update_ops signed installation_id)))
              × (verify_and_store ops update_ops d signed current installation_id failing ≡ (
                record { verifier = after; file = file },
                ok (verified update_ops signed installation_id),
              ))
              × (load ops file bootstrap ≡ ok after))
    unfolding verify_and_store from_state state
    verify_and_store-durable d signed current installation_id failing bootstrap c =
        elim (verify-cases update_ops d.verifier signed current installation_id) [
          | inl (e, refused) ↦ inl (e, ap (λ q. store_verified ops update_ops d failing q) refused)
          | inr (keyring, _, _, accepted) ↦
              let after : UpdateVerifier = record {
                keyring = keyring;
                highest_accepted_sequence = signed.manifest.sequence;
              } in
              let update = verified update_ops signed installation_id in
              let end = λ (q : StateFile × Result (Unit {0})).
                store_or_roll_back ops update_ops (state d.verifier) after update q in
              let start = ap (λ q. store_verified ops update_ops d failing q) accepted in
              elim (store-cases after failing d.file bootstrap c) [
                | inl (e, kept) ↦ inl (e, start ∙ ap end kept)
                | inr (file, written, loads) ↦
                    inr (after, file, accepted, start ∙ ap end written, loads)
              ]
        ]
