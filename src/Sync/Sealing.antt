-- ===== src/Sync/Sealing.antt =====
-- `seal_to` of crates/vbuff-sync/src/crypto.rs: a message sealed to a public key. The key exchange,
-- the key derivation and the cipher are those of the x25519_dalek, hkdf and chacha20poly1305 crates:
-- `SealOps` has the calls that are made. The random bytes are arguments.
use vbuff.Base.{Bool, not, Option, [], ◌∷◌, ◌++◌, Bytes}
use vbuff.Sync.Error.{Result, ok, crypto, ok_or, fail_if, ◌>>=◌, ◌>>◌}

pub record SealOps : Type 0 where
  pub public_key : Bytes → Bytes
  pub diffie_hellman : Bytes → Bytes → Bytes
  pub was_contributory : Bytes → Bool
  -- From the salt, the secret and the purpose.
  pub hkdf_expand : Bytes → Bytes → Bytes → Option Bytes
  -- From the key, the nonce, the message and what is authenticated with it.
  pub encrypt : Bytes → Bytes → Bytes → Bytes → Option Bytes

pub record SealedEnvelope : Type 0 where
  pub ephemeral_public_key : Bytes
  pub nonce : Bytes
  pub ciphertext : Bytes

abbrev sealed_sender : Bytes
sealed_sender =
    b'v' ∷ b'b' ∷ b'u' ∷ b'f' ∷ b'f' ∷ b'-' ∷ b's' ∷ b'e' ∷ b'a' ∷ b'l' ∷ b'e' ∷ b'd' ∷ b'-' ∷ b's'
    ∷ b'e' ∷ b'n' ∷ b'd' ∷ b'e' ∷ b'r' ∷ b'-' ∷ b'v' ∷ b'1' ∷ []

-- What one call draws: the ephemeral secret, and the nonce if randomness is to be had.
pub record Randomness : Type 0 where
  pub ephemeral_secret : Bytes
  pub nonce : Option Bytes

module _ (ops : SealOps) where
  unfoldable pub derive_sealed_key : Bytes → Bytes → Bytes → Result Bytes
  derive_sealed_key shared ephemeral_public recipient_public =
      ok_or (ops.hkdf_expand (ephemeral_public ++ recipient_public) shared sealed_sender) crypto

  unfoldable pub seal_to : Randomness → Bytes → Bytes → Bytes → Result SealedEnvelope
  unfolding derive_sealed_key
  seal_to random recipient plaintext aad = do
    let ephemeral_public = ops.public_key random.ephemeral_secret
    let shared = ops.diffie_hellman random.ephemeral_secret recipient
    fail_if (not (ops.was_contributory shared)) crypto
    key ← derive_sealed_key shared ephemeral_public recipient
    nonce ← ok_or random.nonce crypto
    ciphertext ← ok_or (ops.encrypt key nonce plaintext aad) crypto
    ok (record { ephemeral_public_key = ephemeral_public; nonce = nonce; ciphertext = ciphertext })
