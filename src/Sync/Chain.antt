-- ===== src/Sync/Chain.antt =====
-- `ChainEntry`, `ChainLink` and `SignedChain` of crates/vbuff-sync/src/chain.rs. The hash and the
-- signatures are those of the blake3 and ed25519_dalek crates: `Crypto` has the calls that the
-- chain makes. A `SigningKey` is its secret bytes.
pub mod Append
use Prim.Native.String.{String}
use vbuff.Base.{
  ℕ, zero, suc, Bool, true, false, not, ◌||◌, Option, none, some, List, [], ◌∷◌, ◌++◌,
  if◌then◌else◌, leb, ltb, same, Bytes, bytes_ord, length, replicate,
}
use vbuff.Sync.Error.{Result, ok, err, invalid, crypto, ◌>>=◌, ◌>>◌, fail_if}
use vbuff.Sync.Preimage.{Preimage, finish}
use vbuff.Sync.Preimage

pub record Crypto : Type 0 where
  pub blake3 : Bytes → Bytes
  pub verifying_key : Bytes → Bytes
  pub is_key : Bytes → Bool
  pub sign : Bytes → Bytes → Bytes
  pub verify : Bytes → Bytes → Bytes → Bool

-- What a type of links supplies. An error message is the text that names the chain.
pub record ChainEntry (E State Authority : Type 0) : Type 0 where
  pub domain : Bytes
  pub max_entries : ℕ
  pub label : String
  pub initial : State
  pub extend_preimage : E → Preimage → Preimage
  pub expected_signing_key : E → ℕ → State → Authority → Result Bytes
  pub apply : E → State → State

pub record ChainLink (E : Type 0) : Type 0 where
  pub payload : E
  pub previous_hash : Bytes
  pub hash : Bytes
  pub signature : Bytes

pub record SignedChain (E : Type 0) : Type 0 where
  pub entries : List (ChainLink E)

abbrev pub no_hash : Bytes
no_hash = replicate 32 0

-- The hash of the last link, or the given one before the first.
unfoldable pub last_hash : {E : Type 0} → Bytes → List (ChainLink E) → Bytes
last_hash before [] = before
last_hash before (l ∷ ls) = last_hash l.hash ls

unfoldable pub head : {E : Type 0} → SignedChain E → Bytes
unfolding last_hash
head c = last_hash no_hash c.entries

module _ {E State Authority : Type 0} (entry : ChainEntry E State Authority) where
  unfoldable pub link_preimage : E → Bytes → Result Bytes
  link_preimage payload previous_hash =
      finish
        (entry.extend_preimage payload (Preimage.fixed (Preimage.new entry.domain) previous_hash))

  -- The state after the links, from a given one.
  unfoldable pub replay : State → List (ChainLink E) → State
  replay state [] = state
  replay state (l ∷ ls) = replay (entry.apply l.payload state) ls

  module _ (crypto_ops : Crypto) where
    open crypto_ops use {blake3, verifying_key, is_key, sign, verify as verify_signature}

    unfoldable pub append : SignedChain E → E → Authority → Bytes → Result (SignedChain E × Bytes)
    unfolding link_preimage replay head
    append c payload authority signing_key = do
      fail_if (leb entry.max_entries (length c.entries)) (invalid entry.label)
      let index = length c.entries
      let state = replay entry.initial c.entries
      expected ← entry.expected_signing_key payload index state authority
      fail_if (not (same (verifying_key signing_key) expected)) (invalid entry.label)
      preimage ← link_preimage payload (head c)
      ok (
        record {
          entries =
              c.entries
              ++ record {
                payload = payload;
                previous_hash = head c;
                hash = blake3 preimage;
                signature = sign signing_key preimage;
              }
                ∷ [];
        },
        blake3 preimage,
      )

    -- The body of the loop of `verify`.
    unfoldable pub verify_link : ℕ → State → Bytes → Authority → ChainLink E → Result (Unit {0})
    unfolding link_preimage
    verify_link index state previous_hash authority link = do
      preimage ← link_preimage link.payload link.previous_hash
      fail_if
          (not (same link.previous_hash previous_hash) || not (same (blake3 preimage) link.hash))
          (invalid entry.label)
      expected ← entry.expected_signing_key link.payload index state authority
      fail_if (not (is_key expected)) crypto
      fail_if (not (verify_signature expected preimage link.signature)) crypto

    unfoldable pub verify_from :
        ℕ → State → Bytes → Authority → List (ChainLink E) → Result (Unit {0})
    unfolding verify_link
    verify_from index state previous_hash authority [] = ok tt
    verify_from index state previous_hash authority (l ∷ ls) =
        let rest = verify_from (suc index) (entry.apply l.payload state) l.hash authority ls in
        verify_link index state previous_hash authority l >> rest

    unfoldable pub verify : SignedChain E → Authority → Result (Unit {0})
    unfolding verify_from
    verify c authority = do
      fail_if (ltb entry.max_entries (length c.entries)) (invalid entry.label)
      verify_from 0 entry.initial no_hash authority c.entries
