-- ===== src/Types/Mac.antt =====
-- crates/vbuff-types/src/mac.rs: message authentication codes over domain-separated preimages. The
-- code itself is that of the hmac crate, the parameter `hmac` of a key and a message. A proof that
-- is not finished is the message and its key.
use vbuff.Base.{ℕ, Bool, List, [], ◌∷◌, ◌++◌, Bytes, bytes_ord, same}

pub data DomainSeparator : Type 0 where
  nul unterminated : DomainSeparator
  ascii : ℕ → DomainSeparator

pub record MacDomain : Type 0 where
  pub label : Bytes
  pub separator : DomainSeparator

unfoldable pub new : Bytes → MacDomain
new label = record { label = label; separator = nul }

pub record MacProof : Type 0 where
  pub key : Bytes
  pub message : Bytes

abbrev pub separator_bytes : DomainSeparator → Bytes
separator_bytes nul = 0 ∷ []
separator_bytes (ascii byte) = byte ∷ []
separator_bytes unterminated = []

abbrev pub concat : List Bytes → Bytes
concat [] = []
concat (part ∷ parts) = part ++ concat parts

unfoldable pub hmac_proof : MacDomain → Bytes → List Bytes → MacProof
hmac_proof domain key parts = record {
  key = key;
  message = domain.label ++ (separator_bytes domain.separator ++ concat parts);
}

module _ (hmac : Bytes → Bytes → Bytes) where
  unfoldable pub finish : MacProof → Bytes
  finish p = hmac p.key p.message

  unfoldable pub verify : MacProof → Bytes → Bool
  verify p tag = same (hmac p.key p.message) tag
