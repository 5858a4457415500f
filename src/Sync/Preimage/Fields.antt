-- ===== src/Sync/Preimage/Fields.antt =====
-- Whole preimages: a domain and its fields are determined by the bytes.
use mathlib.Core.List.{append_assoc, append-nil}
use vbuff.Base.{
  ℕ, ◌≤◌, ◌≡◌, refl, ap, ◌∙◌, false, Option, none, some, List, [], ◌∷◌, ◌++◌, inl, inr, arith, leb,
  leb→le, Bool-cases, Bytes, length, u32_max,
}
use vbuff.Sync.Error.{Result, ok}
use vbuff.Sync.Preimage.{
  Preimage, be_bytes, new, fixed, var, byte, optional, u32_be, u64_be, finish,
}
use vbuff.Sync.Preimage.Framing.{Fits}

-- The calls that a writer of a preimage makes.
pub data Field : Type 0 where
  fixed_field var_field : Bytes → Field
  optional_field : Option Bytes → Field
  byte_field u32_field u64_field : ℕ → Field

unfoldable pub push_field : Preimage → Field → Preimage
push_field p (fixed_field bytes) = fixed p bytes
push_field p (var_field bytes) = var p bytes
push_field p (optional_field value) = optional p value
push_field p (byte_field value) = byte p value
push_field p (u32_field value) = u32_be p value
push_field p (u64_field value) = u64_be p value

unfoldable pub push_all : Preimage → List Field → Preimage
push_all p [] = p
push_all p (f ∷ fs) = push_all (push_field p f) fs

unfoldable pub build : Bytes → List Field → Result Bytes
build domain fields = finish (push_all (new domain) fields)

unfoldable pub encode_var : Bytes → Bytes
encode_var bytes = be_bytes 4 (length bytes) ++ bytes

-- The bytes of one field.
unfoldable pub encode : Field → Bytes
encode (fixed_field bytes) = bytes
encode (var_field bytes) = encode_var bytes
encode (optional_field none) = 0 ∷ []
encode (optional_field (some bytes)) = 1 ∷ encode_var bytes
encode (byte_field value) = value ∷ []
encode (u32_field value) = be_bytes 4 value
encode (u64_field value) = be_bytes 8 value

unfoldable pub encode_all : List Field → Bytes
encode_all [] = []
encode_all (f ∷ fs) = encode f ++ encode_all fs

unfoldable pub Short : Field → Type 0
Short (var_field bytes) = length bytes ≤ u32_max
Short (optional_field (some bytes)) = length bytes ≤ u32_max
Short f = Unit {0}

unfoldable pub AllShort : List Field → Type 0
AllShort [] = Unit {0}
AllShort (f ∷ fs) = Short f × AllShort fs

var-encodes :
    (p : Preimage) (bytes : Bytes)
    → (var p bytes).overflow ≡ false
    → (p.overflow ≡ false)
      × (length bytes ≤ u32_max)
      × ((var p bytes).buf ≡ p.buf ++ encode_var bytes)
unfolding var encode_var
var-encodes p bytes h = elim (Bool-cases (leb (length bytes) u32_max)) [
  | inl e ↦ (
    ground arith,
    leb→le _ _ e,
    rw (e, var) (append_assoc p.buf (be_bytes 4 (length bytes)) bytes),
  )
  | inr e ↦ absurd (ground arith)
]

push_field-encodes :
    (p : Preimage) (f : Field)
    → (push_field p f).overflow ≡ false
    → (p.overflow ≡ false) × Short f × ((push_field p f).buf ≡ p.buf ++ encode f)
unfolding push_field encode Short fixed byte optional u32_be u64_be
push_field-encodes p (fixed_field bytes) h = (h, tt, refl)
push_field-encodes p (var_field bytes) h = var-encodes p bytes h
push_field-encodes p (optional_field none) h = (h, tt, refl)
push_field-encodes p (optional_field (some bytes)) h =
    let (clear, short, written) = var-encodes (record p { buf = p.buf ++ 1 ∷ [] }) bytes h in
    (clear, short, written ∙ append_assoc p.buf (1 ∷ []) (encode_var bytes))
push_field-encodes p (byte_field value) h = (h, tt, refl)
push_field-encodes p (u32_field value) h = (h, tt, refl)
push_field-encodes p (u64_field value) h = (h, tt, refl)

pub push_all-encodes :
    (p : Preimage) (fs : List Field) (bytes : Bytes)
    → finish (push_all p fs) ≡ ok bytes
    → (p.overflow ≡ false) × AllShort fs × (bytes ≡ p.buf ++ encode_all fs)
unfolding push_all finish encode_all AllShort
push_all-encodes p [] bytes h = (ground arith, tt, rw append-nil (ground arith))
push_all-encodes p (f ∷ fs) bytes h =
    let (clear, short, written) = push_all-encodes (push_field p f) fs bytes h in
    let (before, this, one) = push_field-encodes p f clear in
    (
      before,
      (this, short),
      written ∙ ap (λ b. b ++ encode_all fs) one ∙ append_assoc p.buf (encode f) (encode_all fs),
    )

-- Two fields written by one call, with the values in the ranges of their types and with fixed
-- fields of one width.
abbrev pub SameShape : Field → Field → Type 0
SameShape (fixed_field a) (fixed_field b) = length a ≡ length b
SameShape (var_field a) (var_field b) = Unit {0}
SameShape (optional_field a) (optional_field b) = Unit {0}
SameShape (byte_field m) (byte_field n) = Unit {0}
SameShape (u32_field m) (u32_field n) = Fits 4 m × Fits 4 n
SameShape (u64_field m) (u64_field n) = Fits 8 m × Fits 8 n
SameShape _ _ = ⊥

abbrev pub AllSameShape : List Field → List Field → Type 0
AllSameShape [] [] = Unit {0}
AllSameShape [] (g ∷ gs) = ⊥
AllSameShape (f ∷ fs) [] = ⊥
AllSameShape (f ∷ fs) (g ∷ gs) = SameShape f g × AllSameShape fs gs
