-- ===== src/Sync/Preimage/Unambiguous.antt =====
-- Different domains or different fields never make one preimage.
use mathlib.Core.List.{append_assoc}
use mathlib.Core.Path.{ap₂}
use vbuff.Base.{
  ℕ, ◌≡◌, ◌≢◌, refl, sym, ap, ◌∙◌, none, some, List, [], ◌∷◌, ◌++◌, arith, Bytes, length, u32_max,
  ◌≤◌,
}
use vbuff.Sync.Error.{ok}
use vbuff.Sync.Preimage.{be_bytes, new}
use vbuff.Sync.Preimage.Framing.{append_split, length-be_bytes, Fits, be_bytes-injective, var_split}
use vbuff.Sync.Preimage.Fields.{
  Field, fixed_field, var_field, optional_field, byte_field, u32_field, u64_field, build, encode,
  encode_var, encode_all, Short, AllShort, SameShape, AllSameShape, push_all-encodes,
}

encode_var-split :
    (a b r q : Bytes)
    → length a ≤ u32_max
    → length b ≤ u32_max
    → encode_var a ++ r ≡ encode_var b ++ q
    → (a ≡ b) × (r ≡ q)
unfolding encode_var
encode_var-split a b r q h k e =
    var_split a b r q h k (
      sym (append_assoc (be_bytes 4 (length a)) a r) ∙ e ∙ append_assoc (be_bytes 4 (length b)) b q)

word_split :
    (w m n : ℕ) (r q : Bytes)
    → Fits w m
    → Fits w n
    → be_bytes w m ++ r ≡ be_bytes w n ++ q
    → (m ≡ n) × (r ≡ q)
word_split w m n r q h k e =
    let (same_bytes, rest) =
      append_split (be_bytes w m) (be_bytes w n) r q
        (length-be_bytes w m ∙ sym (length-be_bytes w n)) e in
    (be_bytes-injective w m n h k same_bytes, rest)

encode-split :
    (f g : Field) (r q : Bytes)
    → SameShape f g
    → Short f
    → Short g
    → encode f ++ r ≡ encode g ++ q
    → (f ≡ g) × (r ≡ q)
unfolding encode Short
encode-split (fixed_field a) (fixed_field b) r q s h k e =
    let (x, y) = append_split a b r q s e in (ap fixed_field x, y)
encode-split (var_field a) (var_field b) r q s h k e =
    let (x, y) = encode_var-split a b r q h k e in (ap var_field x, y)
encode-split (optional_field none) (optional_field none) r q s h k e = (refl, ground arith)
encode-split (optional_field none) (optional_field (some b)) r q s h k e = absurd (ground arith)
encode-split (optional_field (some a)) (optional_field none) r q s h k e = absurd (ground arith)
encode-split (optional_field (some a)) (optional_field (some b)) r q s h k e =
    let (x, y) = encode_var-split a b r q h k (ground arith) in
    (ap (λ z. optional_field (some z)) x, y)
encode-split (byte_field m) (byte_field n) r q s h k e = (ground arith, ground arith)
encode-split (u32_field m) (u32_field n) r q s h k e =
    let (x, y) = word_split 4 m n r q s.0 s.1 e in (ap u32_field x, y)
encode-split (u64_field m) (u64_field n) r q s h k e =
    let (x, y) = word_split 8 m n r q s.0 s.1 e in (ap u64_field x, y)
encode-split f g r q s h k e = absurd s

encode_all-injective :
    (fs gs : List Field)
    → AllSameShape fs gs
    → AllShort fs
    → AllShort gs
    → encode_all fs ≡ encode_all gs
    → fs ≡ gs
unfolding encode_all AllShort
encode_all-injective [] [] s h k e = refl
encode_all-injective [] (g ∷ gs) s h k e = absurd s
encode_all-injective (f ∷ fs) [] s h k e = absurd s
encode_all-injective (f ∷ fs) (g ∷ gs) s h k e =
    let (x, y) = encode-split f g (encode_all fs) (encode_all gs) s.0 h.0 k.0 e in
    ap₂ ◌∷◌ x (encode_all-injective fs gs s.1 h.1 k.1 y)

-- A bare label, as the domain constants are.
abbrev pub NoNul : Bytes → Type 0
NoNul [] = Unit {0}
NoNul (x ∷ xs) = (x ≢ 0) × NoNul xs

domain_split : (d c r q : Bytes) → NoNul d → NoNul c → d ++ 0 ∷ r ≡ c ++ 0 ∷ q → (d ≡ c) × (r ≡ q)
domain_split [] [] r q h k e = (refl, ground arith)
domain_split [] (y ∷ c) r q h k e = absurd (k.0 (ground arith))
domain_split (x ∷ d) [] r q h k e = absurd (h.0 (ground arith))
domain_split (x ∷ d) (y ∷ c) r q h k e =
    let (p, s) = domain_split d c r q h.1 k.1 (ground arith) in (ground arith, s)

-- Preimages that are built to the same bytes have the same domain and the same fields, for domains
-- without a NUL byte and lists of fields that are written by the same calls, with fixed fields of
-- the same widths and integers in range.
pub build-injective :
    (domain label : Bytes) (fs gs : List Field) (bytes : Bytes)
    → NoNul domain
    → NoNul label
    → AllSameShape fs gs
    → build domain fs ≡ ok bytes
    → build label gs ≡ ok bytes
    → (domain ≡ label) × (fs ≡ gs)
unfolding build new
build-injective domain label fs gs bytes h k s e f =
    let (_, short, written) = push_all-encodes (new domain) fs bytes e in
    let (_, brief, wrote) = push_all-encodes (new label) gs bytes f in
    let (x, y) = domain_split domain label (encode_all fs) (encode_all gs) h k (
      sym (append_assoc domain (0 ∷ []) (encode_all fs))
      ∙ sym written
      ∙ wrote
      ∙ append_assoc label (0 ∷ []) (encode_all gs)) in
    (x, encode_all-injective fs gs s short brief y)
