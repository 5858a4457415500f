-- ===== src/Sync/Preimage/Framing.antt =====
-- The framing is unambiguous: the bytes determine the fields.
use vbuff.Base.{
  ℕ, zero, suc, ◌/◌, ◌%◌, ◌≤◌, ◌≡◌, refl, sym, ◌∙◌, [], ◌∷◌, ◌++◌, arith, Bytes, length,
  length-append, u32_max,
}
use vbuff.Sync.Preimage.{be_bytes}

-- A split of one list at the same length is one split.
pub append_split : (a b r q : Bytes) → length a ≡ length b → a ++ r ≡ b ++ q → (a ≡ b) × (r ≡ q)
append_split [] [] r q h e = (refl, e)
append_split [] (y ∷ b) r q h e = absurd (omega arith)
append_split (x ∷ a) [] r q h e = absurd (omega arith)
append_split (x ∷ a) (y ∷ b) r q h e =
    let (p, s) = append_split a b r q (omega arith) (ground arith) in (ground arith, s)

pub length-be_bytes : (w n : ℕ) → length (be_bytes w n) ≡ w
unfolding be_bytes
length-be_bytes zero n = refl
length-be_bytes (suc w) n =
    omega (arith, length-append (be_bytes w (n / 256)) (n % 256 ∷ []), length-be_bytes w (n / 256))

-- The numbers that fit in so many bytes.
abbrev pub Fits : ℕ → ℕ → Type 0
Fits zero n = n ≡ 0
Fits (suc w) n = Fits w (n / 256)

pub be_bytes-injective : (w m n : ℕ) → Fits w m → Fits w n → be_bytes w m ≡ be_bytes w n → m ≡ n
unfolding be_bytes
be_bytes-injective zero m n h k e = omega arith
be_bytes-injective (suc w) m n h k e =
    let (high, low) =
      append_split (be_bytes w (m / 256)) (be_bytes w (n / 256)) (m % 256 ∷ []) (n % 256 ∷ [])
        (length-be_bytes w (m / 256) ∙ sym (length-be_bytes w (n / 256))) e in
    let remainder : m % 256 ≡ n % 256 = ground arith in
    omega (arith, be_bytes-injective w (m / 256) (n / 256) h k high, remainder)

-- A length-prefixed field and what follows it are determined by the bytes.
pub var_split :
    (a b r q : Bytes)
    → length a ≤ u32_max
    → length b ≤ u32_max
    → be_bytes 4 (length a) ++ (a ++ r) ≡ be_bytes 4 (length b) ++ (b ++ q)
    → (a ≡ b) × (r ≡ q)
var_split a b r q h k e =
    let (prefix, rest) =
      append_split (be_bytes 4 (length a)) (be_bytes 4 (length b)) (a ++ r) (b ++ q)
        (length-be_bytes 4 (length a) ∙ sym (length-be_bytes 4 (length b))) e in
    let lengths = be_bytes-injective 4 (length a) (length b) (omega arith) (omega arith) prefix in
    append_split a b r q lengths rest
