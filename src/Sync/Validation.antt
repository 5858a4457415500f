-- ===== src/Sync/Validation.antt =====
-- The tests of crates/vbuff-types/src/validation.rs that vbuff-sync calls. A string is its bytes.
use vbuff.Base.{ℕ, Bool, true, false, not, ◌&&◌, ◌||◌, ◌==◌, leb, [], ◌∷◌, Bytes, bytes_ord, length}

abbrev pub all : (ℕ → Bool) → Bytes → Bool
all test [] = true
all test (b ∷ bs) = test b && all test bs

abbrev contains : Bytes → ℕ → Bool
contains [] byte = false
contains (b ∷ bs) byte = b == byte || contains bs byte

unfoldable pub all_zero : Bytes → Bool
all_zero bytes = all (λ byte. byte == 0) bytes

-- `byte.is_ascii_alphanumeric()`.
abbrev pub is_alphanumeric : ℕ → Bool
is_alphanumeric b =
    (leb b'0' b && leb b b'9') || (leb b'A' b && leb b b'Z') || (leb b'a' b && leb b b'z')

unfoldable pub is_valid_identifier_with_extra : Bytes → ℕ → Bytes → Bool
is_valid_identifier_with_extra value max_len extra =
    not (length value == 0)
    && leb (length value) max_len
    && all (λ b. is_alphanumeric b || (b == b'-' || b == b'_' || b == b'.') || contains extra b)
        value

unfoldable pub is_valid_identifier : Bytes → ℕ → Bool
unfolding is_valid_identifier_with_extra
is_valid_identifier value max_len = is_valid_identifier_with_extra value max_len []
