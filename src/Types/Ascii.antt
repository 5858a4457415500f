-- ===== src/Types/Ascii.antt =====
-- The methods of `str` and `char` by which the crates scan text: the ASCII classes, `split`,
-- `contains`, `starts_with` and the trims.
use vbuff.Base.{ℕ, ◌+◌, Bool, true, false, ◌&&◌, ◌||◌, ◌==◌, leb, if◌then◌else◌, List, [], ◌∷◌, map}
use vbuff.Base.Iter.{any}
use vbuff.Types.Text.{Text, is_whitespace}

abbrev pub is_empty {ℓ} : {A : Type ℓ} → List A → Bool
is_empty [] = true
is_empty (x ∷ xs) = false

unfoldable pub is_ascii_digit : ℕ → Bool
is_ascii_digit c = leb b'0' c && leb c b'9'

unfoldable pub is_ascii_uppercase : ℕ → Bool
is_ascii_uppercase c = leb b'A' c && leb c b'Z'

unfoldable pub is_ascii_lowercase : ℕ → Bool
is_ascii_lowercase c = leb b'a' c && leb c b'z'

unfoldable pub is_ascii_alphabetic : ℕ → Bool
unfolding is_ascii_uppercase is_ascii_lowercase
is_ascii_alphabetic c = is_ascii_uppercase c || is_ascii_lowercase c

unfoldable pub is_ascii_alphanumeric : ℕ → Bool
unfolding is_ascii_alphabetic is_ascii_digit
is_ascii_alphanumeric c = is_ascii_alphabetic c || is_ascii_digit c

unfoldable pub is_ascii : ℕ → Bool
is_ascii c = leb c 127

-- Space, tab, line feed, form feed and carriage return.
unfoldable pub is_ascii_whitespace : ℕ → Bool
is_ascii_whitespace c = c == 0x20 || c == 0x9 || c == 0xa || c == 0xc || c == 0xd

unfoldable pub ascii_lowercase : ℕ → ℕ
unfolding is_ascii_uppercase
ascii_lowercase c = if is_ascii_uppercase c then c + 32 else c

unfoldable pub to_ascii_lowercase : Text → Text
unfolding ascii_lowercase
to_ascii_lowercase text = map ascii_lowercase text

abbrev pub is_one_of : Text → ℕ → Bool
is_one_of chars c = any (λ d. c == d) chars

abbrev pub starts_with : Text → Text → Bool
starts_with text [] = true
starts_with [] (c ∷ prefix) = false
starts_with (d ∷ text) (c ∷ prefix) = d == c && starts_with text prefix

abbrev pub equals : Text → Text → Bool
equals [] [] = true
equals (c ∷ a) (d ∷ b) = c == d && equals a b
equals _ _ = false

-- `text.contains(needle)`.
abbrev pub contains : Text → Text → Bool
contains [] needle = is_empty needle
contains (c ∷ text) needle = starts_with (c ∷ text) needle || contains text needle

abbrev pub prepend : ℕ → List Text → List Text
prepend c [] = (c ∷ []) ∷ []
prepend c (word ∷ words) = (c ∷ word) ∷ words

-- `text.split(test)`.
abbrev pub split : (ℕ → Bool) → Text → List Text
split test [] = [] ∷ []
split test (c ∷ text) =
    let words = split test text in if test c then [] ∷ words else prepend c words

abbrev pub trim_start_matches : (ℕ → Bool) → Text → Text
trim_start_matches test [] = []
trim_start_matches test (c ∷ text) =
    let rest = trim_start_matches test text in if test c then rest else c ∷ text

abbrev pub trim_end_matches : (ℕ → Bool) → Text → Text
trim_end_matches test [] = []
trim_end_matches test (c ∷ text) =
    let rest = trim_end_matches test text in if is_empty rest && test c then [] else c ∷ rest

unfoldable pub trim_matches : (ℕ → Bool) → Text → Text
trim_matches test text = trim_end_matches test (trim_start_matches test text)

unfoldable pub trim : Text → Text
unfolding trim_matches is_whitespace
trim text = trim_matches is_whitespace text
