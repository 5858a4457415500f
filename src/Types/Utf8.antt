-- ===== src/Types/Utf8.antt =====
-- `str::from_utf8`: what its bytes decode to. Overlong forms, surrogates, numbers above 0x10ffff and
-- cut off characters are refused.
use vbuff.Base.{
  ◌/◌, ◌%◌, ◌++◌, ℕ, zero, suc, ◌+◌, ◌-◌, ◌*◌, ◌&&◌, ◌==◌, leb, ltb, if◌then◌else◌, Option, none,
  some, [], ◌∷◌, Bytes,
}
use vbuff.Types.Text.{Text}

-- What a byte does: it ends a character, awaits more bytes of it, of which the next is in a range, or
-- cannot stand there.
pub data Utf8Step : Type 0 where
  ended : ℕ → Utf8Step
  awaiting : ℕ → ℕ → ℕ → ℕ → Utf8Step
  invalid : Utf8Step

abbrev first_byte : ℕ → Utf8Step
first_byte b =
    if ltb b 0x80
    then ended b
    else if leb 0xc2 b && leb b 0xdf
    then awaiting 1 (b - 0xc0) 0x80 0xbf
    else if b == 0xe0
    then awaiting 2 0 0xa0 0xbf
    else if b == 0xed
    then awaiting 2 0xd 0x80 0x9f
    else if leb 0xe1 b && leb b 0xef
    then awaiting 2 (b - 0xe0) 0x80 0xbf
    else if b == 0xf0
    then awaiting 3 0 0x90 0xbf
    else if b == 0xf4
    then awaiting 3 4 0x80 0x8f
    else if leb 0xf1 b && leb b 0xf3
    then awaiting 3 (b - 0xf0) 0x80 0xbf
    else invalid

abbrev next_byte : ℕ → ℕ → Utf8Step
next_byte zero value = ended value
next_byte (suc n) value = awaiting (suc n) value 0x80 0xbf

abbrev utf8_step : ℕ → ℕ → ℕ → ℕ → ℕ → Utf8Step
utf8_step zero value low high b = first_byte b
utf8_step (suc n) value low high b =
    if leb low b && leb b high then next_byte n (64 * value + (b - 0x80)) else invalid

abbrev cons_char : ℕ → Option Text → Option Text
cons_char c none = none
cons_char c (some text) = some (c ∷ text)

-- With the number of bytes that are missing, the value so far, and the range of the next byte.
abbrev decode_from : ℕ → ℕ → ℕ → ℕ → Bytes → Option Text
decode_from zero value low high [] = some []
decode_from (suc n) value low high [] = none
decode_from n value low high (b ∷ bytes) = elim (utf8_step n value low high b) [
  | ended c ↦ cons_char c (decode_from 0 0 0 0 bytes)
  | awaiting m v l h ↦ decode_from m v l h bytes
  | invalid ↦ none
]

unfoldable pub from_utf8 : Bytes → Option Text
from_utf8 bytes = decode_from 0 0 0 0 bytes

-- `char::encode_utf8`.
abbrev pub encode_char : ℕ → Bytes
encode_char c =
    if ltb c 0x80
    then c ∷ []
    else if ltb c 0x800
    then (0xc0 + c / 64) ∷ (0x80 + c % 64) ∷ []
    else if ltb c 0x1_0000
    then (0xe0 + c / 4_096) ∷ (0x80 + c / 64 % 64) ∷ (0x80 + c % 64) ∷ []
    else (0xf0 + c / 262_144)
      ∷ (0x80 + c / 4_096 % 64)
      ∷ (0x80 + c / 64 % 64)
      ∷ (0x80 + c % 64)
      ∷ []

-- `str::as_bytes`.
unfoldable pub as_bytes : Text → Bytes
as_bytes [] = []
as_bytes (c ∷ text) = encode_char c ++ as_bytes text
