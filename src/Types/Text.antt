-- ===== src/Types/Text.antt =====
-- What the crates ask of a `String`, as its list of characters: their code points.
use vbuff.Base.{ℕ, ◌+◌, Bool, ◌&&◌, ◌||◌, ◌==◌, ltb, leb, if◌then◌else◌, List, [], ◌∷◌}
unfoldable pub use vbuff.Base.Iter.{any, all}

abbrev pub Text : Type 0
Text = List ℕ

-- `char::len_utf8` and `str::len`.
unfoldable pub len_utf8 : ℕ → ℕ
len_utf8 c = if ltb c 0x80 then 1 else if ltb c 0x800 then 2 else if ltb c 0x1_0000 then 3 else 4

unfoldable pub len : Text → ℕ
len [] = 0
len (c ∷ cs) = len_utf8 c + len cs

-- `char::is_whitespace`, the property White_Space of Unicode.
unfoldable pub is_whitespace : ℕ → Bool
is_whitespace c =
    (leb 0x9 c && leb c 0xd)
    || (c == 0x20 || c == 0x85 || c == 0xa0 || c == 0x1680)
    || (leb 0x2000 c && leb c 0x200a)
    || (c == 0x2028 || c == 0x2029 || c == 0x202f || c == 0x205f || c == 0x3000)

-- `char::is_control`, the category Cc of Unicode.
unfoldable pub is_control : ℕ → Bool
is_control c = leb c 0x1f || (leb 0x7f c && leb c 0x9f)

-- `text.trim().is_empty()`.
unfoldable pub is_blank : Text → Bool
unfolding is_whitespace
is_blank text = all is_whitespace text
