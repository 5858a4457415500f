-- ===== src/Types/Flavor.antt =====
-- `Flavor` and `Body` of crates/vbuff-types/src/lib.rs.
use vbuff.Base.{ℕ, Bool, true, false, ◌||◌, ◌==◌, Option, none, some, List, [], ◌∷◌, Bytes, length}
use vbuff.Types.Text.{Text}
use vbuff.Types.Ascii.{equals, starts_with, split, to_ascii_lowercase, trim}
use vbuff.Types.Utf8.{from_utf8}

pub data FlavorRealization : Type 0 where
  realized deferred failed truncated : FlavorRealization

pub data FlavorOrigin : Type 0 where
  source os_synthesized vbuff_derived : FlavorOrigin

-- Inline bytes, or the digest of a blob and its size.
pub data Body : Type 0 where
  inline : Bytes → Body
  spilled : Bytes → ℕ → Body

unfoldable pub byte_size : Body → ℕ
byte_size (inline bytes) = length bytes
byte_size (spilled blob_ref size) = size

unfoldable pub inline_bytes : Body → Option Bytes
inline_bytes (inline bytes) = some bytes
inline_bytes (spilled blob_ref size) = none

pub record Flavor : Type 0 where
  pub mime : Text
  pub body : Body
  pub origin : FlavorOrigin
  pub realization : FlavorRealization
  pub integrity_hash : Option Bytes

abbrev pub text_mime : Text
text_mime = b't' ∷ b'e' ∷ b'x' ∷ b't' ∷ []

abbrev pub text_prefix : Text
text_prefix = b't' ∷ b'e' ∷ b'x' ∷ b't' ∷ b'/' ∷ []

abbrev pub is_realized_state : FlavorRealization → Bool
is_realized_state realized = true
is_realized_state _ = false

unfoldable pub is_realized : Flavor → Bool
is_realized f = is_realized_state f.realization

abbrev pub first_part : List Text → Text → Text
first_part [] whole = whole
first_part (part ∷ parts) whole = part

unfoldable pub mime_essence : Flavor → Text
unfolding trim
mime_essence f = trim (first_part (split (λ c. c == b';') f.mime) f.mime)

-- A prefix of five bytes that is `text/` in ASCII is the first five characters.
unfoldable pub is_text : Flavor → Bool
unfolding mime_essence to_ascii_lowercase
is_text f =
    let mime = to_ascii_lowercase (mime_essence f) in
    equals mime text_mime || starts_with mime text_prefix

unfoldable pub as_text : Flavor → Option Text
unfolding inline_bytes from_utf8
as_text f = elim (inline_bytes f.body) [ none ↦ none | some bytes ↦ from_utf8 bytes ]

abbrev pub plain_mime : Text
plain_mime = b't' ∷ b'e' ∷ b'x' ∷ b't' ∷ b'/' ∷ b'p' ∷ b'l' ∷ b'a' ∷ b'i' ∷ b'n' ∷ []

abbrev pub image_prefix : Text
image_prefix = b'i' ∷ b'm' ∷ b'a' ∷ b'g' ∷ b'e' ∷ b'/' ∷ []

unfoldable pub is_plain_text : Flavor → Bool
unfolding mime_essence to_ascii_lowercase
is_plain_text f =
    let mime = to_ascii_lowercase (mime_essence f) in
    equals mime plain_mime || equals mime text_mime

unfoldable pub is_image : Flavor → Bool
unfolding mime_essence to_ascii_lowercase
is_image f = starts_with (to_ascii_lowercase (mime_essence f)) image_prefix
