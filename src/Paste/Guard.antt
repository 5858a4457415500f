-- ===== src/Paste/Guard.antt =====
-- `PasteGuardFingerprint` of crates/vbuff-core/src/intelligence/actions.rs: what is compared of the
-- clipboard before a paste. `GuardOps` has the calls of the url and blake3 crates.
use vbuff.Base.{
  ℕ, zero, suc, ◌/◌, ◌%◌, Ordering, Bool, true, false, not, ◌&&◌, ◌||◌, ◌==◌, leb, if◌then◌else◌,
  Option, none, some, List, [], ◌∷◌, ◌++◌, Bytes, bytes_ord, cmp_bytes, same, then_with, length,
  drop,
}
use vbuff.Base.Iter.{any, all, find}
use vbuff.Types.Text.{Text, len}
use vbuff.Types.Ascii.{
  is_empty, is_one_of, is_ascii_digit, is_ascii_alphanumeric, starts_with, to_ascii_lowercase, trim,
}
use vbuff.Types.Utf8.{as_bytes}
use vbuff.Types.Flavor.{
  Flavor, Body, inline, spilled, plain_mime, is_text, is_image, is_plain_text, as_text,
}

pub data StructuralIdentity : Type 0 where
  text url crypto_address image : StructuralIdentity

pub record PasteGuardFingerprint : Type 0 where
  pub digest : Bytes
  pub identity : StructuralIdentity
  pub host_hash : Option Bytes

pub data PasteGuardDecision : Type 0 where
  allow block_unreadable block_content_changed block_address_substitution
        block_domain_substitution :
      PasteGuardDecision

pub record GuardOps : Type 0 where
  -- The host of a URL that parses, if it has one.
  pub parse_url : Text → Option (Option Text)
  pub blake3 : Bytes → Bytes

abbrev pub le_bytes : ℕ → ℕ → Bytes
le_bytes zero n = []
le_bytes (suc width) n = n % 256 ∷ le_bytes width (n / 256)

-- `text.replace("\r\n", "\n")`.
abbrev pub replace_crlf : Text → Text
replace_crlf [] = []
replace_crlf (c ∷ []) = c ∷ []
replace_crlf (c ∷ d ∷ cs) =
    let rest = replace_crlf (d ∷ cs) in if c == 13 && d == 10 then rest else c ∷ rest

unfoldable pub guard_mime : Flavor → Text
unfolding is_plain_text
guard_mime f = if is_plain_text f then plain_mime else f.mime

abbrev pub is_gt : Ordering → Bool
is_gt Ordering.gt = true
is_gt _ = false

unfoldable pub cmp_mime : Flavor → Flavor → Ordering
unfolding cmp_bytes guard_mime
cmp_mime left right =
    then_with (cmp_bytes (guard_mime left) (guard_mime right)) (cmp_bytes left.mime right.mime)

abbrev pub insert_sorted : Flavor → List Flavor → List Flavor
insert_sorted f [] = f ∷ []
insert_sorted f (g ∷ flavors) =
    let rest = insert_sorted f flavors in if is_gt (cmp_mime f g) then g ∷ rest else f ∷ g ∷ flavors

-- `sort_by`, which keeps the order of equal elements.
abbrev pub sorted : List Flavor → List Flavor
sorted [] = []
sorted (f ∷ flavors) = insert_sorted f (sorted flavors)

abbrev pub stored_bytes : Body → Bytes
stored_bytes (inline bytes) = bytes
stored_bytes (spilled blob_ref size) = blob_ref

abbrev pub text_of : Flavor → Option Text
text_of f = if is_text f then as_text f else none

abbrev pub hashed_bytes : Flavor → Bytes
hashed_bytes f = elim (text_of f) [
  | none ↦ stored_bytes f.body
  | some content ↦ as_bytes (replace_crlf content)
]

-- What the hasher reads of a flavor.
abbrev pub flavor_bytes : Flavor → Bytes
flavor_bytes f =
    le_bytes 8 (length (as_bytes (guard_mime f)))
    ++ (as_bytes (guard_mime f) ++ (le_bytes 8 (length (hashed_bytes f)) ++ hashed_bytes f))

abbrev pub all_bytes : List Flavor → Bytes
all_bytes [] = []
all_bytes (f ∷ flavors) = flavor_bytes f ++ all_bytes flavors

abbrev pub hex_letters : Text
hex_letters = b'a' ∷ b'b' ∷ b'c' ∷ b'd' ∷ b'e' ∷ b'f' ∷ b'A' ∷ b'B' ∷ b'C' ∷ b'D' ∷ b'E' ∷ b'F' ∷ []

unfoldable pub looks_like_crypto_address : Text → Bool
unfolding is_ascii_digit is_ascii_alphanumeric
looks_like_crypto_address t =
    (len t == 42
      && starts_with t (b'0' ∷ b'x' ∷ [])
      && all (λ c. is_ascii_digit c || is_one_of hex_letters c) (drop 2 t))
    || (leb 26 (len t)
        && leb (len t) 62
        && all is_ascii_alphanumeric t
        && not (any (is_one_of (b'I' ∷ b'O' ∷ b'l' ∷ [])) t))

abbrev pub first_text : Option Flavor → Option Text
first_text none = none
first_text (some f) = as_text f

abbrev pub is_found {ℓ} : {A : Type ℓ} → Option A → Bool
is_found none = false
is_found (some a) = true

module _ (ops : GuardOps) where
  abbrev pub host_hash_of : Option (Option Text) → Option Bytes
  host_hash_of (some (some host)) = some (ops.blake3 (as_bytes (to_ascii_lowercase host)))
  host_hash_of _ = none

  abbrev pub identify : Bytes → Text → PasteGuardFingerprint
  identify digest trimmed = record {
    digest = digest;
    identity =
        if looks_like_crypto_address trimmed
        then StructuralIdentity.crypto_address
        else if is_found (ops.parse_url trimmed)
        then StructuralIdentity.url
        else StructuralIdentity.text;
    host_hash = host_hash_of (ops.parse_url trimmed);
  }

  abbrev pub identify_image : Bytes → List Flavor → Option PasteGuardFingerprint
  identify_image digest flavors =
      if any is_image flavors
      then some (record { digest = digest; identity = StructuralIdentity.image; host_hash = none })
      else none

  unfoldable pub from_flavors : List Flavor → Option PasteGuardFingerprint
  unfolding guard_mime cmp_mime is_text as_text is_image as_bytes looks_like_crypto_address
      to_ascii_lowercase trim
  from_flavors flavors =
      let digest = ops.blake3 (le_bytes 8 (length flavors) ++ all_bytes (sorted flavors)) in
      if is_empty flavors then none else elim (first_text (find is_text flavors)) [
        | some content ↦ some (identify digest (trim (replace_crlf content)))
        | none ↦ identify_image digest flavors
      ]

abbrev pub rank : StructuralIdentity → ℕ
rank StructuralIdentity.text = 0
rank StructuralIdentity.url = 1
rank StructuralIdentity.crypto_address = 2
rank StructuralIdentity.image = 3

abbrev pub is_identity : StructuralIdentity → StructuralIdentity → Bool
is_identity a b = rank a == rank b

abbrev pub same_hash : Option Bytes → Option Bytes → Bool
same_hash none none = true
same_hash (some a) (some b) = same a b
same_hash _ _ = false

unfoldable pub compare_with : PasteGuardFingerprint → PasteGuardFingerprint → PasteGuardDecision
compare_with expected observed =
    if same expected.digest observed.digest && is_identity expected.identity observed.identity
    then allow
    else if is_identity expected.identity StructuralIdentity.crypto_address
        && is_identity observed.identity StructuralIdentity.crypto_address
    then block_address_substitution
    else if is_identity expected.identity StructuralIdentity.url
        && is_identity observed.identity StructuralIdentity.url
        && not (same_hash expected.host_hash observed.host_hash)
    then block_domain_substitution
    else block_content_changed

-- `PasteGuardFingerprint::compare`.
unfoldable pub compare_guard :
    PasteGuardFingerprint → Option PasteGuardFingerprint → PasteGuardDecision
unfolding compare_with
compare_guard expected none = block_unreadable
compare_guard expected (some observed) = compare_with expected observed
