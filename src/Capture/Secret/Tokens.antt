-- ===== src/Capture/Secret/Tokens.antt =====
-- The detectors of crates/vbuff-core/src/secret.rs that look at one token. `has_entropy` is the
-- comparison `shannon_entropy(token) >= 3.8`, in floating point.
use vbuff.Base.{
  ℕ, suc, ◌+◌, ◌-◌, ◌*◌, ◌%◌, Bool, true, false, not, ◌&&◌, ◌||◌, ◌==◌, leb, ltb, if◌then◌else◌,
  List, [], ◌∷◌, ◌++◌, length, drop,
}
use vbuff.Base.Iter.{any, all, retain}
use vbuff.Types.Text.{Text, len}
use vbuff.Types.Ascii.{
  is_ascii_digit, is_ascii_uppercase, is_ascii_lowercase, is_ascii_alphabetic,
  is_ascii_alphanumeric, is_ascii, starts_with, contains, split,
}
use vbuff.Capture.Secret.{
  SecretKind, cloud_credential, access_token, json_web_token, payment_card, recovery_code,
  high_entropy, SecretFinding, is_kind,
}

abbrev pub akia : Text
akia = b'A' ∷ b'K' ∷ b'I' ∷ b'A' ∷ []

abbrev pub asia : Text
asia = b'A' ∷ b'S' ∷ b'I' ∷ b'A' ∷ []

abbrev pub prefixes : List Text
prefixes =
    (b'g' ∷ b'h' ∷ b'p' ∷ b'_' ∷ [])
    ∷ (b'g' ∷ b'h' ∷ b'o' ∷ b'_' ∷ [])
    ∷ (b'g' ∷ b'i' ∷ b't' ∷ b'h' ∷ b'u' ∷ b'b' ∷ b'_' ∷ b'p' ∷ b'a' ∷ b't' ∷ b'_' ∷ [])
    ∷ (b'g' ∷ b'l' ∷ b'p' ∷ b'a' ∷ b't' ∷ b'-' ∷ [])
    ∷ (b's' ∷ b'k' ∷ b'_' ∷ b'l' ∷ b'i' ∷ b'v' ∷ b'e' ∷ b'_' ∷ [])
    ∷ []

abbrev pub jwt_start : Text
jwt_start = b'e' ∷ b'y' ∷ b'J' ∷ []

abbrev pub scheme_mark : Text
scheme_mark = b':' ∷ b'/' ∷ b'/' ∷ []

unfoldable pub is_cloud_credential : Text → Bool
unfolding is_ascii_uppercase is_ascii_digit
is_cloud_credential token =
    len token == 20
    && (starts_with token akia || starts_with token asia)
    && all (λ c. is_ascii_uppercase c || is_ascii_digit c) (drop 4 token)

unfoldable pub is_access_token : Text → Bool
is_access_token token =
    any (λ prefix. starts_with token prefix && leb (len prefix + 16) (len token)) prefixes

unfoldable pub is_base64_url_byte : ℕ → Bool
unfolding is_ascii_alphanumeric
is_base64_url_byte c = is_ascii_alphanumeric c || c == b'-' || c == b'_' || c == b'='

abbrev pub are_jwt_parts : List Text → Bool
are_jwt_parts (header ∷ payload ∷ signature ∷ []) =
    starts_with header jwt_start
    && leb 8 (len payload)
    && leb 16 (len signature)
    && all (λ part. all is_base64_url_byte part) (header ∷ payload ∷ signature ∷ [])
are_jwt_parts _ = false

unfoldable pub is_jwt : Text → Bool
unfolding is_base64_url_byte
is_jwt token = are_jwt_parts (split (λ c. c == b'.') token)

-- The digit at an index from the right.
abbrev pub luhn_digit : ℕ → ℕ → ℕ
luhn_digit index digit =
    if index % 2 == 1 then (if ltb 9 (2 * digit) then 2 * digit - 9 else 2 * digit) else digit

abbrev pub luhn_add : ℕ → ℕ × ℕ → ℕ × ℕ
luhn_add c (index, sum) = (suc index, sum + luhn_digit index (c - b'0'))

-- How many digits there are, and their sum.
abbrev pub luhn_sum : Text → ℕ × ℕ
luhn_sum [] = (0, 0)
luhn_sum (c ∷ digits) = luhn_add c (luhn_sum digits)

unfoldable pub luhn_valid : Text → Bool
luhn_valid digits = (luhn_sum digits).1 % 10 == 0

unfoldable pub is_recovery_code : Text → Bool
unfolding is_ascii_alphanumeric is_ascii_digit is_ascii_alphabetic
is_recovery_code token =
    let compact_len = length (retain is_ascii_alphanumeric token) in
    leb 8 compact_len
    && leb compact_len 64
    && all (λ c. is_ascii_alphanumeric c || c == b'-') token
    && any is_ascii_digit token
    && any is_ascii_alphabetic token

unfoldable pub is_structured_locator : Text → Bool
is_structured_locator token =
    contains token scheme_mark || any (λ c. c == 92) token || starts_with token (b'/' ∷ [])

abbrev pub bit : Bool → ℕ
bit true = 1
bit false = 0

unfoldable pub push_once : List SecretFinding → SecretKind → ℕ → List SecretFinding
push_once findings kind confidence =
    if any (λ f. is_kind f.kind kind) findings
    then findings
    else findings ++ (record { kind = kind; confidence = confidence } ∷ [])

-- `if test { push_once(findings, kind, confidence); }`.
abbrev pub push_if : Bool → SecretKind → ℕ → List SecretFinding → List SecretFinding
push_if true kind confidence findings = push_once findings kind confidence
push_if false kind confidence findings = findings

module _ (has_entropy : Text → Bool) where
  unfoldable pub probable_high_entropy : Text → Bool
  unfolding is_structured_locator is_ascii is_ascii_lowercase is_ascii_uppercase is_ascii_digit
      is_ascii_alphanumeric
  probable_high_entropy token =
      leb 24 (len token)
      && leb (len token) 256
      && all is_ascii token
      && not (is_structured_locator token)
      && leb 3 (
          bit (any is_ascii_lowercase token)
          + bit (any is_ascii_uppercase token)
          + bit (any is_ascii_digit token)
          + bit (any (λ c. not (is_ascii_alphanumeric c)) token))
      && has_entropy token

  unfoldable pub scan_token : Text → Bool → List SecretFinding → List SecretFinding
  unfolding is_cloud_credential is_access_token is_jwt is_ascii_digit luhn_valid is_recovery_code
      probable_high_entropy
  scan_token token recovery_context findings =
      let digits = retain is_ascii_digit token in
      let is_card = leb 13 (length digits) && leb (length digits) 19 && luhn_valid digits in
      push_if (probable_high_entropy token) high_entropy 72 (
        push_if (recovery_context && is_recovery_code token) recovery_code 94 (
          push_if is_card payment_card 90 (
            push_if (is_jwt token) json_web_token 95 (
              push_if (is_access_token token) access_token 97
                (push_if (is_cloud_credential token) cloud_credential 98 findings)))))
