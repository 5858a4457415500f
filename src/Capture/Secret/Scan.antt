-- ===== src/Capture/Secret/Scan.antt =====
-- `detect_secrets` of crates/vbuff-core/src/secret.rs, and what may act on its findings.
use vbuff.Base.{
  ℕ, Bool, true, false, not, ◌&&◌, ◌||◌, ◌==◌, leb, if◌then◌else◌, Option, none, some, List, [],
  ◌∷◌,
}
use vbuff.Base.Iter.{any, all, retain, consed}
use vbuff.Types.Text.{Text, len}
use vbuff.Types.Ascii.{
  is_ascii_digit, is_ascii_alphanumeric, is_ascii_whitespace, to_ascii_lowercase, is_one_of, equals,
  contains, split, trim, trim_matches,
}
use vbuff.Capture.Secret.{
  private_key, one_time_password, SecretFinding, is_actionable, strongest_finding,
}
use vbuff.Capture.Secret.Tokens.{is_structured_locator, scan_token}

abbrev pub begin_mark : Text
begin_mark = b'-' ∷ b'-' ∷ b'-' ∷ b'-' ∷ b'-' ∷ b'B' ∷ b'E' ∷ b'G' ∷ b'I' ∷ b'N' ∷ 32 ∷ []

abbrev pub private_key_mark : Text
private_key_mark =
    b'P' ∷ b'R' ∷ b'I' ∷ b'V' ∷ b'A' ∷ b'T' ∷ b'E' ∷ 32 ∷ b'K' ∷ b'E' ∷ b'Y' ∷ b'-' ∷ b'-' ∷ b'-'
    ∷ b'-' ∷ b'-' ∷ []

abbrev pub recovery_mark : Text
recovery_mark = b'r' ∷ b'e' ∷ b'c' ∷ b'o' ∷ b'v' ∷ b'e' ∷ b'r' ∷ b'y' ∷ []

abbrev pub backup_code_mark : Text
backup_code_mark = b'b' ∷ b'a' ∷ b'c' ∷ b'k' ∷ b'u' ∷ b'p' ∷ 32 ∷ b'c' ∷ b'o' ∷ b'd' ∷ b'e' ∷ []

-- `,;()[]{}<>"'`.
abbrev pub separators : Text
separators = b',' ∷ b';' ∷ b'(' ∷ b')' ∷ b'[' ∷ b']' ∷ b'{' ∷ b'}' ∷ b'<' ∷ b'>' ∷ b'"' ∷ 39 ∷ []

-- `/?&=#\`.
abbrev pub locator_separators : Text
locator_separators = b'/' ∷ b'?' ∷ b'&' ∷ b'=' ∷ b'#' ∷ 92 ∷ []

abbrev pub otp_context_markers : List Text
otp_context_markers =
    (b'o' ∷ b't' ∷ b'p' ∷ [])
    ∷ (b'o' ∷ b'n' ∷ b'e' ∷ b'-' ∷ b't' ∷ b'i' ∷ b'm' ∷ b'e' ∷ [])
    ∷ (b'v' ∷ b'e' ∷ b'r' ∷ b'i' ∷ b'f' ∷ b'i' ∷ b'c' ∷ b'a' ∷ b't' ∷ b'i' ∷ b'o' ∷ b'n' ∷ [])
    ∷ (b'v' ∷ b'e' ∷ b'r' ∷ b'i' ∷ b'f' ∷ b'y' ∷ [])
    ∷ (b'c' ∷ b'o' ∷ b'd' ∷ b'e' ∷ [])
    ∷ (b'p' ∷ b'a' ∷ b's' ∷ b's' ∷ b'c' ∷ b'o' ∷ b'd' ∷ b'e' ∷ [])
    ∷ []

-- `OTP_DIGIT_LENGTHS.contains(&n)`.
abbrev pub is_otp_length : ℕ → Bool
is_otp_length n = leb 4 n && leb n 8

abbrev pub otp_context_confidence : ℕ
otp_context_confidence = 96

abbrev pub otp_bare_confidence : ℕ
otp_bare_confidence = 90

unfoldable pub has_otp_digit_run : Text → Bool
unfolding is_ascii_digit
has_otp_digit_run text =
    any (λ run. is_otp_length (len run)) (split (λ c. not (is_ascii_digit c)) text)

abbrev pub is_marker : Text → Bool
is_marker word = any (λ marker. equals marker word) otp_context_markers

abbrev pub has_context : Text → Bool
has_context lower =
    any (λ word. is_marker (trim_matches (λ c. c == b'-') word))
      (split (λ c. not (is_ascii_alphanumeric c) && not (c == b'-')) lower)

abbrev pub otp_with : ℕ → SecretFinding
otp_with confidence = record { kind = one_time_password; confidence = confidence }

unfoldable pub otp_finding : Text → Text → Option SecretFinding
unfolding has_otp_digit_run trim trim_matches is_ascii_digit is_ascii_alphanumeric
otp_finding text lower =
    let trimmed = trim text in
    if has_context lower && has_otp_digit_run text
    then some (otp_with otp_context_confidence)
    else if is_otp_length (len trimmed) && all is_ascii_digit trimmed
    then some (otp_with otp_bare_confidence)
    else none

unfoldable pub is_probable_otp : Text → Bool
unfolding to_ascii_lowercase
is_probable_otp text = elim (otp_finding text (to_ascii_lowercase text)) [
  | none ↦ false
  | some f ↦ true
]

-- What stands before the tokens are scanned.
unfoldable pub whole_text_findings : Text → List SecretFinding
unfolding to_ascii_lowercase
whole_text_findings text =
    let otp = consed (otp_finding text (to_ascii_lowercase text)) [] in
    if contains text begin_mark && contains text private_key_mark
    then record { kind = private_key; confidence = 100 } ∷ otp
    else otp

abbrev pub is_separator : ℕ → Bool
is_separator c = is_ascii_whitespace c || is_one_of separators c

unfoldable pub recovery_context : Text → Bool
unfolding to_ascii_lowercase
recovery_context text =
    contains (to_ascii_lowercase text) recovery_mark
    || contains (to_ascii_lowercase text) backup_code_mark

module _ (has_entropy : Text → Bool) where
  abbrev pub scan_all : List Text → Bool → List SecretFinding → List SecretFinding
  scan_all [] recovering findings = findings
  scan_all (token ∷ tokens) recovering findings =
      scan_all tokens recovering (scan_token has_entropy token recovering findings)

  -- A token, and its parts where it is a locator.
  unfoldable pub scan_parts : Text → Bool → List SecretFinding → List SecretFinding
  unfolding is_structured_locator
  scan_parts token recovering findings =
      let scanned = scan_token has_entropy token recovering findings in
      if is_structured_locator token
      then scan_all (split (is_one_of locator_separators) token) recovering scanned
      else scanned

  abbrev pub scan_tokens : List Text → Bool → List SecretFinding → List SecretFinding
  scan_tokens [] recovering findings = findings
  scan_tokens (token ∷ tokens) recovering findings =
      scan_tokens tokens recovering (scan_parts token recovering findings)

  unfoldable pub detect_secrets : Text → List SecretFinding
  unfolding whole_text_findings recovery_context is_ascii_whitespace
  detect_secrets text =
      scan_tokens (split is_separator text) (recovery_context text) (whole_text_findings text)

  unfoldable pub actionable_secrets : Text → List SecretFinding
  unfolding is_actionable
  actionable_secrets text = retain is_actionable (detect_secrets text)

  unfoldable pub strongest_actionable_secret : Text → Option SecretFinding
  unfolding strongest_finding
  strongest_actionable_secret text = strongest_finding (actionable_secrets text)

  unfoldable pub text_contains_actionable_secret : Text → Bool
  unfolding is_actionable
  text_contains_actionable_secret text = any is_actionable (detect_secrets text)
