-- ===== src/Capture/Secret/Findings.antt =====
-- What `detect_secrets` lists: each kind once at most, and nothing below its floor.
use vbuff.Base.{
  ℕ, ◌≡◌, ◌⊎◌, refl, sym, subst, inl, inr, Bool, true, false, not, ◌&&◌, leb, Bool-cases, none,
  some, List, [], ◌∷◌, ◌++◌, arith,
}
use vbuff.Base.Iter.{any, all, retain-all}
use vbuff.Types.Text.{Text, len}
use vbuff.Types.Ascii.{
  is_ascii_digit, is_empty, is_one_of, split, contains, to_ascii_lowercase, trim,
}
use vbuff.Capture.Secret.{
  SecretKind, cloud_credential, access_token, json_web_token, payment_card, recovery_code,
  high_entropy, SecretFinding, is_kind, min_actionable_confidence, is_actionable,
}
use vbuff.Capture.Secret.Tokens.{push_once, push_if, is_structured_locator, scan_token}
use vbuff.Capture.Secret.Scan.{
  begin_mark, private_key_mark, is_otp_length, locator_separators, otp_with, otp_finding,
  has_context, has_otp_digit_run, whole_text_findings, is_separator, recovery_context, scan_all,
  scan_parts, scan_tokens, detect_secrets, actionable_secrets, text_contains_actionable_secret,
}

abbrev pub has_kind : SecretKind → List SecretFinding → Bool
has_kind kind findings = any (λ f. is_kind f.kind kind) findings

-- No two findings are of one kind.
abbrev pub AreDistinct : List SecretFinding → Type 0
AreDistinct [] = Unit {0}
AreDistinct (f ∷ findings) = (has_kind f.kind findings ≡ false) × AreDistinct findings

-- What holds of the findings before the scan, and is kept by a push, holds after it.
module _ (has_entropy : Text → Bool) (Holds : List SecretFinding → Type 0)
    (pushed : (findings : List SecretFinding) (kind : SecretKind) (confidence : ℕ)
      → leb (min_actionable_confidence kind) confidence ≡ true
      → Holds findings
      → Holds (push_once findings kind confidence)) where
  push_if-Holds :
      (test : Bool) (kind : SecretKind) (confidence : ℕ) (findings : List SecretFinding)
      → leb (min_actionable_confidence kind) confidence ≡ true
      → Holds findings
      → Holds (push_if test kind confidence findings)
  push_if-Holds true kind confidence findings floor h = pushed findings kind confidence floor h
  push_if-Holds false kind confidence findings floor h = h

  scan_token-Holds :
      (token : Text) (recovering : Bool) (findings : List SecretFinding)
      → Holds findings
      → Holds (scan_token has_entropy token recovering findings)
  unfolding scan_token min_actionable_confidence
  scan_token-Holds token recovering findings h = push_if-Holds _ high_entropy 72 _ refl (
      push_if-Holds _ recovery_code 94 _ refl (
        push_if-Holds _ payment_card 90 _ refl (
          push_if-Holds _ json_web_token 95 _ refl (
            push_if-Holds _ access_token 97 _ refl
              (push_if-Holds _ cloud_credential 98 findings refl h)))))

  scan_all-Holds :
      (tokens : List Text) (recovering : Bool) (findings : List SecretFinding)
      → Holds findings
      → Holds (scan_all has_entropy tokens recovering findings)
  scan_all-Holds [] recovering findings h = h
  scan_all-Holds (token ∷ tokens) recovering findings h =
      scan_all-Holds tokens recovering (scan_token has_entropy token recovering findings)
        (scan_token-Holds token recovering findings h)

  scan_parts-Holds :
      (token : Text) (recovering : Bool) (findings : List SecretFinding)
      → Holds findings
      → Holds (scan_parts has_entropy token recovering findings)
  unfolding scan_parts
  scan_parts-Holds token recovering findings h =
      let scanned = scan_token-Holds token recovering findings h in
      elim (Bool-cases (is_structured_locator token)) [
        | inr e ↦ subst Holds (sym (rw (e, scan_parts) refl)) scanned
        | inl e ↦ subst Holds (sym (rw (e, scan_parts) refl)) (
            scan_all-Holds (split (is_one_of locator_separators) token) recovering
              (scan_token has_entropy token recovering findings) scanned)
      ]

  scan_tokens-Holds :
      (tokens : List Text) (recovering : Bool) (findings : List SecretFinding)
      → Holds findings
      → Holds (scan_tokens has_entropy tokens recovering findings)
  scan_tokens-Holds [] recovering findings h = h
  scan_tokens-Holds (token ∷ tokens) recovering findings h =
      scan_tokens-Holds tokens recovering (scan_parts has_entropy token recovering findings)
        (scan_parts-Holds token recovering findings h)

is_kind_refl : (kind : SecretKind) → is_kind kind kind ≡ true
unfolding is_kind
is_kind_refl kind = ground arith

is_kind_sym : (a b : SecretKind) → is_kind a b ≡ false → is_kind b a ≡ false
unfolding is_kind
is_kind_sym a b h = ground (arith, h)

has_kind-append :
    (kind : SecretKind) (findings : List SecretFinding) (f : SecretFinding)
    → has_kind kind findings ≡ false
    → is_kind f.kind kind ≡ false
    → has_kind kind (findings ++ (f ∷ [])) ≡ false
has_kind-append kind [] f h k = ground (arith, k)
has_kind-append kind (g ∷ findings) f h k =
    let rest = has_kind-append kind findings f (ground (arith, h)) k in ground (arith, h, rest)

AreDistinct-append :
    (findings : List SecretFinding) (f : SecretFinding)
    → AreDistinct findings
    → has_kind f.kind findings ≡ false
    → AreDistinct (findings ++ (f ∷ []))
AreDistinct-append [] f d h = (refl, tt)
AreDistinct-append (g ∷ findings) f (fresh, d) h = (
  has_kind-append g.kind findings f fresh (is_kind_sym g.kind f.kind (ground (arith, h))),
  AreDistinct-append findings f d (ground (arith, h)),
)

push_once-AreDistinct :
    (findings : List SecretFinding) (kind : SecretKind) (confidence : ℕ)
    → leb (min_actionable_confidence kind) confidence ≡ true
    → AreDistinct findings
    → AreDistinct (push_once findings kind confidence)
unfolding push_once
push_once-AreDistinct findings kind confidence floor d =
    elim (Bool-cases (has_kind kind findings)) [
      | inl e ↦ subst AreDistinct (sym (rw (e, push_once) refl)) d
      | inr e ↦
          subst AreDistinct (sym (rw (e, push_once) refl))
            (AreDistinct-append findings (record { kind = kind; confidence = confidence }) d e)
    ]

abbrev AreActionable : List SecretFinding → Type 0
AreActionable findings = all is_actionable findings ≡ true

AreActionable-append :
    (findings : List SecretFinding) (f : SecretFinding)
    → AreActionable findings
    → is_actionable f ≡ true
    → AreActionable (findings ++ (f ∷ []))
AreActionable-append [] f h k = ground (arith, k)
AreActionable-append (g ∷ findings) f h k =
    let rest = AreActionable-append findings f (ground (arith, h)) k in ground (arith, h, rest)

push_once-AreActionable :
    (findings : List SecretFinding) (kind : SecretKind) (confidence : ℕ)
    → leb (min_actionable_confidence kind) confidence ≡ true
    → AreActionable findings
    → AreActionable (push_once findings kind confidence)
unfolding push_once is_actionable
push_once-AreActionable findings kind confidence floor h =
    elim (Bool-cases (has_kind kind findings)) [
      | inl e ↦ subst AreActionable (sym (rw (e, push_once) refl)) h
      | inr e ↦
          subst AreActionable (sym (rw (e, push_once) refl)) (
            AreActionable-append findings (record { kind = kind; confidence = confidence }) h floor)
    ]

otp_finding-cases :
    (text lower : Text)
    → (otp_finding text lower ≡ none)
      ⊎ ((confidence : ℕ) × (otp_finding text lower ≡ some (otp_with confidence))
          × (leb 90 confidence ≡ true))
unfolding otp_finding
otp_finding-cases text lower = elim (Bool-cases (has_context lower && has_otp_digit_run text)) [
  | inl e ↦ inr (96, rw (e, otp_finding) refl, refl)
  | inr e ↦ elim (Bool-cases (is_otp_length (len (trim text)) && all is_ascii_digit (trim text))) [
    | inl k ↦ inr (90, rw (e, k, otp_finding) refl, refl)
    | inr k ↦ inl (rw (e, k, otp_finding) refl)
  ]
]

whole_text_findings-lem :
    (text : Text)
    → AreDistinct (whole_text_findings text) × AreActionable (whole_text_findings text)
unfolding whole_text_findings is_actionable is_kind min_actionable_confidence
whole_text_findings-lem text = elim (otp_finding-cases text (to_ascii_lowercase text)) [
  | inl e ↦ elim (Bool-cases (contains text begin_mark && contains text private_key_mark)) [
    | inl k ↦ rw (e, k, whole_text_findings) ((refl, tt), refl)
    | inr k ↦ rw (e, k, whole_text_findings) (tt, refl)
  ]
  | inr (confidence, e, floor) ↦
      elim (Bool-cases (contains text begin_mark && contains text private_key_mark)) [
        | inl k ↦ rw (e, k, floor, whole_text_findings) ((refl, (refl, tt)), refl)
        | inr k ↦ rw (e, k, floor, whole_text_findings) ((refl, tt), refl)
      ]
]

-- `detect_secrets` lists no two findings of one kind, of whatever text, with its URLs and paths
-- scanned whole and in parts.
pub detect_secrets-AreDistinct :
    (has_entropy : Text → Bool) (text : Text) → AreDistinct (detect_secrets has_entropy text)
unfolding detect_secrets
detect_secrets-AreDistinct has_entropy text =
    scan_tokens-Holds has_entropy AreDistinct push_once-AreDistinct (split is_separator text)
      (recovery_context text) (whole_text_findings text) (whole_text_findings-lem text).0

detect_secrets-AreActionable :
    (has_entropy : Text → Bool) (text : Text) → AreActionable (detect_secrets has_entropy text)
unfolding detect_secrets
detect_secrets-AreActionable has_entropy text =
    scan_tokens-Holds has_entropy AreActionable push_once-AreActionable (split is_separator text)
      (recovery_context text) (whole_text_findings text) (whole_text_findings-lem text).1

any-nonempty :
    (findings : List SecretFinding)
    → AreActionable findings
    → any is_actionable findings ≡ not (is_empty findings)
any-nonempty [] h = refl
any-nonempty (f ∷ findings) h = ground (arith, h)

-- Every finding of every detector clears the floor of its kind: what may be acted on is all that is
-- found, and a text calls for sensitive handling as soon as anything is found in it.
pub actionable_secrets-detect_secrets :
    (has_entropy : Text → Bool) (text : Text)
    → (actionable_secrets has_entropy text ≡ detect_secrets has_entropy text)
      × (text_contains_actionable_secret has_entropy text
          ≡ not (is_empty (detect_secrets has_entropy text)))
unfolding actionable_secrets text_contains_actionable_secret
actionable_secrets-detect_secrets has_entropy text =
    let h = detect_secrets-AreActionable has_entropy text in
    (
      retain-all is_actionable (detect_secrets has_entropy text) h,
      any-nonempty (detect_secrets has_entropy text) h,
    )
