-- ===== src/Capture/Secret.antt =====
-- crates/vbuff-core/src/secret.rs: the vocabulary of secrets and its floors. A confidence is in
-- hundredths, of which the source writes two at most.
pub mod Tokens
pub mod Scan
pub mod Findings
pub mod Strongest
use vbuff.Base.{
  ℕ, compare, Ordering, Bool, true, false, ◌&&◌, ◌==◌, leb, if◌then◌else◌, Option, none, some, List,
  [], ◌∷◌, reversed, then_with,
}

pub data SecretKind : Type 0 where
  private_key cloud_credential access_token json_web_token payment_card one_time_password
        recovery_code high_entropy :
      SecretKind

-- The place of a variant in its enum, by which the derived order compares.
abbrev pub discriminant : SecretKind → ℕ
discriminant private_key = 0
discriminant cloud_credential = 1
discriminant access_token = 2
discriminant json_web_token = 3
discriminant payment_card = 4
discriminant one_time_password = 5
discriminant recovery_code = 6
discriminant high_entropy = 7

unfoldable pub is_kind : SecretKind → SecretKind → Bool
is_kind a b = discriminant a == discriminant b

pub record SecretFinding : Type 0 where
  pub kind : SecretKind
  pub confidence : ℕ

unfoldable pub is_structural : SecretKind → Bool
is_structural one_time_password = false
is_structural recovery_code = false
is_structural other = true

unfoldable pub min_actionable_confidence : SecretKind → ℕ
min_actionable_confidence high_entropy = 70
min_actionable_confidence other = 90

abbrev pub min_reclassify_confidence : ℕ
min_reclassify_confidence = 90

unfoldable pub is_actionable : SecretFinding → Bool
is_actionable f = leb (min_actionable_confidence f.kind) f.confidence

unfoldable pub justifies_reclassification : SecretFinding → Bool
justifies_reclassification f = is_structural f.kind && leb min_reclassify_confidence f.confidence

-- The key of `max_by`: the confidence, and then the more severe kind.
unfoldable pub cmp_finding : SecretFinding → SecretFinding → Ordering
cmp_finding left right =
    then_with (compare left.confidence right.confidence)
      (compare (discriminant right.kind) (discriminant left.kind))

abbrev pub is_greater : Ordering → Bool
is_greater Ordering.gt = true
is_greater _ = false

-- `max_by` keeps the last of equal elements.
abbrev pub max_from : SecretFinding → List SecretFinding → SecretFinding
max_from best [] = best
max_from best (f ∷ findings) =
    max_from (if is_greater (cmp_finding best f) then best else f) findings

unfoldable pub strongest_finding : List SecretFinding → Option SecretFinding
unfolding cmp_finding
strongest_finding [] = none
strongest_finding (f ∷ findings) = some (max_from f findings)
