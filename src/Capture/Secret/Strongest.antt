-- ===== src/Capture/Secret/Strongest.antt =====
-- Which finding `strongest_finding` names.
use vbuff.Base.{
  ◌≤◌, ◌<◌, ◌≡◌, ◌⊎◌, refl, sym, subst, inl, inr, if◌then◌else◌, some, List, [], ◌∷◌, arith,
}
use vbuff.Capture.Secret.{
  SecretFinding, discriminant, cmp_finding, is_greater, max_from, strongest_finding,
}

abbrev pub IsListed : SecretFinding → List SecretFinding → Type 0
IsListed f [] = ⊥
IsListed f (g ∷ findings) = (f ≡ g) ⊎ IsListed f findings

-- No listed finding is more confident, and none that is as confident is of a more severe kind.
abbrev pub IsAtLeast : SecretFinding → SecretFinding → Type 0
IsAtLeast f g =
    (g.confidence < f.confidence)
    ⊎ ((g.confidence ≡ f.confidence) × (discriminant f.kind ≤ discriminant g.kind))

abbrev pub IsAtLeastAll : SecretFinding → List SecretFinding → Type 0
IsAtLeastAll f [] = Unit {0}
IsAtLeastAll f (g ∷ findings) = IsAtLeast f g × IsAtLeastAll f findings

IsAtLeast-refl : (f : SecretFinding) → IsAtLeast f f
IsAtLeast-refl f = inr (refl, omega arith)

IsAtLeast-trans : (f g h : SecretFinding) → IsAtLeast f g → IsAtLeast g h → IsAtLeast f h
IsAtLeast-trans f g h first second = ground (arith, first, second)

-- The finding that `max_by` keeps of two.
abbrev better : SecretFinding → SecretFinding → SecretFinding
better a b = if is_greater (cmp_finding a b) then a else b

better-cases :
    (a b : SecretFinding) → ((better a b ≡ a) × IsAtLeast a b) ⊎ ((better a b ≡ b) × IsAtLeast b a)
unfolding cmp_finding
better-cases a b = ground arith

better-IsAtLeast : (a b : SecretFinding) → IsAtLeast (better a b) a × IsAtLeast (better a b) b
better-IsAtLeast a b = elim (better-cases a b) [
  | inl (e, h) ↦ subst (λ q. IsAtLeast q a × IsAtLeast q b) (sym e) (IsAtLeast-refl _, h)
  | inr (e, h) ↦ subst (λ q. IsAtLeast q a × IsAtLeast q b) (sym e) (h, IsAtLeast-refl _)
]

max_from-IsAtLeast :
    (best : SecretFinding) (findings : List SecretFinding)
    → IsAtLeast (max_from best findings) best × IsAtLeastAll (max_from best findings) findings
max_from-IsAtLeast best [] = (IsAtLeast-refl _, tt)
max_from-IsAtLeast best (f ∷ findings) =
    let (up, all) = max_from-IsAtLeast (better best f) findings in
    let (left, right) = better-IsAtLeast best f in
    let top = max_from (better best f) findings in
    (
      IsAtLeast-trans top (better best f) best up left,
      (IsAtLeast-trans top (better best f) f up right, all),
    )

max_from-IsListed :
    (best : SecretFinding) (findings : List SecretFinding)
    → IsListed (max_from best findings) (best ∷ findings)
max_from-IsListed best [] = inl refl
max_from-IsListed best (f ∷ findings) = elim (max_from-IsListed (better best f) findings) [
  | inr listed ↦ inr (inr listed)
  | inl e ↦ elim (better-cases best f) [
    | inl (same_best, _) ↦ inl (subst (λ q. max_from (better best f) findings ≡ q) same_best e)
    | inr (same_f, _) ↦ inr (inl (subst (λ q. max_from (better best f) findings ≡ q) same_f e))
  ]
]

-- The finding that is named is one of those listed, no other is more confident, and none that is as
-- confident is of a more severe kind; nothing is named only where nothing is listed.
pub strongest_finding-IsAtLeastAll :
    (findings : List SecretFinding)
    → (findings ≡ [])
      ⊎ ((best : SecretFinding) × (strongest_finding findings ≡ some best)
          × IsListed best findings
          × IsAtLeastAll best findings)
unfolding strongest_finding
strongest_finding-IsAtLeastAll [] = inl refl
strongest_finding-IsAtLeastAll (f ∷ findings) =
    inr (max_from f findings, refl, max_from-IsListed f findings, max_from-IsAtLeast f findings)
