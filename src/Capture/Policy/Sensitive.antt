-- ===== src/Capture/Policy/Sensitive.antt =====
-- How a clip is handled in which a secret is found.
use vbuff.Base.{
  ℕ, min, ◌≤◌, ◌≡◌, ◌∙◌, refl, sym, ap, subst, inl, inr, Bool, true, false, not, ◌&&◌, ◌||◌,
  Option-cases, Option, none, some, List, [], ◌∷◌, map, arith,
}
use vbuff.Base.Iter.{any}
use vbuff.Types.Evidence.{SensitivityReason}
use vbuff.Capture.Secret.{SecretFinding, strongest_finding, max_from}
use vbuff.Capture.Secret.Strongest.{IsListed}
use vbuff.Capture.Policy.{
  CaptureAction, PolicyOps, CaptureInput, Captured, captured, CapturePolicy, handling_for_secret,
  sensitivity_reason_for_secret,
}
use vbuff.Capture.Policy.Decide.{
  is_unproven, shortest, guarded, rules_armed, capture_with, actionable_findings, decide,
}
use vbuff.Capture.Policy.Evidence.{judge_inv, decide_inv}

abbrev pub ttl_of : SecretFinding → ℕ
ttl_of f = (handling_for_secret f.kind).ttl

abbrev pub is_memory_only : SecretFinding → Bool
is_memory_only f = (handling_for_secret f.kind).memory_only

abbrev shorter : ℕ → Option ℕ → Option ℕ
shorter n none = some n
shorter n (some m) = some (min n m)

shorter-cases : (n : ℕ) (o : Option ℕ) → (m : ℕ) × (shorter n o ≡ some m) × (m ≤ n)
shorter-cases n none = (n, refl, omega arith)
shorter-cases n (some m) = (min n m, refl, omega arith)

shortest-cons : (n : ℕ) (ns : List ℕ) → shortest (n ∷ ns) ≡ shorter n (shortest ns)
shortest-cons n ns = elim (Option-cases (shortest ns)) [
  | inl e ↦ rw (e, shortest) refl
  | inr (m, e) ↦ rw (e, shortest) refl
]

shortest-IsListed :
    (findings : List SecretFinding) (f : SecretFinding)
    → IsListed f findings
    → (m : ℕ) × (shortest (map ttl_of findings) ≡ some m) × (m ≤ ttl_of f)
shortest-IsListed [] f listed = absurd listed
shortest-IsListed (g ∷ findings) f (inl e) =
    let (m, found, le) = shorter-cases (ttl_of g) (shortest (map ttl_of findings)) in
    (
      m,
      shortest-cons (ttl_of g) (map ttl_of findings) ∙ found,
      subst (λ q. m ≤ ttl_of q) (sym e) le,
    )
shortest-IsListed (g ∷ findings) f (inr listed) =
    let (m, found, le) = shortest-IsListed findings f listed in
    (
      min (ttl_of g) m,
      shortest-cons (ttl_of g) (map ttl_of findings) ∙ ap (λ q. shorter (ttl_of g) q) found,
      omega (arith, le),
    )

any-IsListed :
    (findings : List SecretFinding) (f : SecretFinding)
    → IsListed f findings
    → not (is_memory_only f) || any is_memory_only findings ≡ true
any-IsListed [] f listed = absurd listed
any-IsListed (g ∷ findings) f (inl e) =
    subst (λ q. not (is_memory_only q) || any is_memory_only (g ∷ findings) ≡ true) (sym e)
      (ground arith)
any-IsListed (g ∷ findings) f (inr listed) =
    let h = any-IsListed findings f listed in ground (arith, h)

strongest-IsListed :
    (findings : List SecretFinding) (f : SecretFinding)
    → IsListed f findings
    → (best : SecretFinding) × (strongest_finding findings ≡ some best)
unfolding strongest_finding
strongest-IsListed [] f listed = absurd listed
strongest-IsListed (g ∷ findings) f listed = (max_from g findings, refl)

-- Masked, kept out of synchronization and of the assistants, with an expiry within the limit.
abbrev pub IsSensitive : Captured → ℕ → Type 0
IsSensitive c limit =
    (c.sensitive ≡ true)
    × (c.sync_eligible ≡ false)
    × (c.ai_allowed ≡ false)
    × ((ttl : ℕ) × (c.expires_after ≡ some ttl) × (ttl ≤ limit))

module _ {R : Type 0} (p : CapturePolicy R) where
  capture_with-IsSensitive :
      (action : CaptureAction) (findings : List SecretFinding) (f : SecretFinding)
      → IsListed f findings
      → IsSensitive (capture_with p action findings) (min (ttl_of f) p.secret_ttl)
        × (not (is_memory_only f) || (capture_with p action findings).memory_only ≡ true)
  unfolding capture_with
  capture_with-IsSensitive action findings f listed =
      let (best, named) = strongest-IsListed findings f listed in
      let (m, shortened, le) = shortest-IsListed findings f listed in
      let reason : SensitivityReason = sensitivity_reason_for_secret best.kind in
      (
        (
          rw named refl,
          rw named refl,
          rw named refl,
          (min m p.secret_ttl, rw shortened refl, omega (arith, le)),
        ),
        any-IsListed findings f listed,
      )

  module _ (ops : PolicyOps R) where
    -- A clip that is captured, and in whose text the detectors find something that they may act on, is
    -- masked and neither synchronized nor shown to the assistants, and it expires within the limit
    -- that the user has set, whichever way it was captured.
    pub decide-IsSensitive :
        (input : CaptureInput) (c : Captured) (f : SecretFinding)
        → decide p ops input ≡ captured c
        → IsListed f (actionable_findings p ops input.flavors)
        → IsSensitive c p.secret_ttl
    unfolding guarded
    decide-IsSensitive input c f h listed = elim (decide_inv p ops input c h).1 [
      | inl (_, _, e) ↦
          subst (λ q. IsSensitive q p.secret_ttl) (sym e)
            (refl, refl, refl, (p.secret_ttl, refl, omega arith))
      | inr (_, judged) ↦
          let (action, _, e) = judge_inv p ops input c judged in
          let ((a, b, d, (ttl, expires, le)), _) =
            capture_with-IsSensitive action (actionable_findings p ops input.flavors) f listed in
          subst (λ q. IsSensitive q p.secret_ttl) (sym e)
            (a, b, d, (ttl, expires, omega (arith, le)))
    ]

    -- Where the rules are not set, or the source is proven, each secret that is found bounds the clip's
    -- life by the handling of its kind, and keeps it out of the store where its kind is for memory
    -- only, whatever else is found.
    pub decide-handling :
        (input : CaptureInput) (c : Captured) (f : SecretFinding)
        → decide p ops input ≡ captured c
        → rules_armed p && is_unproven input.provenance_confidence ≡ false
        → IsListed f (actionable_findings p ops input.flavors)
        → IsSensitive c (min (ttl_of f) p.secret_ttl)
          × (not (is_memory_only f) || c.memory_only ≡ true)
    decide-handling input c f h proven listed = elim (decide_inv p ops input c h).1 [
      | inl (unproven, _, _) ↦ absurd (ground (arith, proven, unproven))
      | inr (_, judged) ↦
          let (action, _, e) = judge_inv p ops input c judged in
          subst
            (λ q.
              IsSensitive q (min (ttl_of f) p.secret_ttl)
              × (not (is_memory_only f) || q.memory_only ≡ true))
            (sym e)
            (capture_with-IsSensitive action (actionable_findings p ops input.flavors) f listed)
    ]
