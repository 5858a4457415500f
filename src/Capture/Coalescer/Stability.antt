-- ===== src/Capture/Coalescer/Stability.antt =====
-- When a burst of observations is committed.
use vbuff.Base.{
  ℕ, ◌≤◌, ◌≡◌, ◌≢◌, ◌↔◌, sym, ◌⊎◌, inl, inr, refl, true, false, Option, none, some, List, [], ◌∷◌,
  arith, same_iff, Option-cases, Bytes, ◌-◌, bytes_ord,
}
use vbuff.Capture.Generation.{CaptureGeneration}
use vbuff.Capture.Coalescer.{
  Flavor, flavor_ord, commit, FlavorGrowthCoalescer, signature_of, has_pending, same_signature,
  same_generation, observe, PrimaryIntent, PrimaryIntentGate, observe_primary,
}

same_signature_iff : (fs gs : List Flavor) → (same_signature fs gs ≡ true) ↔ (fs ≡ gs)
unfolding same_signature
same_signature_iff [] [] = (λ _. refl, λ _. refl)
same_signature_iff [] (g ∷ gs) = (λ h. cc, λ h. cc)
same_signature_iff (f ∷ fs) [] = (λ h. cc, λ h. cc)
same_signature_iff (f ∷ fs) (g ∷ gs) = (
  λ h. ground (arith, same_iff f g, same_signature_iff fs gs),
  λ h. ground (arith, same_iff f g, same_signature_iff fs gs),
)

same_generation_refl : (g : Option CaptureGeneration) → same_generation g g ≡ true
same_generation_refl none = refl
same_generation_refl (some g) = ground arith

same_generation_iff : (g h : Option CaptureGeneration) → (same_generation g h ≡ true) ↔ (g ≡ h)
same_generation_iff none none = (λ _. refl, λ _. refl)
same_generation_iff none (some h) = (λ e. cc, λ e. cc)
same_generation_iff (some g) none = (λ e. cc, λ e. cc)
same_generation_iff (some g) (some h) = (λ e. ground arith, λ e. ground arith)

module _ (c : FlavorGrowthCoalescer) (generation : Option CaptureGeneration)
    (flavors : List Flavor) where
  -- An observation is committed exactly when it repeats the generation (or is the first to have
  -- one) and the complete flavor set of the state, nothing of it is deferred, and the state had
  -- been repeated before.
  pub observe-commit_iff : ((observe c generation flavors).1 ≡ commit) ↔ (
      ((c.generation ≡ none) ⊎ (generation ≡ c.generation))
      × (signature_of flavors ≡ c.signature)
      × (has_pending flavors ≡ false)
      × (1 ≤ c.stable_observations))
  unfolding observe
  observe-commit_iff = (
    λ h. ground (
      arith,
      same_signature_iff (signature_of flavors) c.signature,
      same_generation_iff generation c.generation,
    ),
    λ h. ground (
      arith,
      same_signature_iff (signature_of flavors) c.signature,
      same_generation_iff generation c.generation,
    ),
  )

  observe-shows :
      ((observe c generation flavors).0.generation ≡ generation)
      × ((observe c generation flavors).0.signature ≡ signature_of flavors)
  unfolding observe
  observe-shows = ground (arith, same_signature_iff (signature_of flavors) c.signature)

  observe-repeats :
      c.generation ≡ generation
      → c.signature ≡ signature_of flavors
      → has_pending flavors ≡ false
      → 1 ≤ (observe c generation flavors).0.stable_observations
  unfolding observe
  observe-repeats g s p = ground (
    arith,
    same_signature_iff (signature_of flavors) c.signature,
    same_generation_iff generation c.generation,
  )

  observe-new :
      signature_of flavors ≢ c.signature
      → ((observe c generation flavors).1 ≢ commit)
        × ((observe c generation flavors).0.stable_observations ≡ 0)
  unfolding observe
  observe-new n = ground (arith, same_signature_iff (signature_of flavors) c.signature)

module _ (c : FlavorGrowthCoalescer) (generation : Option CaptureGeneration)
    (flavors : List Flavor) where
  abbrev pub once : FlavorGrowthCoalescer
  once = (observe c generation flavors).0

  abbrev pub twice : FlavorGrowthCoalescer
  twice = (observe once generation flavors).0

  -- Three observations in a row of one generation and one set of flavors that is new to the
  -- coalescer, none of them deferred, commit at the third and not before.
  pub observe_thrice :
      has_pending flavors ≡ false
      → signature_of flavors ≢ c.signature
      → ((observe c generation flavors).1 ≢ commit)
        × ((observe once generation flavors).1 ≢ commit)
        × ((observe twice generation flavors).1 ≡ commit)
  observe_thrice p n =
      let (g, s) = observe-shows c generation flavors in
      let (h, t) = observe-shows once generation flavors in
      let (first, none_yet) = observe-new c generation flavors n in
      (
        first,
        λ e. omega (arith, (observe-commit_iff once generation flavors).0 e, none_yet),
        (observe-commit_iff twice generation flavors).1
            (inr (sym h), sym t, p, observe-repeats once generation flavors g s p),
      )

-- The primary selection is taken only with a modifier or a middle click, and only if its content
-- has been the same since an observation at least the settling time ago.
pub observe_primary-accepts :
    (g : PrimaryIntentGate) (hash : Bytes) (intent : PrimaryIntent) (now : ℕ)
    → (observe_primary g hash intent now).1 ≡ true
    → (start : ℕ) × (g.last_hash ≡ some hash)
      × (g.first_seen ≡ some start)
      × (g.settle ≤ now - start)
      × ((intent.modifier_seen ≡ true) ⊎ (intent.middle_click_seen ≡ true))
unfolding observe_primary
observe_primary-accepts g hash intent now h = elim (Option-cases g.first_seen) [
  | inl e ↦ absurd (ground arith)
  | inr (start, e) ↦ elim (Option-cases g.last_hash) [
    | inl f ↦ absurd (ground arith)
    | inr (last, f) ↦ (start, ground (arith, same_iff last hash), e, ground arith, ground arith)
  ]
]
