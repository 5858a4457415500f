-- ===== src/Capture/Consent/Choices.antt =====
-- What a remembered choice decides.
use vbuff.Base.{
  ◌≡◌, ◌≢◌, ◌⊎◌, refl, ap, inl, inr, true, false, Bool-cases, Option, none, some, some_injective,
  arith, Bytes, bytes_ord, same, same_iff,
}
use vbuff.Base.Maps.{map_insert, get-map_insert}
use vbuff.Types.Text.{Text}
use vbuff.Capture.Consent.{
  SensitiveSourceChoice, SensitiveSourceDecision, SensitiveSourceConsent, max_source_choices,
  decision_of, has_room, source_key, decide_key, decide, remember_key, remember,
}

module _ (blake3 : Bytes → Bytes) where
  -- The source whose choice was remembered is decided by it, and any other as before.
  abbrev pub IsDecidedBy :
      SensitiveSourceChoice
      → Option Bytes
      → Option Bytes
      → SensitiveSourceConsent
      → SensitiveSourceDecision
      → SensitiveSourceDecision
      → Type 0
  IsDecidedBy choice key other c later before =
      ((other ≡ key) × (later ≡ decision_of c.ephemeral_ttl (some choice)))
      ⊎ ((other ≢ key) × (later ≡ before))

  inserted :
      (c : SensitiveSourceConsent) (key : Bytes) (other : Option Bytes)
      (choice : SensitiveSourceChoice)
      → IsDecidedBy choice
          (some key)
          other
          c
          (decide_key blake3 (record c { choices = map_insert key choice c.choices }) other)
          (decide_key blake3 c other)
  inserted c key none choice = inr (λ q. ground (arith, q), refl)
  inserted c key (some z) choice = elim (Bool-cases (same z key)) [
    | inl s ↦ inl (
      ap (λ q. some q) ((same_iff z key).0 s),
      rw (get-map_insert z key choice c.choices, s) refl,
    )
    | inr s ↦ inr (
      λ q. let equal = (same_iff z key).1 (some_injective q) in ground (arith, s, equal),
      rw (get-map_insert z key choice c.choices, s) refl,
    )
  ]

  not_remembered :
      (c : SensitiveSourceConsent) (key : Bytes) (choice : SensitiveSourceChoice)
      → has_room max_source_choices key c.choices ≡ false
      → (remember_key blake3 c (some key) choice).1 ≡ false
  not_remembered c key choice e = rw (e, remember_key) refl

  remember_key-decide_key :
      (c : SensitiveSourceConsent) (key other : Option Bytes) (choice : SensitiveSourceChoice)
      → (remember_key blake3 c key choice).1 ≡ true
      → IsDecidedBy choice key other c
          (decide_key blake3 (remember_key blake3 c key choice).0 other)
          (decide_key blake3 c other)
  remember_key-decide_key c none other choice h = absurd (ground (arith, h))
  remember_key-decide_key c (some key) other choice h =
      elim (Bool-cases (has_room max_source_choices key c.choices)) [
        | inr e ↦ absurd (ground (arith, not_remembered c key choice e, h))
        | inl e ↦ rw (e, remember_key) (inserted c key other choice)
      ]

  -- After a choice is remembered, a sensitive source whose name has the same hash is decided by it, and
  -- any other sensitive source as it was before.
  pub remember-decide :
      (c : SensitiveSourceConsent) (source_app other : Text) (choice : SensitiveSourceChoice)
      → (remember blake3 c source_app choice).1 ≡ true
      → IsDecidedBy choice
          (source_key blake3 source_app)
          (source_key blake3 other)
          c
          (decide blake3 (remember blake3 c source_app choice).0 other true)
          (decide blake3 c other true)
  unfolding remember decide
  remember-decide c source_app other choice h =
      remember_key-decide_key c (source_key blake3 source_app) (source_key blake3 other) choice h
