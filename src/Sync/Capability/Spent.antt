-- ===== src/Sync/Capability/Spent.antt =====
-- A nonce that is spent or revoked stays so.
use vbuff.Base.{
  ℕ, ◌≤◌, ◌<◌, ◌≡◌, ◌≢◌, ◌⊎◌, ◌∙◌, max, inl, inr, refl, sym, ap, subst, false, ◌||◌, leb,
  Bool-cases, Option-cases, arith, some, Bytes, bytes_ord,
}
use vbuff.Base.Maps.{contains_key}
use vbuff.Types.Replay.{ReplayGuard, advance_to, contains, burn, record_key}
use vbuff.Types.Replay.Window.{Covers, advance_to-Covers, record_key-Covers, record_key-Covers_own}
use vbuff.Sync.Error.{Result, ok, err, ok_injective}
use vbuff.Sync.Capability.{CapabilityScope, CapabilityVerifier, spend, advance, revoke}

-- The nonce is burnt or revoked until the instant.
abbrev pub IsSpent : CapabilityVerifier → Bytes → ℕ → Type 0
IsSpent v nonce expires = Covers v.consumed nonce expires ⊎ Covers v.revoked nonce expires

pub data Call : Type 0 where
  verifying : Bytes → Bytes → ℕ → Call
  revoking : Bytes → ℕ → Call

-- A revocation that is refused changes nothing.
abbrev pub revoked_or : CapabilityVerifier → Result CapabilityVerifier → CapabilityVerifier
revoked_or v (ok after) = after
revoked_or v (err e) = v

pub advance-IsSpent :
    (v : CapabilityVerifier) (now : ℕ) (nonce : Bytes) (expires : ℕ)
    → IsSpent v nonce expires
    → IsSpent (advance v now).0 nonce expires
unfolding advance advance_to
advance-IsSpent v now nonce expires (inl h) = inl (advance_to-Covers v.consumed now nonce expires h)
advance-IsSpent v now nonce expires (inr h) =
    inr (advance_to-Covers v.revoked (max v.consumed.clock_floor_ms now) nonce expires h)

-- What a scope that is spent has passed, and what it leaves.
spend_inv :
    (v after : CapabilityVerifier) (scope : CapabilityScope) (now : ℕ)
    → spend v scope now ≡ ok after
    → (now < scope.expires_at_ms)
      × (contains v.revoked scope.nonce ≡ false)
      × (contains v.consumed scope.nonce ≡ false)
      × ((g : ReplayGuard Bytes (Unit {0})) × (record_key v.consumed scope.nonce tt
              scope.expires_at_ms
            ≡ some g)
          × (after ≡ record v { consumed = g }))
unfolding spend burn
spend_inv v after scope now h = elim (Bool-cases (leb scope.expires_at_ms now)) [
  | inl late ↦ absurd (ground arith)
  | inr live ↦
      elim (Bool-cases (contains v.revoked scope.nonce || contains v.consumed scope.nonce)) [
        | inl used ↦ absurd (ground arith)
        | inr fresh ↦
            elim (Option-cases (record_key v.consumed scope.nonce tt scope.expires_at_ms)) [
              | inl full ↦ absurd (ground (arith, full))
              | inr (g, burnt) ↦
                  let written : spend v scope now ≡ ok (record v { consumed = g }) =
                    rw (live, fresh, burnt) refl in
                  (
                    ground arith,
                    ground (arith, fresh),
                    ground (arith, fresh),
                    (g, burnt, ok_injective (sym h ∙ written)),
                  )
            ]
      ]
]

pub spend-IsSpent :
    (v after : CapabilityVerifier) (scope : CapabilityScope) (now : ℕ) (nonce : Bytes) (expires : ℕ)
    → spend v scope now ≡ ok after
    → IsSpent v nonce expires
    → IsSpent after nonce expires
spend-IsSpent v after scope now nonce expires h (inl c) =
    let (_, _, _, (g, burnt, e)) = spend_inv v after scope now h in
    inl (
      subst (λ q. Covers q nonce expires) (sym (ap (λ q. q.consumed) e))
        (record_key-Covers v.consumed g nonce scope.nonce tt scope.expires_at_ms expires c burnt))
spend-IsSpent v after scope now nonce expires h (inr c) =
    let (_, _, _, (g, burnt, e)) = spend_inv v after scope now h in
    inr (subst (λ q. Covers q nonce expires) (sym (ap (λ q. q.revoked) e)) c)

pub spend-IsSpent_own :
    (v after : CapabilityVerifier) (scope : CapabilityScope) (now : ℕ)
    → spend v scope now ≡ ok after
    → IsSpent after scope.nonce scope.expires_at_ms
spend-IsSpent_own v after scope now h =
    let (_, _, _, (g, burnt, e)) = spend_inv v after scope now h in
    inl (
      subst (λ q. Covers q scope.nonce scope.expires_at_ms) (sym (ap (λ q. q.consumed) e))
        (record_key-Covers_own v.consumed g scope.nonce tt scope.expires_at_ms burnt))

-- The clock of a check is not behind either window's.
advance_clock :
    (v : CapabilityVerifier) (now : ℕ)
    → ((advance v now).0.consumed.clock_floor_ms ≤ (advance v now).1)
      × ((advance v now).0.revoked.clock_floor_ms ≤ (advance v now).1)
unfolding advance advance_to
advance_clock v now = omega arith

not_spent :
    (g : ReplayGuard Bytes (Unit {0})) (nonce : Bytes) (expires now : ℕ)
    → g.clock_floor_ms ≤ now
    → now < expires
    → contains g nonce ≡ false
    → Covers g nonce expires
    → ⊥
unfolding contains contains_key
not_spent g nonce expires now f l h (inr passed) = omega arith
not_spent g nonce expires now f l h (inl (e, held, late)) = absurd (ground (arith, h, held))

pub spend_refused :
    (v after : CapabilityVerifier) (scope : CapabilityScope) (now : ℕ)
    → IsSpent (advance v now).0 scope.nonce scope.expires_at_ms
    → spend (advance v now).0 scope (advance v now).1 ≢ ok after
spend_refused v after scope now (inl c) h =
    let (live, _, unused, _) = spend_inv (advance v now).0 after scope (advance v now).1 h in
    not_spent (advance v now).0.consumed scope.nonce scope.expires_at_ms (advance v now).1
      (advance_clock v now).0 live unused c
spend_refused v after scope now (inr c) h =
    let (live, unused, _, _) = spend_inv (advance v now).0 after scope (advance v now).1 h in
    not_spent (advance v now).0.revoked scope.nonce scope.expires_at_ms (advance v now).1
      (advance_clock v now).1 live unused c

revoke_inv :
    (v after : CapabilityVerifier) (nonce : Bytes) (expires : ℕ)
    → revoke v nonce expires ≡ ok after
    → (g : ReplayGuard Bytes (Unit {0})) × (record_key v.revoked nonce tt expires ≡ some g)
      × (after ≡ record v { revoked = g })
unfolding revoke burn
revoke_inv v after nonce expires h = elim (Option-cases (record_key v.revoked nonce tt expires)) [
  | inl full ↦ absurd (ground (arith, full))
  | inr (g, burnt) ↦
      let written : revoke v nonce expires ≡ ok (record v { revoked = g }) = rw burnt refl in
      (g, burnt, ok_injective (sym h ∙ written))
]

pub revoke-IsSpent :
    (v after : CapabilityVerifier) (other nonce : Bytes) (until expires : ℕ)
    → revoke v other until ≡ ok after
    → IsSpent v nonce expires
    → IsSpent after nonce expires
revoke-IsSpent v after other nonce until expires h (inl c) =
    let (g, burnt, e) = revoke_inv v after other until h in
    inl (subst (λ q. Covers q nonce expires) (sym (ap (λ q. q.consumed) e)) c)
revoke-IsSpent v after other nonce until expires h (inr c) =
    let (g, burnt, e) = revoke_inv v after other until h in
    inr (
      subst (λ q. Covers q nonce expires) (sym (ap (λ q. q.revoked) e))
        (record_key-Covers v.revoked g nonce other tt until expires c burnt))

pub revoke-IsSpent_own :
    (v after : CapabilityVerifier) (nonce : Bytes) (expires : ℕ)
    → revoke v nonce expires ≡ ok after
    → IsSpent after nonce expires
revoke-IsSpent_own v after nonce expires h =
    let (g, burnt, e) = revoke_inv v after nonce expires h in
    inr (
      subst (λ q. Covers q nonce expires) (sym (ap (λ q. q.revoked) e))
        (record_key-Covers_own v.revoked g nonce tt expires burnt))
