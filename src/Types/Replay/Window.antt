-- ===== src/Types/Replay/Window.antt =====
-- A key stays in its window until the window's clock has passed the expiry that it was given.
use vbuff.Base.{
  some_injective, Bool, ap, ℕ, ◌≤◌, max, ◌≡◌, ◌⊎◌, ◌∙◌, inl, inr, refl, sym, Bool-cases,
  Option-cases, ltb, leb, arith, some, Ord, same, same_iff, length,
}
use vbuff.Base.Maps.{
  get, map_insert, get-retain, get-map_insert, length-retain, length-map_insert,
  length-map_insert_present, IsAscending, retain-IsAscending, map_insert-IsAscending,
}
use vbuff.Types.Replay.{ReplayEntry, ReplayGuard, advance_to, record_at, record_key}

module _ {K S : Type 0} ⦃o : Ord K⦄ where
  -- The key is held until the instant, or the clock has reached it.
  abbrev pub Covers : ReplayGuard K S → K → ℕ → Type 0
  Covers g key expires =
      ((e : ReplayEntry S) × (get key g.entries ≡ some e) × (expires ≤ e.expires_at_ms))
      ⊎ (expires ≤ g.clock_floor_ms)

  pub advance_to-Covers :
      (g : ReplayGuard K S) (now : ℕ) (key : K) (expires : ℕ)
      → Covers g key expires
      → Covers (advance_to g now).0 key expires
  unfolding advance_to
  advance_to-Covers g now key expires (inr passed) = inr (omega arith)
  advance_to-Covers g now key expires (inl (e, held, late)) =
      elim (Bool-cases (ltb (max g.clock_floor_ms now) e.expires_at_ms)) [
        | inl live ↦ inl (
          e,
          get-retain key e (λ q. ltb (max g.clock_floor_ms now) q.expires_at_ms) g.entries held
              live,
          late,
        )
        | inr dead ↦ inr (ground (arith, dead))
      ]

  abbrev with_entry : ReplayGuard K S → K → ReplayEntry S → ReplayGuard K S
  with_entry g key e = record g { entries = map_insert key e g.entries }

  -- What a recording that succeeds has written.
  record_key_inv :
      (g after : ReplayGuard K S) (key : K) (state : S) (until : ℕ)
      → record_key g key state until ≡ some after
      → (e : ReplayEntry S) × (after ≡ with_entry g key e)
        × (until ≤ e.expires_at_ms)
        × ((old : ReplayEntry S)
            → get key g.entries ≡ some old
            → old.expires_at_ms ≤ e.expires_at_ms)
        × (IsAscending g.entries
            → length g.entries ≤ g.capacity
            → length after.entries ≤ g.capacity)
  unfolding record_key
  record_key_inv g after key state until h = elim (Option-cases (get key g.entries)) [
    | inr (slot, held) ↦
        let e : ReplayEntry S = record {
          state = state;
          expires_at_ms = max slot.expires_at_ms until;
        } in
        let written : with_entry g key e ≡ after =
          some_injective (sym (ap (record_at g key state until) held) ∙ h) in
        (
          e,
          sym written,
          omega arith,
          λ old k. ground (arith, held, k),
          λ a b. ground (arith, written, length-map_insert_present key e slot g.entries a held),
        )
    | inl free ↦ elim (Bool-cases (leb g.capacity (length g.entries))) [
      | inl full ↦ absurd (ground (arith, free, full))
      | inr room ↦
          let e : ReplayEntry S = record { state = state; expires_at_ms = until } in
          let written : with_entry g key e ≡ after = ground (arith, free, room) in
          (
            e,
            sym written,
            omega arith,
            λ old k. absurd (ground (arith, free, k)),
            λ a b. ground (arith, written, room, length-map_insert key e g.entries),
          )
    ]
  ]

  pub record_key-Covers :
      (g after : ReplayGuard K S) (key other : K) (state : S) (until expires : ℕ)
      → Covers g key expires
      → record_key g other state until ≡ some after
      → Covers after key expires
  unfolding record_key
  record_key-Covers g after key other state until expires (inr passed) h =
      let (e, written, _, _, _) = record_key_inv g after other state until h in
      inr (ground (arith, written, passed))
  record_key-Covers g after key other state until expires (inl (held, found, late)) h =
      let (e, written, long, grows, _) = record_key_inv g after other state until h in
      elim (Bool-cases (same key other)) [
        | inl this ↦
            let named : key ≡ other = (same_iff key other).0 this in
            inl (
              e,
              ap (λ q. get key q.entries) written
                  ∙ get-map_insert key other e g.entries
                  ∙ rw this refl,
              omega (arith, grows held (ap (λ q. get q g.entries) (sym named) ∙ found)),
            )
        | inr another ↦ inl (
          held,
          ap (λ q. get key q.entries) written
              ∙ get-map_insert key other e g.entries
              ∙ rw another found,
          late,
        )
      ]

  pub record_key-Covers_own :
      (g after : ReplayGuard K S) (key : K) (state : S) (until : ℕ)
      → record_key g key state until ≡ some after
      → Covers after key until
  record_key-Covers_own g after key state until h =
      let (e, written, long, _, _) = record_key_inv g after key state until h in
      inl (
        e,
        ap (λ q. get key q.entries) written
            ∙ get-map_insert key key e g.entries
            ∙ rw ((same_iff key key).1 refl) refl,
        long,
      )

  -- An ascending window within its capacity.
  pub record IsBounded (g : ReplayGuard K S) : Type 0 where
    pub ascending : IsAscending g.entries
    pub fits : length g.entries ≤ g.capacity

  advance_to-IsBounded :
      (g : ReplayGuard K S) (now : ℕ) → IsBounded g → IsBounded (advance_to g now).0
  unfolding advance_to
  advance_to-IsBounded g now b =
      let test : ReplayEntry S → Bool = λ e. ltb (max g.clock_floor_ms now) e.expires_at_ms in
      record {
        ascending = retain-IsAscending test g.entries b.ascending;
        fits = omega (arith, length-retain test g.entries);
      }

  record_key-IsBounded :
      (g after : ReplayGuard K S) (key : K) (state : S) (until : ℕ)
      → IsBounded g
      → record_key g key state until ≡ some after
      → IsBounded after
  record_key-IsBounded g after key state until b h =
      let (e, written, _, _, room) = record_key_inv g after key state until h in
      record {
        ascending = rw written (map_insert-IsAscending key e g.entries b.ascending);
        fits =
            let kept : after.capacity ≡ g.capacity = ap (λ q. q.capacity) written in
            omega (arith, room b.ascending b.fits);
      }
