-- ===== src/Sync/Crdt/Presence.antt =====
-- Which values an observed-remove set contains: additions that a remover has not seen win.
use mathlib.Core.Option.{get_or}
use vbuff.Base.{
  ◌≡◌, ◌&&◌, Bool, true, false, ◌||◌, List, [], ◌∷◌, inl, inr, Option-cases, Bool-cases, arith, Ord,
  same, same_iff, cmp_refl,
}
use vbuff.Base.Sets.{member, set_insert, member-set_insert, member-set_extend}
use vbuff.Base.Maps.{get, entry, get-map_insert}
use vbuff.Sync.Crdt.{Dot, dot_ord, OrSet, add, remove, contains, any_live, merge}
use vbuff.Sync.Crdt.Merge.{IsWellFormed, get-merge}

any_live-intro :
    (removals ds : List Dot) (d : Dot)
    → member d ds ≡ true
    → member d removals ≡ false
    → any_live removals ds ≡ true
unfolding any_live member
any_live-intro removals [] d h r = cc
any_live-intro removals (e ∷ ds) d h r = elim (Bool-cases (same d e)) [
  | inl s ↦ ground (arith, same_iff d e)
  | inr n ↦ ground (arith, any_live-intro removals ds d)
]

any_live-elim :
    (removals ds : List Dot)
    → any_live removals ds ≡ true
    → (d : Dot) × (member d ds ≡ true) × (member d removals ≡ false)
unfolding any_live member
any_live-elim removals [] h = absurd (cc h)
any_live-elim removals (e ∷ ds) h = elim (Bool-cases (member e removals)) [
  | inl r ↦ let (d, m, k) = any_live-elim removals ds (ground arith) in (d, ground arith, k)
  | inr r ↦ (e, ground (arith, cmp_refl e), r)
]

module _ {ℓ} {T : Type ℓ} ⦃o : Ord T⦄ where
  -- The dot was added for the value; the dot was removed.
  abbrev pub has_dot : OrSet T → T → Dot → Bool
  has_dot s value d = member d (get_or (get value s.additions) [])

  abbrev pub is_removed : OrSet T → Dot → Bool
  is_removed s d = member d s.removals

  pub contains_of_live :
      (s : OrSet T) (value : T) (d : Dot)
      → has_dot s value d ≡ true
      → is_removed s d ≡ false
      → contains s value ≡ true
  unfolding contains member
  contains_of_live s value d h r = elim (Option-cases (get value s.additions)) [
    | inl e ↦ absurd (ground arith)
    | inr (ds, e) ↦ rw (e, contains) (any_live-intro s.removals ds d (ground arith) r)
  ]

  pub live_of_contains :
      (s : OrSet T) (value : T)
      → contains s value ≡ true
      → (d : Dot) × (has_dot s value d ≡ true) × (is_removed s d ≡ false)
  unfolding contains
  live_of_contains s value h = elim (Option-cases (get value s.additions)) [
    | inl e ↦ absurd (ground arith)
    | inr (ds, e) ↦
        let (d, m, r) = any_live-elim s.removals ds (ground arith) in (d, ground arith, r)
  ]

  pub has_dot-add :
      (s : OrSet T) (u value : T) (d dot : Dot)
      → has_dot (add s value dot) u d ≡ ((same u value && same d dot) || has_dot s u d)
  unfolding add entry
  has_dot-add s u value d dot = ground (
    arith,
    get-map_insert u value (set_insert dot (get_or (get value s.additions) [])) s.additions,
    member-set_insert d dot (get_or (get value s.additions) []),
    same_iff u value,
  )

  pub is_removed-remove :
      (s : OrSet T) (value : T) (d : Dot)
      → is_removed (remove s value) d ≡ (is_removed s d || has_dot s value d)
  unfolding remove member
  is_removed-remove s value d = elim (Option-cases (get value s.additions)) [
    | inl e ↦ ground arith
    | inr (ds, e) ↦ ground (arith, member-set_extend d s.removals ds)
  ]

  pub has_dot-remove :
      (s : OrSet T) (u value : T) (d : Dot) → has_dot (remove s value) u d ≡ has_dot s u d
  unfolding remove
  has_dot-remove s u value d = ground arith

  pub has_dot-merge :
      (s t : OrSet T) (value : T) (d : Dot)
      → IsWellFormed t
      → has_dot (merge s t) value d ≡ (has_dot s value d || has_dot t value d)
  unfolding member
  has_dot-merge s t value d w = elim (Option-cases (get value s.additions)) [
    | inl e ↦ ground (arith, get-merge value s t w)
    | inr (xs, e) ↦ elim (Option-cases (get value t.additions)) [
      | inl f ↦ ground (arith, get-merge value s t w)
      | inr (ys, f) ↦ ground (arith, get-merge value s t w, member-set_extend d xs ys)
    ]
  ]

  pub is_removed-merge :
      (s t : OrSet T) (d : Dot) → is_removed (merge s t) d ≡ (is_removed s d || is_removed t d)
  unfolding merge
  is_removed-merge s t d = member-set_extend d s.removals t.removals

  pub not_contains_of_removed :
      (s : OrSet T) (value : T)
      → ((d : Dot) → has_dot s value d ≡ true → is_removed s d ≡ true)
      → contains s value ≡ false
  not_contains_of_removed s value h = elim (Bool-cases (contains s value)) [
    | inl e ↦ let (d, m, r) = live_of_contains s value e in absurd (cc (h d m))
    | inr e ↦ e
  ]

  pub removed_of_absent :
      (s : OrSet T) (value : T) (d : Dot)
      → contains s value ≡ false
      → has_dot s value d ≡ true
      → is_removed s d ≡ true
  removed_of_absent s value d e h = elim (Bool-cases (is_removed s d)) [
    | inl r ↦ r
    | inr r ↦ absurd (cc (contains_of_live s value d h r))
  ]
