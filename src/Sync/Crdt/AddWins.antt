-- ===== src/Sync/Crdt/AddWins.antt =====
-- A removal against concurrent additions, in a set and in an item replica.
use vbuff.Base.{
  ℕ, ◌≡◌, ◌∙◌, sym, true, false, inl, inr, Bool-cases, arith, Ord, same_iff, cmp_refl, bytes_ord,
}
use vbuff.Sync.Clock.{HybridLogicalClock}
use vbuff.Sync.Error.{ok}
use vbuff.Sync.Crdt.{
  Dot, dot_ord, OrSet, add, remove, contains, merge, ItemReplica, delete, pin, is_present,
  merge_replica, merge_fields,
}
use vbuff.Sync.Crdt.Merge.{IsWellFormed, remove-IsWellFormed, add-IsWellFormed}
use vbuff.Sync.Crdt.Presence.{
  has_dot, is_removed, contains_of_live, live_of_contains, not_contains_of_removed,
  removed_of_absent, has_dot-add, has_dot-remove, has_dot-merge, is_removed-remove,
  is_removed-merge,
}

module _ {ℓ} {T : Type ℓ} ⦃o : Ord T⦄ (s t : OrSet T) (value : T) where
  -- A value that one replica removes and another adds under a dot is in the merged set, whichever
  -- replica merges the other, if the removing replica has neither seen that dot for the value nor
  -- removed it, the adding replica has not removed it either, and both replicas are well formed.
  pub merge-add_wins :
      (dot : Dot)
      → IsWellFormed s
      → IsWellFormed t
      → has_dot s value dot ≡ false
      → is_removed s dot ≡ false
      → is_removed t dot ≡ false
      → (contains (merge (remove s value) (add t value dot)) value ≡ true)
        × (contains (merge (add t value dot) (remove s value)) value ≡ true)
  unfolding add
  merge-add_wins dot v w unseen fresh kept =
      let removed = remove s value in
      let added = add t value dot in
      let shown : has_dot added value dot ≡ true =
        ground (arith, has_dot-add t value value dot dot, cmp_refl value, cmp_refl dot) in
      let live : is_removed removed dot ≡ false = ground (arith, is_removed-remove s value dot) in
      (
        contains_of_live (merge removed added) value dot
            (ground (arith, has_dot-merge removed added value dot (add-IsWellFormed t value dot w)))
            (ground (arith, is_removed-merge removed added dot)),
        contains_of_live (merge added removed) value dot
            (ground (arith, has_dot-merge added removed value dot (remove-IsWellFormed s value v)))
            (ground (arith, is_removed-merge added removed dot)),
      )

  -- A removal hides the value in every replica whose dots for the value the remover had all seen,
  -- whichever replica merges the other.
  pub merge-remove_observed :
      IsWellFormed s
      → IsWellFormed t
      → ((d : Dot) → has_dot t value d ≡ true → has_dot s value d ≡ true)
      → (contains (merge (remove s value) t) value ≡ false)
        × (contains (merge t (remove s value)) value ≡ false)
  merge-remove_observed v w seen =
      let removed = remove s value in
      (
        not_contains_of_removed (merge removed t) value (λ d h. ground (
          arith,
          seen d,
          has_dot-merge removed t value d w,
          has_dot-remove s value value d,
          is_removed-remove s value d,
          is_removed-merge removed t d,
        )),
        not_contains_of_removed (merge t removed) value (λ d h. ground (
          arith,
          seen d,
          has_dot-merge t removed value d (remove-IsWellFormed s value v),
          has_dot-remove s value value d,
          is_removed-remove s value d,
          is_removed-merge t removed d,
        )),
      )

module _ {ℓ} {T : Type ℓ} ⦃o : Ord T⦄ (s : OrSet T) (value : T) where
  -- Removing a value changes no other value with dots of its own.
  pub contains-remove_ne :
      (other : T)
      → ((d : Dot) → has_dot s other d ≡ true → has_dot s value d ≡ false)
      → contains (remove s value) other ≡ contains s other
  contains-remove_ne other apart = elim (Bool-cases (contains s other)) [
    | inl e ↦
        let (d, h, r) = live_of_contains s other e in
        contains_of_live (remove s value) other d (has_dot-remove s other value d ∙ h)
          (ground (arith, is_removed-remove s value d, apart d h))
        ∙ sym e
    | inr e ↦
        not_contains_of_removed (remove s value) other (λ d h. ground (
          arith,
          has_dot-remove s other value d,
          is_removed-remove s value d,
          removed_of_absent s other d e,
        ))
        ∙ sym e
  ]

-- An item that one replica deletes and another pins at the same time, under a dot which the first
-- has neither seen nor removed and the second has not removed, is present in the merged replica, with
-- both replicas well formed and of one item.
pub pin_survives_delete :
    (r q : ItemReplica) (dot : Dot) (clock : HybridLogicalClock) (now_ms merged_ms : ℕ)
    → r.item_id ≡ q.item_id
    → IsWellFormed r.presence
    → IsWellFormed q.presence
    → has_dot r.presence r.item_id dot ≡ false
    → is_removed r.presence dot ≡ false
    → is_removed q.presence dot ≡ false
    → (m : ItemReplica) × (merge_replica (delete r) (pin q dot clock now_ms) merged_ms ≡ ok m)
      × (is_present m ≡ true)
unfolding merge_replica is_present delete pin
pin_survives_delete r q dot clock now_ms merged_ms e v w unseen fresh kept = (
  record r {
    presence = merge (remove r.presence r.item_id) (add q.presence q.item_id dot);
    fields = merge_fields r.fields (pin q dot clock now_ms).fields merged_ms;
  },
  ground (arith, same_iff r.item_id q.item_id),
  rw (sym e) (merge-add_wins r.presence q.presence r.item_id dot v w unseen fresh kept).0,
)
