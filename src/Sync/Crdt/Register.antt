-- ===== src/Sync/Crdt/Register.antt =====
-- Last-writer-wins registers, and the convergence of whole item replicas.
use vbuff.Base.{
  ℕ, ◌≤◌, ◌≡◌, refl, sym, ◌∙◌, arith, bytes_ord, same_iff, less, u64_max, saturating_add,
  if◌then◌else◌,
}
use vbuff.Sync.Clock.{
  HybridLogicalClock, clock_ord, max_remote_future_ms, bounded_at, cmp_clock_eq, cmp_clock_flip,
  cmp_clock_trans,
}
use vbuff.Sync.Crdt.{
  LwwRegister, merge_register, ItemFields, merge_fields, ItemReplica, merge_replica,
}
use vbuff.Sync.Crdt.Merge.{IsWellFormed, merge_comm}

-- The clock leads the wall time of the merge by no more than the tolerance.
abbrev pub IsSettled {ℓ} : {T : Type ℓ} → ℕ → LwwRegister T → Type 0
IsSettled now_ms r = r.clock.physical_ms ≤ saturating_add u64_max now_ms max_remote_future_ms

-- A clock stamps one write only.
abbrev pub Agree {ℓ} : {T : Type ℓ} → LwwRegister T → LwwRegister T → Type ℓ
Agree r q = r.clock ≡ q.clock → r ≡ q

bounded_at-settled :
    (c : HybridLogicalClock) (now_ms : ℕ)
    → c.physical_ms ≤ saturating_add u64_max now_ms max_remote_future_ms
    → bounded_at c now_ms ≡ c
unfolding bounded_at
bounded_at-settled c now_ms h = ground arith

module _ {ℓ} {T : Type ℓ} (now_ms : ℕ) where
  -- A settled register is not changed by the clamp: the later clock decides.
  merge_register-settled :
      (r q : LwwRegister T)
      → IsSettled now_ms q
      → merge_register r q now_ms ≡ (if less r.clock q.clock then q else r)
  unfolding merge_register
  merge_register-settled r q h = rw (bounded_at-settled q.clock now_ms h) refl

  -- Two registers whose clocks are within the tolerance of the merge time, and whose equal clocks
  -- mean equal registers, merge to the same register in either order.
  pub merge_register_comm :
      (r q : LwwRegister T)
      → IsSettled now_ms r
      → IsSettled now_ms q
      → Agree r q
      → merge_register r q now_ms ≡ merge_register q r now_ms
  merge_register_comm r q s t a =
      merge_register-settled r q t
      ∙ ground (arith, cmp_clock_eq r.clock q.clock, cmp_clock_flip r.clock q.clock)
      ∙ sym (merge_register-settled q r s)

  pub merge_register-IsSettled :
      (r q : LwwRegister T) → IsSettled now_ms r → IsSettled now_ms (merge_register r q now_ms)
  unfolding merge_register bounded_at
  merge_register-IsSettled r q s = ground arith

  -- Merging three registers gives the same register however the merges are grouped, if the second
  -- and third clocks are within the tolerance of the merge time.
  pub merge_register_assoc :
      (r q p : LwwRegister T)
      → IsSettled now_ms q
      → IsSettled now_ms p
      → merge_register (merge_register r q now_ms) p now_ms
        ≡ merge_register r (merge_register q p now_ms) now_ms
  merge_register_assoc r q p s t =
      merge_register-settled _ p t
      ∙ rw (merge_register-settled r q s) (
          ground (
            arith,
            cmp_clock_trans r.clock q.clock p.clock,
            cmp_clock_trans q.clock r.clock p.clock,
            cmp_clock_flip r.clock q.clock,
            cmp_clock_flip q.clock p.clock,
            cmp_clock_flip r.clock p.clock,
            cmp_clock_eq r.clock q.clock,
            cmp_clock_eq q.clock p.clock,
            cmp_clock_trans r.clock p.clock q.clock,
            cmp_clock_trans p.clock q.clock r.clock,
            merge_register-settled q p t,
            merge_register-settled r q s,
            merge_register-settled r p t,
          ))

-- Every field of the two items is settled, and stamped by clocks that name one write each.
pub record AreMergeable (now_ms : ℕ) (f g : ItemFields) : Type 0 where
  pub name_left : IsSettled now_ms f.name
  pub name_right : IsSettled now_ms g.name
  pub name_agree : Agree f.name g.name
  pub notes_left : IsSettled now_ms f.notes
  pub notes_right : IsSettled now_ms g.notes
  pub notes_agree : Agree f.notes g.notes
  pub color_left : IsSettled now_ms f.color
  pub color_right : IsSettled now_ms g.color
  pub color_agree : Agree f.color g.color
  pub pinned_left : IsSettled now_ms f.pinned
  pub pinned_right : IsSettled now_ms g.pinned
  pub pinned_agree : Agree f.pinned g.pinned
  pub tags_left : IsWellFormed f.tags
  pub tags_right : IsWellFormed g.tags

merge_fields_comm :
    (f g : ItemFields) (now_ms : ℕ)
    → AreMergeable now_ms f g
    → merge_fields f g now_ms ≡ merge_fields g f now_ms
unfolding merge_fields
merge_fields_comm f g now_ms m = λ i. record {
  name = merge_register_comm now_ms f.name g.name m.name_left m.name_right m.name_agree i;
  notes = merge_register_comm now_ms f.notes g.notes m.notes_left m.notes_right m.notes_agree i;
  color = merge_register_comm now_ms f.color g.color m.color_left m.color_right m.color_agree i;
  pinned =
      merge_register_comm now_ms f.pinned g.pinned m.pinned_left m.pinned_right m.pinned_agree i;
  tags = merge_comm f.tags g.tags m.tags_left m.tags_right i;
}

-- Two replicas that merge one another at one time reach the same replica, or refuse with the same
-- error: with well-formed sets, clocks within the tolerance, and no clock shared by two writes.
pub merge_replica_comm :
    (r q : ItemReplica) (now_ms : ℕ)
    → IsWellFormed r.presence
    → IsWellFormed q.presence
    → AreMergeable now_ms r.fields q.fields
    → merge_replica r q now_ms ≡ merge_replica q r now_ms
unfolding merge_replica
merge_replica_comm r q now_ms v w m = ground (
  arith,
  same_iff r.item_id q.item_id,
  same_iff q.item_id r.item_id,
  merge_comm r.presence q.presence v w,
  merge_fields_comm r.fields q.fields now_ms m,
)
