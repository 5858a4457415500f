-- ===== src/Sync/Crdt.antt =====
-- crates/vbuff-sync/src/crdt.rs: add-wins sets, last-writer-wins registers and the item replica.
-- A `BTreeMap` or `BTreeSet` is its ascending list.
pub mod Merge
pub mod Presence
pub mod AddWins
pub mod Register
use mathlib.Core.Option.{get_or}
use vbuff.Base.{
  ℕ, compare, Ordering, ◌≡◌, ◌↔◌, Bool, true, false, not, ◌&&◌, ◌||◌, Option, none, some, List, [],
  ◌∷◌, map, if◌then◌else◌, arith, Ord, Bytes, bytes_ord, cmp_bytes, cmp_bytes_eq, cmp_bytes_flip,
  cmp_bytes_trans, then_with, reversed, less, same,
}
use vbuff.Base.Sets.{member, set_extend, set_insert}
use vbuff.Base.Maps.{get, entry}
use vbuff.Sync.Clock.{HybridLogicalClock, clock_ord, bounded_at}
use vbuff.Sync.Error.{Result, ok, err, invalid}

pub record Dot : Type 0 where
  pub device_id : Bytes
  pub counter : ℕ

unfoldable pub cmp_dot : Dot → Dot → Ordering
cmp_dot a b = then_with (cmp_bytes a.device_id b.device_id) (compare a.counter b.counter)

pub cmp_dot_eq : (a b : Dot) → (cmp_dot a b ≡ Ordering.eq) ↔ (a ≡ b)
unfolding cmp_dot
cmp_dot_eq a b = (
  λ h. ground (arith, cmp_bytes_eq a.device_id b.device_id),
  λ h. ground (arith, cmp_bytes_eq a.device_id b.device_id),
)

pub cmp_dot_flip : (a b : Dot) → cmp_dot b a ≡ reversed (cmp_dot a b)
unfolding cmp_dot
cmp_dot_flip a b = ground (arith, cmp_bytes_flip a.device_id b.device_id)

pub cmp_dot_trans :
    (a b c : Dot)
    → cmp_dot a b ≡ Ordering.lt
    → cmp_dot b c ≡ Ordering.lt
    → cmp_dot a c ≡ Ordering.lt
unfolding cmp_dot
cmp_dot_trans a b c h k = ground (
  arith,
  cmp_bytes_trans a.device_id b.device_id c.device_id,
  cmp_bytes_eq a.device_id b.device_id,
  cmp_bytes_eq b.device_id c.device_id,
)

instance abbrev pub dot_ord : Ord Dot
dot_ord = record {
  cmp = cmp_dot;
  cmp_eq = cmp_dot_eq;
  cmp_flip = cmp_dot_flip;
  cmp_trans = cmp_dot_trans;
}

pub record OrSet {ℓ} (T : Type ℓ) : Type ℓ where
  pub additions : List (T × List Dot)
  pub removals : List Dot

abbrev pub default {ℓ} : {T : Type ℓ} → OrSet T
default = record { additions = []; removals = [] }

-- `dots.iter().any(|dot| !removals.contains(dot))`.
unfoldable pub any_live : List Dot → List Dot → Bool
any_live removals [] = false
any_live removals (d ∷ ds) = not (member d removals) || any_live removals ds

module _ {ℓ} {T : Type ℓ} ⦃o : Ord T⦄ where
  unfoldable pub add : OrSet T → T → Dot → OrSet T
  add s value dot = record s { additions = entry value [] (set_insert dot) s.additions }

  unfoldable pub remove : OrSet T → T → OrSet T
  remove s value = elim (get value s.additions) [
    | none ↦ s
    | some dots ↦ record s { removals = set_extend s.removals dots }
  ]

  unfoldable pub contains : OrSet T → T → Bool
  unfolding any_live
  contains s value = elim (get value s.additions) [
    | none ↦ false
    | some dots ↦ any_live s.removals dots
  ]

  -- The loop of `merge` over `other.additions`.
  unfoldable pub merge_additions : List (T × List Dot) → List (T × List Dot) → List (T × List Dot)
  merge_additions mine [] = mine
  merge_additions mine ((value, dots) ∷ theirs) =
      merge_additions (entry value [] (λ own. set_extend own dots) mine) theirs

  unfoldable pub merge : OrSet T → OrSet T → OrSet T
  unfolding merge_additions
  merge s other = record {
    additions = merge_additions s.additions other.additions;
    removals = set_extend s.removals other.removals;
  }

pub record LwwRegister {ℓ} (T : Type ℓ) : Type ℓ where
  pub value : T
  pub clock : HybridLogicalClock

module _ {ℓ} {T : Type ℓ} where
  unfoldable pub assign : LwwRegister T → T → HybridLogicalClock → ℕ → LwwRegister T
  assign r value untrusted now_ms =
      let clock = bounded_at untrusted now_ms in
      if less r.clock clock then record { value = value; clock = clock } else r

  unfoldable pub merge_register : LwwRegister T → LwwRegister T → ℕ → LwwRegister T
  unfolding assign
  merge_register r other now_ms = assign r other.value other.clock now_ms

pub record ItemFields : Type 0 where
  pub name : LwwRegister (Option Bytes)
  pub notes : LwwRegister (Option Bytes)
  pub color : LwwRegister (Option Bytes)
  pub pinned : LwwRegister Bool
  pub tags : OrSet Bytes

unfoldable pub merge_fields : ItemFields → ItemFields → ℕ → ItemFields
merge_fields f other now_ms = record {
  name = merge_register f.name other.name now_ms;
  notes = merge_register f.notes other.notes now_ms;
  color = merge_register f.color other.color now_ms;
  pinned = merge_register f.pinned other.pinned now_ms;
  tags = merge f.tags other.tags;
}

pub record ItemReplica : Type 0 where
  pub item_id : Bytes
  pub presence : OrSet Bytes
  pub fields : ItemFields

unfoldable pub new_replica : Bytes → ItemFields → Dot → ItemReplica
new_replica item_id fields dot = record {
  item_id = item_id;
  presence = add default item_id dot;
  fields = fields;
}

unfoldable pub delete : ItemReplica → ItemReplica
delete r = record r { presence = remove r.presence r.item_id }

unfoldable pub pin : ItemReplica → Dot → HybridLogicalClock → ℕ → ItemReplica
pin r dot clock now_ms =
    let f = r.fields in
    record r {
      presence = add r.presence r.item_id dot;
      fields = record f { pinned = assign f.pinned true clock now_ms };
    }

unfoldable pub is_present : ItemReplica → Bool
is_present r = contains r.presence r.item_id

unfoldable pub merge_replica : ItemReplica → ItemReplica → ℕ → Result ItemReplica
merge_replica r other now_ms =
    if not (same r.item_id other.item_id)
    then err (invalid "cannot merge replicas with different item IDs")
    else ok (record r {
      presence = merge r.presence other.presence;
      fields = merge_fields r.fields other.fields now_ms;
    })
