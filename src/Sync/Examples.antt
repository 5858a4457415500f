-- ===== src/Sync/Examples.antt =====
-- Concrete runs of the clock, the conflict resolution, the replicated data types and the chains.
use vbuff.Base.{
  ℕ, ◌≤◌, Ordering, ◌≡◌, ◌≢◌, refl, Bool, true, false, Option, some, [], ◌∷◌, arith, ◌==◌, same_iff,
  nat_ord, bytes_ord, suc, List, ◌++◌, same, replicate, cmp_bytes, Bytes,
}
use vbuff.Base.Sets.{member, set_insert, set_extend}
use vbuff.Base.Maps.{get, map_insert, entry}
use vbuff.Sync.Error.{ok}
use vbuff.Sync.Preimage.{be_bytes, new, fixed, var, byte, optional, u32_be, u64_be, finish}
use vbuff.Sync.Preimage
use vbuff.Sync.Preimage.Fields.{Field, var_field, byte_field, build, push_all, push_field}
use vbuff.Sync.Preimage.Unambiguous.{build-injective}
use vbuff.Sync.Chain.{
  Crypto, ChainEntry, ChainLink, SignedChain, head, append, link_preimage, replay, last_hash,
  verify_from, verify_link,
}
use vbuff.Sync.Chain
use vbuff.Sync.Chain.Append.{Verifies, append-verify}
use vbuff.Sync.Clock.{HybridLogicalClock, InRange, cmp_clock, clock_ord, tick, bounded_at, observe}
use vbuff.Sync.Clock.Advance.{tick-advances}
use vbuff.Sync.Clock.Observe.{cmp_stamp, observe-after_both}
use vbuff.Sync.Conflict.{ConflictCandidate, resolve}
use vbuff.Sync.Crdt.{
  Dot, dot_ord, cmp_dot, OrSet, default, add, remove, contains, merge, LwwRegister, ItemFields,
  ItemReplica, merge_replica,
}
use vbuff.Sync.Crdt.Merge.{IsWellFormed, default-IsWellFormed, add-IsWellFormed}
use vbuff.Sync.Crdt.Presence.{has_dot}
use vbuff.Sync.Crdt.AddWins.{merge-add_wins}
use vbuff.Sync.Crdt.Register.{AreMergeable, merge_replica_comm}

abbrev phone : Bytes
phone = b'p' ∷ []

abbrev tablet : Bytes
tablet = b't' ∷ []

abbrev phone_clock : HybridLogicalClock
phone_clock = record { physical_ms = 1_000; logical = 4; node_id = phone }

abbrev tablet_clock : HybridLogicalClock
tablet_clock = record { physical_ms = 2_000; logical = 0; node_id = tablet }

-- The phone's clock after a run of writes within one millisecond: the next one carries.
abbrev full_clock : HybridLogicalClock
full_clock = record phone_clock { logical = 4_294_967_295 }

tick-advances_example :
    (cmp_clock full_clock (tick full_clock 900) ≡ Ordering.lt)
    × InRange (tick full_clock 900)
    × ((tick full_clock 900).node_id ≡ phone)
    × (900 ≤ (tick full_clock 900).physical_ms)
tick-advances_example = tick-advances full_clock 900 (omega arith) (omega arith) (omega arith)

observe-after_both_example :
    (cmp_stamp full_clock (observe full_clock tablet_clock 500) ≡ Ordering.lt)
    × (cmp_stamp (bounded_at tablet_clock 500) (observe full_clock tablet_clock 500) ≡ Ordering.lt)
    × InRange (observe full_clock tablet_clock 500)
    × ((observe full_clock tablet_clock 500).node_id ≡ phone)
observe-after_both_example =
    observe-after_both full_clock tablet_clock 500 (omega arith) (omega arith) (omega arith)
      (omega arith) (omega arith)

abbrev mine : ConflictCandidate ℕ
mine = record { value = 1; clock = phone_clock }

abbrev theirs : ConflictCandidate ℕ
theirs = record { value = 2; clock = tablet_clock }

resolve_newer : (resolve ◌==◌ mine theirs).winner ≡ theirs
unfolding resolve cmp_clock
resolve_newer = refl

abbrev phone_dot : Dot
phone_dot = record { device_id = phone; counter = 1 }

abbrev tablet_dot : Dot
tablet_dot = record { device_id = tablet; counter = 1 }

abbrev tagged : OrSet ℕ
tagged = add default 7 phone_dot

abbrev tagged_elsewhere : OrSet ℕ
tagged_elsewhere = add default 7 tablet_dot

abbrev untagged : OrSet ℕ
untagged = remove tagged 7

tagged-IsWellFormed : IsWellFormed tagged
tagged-IsWellFormed = add-IsWellFormed default 7 phone_dot default-IsWellFormed

tagged_elsewhere-IsWellFormed : IsWellFormed tagged_elsewhere
tagged_elsewhere-IsWellFormed = add-IsWellFormed default 7 tablet_dot default-IsWellFormed

program : Unit {0}
unfolding member set_insert set_extend get map_insert entry add remove cmp_bytes cmp_dot contains
program = tt

merge-add_wins_example :
    (contains (merge untagged tagged_elsewhere) 7 ≡ true)
    × (contains (merge tagged_elsewhere untagged) 7 ≡ true)
unfolding program
merge-add_wins_example =
    merge-add_wins tagged default 7 tablet_dot tagged-IsWellFormed default-IsWellFormed refl refl
      refl

abbrev name_register : LwwRegister (Option Bytes)
name_register = record { value = some phone; clock = phone_clock }

abbrev renamed_register : LwwRegister (Option Bytes)
renamed_register = record { value = some tablet; clock = tablet_clock }

differ : phone_clock ≢ tablet_clock
differ e = absurd (ground arith)

abbrev unpinned : LwwRegister Bool
unpinned = record { value = false; clock = phone_clock }

abbrev fields : ItemFields
fields = record {
  name = name_register;
  notes = name_register;
  color = name_register;
  pinned = unpinned;
  tags = default;
}

abbrev renamed_fields : ItemFields
renamed_fields = record fields { name = renamed_register }

abbrev item : ItemReplica
item = record { item_id = 9 ∷ []; presence = add default (9 ∷ []) phone_dot; fields = fields }

abbrev renamed_item : ItemReplica
renamed_item = record item { fields = renamed_fields }

item-IsWellFormed : IsWellFormed item.presence
item-IsWellFormed = add-IsWellFormed default (9 ∷ []) phone_dot default-IsWellFormed

items-AreMergeable : AreMergeable 500 fields renamed_fields
items-AreMergeable = record {
  name_left = omega arith;
  name_right = omega arith;
  name_agree = λ e. absurd (differ e);
  notes_left = omega arith;
  notes_right = omega arith;
  notes_agree = λ e. refl;
  color_left = omega arith;
  color_right = omega arith;
  color_agree = λ e. refl;
  pinned_left = omega arith;
  pinned_right = omega arith;
  pinned_agree = λ e. refl;
  tags_left = default-IsWellFormed;
  tags_right = default-IsWellFormed;
}

merge_replica_comm_example :
    merge_replica item renamed_item 500 ≡ merge_replica renamed_item item 500
merge_replica_comm_example =
    merge_replica_comm item renamed_item 500 item-IsWellFormed item-IsWellFormed items-AreMergeable

apart :
    (d : Dot)
    → has_dot (add tagged 8 tablet_dot) 8 d ≡ true
    → has_dot (add tagged 8 tablet_dot) 7 d ≡ false
unfolding program
apart d h = let e : d ≡ tablet_dot = (same_iff d tablet_dot).0 (ground arith) in rw e refl

abbrev burn_label : Bytes
burn_label = b'b' ∷ []

abbrev receipt_fields : List Field
receipt_fields = var_field phone ∷ byte_field 3 ∷ []

build-injective_example : (burn_label ≡ burn_label) × (receipt_fields ≡ receipt_fields)
unfolding build push_all push_field new var byte finish be_bytes
build-injective_example =
    build-injective burn_label burn_label receipt_fields receipt_fields
      (b'b' ∷ 0 ∷ 0 ∷ 0 ∷ 0 ∷ 1 ∷ b'p' ∷ 3 ∷ []) (omega arith, tt) (omega arith, tt) (tt, (tt, tt))
      refl refl

-- A signature that is its key and message, and a chain of bytes whose author is the authority.
abbrev open_crypto : Crypto
open_crypto = record {
  blake3 = λ m. m;
  verifying_key = λ k. k;
  is_key = λ k. true;
  sign = λ k m. k ++ m;
  verify = λ k m s. same s (k ++ m);
}

open_crypto-Verifies : Verifies open_crypto
open_crypto-Verifies = record {
  keys = λ k. refl;
  signatures = λ k m. (same_iff (k ++ m) (k ++ m)).1 refl;
}

abbrev bytes_entry : ChainEntry ℕ ℕ Bytes
bytes_entry = record {
  domain = burn_label;
  max_entries = 2;
  label = "bytes";
  initial = 0;
  extend_preimage = λ b p. Preimage.byte p b;
  expected_signing_key = λ b index state author. ok author;
  apply = λ b state. suc state;
}

abbrev empty_chain : SignedChain ℕ
empty_chain = record { entries = [] }

abbrev first_hash : Bytes
first_hash = burn_label ++ 0 ∷ (replicate 32 0 ++ 7 ∷ [])

abbrev first_link : ChainLink ℕ
first_link = record {
  payload = 7;
  previous_hash = replicate 32 0;
  hash = first_hash;
  signature = phone ++ first_hash;
}

append-verify_example :
    (Chain.verify bytes_entry open_crypto (record { entries = first_link ∷ [] }) phone ≡ ok tt)
    × (head (record { entries = first_link ∷ [] }) ≡ first_hash)
    × ((l : ChainLink ℕ) × (l.payload ≡ 7)
        × (l.previous_hash ≡ head empty_chain)
        × (first_link ∷ [] ≡ [] ++ l ∷ []))
unfolding append head replay last_hash link_preimage new fixed byte finish Chain.verify verify_from
    cmp_bytes
append-verify_example =
    append-verify bytes_entry open_crypto empty_chain (record { entries = first_link ∷ [] }) 7 phone
      phone first_hash open_crypto-Verifies refl refl
