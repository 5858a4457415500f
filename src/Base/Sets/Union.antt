-- ===== src/Base/Sets/Union.antt =====
-- `set.extend(other)` as a union: a semilattice on ascending lists.
use mathlib.Core.Path.{◌≡◌, refl}
use mathlib.Core.List.{List, []}
use mathlib.Core.Option.{Option, none, some}
use native.Mathlib.Omega.{arith}
use vbuff.Base.Order.{Ord}
use vbuff.Base.Sets.{
  member, set_extend, IsAscending, member-set_extend, set_extend-IsAscending, member_ext,
}

module _ {ℓ} {A : Type ℓ} ⦃o : Ord A⦄ where
  pub set_extend_comm :
      (xs ys : List A) → IsAscending xs → IsAscending ys → set_extend xs ys ≡ set_extend ys xs
  set_extend_comm xs ys a b =
      member_ext _ _ (set_extend-IsAscending xs ys a) (set_extend-IsAscending ys xs b)
        (λ z. ground (arith, member-set_extend z xs ys, member-set_extend z ys xs))

  pub set_extend_assoc :
      (xs ys zs : List A)
      → IsAscending xs
      → set_extend (set_extend xs ys) zs ≡ set_extend xs (set_extend ys zs)
  set_extend_assoc xs ys zs a =
      member_ext _ _ (set_extend-IsAscending _ zs (set_extend-IsAscending xs ys a))
        (set_extend-IsAscending xs _ a)
        (λ z. ground (
          arith,
          member-set_extend z (set_extend xs ys) zs,
          member-set_extend z xs ys,
          member-set_extend z xs (set_extend ys zs),
          member-set_extend z ys zs,
        ))

  pub set_extend_idem : (xs : List A) → IsAscending xs → set_extend xs xs ≡ xs
  set_extend_idem xs a =
      member_ext _ _ (set_extend-IsAscending xs xs a) a
        (λ z. ground (arith, member-set_extend z xs xs))

  pub nil-set_extend : (xs : List A) → IsAscending xs → set_extend [] xs ≡ xs
  unfolding member
  nil-set_extend xs a =
      member_ext _ _ (set_extend-IsAscending [] xs tt) a
        (λ z. ground (arith, member-set_extend z [] xs))

  -- What merging two maps of sets does at one key.
  abbrev pub join : Option (List A) → Option (List A) → Option (List A)
  join none q = q
  join (some xs) none = some xs
  join (some xs) (some ys) = some (set_extend xs ys)

  abbrev pub AscendingSet : Option (List A) → Type 0
  AscendingSet none = Unit {0}
  AscendingSet (some xs) = IsAscending xs

  pub join-AscendingSet :
      (p q : Option (List A)) → AscendingSet p → AscendingSet q → AscendingSet (join p q)
  join-AscendingSet none q a b = b
  join-AscendingSet (some xs) none a b = a
  join-AscendingSet (some xs) (some ys) a b = set_extend-IsAscending xs ys a

  pub join_comm : (p q : Option (List A)) → AscendingSet p → AscendingSet q → join p q ≡ join q p
  join_comm none none a b = refl
  join_comm none (some ys) a b = refl
  join_comm (some xs) none a b = refl
  join_comm (some xs) (some ys) a b = cc (set_extend_comm xs ys a b)

  pub join_assoc :
      (p q r : Option (List A)) → AscendingSet p → join (join p q) r ≡ join p (join q r)
  join_assoc none q r a = refl
  join_assoc (some xs) none r a = refl
  join_assoc (some xs) (some ys) none a = refl
  join_assoc (some xs) (some ys) (some zs) a = cc (set_extend_assoc xs ys zs a)

  pub join_idem : (p : Option (List A)) → AscendingSet p → join p p ≡ p
  join_idem none a = refl
  join_idem (some xs) a = cc (set_extend_idem xs a)
