-- ===== src/Base/Sets.antt =====
-- `BTreeSet` as its ascending list of members.
pub mod Union
use Prim.Native.Nat.{Ordering}
use mathlib.Core.Path.{◌≡◌, refl, sym, ap, ap₂, subst, ◌∙◌}
use mathlib.Core.Bool.{Bool, true, false, ◌||◌, ◌&&◌}
use mathlib.Core.List.{List, [], ◌∷◌}
use native.Mathlib.Omega.{arith}
use mathlib.Core.Logic.{inl, inr, ◌≢◌}
use vbuff.Base.Order.{Ord, same, reversed, cmp_refl, Ordering-cases}

module _ {ℓ} {A : Type ℓ} ⦃o : Ord A⦄ where
  unfoldable pub member : A → List A → Bool
  member x [] = false
  member x (y ∷ ys) = same x y || member x ys

  unfoldable pub set_insert : A → List A → List A
  set_insert x [] = x ∷ []
  set_insert x (y ∷ ys) =
      let rest = set_insert x ys in
      elim (o.cmp x y) [ Ordering.lt ↦ x ∷ y ∷ ys | Ordering.eq ↦ y ∷ ys | Ordering.gt ↦ y ∷ rest ]

  -- `set.extend(iterator)`.
  unfoldable pub set_extend : List A → List A → List A
  set_extend xs [] = xs
  set_extend xs (y ∷ ys) = set_extend (set_insert y xs) ys

  -- `left.is_subset(right)`.
  unfoldable pub is_subset : List A → List A → Bool
  is_subset [] ys = true
  is_subset (x ∷ xs) ys = member x ys && is_subset xs ys

  abbrev pub Above : A → List A → Type 0
  Above x [] = Unit {0}
  Above x (y ∷ ys) = o.cmp x y ≡ Ordering.lt

  abbrev pub IsAscending : List A → Type 0
  IsAscending [] = Unit {0}
  IsAscending (x ∷ xs) = Above x xs × IsAscending xs

  pub member-set_insert :
      (z x : A) (ys : List A) → member z (set_insert x ys) ≡ (same z x || member z ys)
  unfolding member set_insert
  member-set_insert z x [] = refl
  member-set_insert z x (y ∷ ys) = ground (arith, member-set_insert z x ys, o.cmp_eq x y)

  pub member-set_extend :
      (z : A) (xs ys : List A) → member z (set_extend xs ys) ≡ (member z xs || member z ys)
  unfolding member set_extend
  member-set_extend z xs [] = ground arith
  member-set_extend z xs (y ∷ ys) =
      ground (arith, member-set_extend z (set_insert y xs) ys, member-set_insert z y xs)

  pub set_insert-Above :
      (z x : A) (ys : List A) → o.cmp z x ≡ Ordering.lt → Above z ys → Above z (set_insert x ys)
  unfolding set_insert
  set_insert-Above z x [] h a = h
  set_insert-Above z x (y ∷ ys) h a = ground arith

  pub set_insert-IsAscending :
      (x : A) (ys : List A) → IsAscending ys → IsAscending (set_insert x ys)
  unfolding set_insert
  set_insert-IsAscending x [] a = (tt, tt)
  set_insert-IsAscending x (y ∷ ys) a = elim (Ordering-cases (o.cmp x y)) [
    | inl e ↦ rw (e, set_insert) (e, a)
    | inr (inl e) ↦ rw (e, set_insert) a
    | inr (inr e) ↦
        rw (e, set_insert)
          (
            set_insert-Above y x ys (o.cmp_flip x y ∙ ap reversed e) a.0,
            set_insert-IsAscending x ys a.1,
          )
  ]

  pub set_extend-IsAscending : (xs ys : List A) → IsAscending xs → IsAscending (set_extend xs ys)
  unfolding set_extend
  set_extend-IsAscending xs [] a = a
  set_extend-IsAscending xs (y ∷ ys) a =
      set_extend-IsAscending (set_insert y xs) ys (set_insert-IsAscending y xs a)

  pub member_of_Above : (x : A) (ys : List A) → Above x ys → IsAscending ys → member x ys ≡ false
  unfolding member
  member_of_Above x [] h a = refl
  member_of_Above x (y ∷ []) h a = ground arith
  member_of_Above x (y ∷ z ∷ ys) h a =
      ground (arith, member_of_Above x (z ∷ ys) (o.cmp_trans x y z h a.0) a.1)

  not_lt_of_members :
      (x y : A) (xs ys : List A)
      → IsAscending (y ∷ ys)
      → ((z : A) → member z (x ∷ xs) ≡ member z (y ∷ ys))
      → o.cmp x y ≢ Ordering.lt
  unfolding member
  not_lt_of_members x y xs ys b h e =
      ground (arith, h x, cmp_refl x, member_of_Above x (y ∷ ys) e b)

  same_head :
      (x y : A) (xs ys : List A)
      → IsAscending (x ∷ xs)
      → IsAscending (y ∷ ys)
      → ((z : A) → member z (x ∷ xs) ≡ member z (y ∷ ys))
      → x ≡ y
  same_head x y xs ys a b h = elim (Ordering-cases (o.cmp x y)) [
    | inl e ↦ absurd (not_lt_of_members x y xs ys b h e)
    | inr (inl e) ↦ (o.cmp_eq x y).0 e
    | inr (inr e) ↦
        absurd (not_lt_of_members y x ys xs a (λ z. sym (h z)) (o.cmp_flip x y ∙ ap reversed e))
  ]

  same_tail :
      (x : A) (xs ys : List A)
      → IsAscending (x ∷ xs)
      → IsAscending (x ∷ ys)
      → ((z : A) → member z (x ∷ xs) ≡ member z (x ∷ ys))
      → (z : A) → member z xs ≡ member z ys
  unfolding member
  same_tail x xs ys a b h z = elim (Ordering-cases (o.cmp z x)) [
    | inl e ↦ ground (arith, h z)
    | inr (inl e) ↦
        rw ((o.cmp_eq z x).0 e) (member_of_Above x xs a.0 a.1 ∙ sym (member_of_Above x ys b.0 b.1))
    | inr (inr e) ↦ ground (arith, h z)
  ]

  -- Two ascending lists with the same members are the same list.
  pub member_ext :
      (xs ys : List A)
      → IsAscending xs
      → IsAscending ys
      → ((z : A) → member z xs ≡ member z ys)
      → xs ≡ ys
  member_ext [] [] a b h = refl
  member_ext [] (y ∷ ys) a b h = unfold member in ground (arith, h y, cmp_refl y)
  member_ext (x ∷ xs) [] a b h = unfold member in ground (arith, h x, cmp_refl x)
  member_ext (x ∷ xs) (y ∷ ys) a b h =
      let e = same_head x y xs ys a b h in
      let b' : IsAscending (x ∷ ys) = subst (λ w. IsAscending (w ∷ ys)) (sym e) b in
      let h' : (z : A) → member z (x ∷ xs) ≡ member z (x ∷ ys) =
        subst (λ w. (z : A) → member z (x ∷ xs) ≡ member z (w ∷ ys)) (sym e) h in
      ap₂ ◌∷◌ e (member_ext xs ys a.1 b.1 (same_tail x xs ys a b' h'))
