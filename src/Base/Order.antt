-- ===== src/Base/Order.antt =====
-- `std::cmp::Ord` as an interface, with the orders that the program derives: numbers, byte strings
-- and lexicographic products.
use Prim.Native.Nat.{ℕ, compare, Ordering}
use mathlib.Core.Path.{◌≡◌, refl}
use mathlib.Core.Logic.{◌↔◌, ◌⊎◌, inl, inr}
use mathlib.Core.Bool.{Bool, true, false}
use mathlib.Core.List.{List, [], ◌∷◌}
use native.Mathlib.Omega.{arith}

-- `Ordering::reverse`.
abbrev pub reversed : Ordering → Ordering
reversed Ordering.lt = Ordering.gt
reversed Ordering.eq = Ordering.eq
reversed Ordering.gt = Ordering.lt

-- `Ordering::then`: the first difference decides.
abbrev pub then_with : Ordering → Ordering → Ordering
then_with Ordering.lt o = Ordering.lt
then_with Ordering.eq o = o
then_with Ordering.gt o = Ordering.gt

pub Ordering-cases : (c : Ordering) → (c ≡ Ordering.lt) ⊎ (c ≡ Ordering.eq) ⊎ (c ≡ Ordering.gt)
Ordering-cases Ordering.lt = inl refl
Ordering-cases Ordering.eq = inr (inl refl)
Ordering-cases Ordering.gt = inr (inr refl)

pub record Ord {ℓ} (A : Type ℓ) : Type ℓ where
  pub cmp : A → A → Ordering
  pub cmp_eq : (a b : A) → (cmp a b ≡ Ordering.eq) ↔ (a ≡ b)
  pub cmp_flip : (a b : A) → cmp b a ≡ reversed (cmp a b)
  pub cmp_trans :
      (a b c : A) → cmp a b ≡ Ordering.lt → cmp b c ≡ Ordering.lt → cmp a c ≡ Ordering.lt

pub compare_trans :
    (a b c : ℕ) → compare a b ≡ Ordering.lt → compare b c ≡ Ordering.lt → compare a c ≡ Ordering.lt
compare_trans a b c h k = ground arith

pub compare_flip : (a b : ℕ) → compare b a ≡ reversed (compare a b)
compare_flip a b = ground arith

pub compare_eq : (a b : ℕ) → (compare a b ≡ Ordering.eq) ↔ (a ≡ b)
compare_eq a b = ground arith

instance abbrev pub nat_ord : Ord ℕ
nat_ord = record {
  cmp = compare;
  cmp_eq = compare_eq;
  cmp_flip = compare_flip;
  cmp_trans = compare_trans;
}

-- A `String` is the list of its UTF-8 bytes, and `str` compares by bytes.
abbrev pub Bytes : Type 0
Bytes = List ℕ

unfoldable pub cmp_bytes : Bytes → Bytes → Ordering
cmp_bytes [] [] = Ordering.eq
cmp_bytes [] (y ∷ ys) = Ordering.lt
cmp_bytes (x ∷ xs) [] = Ordering.gt
cmp_bytes (x ∷ xs) (y ∷ ys) = then_with (compare x y) (cmp_bytes xs ys)

pub cmp_bytes_eq : (a b : Bytes) → (cmp_bytes a b ≡ Ordering.eq) ↔ (a ≡ b)
unfolding cmp_bytes
cmp_bytes_eq [] [] = (λ _. refl, λ _. refl)
cmp_bytes_eq [] (y ∷ ys) = (λ h. cc, λ h. cc)
cmp_bytes_eq (x ∷ xs) [] = (λ h. cc, λ h. cc)
cmp_bytes_eq (x ∷ xs) (y ∷ ys) =
    (λ h. ground (arith, cmp_bytes_eq xs ys), λ h. ground (arith, cmp_bytes_eq xs ys))

pub cmp_bytes_flip : (a b : Bytes) → cmp_bytes b a ≡ reversed (cmp_bytes a b)
unfolding cmp_bytes
cmp_bytes_flip [] [] = refl
cmp_bytes_flip [] (y ∷ ys) = refl
cmp_bytes_flip (x ∷ xs) [] = refl
cmp_bytes_flip (x ∷ xs) (y ∷ ys) = ground (arith, cmp_bytes_flip xs ys)

pub cmp_bytes_trans :
    (a b c : Bytes)
    → cmp_bytes a b ≡ Ordering.lt
    → cmp_bytes b c ≡ Ordering.lt
    → cmp_bytes a c ≡ Ordering.lt
unfolding cmp_bytes
cmp_bytes_trans [] [] c h k = cc
cmp_bytes_trans [] (y ∷ ys) [] h k = cc
cmp_bytes_trans [] (y ∷ ys) (z ∷ zs) h k = refl
cmp_bytes_trans (x ∷ xs) [] c h k = cc
cmp_bytes_trans (x ∷ xs) (y ∷ ys) [] h k = cc
cmp_bytes_trans (x ∷ xs) (y ∷ ys) (z ∷ zs) h k = ground (arith, cmp_bytes_trans xs ys zs)

instance abbrev pub bytes_ord : Ord Bytes
bytes_ord = record {
  cmp = cmp_bytes;
  cmp_eq = cmp_bytes_eq;
  cmp_flip = cmp_bytes_flip;
  cmp_trans = cmp_bytes_trans;
}

module _ {ℓ} {A : Type ℓ} ⦃o : Ord A⦄ where
  -- `a == b`, `a < b` and `a >= b`, as the derived instances decide them.
  abbrev pub same : A → A → Bool
  same a b = elim (o.cmp a b) [ Ordering.eq ↦ true | _ ↦ false ]

  abbrev pub less : A → A → Bool
  less a b = elim (o.cmp a b) [ Ordering.lt ↦ true | _ ↦ false ]

  abbrev pub at_least : A → A → Bool
  at_least a b = elim (o.cmp a b) [ Ordering.lt ↦ false | _ ↦ true ]

  pub same_iff : (a b : A) → (same a b ≡ true) ↔ (a ≡ b)
  same_iff a b = ground (arith, o.cmp_eq a b)

  pub cmp_refl : (a : A) → o.cmp a a ≡ Ordering.eq
  cmp_refl a = (o.cmp_eq a a).1 refl
