-- ===== src/Base/Iter.antt =====
-- Rust's iterators over a slice: `any`, `all`, `retain` (and `filter`), `filter_map`, `flat_map`
-- and `find`.
use Prim.Native.Nat.{ℕ, zero, suc}
use mathlib.Core.Path.{◌≡◌, refl, ap}
use mathlib.Core.Bool.{Bool, true, false, ◌&&◌, ◌||◌}
use mathlib.Core.Option.{Option, none, some}
use mathlib.Core.List.{List, [], ◌∷◌, ◌++◌}
use native.Mathlib.Omega.{arith}
use vbuff.Base.Lists.{drop}
use vbuff.Base.Tests.{if◌then◌else◌}

module _ {ℓ} {A : Type ℓ} where
  abbrev pub any : (A → Bool) → List A → Bool
  any test [] = false
  any test (x ∷ xs) = test x || any test xs

  abbrev pub all : (A → Bool) → List A → Bool
  all test [] = true
  all test (x ∷ xs) = test x && all test xs

  abbrev pub retain : (A → Bool) → List A → List A
  retain test [] = []
  retain test (x ∷ xs) = if test x then x ∷ retain test xs else retain test xs

  abbrev pub take : ℕ → List A → List A
  take zero xs = []
  take (suc n) [] = []
  take (suc n) (x ∷ xs) = x ∷ take n xs

  abbrev pub find : (A → Bool) → List A → Option A
  find test [] = none
  find test (x ∷ xs) = if test x then some x else find test xs

  abbrev pub flat_map {κ} : {B : Type κ} → (A → List B) → List A → List B
  flat_map f [] = []
  flat_map f (x ∷ xs) = f x ++ flat_map f xs

  abbrev pub consed : Option A → List A → List A
  consed none xs = xs
  consed (some x) xs = x ∷ xs

module _ {ℓ κ} {A : Type ℓ} {B : Type κ} where
  abbrev pub filter_map : (A → Option B) → List A → List B
  filter_map f [] = []
  filter_map f (x ∷ xs) = consed (f x) (filter_map f xs)

module _ {ℓ} {A : Type ℓ} (test : A → Bool) where
  pub retain-all : (xs : List A) → all test xs ≡ true → retain test xs ≡ xs
  retain-all [] h = refl
  retain-all (x ∷ xs) h =
      let kept : test x ≡ true = ground (arith, h) in
      rw (kept, retain-all xs (ground (arith, h))) refl

pub take-drop {ℓ} : {A : Type ℓ} (n : ℕ) (xs : List A) → take n xs ++ drop n xs ≡ xs
take-drop zero xs = refl
take-drop (suc n) [] = refl
take-drop (suc n) (x ∷ xs) = ap (λ q. x ∷ q) (take-drop n xs)
