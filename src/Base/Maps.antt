-- ===== src/Base/Maps.antt =====
-- `BTreeMap` as its list of entries, ascending in the keys.
pub mod Remove
use Prim.Native.Nat.{suc, ◌≤◌, Ordering}
use mathlib.Core.Path.{◌≡◌, refl, sym, ap, ap₂, subst, ◌∙◌}
use mathlib.Core.List.{List, [], ◌∷◌}
use mathlib.Core.Bool.{Bool, true, false}
use mathlib.Core.Option.{Option, none, some, get_or}
use native.Mathlib.Omega.{arith}
use mathlib.Core.Logic.{inl, inr, ◌≢◌}
use vbuff.Base.Tests.{if◌then◌else◌, Bool-cases}
use vbuff.Base.Lists.{length}
use vbuff.Base.Order.{Ord, same, reversed, cmp_refl, Ordering-cases}

abbrev pub is_some {ℓ} : {A : Type ℓ} → Option A → Bool
is_some none = false
is_some (some a) = true

-- `map.retain` by a test of the values.
unfoldable pub retain {ℓ κ} : {K : Type ℓ} {V : Type κ} → (V → Bool) → List (K × V) → List (K × V)
retain test [] = []
retain test ((k, v) ∷ m) = let rest = retain test m in if test v then (k, v) ∷ rest else rest

pub length-retain {ℓ κ} :
    {K : Type ℓ} {V : Type κ} (test : V → Bool) (m : List (K × V))
    → length (retain test m) ≤ length m
unfolding retain
length-retain test [] = omega arith
length-retain test ((k, v) ∷ m) = ground (arith, length-retain test m)

module _ {ℓ κ} {K : Type ℓ} {V : Type κ} ⦃o : Ord K⦄ where
  unfoldable pub get : K → List (K × V) → Option V
  get k [] = none
  get k ((j, w) ∷ m) = if same k j then some w else get k m

  unfoldable pub map_insert : K → V → List (K × V) → List (K × V)
  map_insert k v [] = (k, v) ∷ []
  map_insert k v ((j, w) ∷ m) =
      let rest = map_insert k v m in
      elim (o.cmp k j) [
        | Ordering.lt ↦ (k, v) ∷ (j, w) ∷ m
        | Ordering.eq ↦ (k, v) ∷ m
        | Ordering.gt ↦ (j, w) ∷ rest
      ]

  unfoldable pub contains_key : K → List (K × V) → Bool
  contains_key k m = is_some (get k m)

  -- `update(map.entry(k).or_insert(missing))`.
  unfoldable pub entry : K → V → (V → V) → List (K × V) → List (K × V)
  entry k missing update m = map_insert k (update (get_or (get k m) missing)) m

  abbrev pub Above : K → List (K × V) → Type 0
  Above k [] = Unit {0}
  Above k ((j, w) ∷ m) = o.cmp k j ≡ Ordering.lt

  abbrev pub IsAscending : List (K × V) → Type 0
  IsAscending [] = Unit {0}
  IsAscending ((k, v) ∷ m) = Above k m × IsAscending m

  pub get-map_insert :
      (z k : K) (v : V) (m : List (K × V))
      → get z (map_insert k v m) ≡ (if same z k then some v else get z m)
  unfolding get map_insert
  get-map_insert z k v [] = refl
  get-map_insert z k v ((j, w) ∷ m) =
      ground (arith, get-map_insert z k v m, o.cmp_eq k j, o.cmp_eq z k, o.cmp_eq z j)

  pub map_insert-Above :
      (z k : K) (v : V) (m : List (K × V))
      → o.cmp z k ≡ Ordering.lt
      → Above z m
      → Above z (map_insert k v m)
  unfolding map_insert
  map_insert-Above z k v [] h a = h
  map_insert-Above z k v ((j, w) ∷ m) h a = ground arith

  pub map_insert-IsAscending :
      (k : K) (v : V) (m : List (K × V)) → IsAscending m → IsAscending (map_insert k v m)
  unfolding map_insert
  map_insert-IsAscending k v [] a = (tt, tt)
  map_insert-IsAscending k v ((j, w) ∷ m) a = elim (Ordering-cases (o.cmp k j)) [
    | inl e ↦ rw (e, map_insert) (e, a)
    | inr (inl e) ↦
        rw (e, map_insert)
          (let same_key = (o.cmp_eq k j).0 e in subst (λ q. Above q m) (sym same_key) a.0, a.1)
    | inr (inr e) ↦
        rw (e, map_insert)
          (
            map_insert-Above j k v m (o.cmp_flip k j ∙ ap reversed e) a.0,
            map_insert-IsAscending k v m a.1,
          )
  ]

  pub Above-trans : (k j : K) (m : List (K × V)) → o.cmp k j ≡ Ordering.lt → Above j m → Above k m
  Above-trans k j [] h a = tt
  Above-trans k j ((i, u) ∷ m) h a = o.cmp_trans k j i h a

  pub get_of_Above : (k : K) (m : List (K × V)) → Above k m → IsAscending m → get k m ≡ none
  unfolding get
  get_of_Above k [] h a = refl
  get_of_Above k ((j, w) ∷ []) h a = ground arith
  get_of_Above k ((j, w) ∷ (i, u) ∷ m) h a =
      ground (arith, get_of_Above k ((i, u) ∷ m) (o.cmp_trans k j i h a.0) a.1)

  pub get-head : (k : K) (v : V) (m : List (K × V)) → get k ((k, v) ∷ m) ≡ some v
  unfolding get
  get-head k v m = ground (arith, cmp_refl k)

  not_lt_of_get :
      (k j : K) (v w : V) (m n : List (K × V))
      → IsAscending ((j, w) ∷ n)
      → ((z : K) → get z ((k, v) ∷ m) ≡ get z ((j, w) ∷ n))
      → o.cmp k j ≢ Ordering.lt
  not_lt_of_get k j v w m n b h e = cc (h k, get-head k v m, get_of_Above k ((j, w) ∷ n) e b)

  head_key :
      (k j : K) (v w : V) (m n : List (K × V))
      → IsAscending ((k, v) ∷ m)
      → IsAscending ((j, w) ∷ n)
      → ((z : K) → get z ((k, v) ∷ m) ≡ get z ((j, w) ∷ n))
      → k ≡ j
  head_key k j v w m n a b h = elim (Ordering-cases (o.cmp k j)) [
    | inl e ↦ absurd (not_lt_of_get k j v w m n b h e)
    | inr (inl e) ↦ (o.cmp_eq k j).0 e
    | inr (inr e) ↦
        absurd (not_lt_of_get j k w v n m a (λ z. sym (h z)) (o.cmp_flip k j ∙ ap reversed e))
  ]

  same_tail :
      (k : K) (v w : V) (m n : List (K × V))
      → IsAscending ((k, v) ∷ m)
      → IsAscending ((k, w) ∷ n)
      → ((z : K) → get z ((k, v) ∷ m) ≡ get z ((k, w) ∷ n))
      → (z : K) → get z m ≡ get z n
  unfolding get
  same_tail k v w m n a b h z = elim (Ordering-cases (o.cmp z k)) [
    | inl e ↦ ground (arith, h z)
    | inr (inl e) ↦
        rw ((o.cmp_eq z k).0 e) (get_of_Above k m a.0 a.1 ∙ sym (get_of_Above k n b.0 b.1))
    | inr (inr e) ↦ ground (arith, h z)
  ]

  -- Two ascending maps that answer every lookup alike are the same map.
  pub get_ext :
      (m n : List (K × V)) → IsAscending m → IsAscending n → ((z : K) → get z m ≡ get z n) → m ≡ n
  get_ext [] [] a b h = refl
  get_ext [] ((j, w) ∷ n) a b h = unfold get in ground (arith, h j, cmp_refl j)
  get_ext ((k, v) ∷ m) [] a b h = unfold get in ground (arith, h k, cmp_refl k)
  get_ext ((k, v) ∷ m) ((j, w) ∷ n) a b h =
      let e = head_key k j v w m n a b h in
      let b' : IsAscending ((k, w) ∷ n) = subst (λ q. IsAscending ((q, w) ∷ n)) (sym e) b in
      let h' : (z : K) → get z ((k, v) ∷ m) ≡ get z ((k, w) ∷ n) =
        subst (λ q. (z : K) → get z ((k, v) ∷ m) ≡ get z ((q, w) ∷ n)) (sym e) h in
      let value : v ≡ w = cc (h' k, get-head k v m, get-head k w n) in
      ap₂ ◌∷◌ (ap₂ (λ q u. (q, u)) e value) (get_ext m n a.1 b.1 (same_tail k v w m n a b' h'))

  -- Every value of the map satisfies a predicate.
  abbrev pub AllValues : (V → Type 0) → List (K × V) → Type 0
  AllValues P [] = Unit {0}
  AllValues P ((k, v) ∷ m) = P v × AllValues P m

  pub get-AllValues :
      (P : V → Type 0) (k : K) (m : List (K × V)) (v : V) → AllValues P m → get k m ≡ some v → P v
  unfolding get
  get-AllValues P k [] v a h = absurd (cc h)
  get-AllValues P k ((j, w) ∷ m) v a h = elim (Bool-cases (same k j)) [
    | inl e ↦ let same_value : w ≡ v = ground arith in subst P same_value a.0
    | inr e ↦ get-AllValues P k m v a.1 (ground arith)
  ]

  pub map_insert-AllValues :
      (P : V → Type 0) (k : K) (v : V) (m : List (K × V))
      → P v
      → AllValues P m
      → AllValues P (map_insert k v m)
  unfolding map_insert
  map_insert-AllValues P k v [] p a = (p, tt)
  map_insert-AllValues P k v ((j, w) ∷ m) p a = elim (Ordering-cases (o.cmp k j)) [
    | inl e ↦ rw (e, map_insert) (p, a)
    | inr (inl e) ↦ rw (e, map_insert) (p, a.1)
    | inr (inr e) ↦ rw (e, map_insert) (a.0, map_insert-AllValues P k v m p a.1)
  ]

  pub length-map_insert :
      (k : K) (v : V) (m : List (K × V)) → length (map_insert k v m) ≤ suc (length m)
  unfolding map_insert
  length-map_insert k v [] = omega arith
  length-map_insert k v ((j, w) ∷ m) = ground (arith, length-map_insert k v m)

  -- An insertion at a key of the map replaces its value.
  pub length-map_insert_present :
      (k : K) (v w : V) (m : List (K × V))
      → IsAscending m
      → get k m ≡ some w
      → length (map_insert k v m) ≡ length m
  unfolding get map_insert
  length-map_insert_present k v w [] a h = absurd (ground arith)
  length-map_insert_present k v w ((j, u) ∷ m) a h = elim (Ordering-cases (o.cmp k j)) [
    | inl e ↦ absurd (cc (h, get_of_Above k ((j, u) ∷ m) e a))
    | inr (inl e) ↦ ground arith
    | inr (inr e) ↦ ground (arith, length-map_insert_present k v w m a.1 (ground arith))
  ]

  pub get-retain :
      (k : K) (v : V) (test : V → Bool) (m : List (K × V))
      → get k m ≡ some v
      → test v ≡ true
      → get k (retain test m) ≡ some v
  unfolding get retain
  get-retain k v test [] h t = absurd (ground arith)
  get-retain k v test ((j, w) ∷ m) h t = ground (arith, get-retain k v test m)

  pub retain-Above :
      (k : K) (test : V → Bool) (m : List (K × V))
      → Above k m
      → IsAscending m
      → Above k (retain test m)
  unfolding retain
  retain-Above k test [] h a = tt
  retain-Above k test ((j, w) ∷ m) h a = elim (Bool-cases (test w)) [
    | inl e ↦ rw (e, retain) h
    | inr e ↦ rw (e, retain) (retain-Above k test m (Above-trans k j m h a.0) a.1)
  ]

  pub retain-IsAscending :
      (test : V → Bool) (m : List (K × V)) → IsAscending m → IsAscending (retain test m)
  unfolding retain
  retain-IsAscending test [] a = tt
  retain-IsAscending test ((j, w) ∷ m) a = elim (Bool-cases (test w)) [
    | inl e ↦ rw (e, retain) (retain-Above j test m a.0 a.1, retain-IsAscending test m a.1)
    | inr e ↦ rw (e, retain) (retain-IsAscending test m a.1)
  ]

  -- What a filtered map holds passes the test.
  pub retain-AllValues :
      (test : V → Bool) (m : List (K × V)) → AllValues (λ v. test v ≡ true) (retain test m)
  unfolding retain
  retain-AllValues test [] = tt
  retain-AllValues test ((j, w) ∷ m) = elim (Bool-cases (test w)) [
    | inl e ↦ rw (e, retain) (e, retain-AllValues test m)
    | inr e ↦ rw (e, retain) (retain-AllValues test m)
  ]
