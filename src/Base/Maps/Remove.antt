-- ===== src/Base/Maps/Remove.antt =====
-- The removal of a key from a `BTreeMap`.
use mathlib.Core.Path.{◌≡◌}
use mathlib.Core.List.{List, [], ◌∷◌}
use mathlib.Core.Option.{none}
use native.Mathlib.Omega.{arith}
use mathlib.Core.Logic.{inl, inr}
use vbuff.Base.Tests.{if◌then◌else◌, Bool-cases}
use vbuff.Base.Order.{Ord, same}
use vbuff.Base.Maps.{get, Above, Above-trans, IsAscending, get_of_Above}

module _ {ℓ κ} {K : Type ℓ} {V : Type κ} ⦃o : Ord K⦄ where
  -- `map.remove`.
  unfoldable pub map_remove : K → List (K × V) → List (K × V)
  map_remove k [] = []
  map_remove k ((j, w) ∷ m) = let rest = map_remove k m in if same k j then m else (j, w) ∷ rest

  pub get-map_remove :
      (z k : K) (m : List (K × V))
      → IsAscending m
      → get z (map_remove k m) ≡ (if same z k then none else get z m)
  unfolding get map_remove
  get-map_remove z k [] a = ground arith
  get-map_remove z k ((j, w) ∷ m) a = ground (
    arith,
    get-map_remove z k m a.1,
    get_of_Above j m a.0 a.1,
    o.cmp_eq k j,
    o.cmp_eq z k,
    o.cmp_eq z j,
  )

  map_remove-Above :
      (j k : K) (m : List (K × V)) → Above j m → IsAscending m → Above j (map_remove k m)
  unfolding map_remove
  map_remove-Above j k [] h a = h
  map_remove-Above j k ((i, u) ∷ m) h a = elim (Bool-cases (same k i)) [
    | inl e ↦ rw e (Above-trans j i m h a.0)
    | inr e ↦ rw e h
  ]

  pub map_remove-IsAscending :
      (k : K) (m : List (K × V)) → IsAscending m → IsAscending (map_remove k m)
  unfolding map_remove
  map_remove-IsAscending k [] a = a
  map_remove-IsAscending k ((j, w) ∷ m) a = elim (Bool-cases (same k j)) [
    | inl e ↦ rw e a.1
    | inr e ↦ rw e (map_remove-Above j k m a.0 a.1, map_remove-IsAscending k m a.1)
  ]
