-- ===== src/Sync/Crdt/Merge.antt =====
-- Merging observed-remove sets: replicas converge, whatever the order of their merges.
use mathlib.Core.Option.{get_or}
use vbuff.Base.{
  ◌≡◌, sym, ap, ◌∙◌, some, List, [], ◌∷◌, inl, inr, Option-cases, if◌then◌else◌, arith, Ord, same,
  same_iff,
}
use vbuff.Base.Sets.{set_insert, set_extend, set_insert-IsAscending, set_extend-IsAscending}
use vbuff.Base.Sets
use vbuff.Base.Sets.Union.{
  join, AscendingSet, join_comm, join_assoc, join_idem, set_extend_comm, set_extend_assoc,
  set_extend_idem, nil-set_extend,
}
use vbuff.Base.Maps.{
  get, entry, IsAscending, AllValues, get-AllValues, map_insert-AllValues, get-map_insert,
  map_insert-IsAscending, get_ext, get_of_Above,
}
use vbuff.Sync.Crdt.{Dot, dot_ord, OrSet, default, add, remove, merge_additions, merge}

module _ {ℓ} {T : Type ℓ} ⦃o : Ord T⦄ where
  -- The representation of a `BTreeMap<T, BTreeSet<Dot>>` and a `BTreeSet<Dot>`.
  pub record IsWellFormed (s : OrSet T) : Type 0 where
    pub keys : IsAscending s.additions
    pub dots : AllValues Sets.IsAscending s.additions
    pub removed : Sets.IsAscending s.removals

  get-AscendingSet :
      (z : T) (m : List (T × List Dot)) → AllValues Sets.IsAscending m → AscendingSet (get z m)
  get-AscendingSet z m a = elim (Option-cases (get z m)) [
    | inl e ↦ rw e tt
    | inr (ds, e) ↦ rw e (get-AllValues Sets.IsAscending z m ds a e)
  ]

  get_or-IsAscending :
      (z : T) (m : List (T × List Dot))
      → AllValues Sets.IsAscending m
      → Sets.IsAscending (get_or (get z m) [])
  get_or-IsAscending z m a = elim (Option-cases (get z m)) [
    | inl e ↦ rw e tt
    | inr (ds, e) ↦ rw e (get-AllValues Sets.IsAscending z m ds a e)
  ]

  -- One round of the loop in `merge`.
  entry-extend :
      (z value : T) (dots : List Dot) (m : List (T × List Dot))
      → Sets.IsAscending dots
      → get z (entry value [] (λ own. set_extend own dots) m)
        ≡ (if same z value then join (get z m) (some dots) else get z m)
  unfolding entry
  entry-extend z value dots m d =
      get-map_insert z value (set_extend (get_or (get value m) []) dots) m
      ∙ ground (arith, same_iff z value, nil-set_extend dots d)

  entry-IsAscending :
      (value : T) (dots : List Dot) (m : List (T × List Dot))
      → IsAscending m
      → IsAscending (entry value [] (λ own. set_extend own dots) m)
  unfolding entry
  entry-IsAscending value dots m k = map_insert-IsAscending value _ m k

  entry-AllValues :
      (value : T) (dots : List Dot) (m : List (T × List Dot))
      → AllValues Sets.IsAscending m
      → AllValues Sets.IsAscending (entry value [] (λ own. set_extend own dots) m)
  unfolding entry
  entry-AllValues value dots m a =
      map_insert-AllValues Sets.IsAscending value _ m
        (set_extend-IsAscending _ dots (get_or-IsAscending value m a)) a

  pub get-merge_additions :
      (z : T) (mine theirs : List (T × List Dot))
      → IsAscending theirs
      → AllValues Sets.IsAscending theirs
      → get z (merge_additions mine theirs) ≡ join (get z mine) (get z theirs)
  unfolding merge_additions get
  get-merge_additions z mine [] k a = ground arith
  get-merge_additions z mine ((value, dots) ∷ theirs) k a =
      get-merge_additions z (entry value [] (λ own. set_extend own dots) mine) theirs k.1 a.1
      ∙ rw (entry-extend z value dots mine a.0)
          (ground (arith, same_iff z value, get_of_Above value theirs k.0 k.1))

  merge_additions-IsAscending :
      (mine theirs : List (T × List Dot))
      → IsAscending mine
      → IsAscending (merge_additions mine theirs)
  unfolding merge_additions
  merge_additions-IsAscending mine [] k = k
  merge_additions-IsAscending mine ((value, dots) ∷ theirs) k =
      merge_additions-IsAscending (entry value [] (λ own. set_extend own dots) mine) theirs
        (entry-IsAscending value dots mine k)

  merge_additions-AllValues :
      (mine theirs : List (T × List Dot))
      → AllValues Sets.IsAscending mine
      → AllValues Sets.IsAscending (merge_additions mine theirs)
  unfolding merge_additions
  merge_additions-AllValues mine [] a = a
  merge_additions-AllValues mine ((value, dots) ∷ theirs) a =
      merge_additions-AllValues (entry value [] (λ own. set_extend own dots) mine) theirs
        (entry-AllValues value dots mine a)

  pub merge-IsWellFormed : (s t : OrSet T) → IsWellFormed s → IsWellFormed (merge s t)
  unfolding merge
  merge-IsWellFormed s t w = record {
    keys = merge_additions-IsAscending s.additions t.additions w.keys;
    dots = merge_additions-AllValues s.additions t.additions w.dots;
    removed = set_extend-IsAscending s.removals t.removals w.removed;
  }

  -- The empty set is well formed, and adding and removing keep a set so.
  pub default-IsWellFormed : IsWellFormed (default {T = T})
  default-IsWellFormed = record { keys = tt; dots = tt; removed = tt }

  pub add-IsWellFormed :
      (s : OrSet T) (value : T) (dot : Dot) → IsWellFormed s → IsWellFormed (add s value dot)
  unfolding add entry
  add-IsWellFormed s value dot w = record {
    keys = map_insert-IsAscending value _ s.additions w.keys;
    dots =
        map_insert-AllValues Sets.IsAscending value _ s.additions
          (set_insert-IsAscending dot _ (get_or-IsAscending value s.additions w.dots)) w.dots;
    removed = w.removed;
  }

  pub remove-IsWellFormed :
      (s : OrSet T) (value : T) → IsWellFormed s → IsWellFormed (remove s value)
  unfolding remove
  remove-IsWellFormed s value w = elim (Option-cases (get value s.additions)) [
    | inl e ↦ rw (e, remove) w
    | inr (dots, e) ↦
        rw (e, remove)
          (record {
            keys = w.keys;
            dots = w.dots;
            removed = set_extend-IsAscending s.removals dots w.removed;
          })
  ]

  pub get-merge :
      (z : T) (s t : OrSet T)
      → IsWellFormed t
      → get z (merge s t).additions ≡ join (get z s.additions) (get z t.additions)
  unfolding merge
  get-merge z s t w = get-merge_additions z s.additions t.additions w.keys w.dots

  -- Two well-formed sets with the same dots at every value and the same removals are equal.
  eq_of_get :
      (s t : OrSet T)
      → IsWellFormed s
      → IsWellFormed t
      → ((z : T) → get z s.additions ≡ get z t.additions)
      → s.removals ≡ t.removals
      → s ≡ t
  eq_of_get s t v w h r =
      let a : s.additions ≡ t.additions = get_ext s.additions t.additions v.keys w.keys h in
      λ i. record { additions = a i; removals = r i }

  -- Well-formed sets merge to the same set in either order.
  pub merge_comm : (s t : OrSet T) → IsWellFormed s → IsWellFormed t → merge s t ≡ merge t s
  unfolding merge
  merge_comm s t v w =
      eq_of_get (merge s t) (merge t s) (merge-IsWellFormed s t v) (merge-IsWellFormed t s w)
        (λ z.
          get-merge z s t w
          ∙ join_comm _ _ (get-AscendingSet z _ v.dots) (get-AscendingSet z _ w.dots)
          ∙ sym (get-merge z t s v))
        (set_extend_comm s.removals t.removals v.removed w.removed)

  -- Merging three well-formed sets gives the same set however the merges are grouped.
  pub merge_assoc :
      (s t u : OrSet T)
      → IsWellFormed s
      → IsWellFormed t
      → IsWellFormed u
      → merge (merge s t) u ≡ merge s (merge t u)
  unfolding merge
  merge_assoc s t u v w x =
      let tu = merge-IsWellFormed t u w in
      eq_of_get (merge (merge s t) u) (merge s (merge t u))
        (merge-IsWellFormed (merge s t) u (merge-IsWellFormed s t v))
        (merge-IsWellFormed s (merge t u) v)
        (λ z.
          get-merge z (merge s t) u x
          ∙ ap (λ p. join p (get z u.additions)) (get-merge z s t w)
          ∙ join_assoc _ _ _ (get-AscendingSet z _ v.dots)
          ∙ ap (join (get z s.additions)) (sym (get-merge z t u x))
          ∙ sym (get-merge z s (merge t u) tu))
        (set_extend_assoc s.removals t.removals u.removals v.removed)

  -- Merging a well-formed set with itself changes nothing.
  pub merge_idem : (s : OrSet T) → IsWellFormed s → merge s s ≡ s
  unfolding merge
  merge_idem s v =
      eq_of_get (merge s s) s (merge-IsWellFormed s s v) v
        (λ z. get-merge z s s v ∙ join_idem _ (get-AscendingSet z _ v.dots))
        (set_extend_idem s.removals v.removed)
