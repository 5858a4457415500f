-- ===== src/Workflow/Selection/Range.antt =====
-- What an extended selection holds.
use mathlib.Core.List.{append_assoc, append-nil}
use vbuff.Base.{
  ℕ, zero, suc, ◌+◌, ◌-◌, ◌≤◌, min, max, ◌≡◌, ◌∙◌, refl, sym, ap, true, false, not, ◌&&◌, ltb, some,
  List, [], ◌∷◌, ◌++◌, arith, length, length-append, drop,
}
use vbuff.Types.Content.{ClipId}
use vbuff.Workflow.Basket.{contains}
use vbuff.Workflow.Selection.{
  max_selection, RangeSelection, take, nth, unwrap_or, range_of, push_new, push_range, extend_to,
  select,
}
use vbuff.Workflow.Selection.Bounds.{NoRepeats, contains-append}

contains-drop :
    (id : ClipId) (n : ℕ) (ids : List ClipId)
    → contains id ids ≡ false
    → contains id (drop n ids) ≡ false
contains-drop id zero ids h = h
contains-drop id (suc n) [] h = refl
contains-drop id (suc n) (x ∷ ids) h = contains-drop id n ids (ground (arith, h))

drop-NoRepeats : (n : ℕ) (ids : List ClipId) → NoRepeats ids → NoRepeats (drop n ids)
drop-NoRepeats zero ids v = v
drop-NoRepeats (suc n) [] v = tt
drop-NoRepeats (suc n) (x ∷ ids) v = drop-NoRepeats n ids v.1

contains-take :
    (id : ClipId) (n : ℕ) (ids : List ClipId)
    → contains id ids ≡ false
    → contains id (take n ids) ≡ false
contains-take id zero ids h = refl
contains-take id (suc n) [] h = refl
contains-take id (suc n) (x ∷ ids) h = ground (arith, contains-take id n ids, h)

take-NoRepeats : (n : ℕ) (ids : List ClipId) → NoRepeats ids → NoRepeats (take n ids)
take-NoRepeats zero ids v = tt
take-NoRepeats (suc n) [] v = tt
take-NoRepeats (suc n) (x ∷ ids) v = (contains-take x n ids v.0, take-NoRepeats n ids v.1)

length-take : (n : ℕ) (ids : List ClipId) → length (take n ids) ≤ n
length-take zero ids = omega arith
length-take (suc n) [] = omega arith
length-take (suc n) (x ∷ ids) = omega (arith, length-take n ids)

-- No clip of the second list is in the first one.
abbrev AreApart : List ClipId → List ClipId → Type 0
AreApart selected [] = Unit {0}
AreApart selected (id ∷ ids) = (contains id selected ≡ false) × AreApart selected ids

AreApart-append_one :
    (selected ids : List ClipId) (id : ClipId)
    → AreApart selected ids
    → contains id ids ≡ false
    → AreApart (selected ++ id ∷ []) ids
AreApart-append_one selected [] id a h = tt
AreApart-append_one selected (x ∷ ids) id a h = (
  ground (arith, contains-append x selected (id ∷ []), a.0, h),
  AreApart-append_one selected ids id a.1 (ground (arith, h)),
)

push_new_lem :
    (selected : List ClipId) (id : ClipId)
    → not (contains id selected) && ltb (length selected) max_selection ≡ true
    → push_new selected id ≡ selected ++ id ∷ []
push_new_lem selected id h = rw h refl

push_range-append :
    (selected ids : List ClipId)
    → NoRepeats ids
    → AreApart selected ids
    → length selected + length ids ≤ max_selection
    → push_range selected ids ≡ selected ++ ids
push_range-append selected [] v a h = sym (append-nil selected)
push_range-append selected (id ∷ ids) v a h =
    let new : not (contains id selected) && ltb (length selected) max_selection ≡ true =
      ground (arith, a.0, h) in
    ap (λ q. push_range q ids) (push_new_lem selected id new)
    ∙ push_range-append (selected ++ id ∷ []) ids v.1 (AreApart-append_one selected ids id a.1 v.0)
        (omega (arith, length-append selected (id ∷ [])))
    ∙ append_assoc selected (id ∷ []) ids

AreApart-nil : (ids : List ClipId) → AreApart [] ids
AreApart-nil [] = tt
AreApart-nil (id ∷ ids) = (refl, AreApart-nil ids)

-- Extending the selection, without toggling, selects exactly the first 512 clips between the anchor
-- and the index, both included, in their order, where the list has no repeats and the index is one
-- of the list's.
pub select-extend :
    (s : RangeSelection) (ordered : List ClipId) (index : ℕ) (id : ClipId)
    → NoRepeats ordered
    → nth ordered index ≡ some id
    → (select s ordered index true false).0.selected ≡ range_of s ordered index
unfolding select extend_to
select-extend s ordered index id v e =
    let start = min (unwrap_or s.anchor index) index in
    let end = max (unwrap_or s.anchor index) index in
    let inner = take (end - start + 1) (drop start ordered) in
    rw e (
      push_range-append [] (range_of s ordered index)
        (take-NoRepeats max_selection inner
          (take-NoRepeats (end - start + 1) (drop start ordered) (drop-NoRepeats start ordered v)))
        (AreApart-nil (range_of s ordered index)) (omega (arith, length-take max_selection inner)))
