-- ===== src/Workflow/Selection/Bounds.antt =====
-- A selection has no repeats and stays within its bound.
use vbuff.Base.{
  ℕ, ◌≤◌, ◌≡◌, refl, inl, inr, Bool, true, false, not, ◌&&◌, ◌||◌, ◌==◌, ltb, Bool-cases, Option,
  none, some, List, [], ◌∷◌, ◌++◌, arith, length, length-append,
}
use vbuff.Types.Content.{ClipId}
use vbuff.Workflow.Basket.{contains, remove_first}
use vbuff.Workflow.Selection.{
  max_selection, RangeSelection, nth, range_of, push_new, push_range, extend_to, toggle_at, select,
  retain_in, retain_visible,
}

abbrev pub NoRepeats : List ClipId → Type 0
NoRepeats [] = Unit {0}
NoRepeats (id ∷ ids) = (contains id ids ≡ false) × NoRepeats ids

pub contains-append :
    (id : ClipId) (xs ys : List ClipId)
    → contains id (xs ++ ys) ≡ (contains id xs || contains id ys)
contains-append id [] ys = refl
contains-append id (x ∷ xs) ys = ground (arith, contains-append id xs ys)

NoRepeats-append_one :
    (ids : List ClipId) (id : ClipId)
    → NoRepeats ids
    → contains id ids ≡ false
    → NoRepeats (ids ++ id ∷ [])
NoRepeats-append_one [] id n h = (refl, tt)
NoRepeats-append_one (x ∷ ids) id n h = (
  ground (arith, contains-append x ids (id ∷ []), n.0),
  NoRepeats-append_one ids id n.1 (ground arith),
)

contains-remove_first :
    (id other : ClipId) (ids : List ClipId)
    → contains id ids ≡ false
    → contains id (remove_first other ids) ≡ false
contains-remove_first id other [] h = refl
contains-remove_first id other (x ∷ ids) h = ground (arith, contains-remove_first id other ids)

remove_first-NoRepeats :
    (id : ClipId) (ids : List ClipId) → NoRepeats ids → NoRepeats (remove_first id ids)
remove_first-NoRepeats id [] n = tt
remove_first-NoRepeats id (x ∷ ids) n = elim (Bool-cases (x == id)) [
  | inl e ↦ rw e n.1
  | inr e ↦ rw e (contains-remove_first x id ids n.0, remove_first-NoRepeats id ids n.1)
]

length-remove_first : (id : ClipId) (ids : List ClipId) → length (remove_first id ids) ≤ length ids
length-remove_first id [] = omega arith
length-remove_first id (x ∷ ids) = ground (arith, length-remove_first id ids)

contains-retain_in :
    (id : ClipId) (visible ids : List ClipId)
    → contains id ids ≡ false
    → contains id (retain_in visible ids) ≡ false
contains-retain_in id visible [] h = refl
contains-retain_in id visible (x ∷ ids) h = ground (arith, contains-retain_in id visible ids)

retain_in-NoRepeats :
    (visible ids : List ClipId) → NoRepeats ids → NoRepeats (retain_in visible ids)
retain_in-NoRepeats visible [] n = tt
retain_in-NoRepeats visible (x ∷ ids) n = elim (Bool-cases (contains x visible)) [
  | inl e ↦ rw e (contains-retain_in x visible ids n.0, retain_in-NoRepeats visible ids n.1)
  | inr e ↦ rw e (retain_in-NoRepeats visible ids n.1)
]

length-retain_in : (visible ids : List ClipId) → length (retain_in visible ids) ≤ length ids
length-retain_in visible [] = omega arith
length-retain_in visible (x ∷ ids) = ground (arith, length-retain_in visible ids)

abbrev pub IsValid : List ClipId → Type 0
IsValid selected = NoRepeats selected × (length selected ≤ max_selection)

push_new-IsValid :
    (selected : List ClipId) (id : ClipId) → IsValid selected → IsValid (push_new selected id)
push_new-IsValid selected id v =
    elim (Bool-cases (not (contains id selected) && ltb (length selected) max_selection)) [
      | inl e ↦ rw e (
        NoRepeats-append_one selected id v.0 (ground (arith, e)),
        ground (arith, e, length-append selected (id ∷ [])),
      )
      | inr e ↦ rw e v
    ]

push_range-IsValid :
    (selected ids : List ClipId) → IsValid selected → IsValid (push_range selected ids)
push_range-IsValid selected [] v = v
push_range-IsValid selected (id ∷ ids) v =
    push_range-IsValid (push_new selected id) ids (push_new-IsValid selected id v)

toggle_at-IsValid :
    (s : RangeSelection) (index : ℕ) (id : ClipId)
    → IsValid s.selected
    → IsValid (toggle_at s index id).selected
unfolding toggle_at
toggle_at-IsValid s index id v = elim (Bool-cases (contains id s.selected)) [
  | inl e ↦
      rw e
        (remove_first-NoRepeats id s.selected v.0, omega (arith, length-remove_first id s.selected))
  | inr e ↦ elim (Bool-cases (ltb (length s.selected) max_selection)) [
    | inl room ↦
        rw (e, room)
          (
            NoRepeats-append_one s.selected id v.0 e,
            ground (arith, room, length-append s.selected (id ∷ [])),
          )
    | inr full ↦ rw (e, full) v
  ]
]

extend_to-IsValid :
    (s : RangeSelection) (ordered : List ClipId) (index : ℕ) (toggle : Bool)
    → IsValid s.selected
    → IsValid (extend_to s ordered index toggle).selected
unfolding extend_to
extend_to-IsValid s ordered index true v =
    push_range-IsValid s.selected (range_of s ordered index) v
extend_to-IsValid s ordered index false v =
    push_range-IsValid [] (range_of s ordered index) (tt, omega arith)

select_arms-IsValid :
    (s : RangeSelection) (ordered : List ClipId) (index : ℕ) (extend toggle : Bool)
    (found : Option ClipId)
    → nth ordered index ≡ found
    → IsValid s.selected
    → IsValid (select s ordered index extend toggle).0.selected
unfolding select
select_arms-IsValid s ordered index extend toggle none e v = rw e v
select_arms-IsValid s ordered index true toggle (some id) e v =
    rw e (extend_to-IsValid s ordered index toggle v)
select_arms-IsValid s ordered index false true (some id) e v = rw e (toggle_at-IsValid s index id v)
select_arms-IsValid s ordered index false false (some id) e v = rw e ((refl, tt), omega arith)

-- A selection keeps no repeats and at most 512 clips, whichever clip is selected in whichever way,
-- and when the hidden clips are dropped from it.
pub select-IsValid :
    (s : RangeSelection) (ordered : List ClipId) (index : ℕ) (extend toggle : Bool)
    → IsValid s.selected
    → IsValid (select s ordered index extend toggle).0.selected
      × IsValid (retain_visible s ordered).selected
unfolding select retain_visible
select-IsValid s ordered index extend toggle v = (
  select_arms-IsValid s ordered index extend toggle (nth ordered index) refl v,
  (retain_in-NoRepeats ordered s.selected v.0, omega (arith, length-retain_in ordered s.selected)),
)
