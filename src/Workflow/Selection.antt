-- ===== src/Workflow/Selection.antt =====
-- `RangeSelection` of crates/vbuff-core/src/workflow/selection.rs.
pub mod Bounds
pub mod Range
use vbuff.Base.{
  ℕ, zero, suc, ◌+◌, ◌-◌, min, max, Bool, true, false, not, ◌&&◌, ◌||◌, ◌==◌, ltb, leb,
  if◌then◌else◌, Option, none, some, List, [], ◌∷◌, ◌++◌, length, drop,
}
use vbuff.Types.Content.{ClipId}
use vbuff.Workflow.Basket.{contains, remove_first}

abbrev pub max_selection : ℕ
max_selection = 512

pub record RangeSelection : Type 0 where
  pub anchor : Option ℕ
  pub selected : List ClipId

abbrev pub default : RangeSelection
default = record { anchor = none; selected = [] }

unfoldable pub clear : RangeSelection → RangeSelection
clear s = record { anchor = none; selected = [] }

abbrev pub take : ℕ → List ClipId → List ClipId
take zero ids = []
take (suc n) [] = []
take (suc n) (id ∷ ids) = id ∷ take n ids

abbrev pub nth : List ClipId → ℕ → Option ClipId
nth [] index = none
nth (id ∷ ids) zero = some id
nth (id ∷ ids) (suc index) = nth ids index

abbrev pub unwrap_or : Option ℕ → ℕ → ℕ
unwrap_or none index = index
unwrap_or (some anchor) index = anchor

-- The body of the loop over the range, and the loop.
abbrev pub push_new : List ClipId → ClipId → List ClipId
push_new selected candidate =
    if not (contains candidate selected) && ltb (length selected) max_selection
    then selected ++ candidate ∷ []
    else selected

abbrev pub push_range : List ClipId → List ClipId → List ClipId
push_range selected [] = selected
push_range selected (candidate ∷ candidates) = push_range (push_new selected candidate) candidates

-- The clips between the anchor and the index.
abbrev pub range_of : RangeSelection → List ClipId → ℕ → List ClipId
range_of s ordered index =
    let start = min (unwrap_or s.anchor index) index in
    let end = max (unwrap_or s.anchor index) index in
    take max_selection (take (end - start + 1) (drop start ordered))

-- The three arms of `select`.
unfoldable pub extend_to : RangeSelection → List ClipId → ℕ → Bool → RangeSelection
extend_to s ordered index toggle =
    let kept = if toggle then s.selected else [] in
    record s { selected = push_range kept (range_of s ordered index) }

unfoldable pub toggle_at : RangeSelection → ℕ → ClipId → RangeSelection
toggle_at s index id = record {
  anchor = some index;
  selected =
      if contains id s.selected
      then remove_first id s.selected
      else if ltb (length s.selected) max_selection
      then s.selected ++ id ∷ []
      else s.selected;
}

abbrev select_id :
    RangeSelection → List ClipId → ℕ → Bool → Bool → Option ClipId → RangeSelection × Bool
select_id s ordered index extend toggle none = (s, false)
select_id s ordered index extend toggle (some id) = (
  if extend
      then extend_to s ordered index toggle
      else if toggle
      then toggle_at s index id
      else record { anchor = some index; selected = id ∷ [] },
  true,
)

unfoldable pub select : RangeSelection → List ClipId → ℕ → Bool → Bool → RangeSelection × Bool
unfolding extend_to toggle_at
select s ordered index extend toggle = select_id s ordered index extend toggle (nth ordered index)

abbrev pub retain_in : List ClipId → List ClipId → List ClipId
retain_in visible [] = []
retain_in visible (id ∷ ids) =
    let rest = retain_in visible ids in if contains id visible then id ∷ rest else rest

abbrev pub anchor_within : Option ℕ → ℕ → Option ℕ
anchor_within none count = none
anchor_within (some index) count = if leb count index then none else some index

unfoldable pub retain_visible : RangeSelection → List ClipId → RangeSelection
retain_visible s ordered = record {
  anchor = anchor_within s.anchor (length ordered);
  selected = retain_in ordered s.selected;
}
