-- ===== src/Workflow/Checklist.antt =====
-- `Checklist` of crates/vbuff-core/src/workflow/boards.rs.
use vbuff.Base.{
  ℕ, suc, Bool, true, false, ◌||◌, ◌==◌, leb, if◌then◌else◌, List, [], ◌∷◌, ◌++◌, nat_ord, length,
}
use vbuff.Types.Content.{ClipId}
use vbuff.Workflow.Board.{BoardResult, ok, err, full, not_found, max_working_set}

pub record Checklist : Type 0 where
  pub items : List (ClipId × Bool)

abbrev pub has_item : ClipId → List (ClipId × Bool) → Bool
has_item id [] = false
has_item id ((j, done) ∷ items) = j == id || has_item id items

-- The items with the first one of the identifier set.
abbrev pub set_item : ClipId → Bool → List (ClipId × Bool) → List (ClipId × Bool)
set_item id done [] = []
set_item id done ((j, old) ∷ items) =
    let rest = set_item id done items in if j == id then (j, done) ∷ items else (j, old) ∷ rest

abbrev pub count_done : List (ClipId × Bool) → ℕ
count_done [] = 0
count_done ((j, true) ∷ items) = suc (count_done items)
count_done ((j, false) ∷ items) = count_done items

unfoldable pub add : Checklist → ClipId → BoardResult Checklist
add c id =
    if has_item id c.items
    then ok c
    else if leb max_working_set (length c.items)
    then err full
    else ok (record { items = c.items ++ (id, false) ∷ [] })

unfoldable pub set_done : Checklist → ClipId → Bool → BoardResult Checklist
set_done c id done =
    if has_item id c.items then ok (record { items = set_item id done c.items }) else err not_found

unfoldable pub pasted : Checklist → ClipId → Bool → BoardResult Checklist
unfolding set_done
pasted c id check_on_paste =
    if check_on_paste
    then set_done c id true
    else if has_item id c.items
    then ok c
    else err not_found

unfoldable pub progress : Checklist → ℕ × ℕ
progress c = (count_done c.items, length c.items)
