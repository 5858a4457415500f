-- ===== src/Workflow/Basket.antt =====
-- `SessionBasket` of crates/vbuff-core/src/workflow/boards.rs.
use vbuff.Base.{
  Bool, true, false, ◌||◌, ◌==◌, leb, if◌then◌else◌, List, [], ◌∷◌, ◌++◌, nat_ord, length,
}
use vbuff.Types.Content.{ClipId}
use vbuff.Workflow.Board.{BoardResult, ok, err, full, max_working_set}

pub record SessionBasket : Type 0 where
  pub ids : List ClipId

abbrev pub contains : ClipId → List ClipId → Bool
contains id [] = false
contains id (j ∷ ids) = j == id || contains id ids

-- The list without the first occurrence.
abbrev pub remove_first : ClipId → List ClipId → List ClipId
remove_first id [] = []
remove_first id (j ∷ ids) = let rest = remove_first id ids in if j == id then ids else j ∷ rest

unfoldable pub add : SessionBasket → ClipId → BoardResult (SessionBasket × Bool)
add b id =
    if contains id b.ids
    then ok (b, false)
    else if leb max_working_set (length b.ids)
    then err full
    else ok (record { ids = b.ids ++ id ∷ [] }, true)

unfoldable pub remove : SessionBasket → ClipId → SessionBasket × Bool
remove b id = (record { ids = remove_first id b.ids }, contains id b.ids)

unfoldable pub promote : SessionBasket → SessionBasket × List ClipId
promote b = (record { ids = [] }, b.ids)
