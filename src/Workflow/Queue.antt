-- ===== src/Workflow/Queue.antt =====
-- `ConsumeQueue` of crates/vbuff-core/src/workflow/boards.rs.
pub mod Cursor
use vbuff.Base.{ℕ, ◌+◌, leb, Option, none, some, List, [], ◌∷◌, ◌++◌, length}
use vbuff.Workflow.Board.{
  BoardItem, BoardResult, ok, err, full, ◌>>=◌, ◌>>◌, fail_if, validate_text, max_label_bytes,
  max_working_set,
}

pub record ConsumeQueue : Type 0 where
  pub items : List BoardItem
  pub consumed : List BoardItem

abbrev pub default : ConsumeQueue
default = record { items = []; consumed = [] }

unfoldable pub push : ConsumeQueue → BoardItem → BoardResult ConsumeQueue
unfolding validate_text
push q item = do
  validate_text item.label max_label_bytes
  fail_if (leb max_working_set (length q.items + length q.consumed)) full
  ok (record q { items = q.items ++ item ∷ [] })

abbrev consume_from : ConsumeQueue → List BoardItem → ConsumeQueue × Option BoardItem
consume_from q [] = (q, none)
consume_from q (item ∷ items) =
    (record { items = items; consumed = q.consumed ++ item ∷ [] }, some item)

unfoldable pub consume : ConsumeQueue → ConsumeQueue × Option BoardItem
consume q = consume_from q q.items

-- `Vec::pop`: the last item, and the others.
unfoldable pub pop : List BoardItem → Option (List BoardItem × BoardItem)
pop [] = none
pop (item ∷ items) =
    let rest = pop items in
    elim rest [ none ↦ some ([], item) | some (front, last) ↦ some (item ∷ front, last) ]

abbrev pub undo_from :
    ConsumeQueue → Option (List BoardItem × BoardItem) → ConsumeQueue × Option BoardItem
undo_from q none = (q, none)
undo_from q (some (front, last)) = (record { items = last ∷ q.items; consumed = front }, some last)

unfoldable pub undo : ConsumeQueue → ConsumeQueue × Option BoardItem
undo q = undo_from q (pop q.consumed)

unfoldable pub progress : ConsumeQueue → ℕ × ℕ
progress q = (length q.consumed, length q.consumed + length q.items)
