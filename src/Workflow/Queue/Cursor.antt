-- ===== src/Workflow/Queue/Cursor.antt =====
-- The queue is a list with a cursor.
use mathlib.Core.Path.{ap₂}
use mathlib.Core.List.{append_assoc, append-nil}
use vbuff.Base.{
  ℕ, zero, suc, ◌+◌, ◌-◌, ◌≡◌, ◌⊎◌, ◌&&◌, refl, sym, ap, inl, inr, Bool, true, false, ltb, leb,
  ◌==◌, if◌then◌else◌, Bool-cases, Option, none, some, List, [], ◌∷◌, ◌++◌, arith, length,
  length-append,
}
use vbuff.Workflow.Board.{
  BoardError, BoardItem, BoardResult, ok, err, validate_text, max_label_bytes, max_working_set,
}
use vbuff.Workflow.Queue.{ConsumeQueue, push, consume, pop, undo}

-- All the items that were pushed, and how many of them are consumed.
pub record Tape : Type 0 where
  pub all : List BoardItem
  cursor : ℕ

abbrev pub tape : ConsumeQueue → Tape
tape q = record { all = q.consumed ++ q.items; cursor = length q.consumed }

abbrev pub nth : List BoardItem → ℕ → Option BoardItem
nth [] index = none
nth (item ∷ items) zero = some item
nth (item ∷ items) (suc index) = nth items index

pub data Operation : Type 0 where
  pushing : BoardItem → Operation
  consuming undoing : Operation

-- The queue after an operation, and the item that it gives. A push that is refused changes nothing.
abbrev pushed_or : ConsumeQueue → BoardResult ConsumeQueue → ConsumeQueue
pushed_or q (ok after) = after
pushed_or q (err e) = q

unfoldable pub perform : ConsumeQueue → Operation → ConsumeQueue × Option BoardItem
perform q (pushing item) = (pushed_or q (push q item), none)
perform q consuming = consume q
perform q undoing = undo q

abbrev is_ok : BoardResult (Unit {0}) → Bool
is_ok (ok t) = true
is_ok (err e) = false

-- The same on the tape: a push is at its end, and the cursor moves over an item that is there.
abbrev moved : Tape → ℕ → Option BoardItem → Tape × Option BoardItem
moved t cursor none = (t, none)
moved t cursor (some item) = (record t { cursor = cursor }, some item)

abbrev pub before : Tape → Option BoardItem
before t = if t.cursor == 0 then none else nth t.all (t.cursor - 1)

unfoldable pub perform_tape : Tape → Operation → Tape × Option BoardItem
perform_tape t (pushing item) = (
  if is_ok (validate_text item.label max_label_bytes) && ltb (length t.all) max_working_set
      then record t { all = t.all ++ item ∷ [] }
      else t,
  none,
)
perform_tape t consuming = moved t (t.cursor + 1) (nth t.all t.cursor)
perform_tape t undoing = moved t (t.cursor - 1) (before t)

nth-append :
    (front : List BoardItem) (item : BoardItem) (rest : List BoardItem)
    → nth (front ++ item ∷ rest) (length front) ≡ some item
nth-append [] item rest = refl
nth-append (x ∷ front) item rest = nth-append front item rest

nth_end : (items : List BoardItem) → nth items (length items) ≡ none
nth_end [] = refl
nth_end (x ∷ items) = nth_end items

pop-append_one :
    (items : List BoardItem)
    → (items ≡ []) × (pop items ≡ none)
      ⊎ ((front : List BoardItem) × (last : BoardItem) × (items ≡ front ++ last ∷ [])
          × (pop items ≡ some (front, last)))
unfolding pop
pop-append_one [] = inl (refl, refl)
pop-append_one (item ∷ items) = elim (pop-append_one items) [
  | inl (e, p) ↦ inr ([], item, ap (λ q. item ∷ q) e, rw p refl)
  | inr (front, last, e, p) ↦ inr (item ∷ front, last, ap (λ q. item ∷ q) e, rw p refl)
]

check-cases : (r : BoardResult (Unit {0})) → (r ≡ ok tt) ⊎ ((e : BoardError) × (r ≡ err e))
check-cases (ok tt) = inl refl
check-cases (err e) = inr (e, refl)

pushed_nothing : (t : Tape) (item : BoardItem) → none ≡ (perform_tape t (pushing item)).1
unfolding perform_tape
pushed_nothing t item = refl

push-refines :
    (q : ConsumeQueue) (item : BoardItem)
    → tape (perform q (pushing item)).0 ≡ (perform_tape (tape q) (pushing item)).0
unfolding perform perform_tape push
push-refines q item =
    let total = length-append q.consumed q.items in
    elim (check-cases (validate_text item.label max_label_bytes)) [
      | inr (e, bad) ↦ rw bad refl
      | inl good ↦ elim (Bool-cases (leb max_working_set (length q.items + length q.consumed))) [
        | inl crowded ↦
            let no_room : ltb (length (q.consumed ++ q.items)) max_working_set ≡ false =
              ground (arith, crowded, total) in
            rw (good, crowded, no_room) refl
        | inr space ↦
            let room : ltb (length (q.consumed ++ q.items)) max_working_set ≡ true =
              ground (arith, space, total) in
            rw (good, space, room)
              (ap (λ q'. record { all = q'; cursor = length q.consumed })
                (sym (append_assoc q.consumed q.items (item ∷ []))))
      ]
    ]

consume-refines :
    (items consumed : List BoardItem)
    → (
      tape (consume (record { items = items; consumed = consumed })).0,
      (consume (record { items = items; consumed = consumed })).1,
    )
      ≡ perform_tape (tape (record { items = items; consumed = consumed })) consuming
unfolding consume perform_tape
consume-refines [] consumed = rw (append-nil consumed, nth_end consumed) refl
consume-refines (item ∷ items) consumed = rw (nth-append consumed item items) (
    ap₂ (λ a n. (record { all = a; cursor = n }, some item))
      (append_assoc consumed (item ∷ []) items) (length-append consumed (item ∷ [])))

undo-refines :
    (items consumed : List BoardItem)
    → (
      tape (undo (record { items = items; consumed = consumed })).0,
      (undo (record { items = items; consumed = consumed })).1,
    )
      ≡ perform_tape (tape (record { items = items; consumed = consumed })) undoing
unfolding undo perform_tape
undo-refines items consumed = elim (pop-append_one consumed) [
  | inl (e, p) ↦ rw (p, e) refl
  | inr (front, last, e, p) ↦
      let nonzero : (length (front ++ last ∷ []) == 0) ≡ false =
        ground (arith, length-append front (last ∷ [])) in
      let less : length (front ++ last ∷ []) - 1 ≡ length front =
        omega (arith, length-append front (last ∷ [])) in
      rw (p, e, nonzero, less, append_assoc front (last ∷ []) items, nth-append front last items)
        refl
]

-- Every operation of the queue does on its tape what the operation of the tape does, and gives the
-- same item: a push that is accepted writes at the end, and consuming and undoing move the cursor
-- over one item, forwards or backwards, if there is one.
pub perform-refines :
    (q : ConsumeQueue) (operation : Operation)
    → (tape (perform q operation).0, (perform q operation).1) ≡ perform_tape (tape q) operation
unfolding perform
perform-refines q (pushing item) =
    ap₂ (λ a b. (a, b)) (push-refines q item) (pushed_nothing (tape q) item)
perform-refines q consuming = consume-refines q.items q.consumed
perform-refines q undoing = undo-refines q.items q.consumed
