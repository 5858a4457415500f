-- ===== src/Workflow/Examples.antt =====
-- Small boards, queues, collectors and selections.
use vbuff.Base.{ℕ, ◌≡◌, refl, none, some, List, [], ◌∷◌, replicate}
use vbuff.Types.Text.{Text, len, len_utf8}
use vbuff.Types.Content.{ContentKind, ClipId}
use vbuff.Workflow.Board.{BoardItem, PinBoard}
use vbuff.Workflow.Router.{BoardContext, BoardMatcher, BoardRouter, resolve}
use vbuff.Workflow.Router.Choice.{IsBest, resolve-IsBest}
use vbuff.Workflow.Queue.{ConsumeQueue}
use vbuff.Workflow.Queue.Cursor.{tape, undoing, perform, perform_tape, perform-refines}
use vbuff.Workflow.Collector.{newline, value, CaptureCollector, new}
use vbuff.Workflow.Collector.Output.{IsCounted, append_all, append_all-new}
use vbuff.Workflow.Selection.{RangeSelection}

abbrev four : List ClipId
four = 10 ∷ 20 ∷ 30 ∷ 40 ∷ []

abbrev anchored : RangeSelection
anchored = record { anchor = some 3; selected = 40 ∷ [] }

abbrev item : ℕ → BoardItem
item id = record { clip_id = id; label = b'a' ∷ [] }

abbrev half_consumed : ConsumeQueue
half_consumed = record { items = item 3 ∷ []; consumed = item 1 ∷ item 2 ∷ [] }

perform-refines_example :
    (tape (perform half_consumed undoing).0, (perform half_consumed undoing).1)
    ≡ perform_tape (tape half_consumed) undoing
perform-refines_example = perform-refines half_consumed undoing

abbrev two_lines : CaptureCollector
two_lines = record { target = 2; joiner = newline; parts = []; output_bytes = 0 }

append_all-new_example :
    IsCounted (append_all two_lines ((b'a' ∷ []) ∷ (0xe9 ∷ []) ∷ (b'c' ∷ []) ∷ []))
unfolding new value len len_utf8
append_all-new_example =
    append_all-new 2 newline ((b'a' ∷ []) ∷ (0xe9 ∷ []) ∷ (b'c' ∷ []) ∷ []) two_lines refl

abbrev board : ℕ → PinBoard
board id = record { id = id ∷ []; slots = replicate 9 none }

abbrev editor : Text
editor = b'v' ∷ b'i' ∷ []

abbrev by_app : BoardMatcher
by_app = record { app_id = some editor; window_class = none; kind = none }

abbrev by_class : BoardMatcher
by_class = record { app_id = none; window_class = some editor; kind = none }

abbrev routes : BoardRouter
routes = record { entries = (by_class, board 1) ∷ (by_app, board 2) ∷ (by_app, board 3) ∷ [] }

abbrev in_editor : BoardContext
in_editor = record { app_id = some editor; window_class = some editor; kind = ContentKind.text }

resolve-IsBest_example : IsBest routes in_editor (resolve routes in_editor)
resolve-IsBest_example = resolve-IsBest routes in_editor
