-- ===== src/Workflow/Router.antt =====
-- `BoardMatcher` and `BoardRouter` of crates/vbuff-core/src/workflow/boards.rs.
pub mod Choice
use vbuff.Base.{
  ℕ, suc, ◌+◌, ◌*◌, Ordering, compare, Bool, true, false, not, ◌&&◌, ◌||◌, leb, if◌then◌else◌,
  Option, none, some, List, [], ◌∷◌, ◌++◌, bytes_ord, same, then_with, length,
}
use vbuff.Types.Text.{Text}
use vbuff.Types.Content.{ContentKind, same_kind}
use vbuff.Workflow.Board.{
  BoardResult, ok, err, full, invalid_text, ◌>>=◌, ◌>>◌, fail_if, validate_text, PinBoard,
}

abbrev pub max_routed_boards : ℕ
max_routed_boards = 64

abbrev pub max_context_bytes : ℕ
max_context_bytes = 256

pub record BoardContext : Type 0 where
  pub app_id : Option Text
  pub window_class : Option Text
  pub kind : ContentKind

pub record BoardMatcher : Type 0 where
  pub app_id : Option Text
  pub window_class : Option Text
  pub kind : Option ContentKind

abbrev validate_option : Option Text → BoardResult (Unit {0})
validate_option none = ok tt
validate_option (some value) = validate_text value max_context_bytes

abbrev pub is_some : {A : Type 0} → Option A → Bool
is_some none = false
is_some (some a) = true

unfoldable pub validate : BoardMatcher → BoardResult (Unit {0})
unfolding validate_text
validate m = do
  validate_option m.app_id
  validate_option m.window_class
  fail_if (not (is_some m.app_id) && not (is_some m.window_class) && not (is_some m.kind))
      invalid_text

-- Whether an expectation is there that the observed value does not meet.
abbrev pub differs : Option Text → Option Text → Bool
differs none observed = false
differs (some expected) none = true
differs (some expected) (some value) = not (same value expected)

abbrev pub differs_kind : Option ContentKind → ContentKind → Bool
differs_kind none kind = false
differs_kind (some expected) kind = not (same_kind kind expected)

abbrev pub bit : Bool → ℕ
bit true = 1
bit false = 0

unfoldable pub score : BoardMatcher → BoardContext → Option ℕ
score m context =
    if differs m.app_id context.app_id
      || differs m.window_class context.window_class
      || differs_kind m.kind context.kind
    then none
    else some (bit (is_some m.app_id) * 4 + bit (is_some m.window_class) * 2 + bit (is_some m.kind))

pub record BoardRouter : Type 0 where
  pub entries : List (BoardMatcher × PinBoard)

unfoldable pub add : BoardRouter → BoardMatcher → PinBoard → BoardResult BoardRouter
unfolding validate
add r matcher board = do
  validate matcher
  fail_if (leb max_routed_boards (length r.entries)) full
  ok (record { entries = r.entries ++ (matcher, board) ∷ [] })

-- A candidate with its key, the score and the index.
pub record Candidate : Type 0 where
  pub score : ℕ
  pub index : ℕ
  pub board : PinBoard

-- The order of the keys, in which the index is reversed.
unfoldable pub cmp_key : Candidate → Candidate → Ordering
cmp_key a b = then_with (compare a.score b.score) (compare b.index a.index)

abbrev pub candidate_of : Option ℕ → ℕ → PinBoard → List Candidate → List Candidate
candidate_of none index board rest = rest
candidate_of (some points) index board rest =
    record { score = points; index = index; board = board } ∷ rest

-- `enumerate` and `filter_map`.
unfoldable pub candidates : ℕ → List (BoardMatcher × PinBoard) → BoardContext → List Candidate
candidates index [] context = []
candidates index ((matcher, board) ∷ entries) context =
    candidate_of (score matcher context) index board (candidates (suc index) entries context)

-- `max_by_key`: of two equal keys the later one is kept.
abbrev pub better : Candidate → Candidate → Candidate
better best c = elim (cmp_key best c) [ Ordering.gt ↦ best | _ ↦ c ]

abbrev pub max_from : Candidate → List Candidate → Candidate
max_from best [] = best
max_from best (c ∷ cs) = max_from (better best c) cs

abbrev pub max_by_key : List Candidate → Option Candidate
max_by_key [] = none
max_by_key (c ∷ cs) = some (max_from c cs)

abbrev pub board_of : Option Candidate → Option PinBoard
board_of none = none
board_of (some c) = some c.board

unfoldable pub resolve : BoardRouter → BoardContext → Option PinBoard
unfolding candidates score cmp_key
resolve r context = board_of (max_by_key (candidates 0 r.entries context))
