-- ===== src/Workflow/Board.antt =====
-- `PinBoard`, its items and the errors of crates/vbuff-core/src/workflow/boards.rs.
use vbuff.Base.{
  ℕ, zero, suc, ◌-◌, Bool, ◌&&◌, ◌||◌, ltb, leb, if◌then◌else◌, Option, none, some, List, [], ◌∷◌,
  replicate,
}
use vbuff.Types.Text.{Text, len, is_control, any, is_blank}
use vbuff.Types.Content.{ClipId}

abbrev pub max_board_slots : ℕ
max_board_slots = 9

abbrev pub max_label_bytes : ℕ
max_label_bytes = 80

abbrev pub max_working_set : ℕ
max_working_set = 256

pub data BoardError : Type 0 where
  invalid_slot full not_found invalid_text collector_complete too_large : BoardError

pub data BoardResult (T : Type 0) : Type 0 where
  ok : T → BoardResult T
  err : BoardError → BoardResult T

infixl 5 ◌>>=◌ ◌>>◌
abbrev pub ◌>>=◌ : {T U : Type 0} → BoardResult T → (T → BoardResult U) → BoardResult U
ok value >>= rest = rest value
err e >>= rest = err e

abbrev pub ◌>>◌ : {U : Type 0} → BoardResult (Unit {0}) → BoardResult U → BoardResult U
ok _ >> rest = rest
err e >> rest = err e

-- `if test { return Err(e); }`.
abbrev pub fail_if : Bool → BoardError → BoardResult (Unit {0})
fail_if test e = if test then err e else ok tt

unfoldable pub validate_text : Text → ℕ → BoardResult (Unit {0})
validate_text value max_bytes =
    fail_if (is_blank value || ltb max_bytes (len value) || any is_control value) invalid_text

pub record BoardItem : Type 0 where
  pub clip_id : ClipId
  pub label : Text

pub record PinBoard : Type 0 where
  pub id : Text
  pub slots : List (Option BoardItem)

unfoldable pub new : Text → BoardResult PinBoard
unfolding validate_text
new id = do
  validate_text id max_label_bytes
  ok (record { id = id; slots = replicate max_board_slots none })

unfoldable pub slot_index : ℕ → BoardResult ℕ
slot_index slot = if leb 1 slot && leb slot max_board_slots then ok (slot - 1) else err invalid_slot

-- The content of an index of the array, and the array with another content there.
abbrev pub get_slot : List (Option BoardItem) → ℕ → Option BoardItem
get_slot [] index = none
get_slot (s ∷ slots) zero = s
get_slot (s ∷ slots) (suc index) = get_slot slots index

abbrev pub set_slot : List (Option BoardItem) → ℕ → Option BoardItem → List (Option BoardItem)
set_slot [] index item = []
set_slot (s ∷ slots) zero item = item ∷ slots
set_slot (s ∷ slots) (suc index) item = s ∷ set_slot slots index item

-- The board and what the slot held before.
unfoldable pub assign : PinBoard → ℕ → BoardItem → BoardResult (PinBoard × Option BoardItem)
unfolding validate_text slot_index
assign b slot item = do
  validate_text item.label max_label_bytes
  index ← slot_index slot
  ok (record b { slots = set_slot b.slots index (some item) }, get_slot b.slots index)

unfoldable pub remove : PinBoard → ℕ → BoardResult (PinBoard × Option BoardItem)
unfolding slot_index
remove b slot = do
  index ← slot_index slot
  ok (record b { slots = set_slot b.slots index none }, get_slot b.slots index)

unfoldable pub get : PinBoard → ℕ → BoardResult (Option BoardItem)
unfolding slot_index
get b slot = do index ← slot_index slot; ok (get_slot b.slots index)

abbrev count_some : List (Option BoardItem) → ℕ
count_some [] = 0
count_some (none ∷ slots) = count_some slots
count_some (some item ∷ slots) = suc (count_some slots)

unfoldable pub occupied : PinBoard → ℕ
occupied b = count_some b.slots
