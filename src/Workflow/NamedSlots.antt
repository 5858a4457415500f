-- ===== src/Workflow/NamedSlots.antt =====
-- `NamedSlots` of crates/vbuff-core/src/workflow/boards.rs.
use vbuff.Base.{ℕ, ◌-◌, not, ◌&&◌, leb, if◌then◌else◌, Option, List, [], nat_ord}
use vbuff.Base.Maps
use vbuff.Base.Maps.{map_insert}
use vbuff.Types.Content.{ClipId}
use vbuff.Workflow.Board.{BoardResult, ok, err, invalid_slot}

pub record NamedSlots : Type 0 where
  pub slots : List (ℕ × ClipId)

-- `char::to_ascii_uppercase`.
unfoldable pub to_ascii_uppercase : ℕ → ℕ
to_ascii_uppercase c = if leb b'a' c && leb c b'z' then c - 32 else c

unfoldable pub assign : NamedSlots → ℕ → ClipId → BoardResult (NamedSlots × Option ClipId)
unfolding to_ascii_uppercase
assign s slot id =
    let upper = to_ascii_uppercase slot in
    if not (leb b'A' upper && leb upper b'I')
    then err invalid_slot
    else ok (record { slots = map_insert upper id s.slots }, Maps.get upper s.slots)

unfoldable pub get : NamedSlots → ℕ → Option ClipId
unfolding to_ascii_uppercase
get s slot = Maps.get (to_ascii_uppercase slot) s.slots

unfoldable pub clear : NamedSlots → NamedSlots
clear s = record { slots = [] }
