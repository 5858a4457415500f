-- ===== src/Types/Content.antt =====
-- `ClipId` and `ContentKind` of crates/vbuff-types/src/lib.rs. An identifier is its 128-bit number.
use vbuff.Base.{ℕ, Bool, ◌==◌}

abbrev pub ClipId : Type 0
ClipId = ℕ

pub data ContentKind : Type 0 where
  text url color code image file rtf html other : ContentKind

abbrev pub discriminant : ContentKind → ℕ
discriminant text = 0
discriminant url = 1
discriminant color = 2
discriminant code = 3
discriminant image = 4
discriminant file = 5
discriminant rtf = 6
discriminant html = 7
discriminant other = 8

unfoldable pub same_kind : ContentKind → ContentKind → Bool
same_kind a b = discriminant a == discriminant b
