-- ===== src/Workflow/Collector.antt =====
-- `CaptureCollector` of crates/vbuff-core/src/workflow/boards.rs.
pub mod Output
use vbuff.Base.{
  ℕ, ◌+◌, ◌*◌, Bool, true, false, not, ◌&&◌, ◌||◌, ◌==◌, ltb, if◌then◌else◌, checked_add, u64_max,
  Option, none, some, List, [], ◌∷◌, ◌++◌, length,
}
use vbuff.Types.Text.{Text, len, is_control, any}
use vbuff.Workflow.Board.{
  BoardResult, ok, err, invalid_text, collector_complete, too_large, ◌>>=◌, ◌>>◌, fail_if,
  max_label_bytes,
}

abbrev pub max_collector_items : ℕ
max_collector_items = 128

abbrev pub max_text_bytes : ℕ
max_text_bytes = 1_048_576

pub data CollectorJoiner : Type 0 where
  newline blank_line space : CollectorJoiner
  custom : Text → CollectorJoiner

unfoldable pub value : CollectorJoiner → Text
value newline = b'\n' ∷ []
value blank_line = b'\n' ∷ b'\n' ∷ []
value space = b' ' ∷ []
value (custom text) = text

pub record CaptureCollector : Type 0 where
  pub target : ℕ
  pub joiner : CollectorJoiner
  pub parts : List Text
  pub output_bytes : ℕ

abbrev pub is_empty : {A : Type 0} → List A → Bool
is_empty [] = true
is_empty (x ∷ xs) = false

abbrev pub is_bad_joiner : CollectorJoiner → Bool
is_bad_joiner (custom text) = is_empty text || any is_control text
is_bad_joiner _ = false

unfoldable pub new : ℕ → CollectorJoiner → BoardResult CaptureCollector
unfolding value
new target joiner = do
  fail_if
      (target == 0 || ltb max_collector_items target || ltb max_label_bytes (len (value joiner)))
      invalid_text
  fail_if (is_bad_joiner joiner) invalid_text
  ok (record { target = target; joiner = joiner; parts = []; output_bytes = 0 })

unfoldable pub complete : CaptureCollector → Bool
complete c = length c.parts == c.target

abbrev pub bit : Bool → ℕ
bit true = 1
bit false = 0

abbrev pub some_or_large : Option ℕ → BoardResult ℕ
some_or_large none = err too_large
some_or_large (some n) = ok n

-- The two checked additions, on a `usize` of 64 bits.
abbrev pub add_twice : ℕ → ℕ → ℕ → Option ℕ
add_twice a b c = elim (checked_add u64_max a b) [ none ↦ none | some n ↦ checked_add u64_max n c ]

-- The collector and whether it is complete.
unfoldable pub append : CaptureCollector → Text → BoardResult (CaptureCollector × Bool)
unfolding complete
append c text = do
  fail_if (complete c) collector_complete
  let separator = bit (not (is_empty c.parts)) * len (value c.joiner)
  next ← some_or_large (add_twice c.output_bytes separator (len text))
  fail_if (ltb max_text_bytes next) too_large
  let after = record c { parts = c.parts ++ text ∷ []; output_bytes = next }
  ok (after, complete after)

unfoldable pub progress : CaptureCollector → ℕ × ℕ
progress c = (length c.parts, c.target)

-- `parts.join(separator)`.
unfoldable pub join : List Text → Text → Text
join [] separator = []
join (part ∷ []) separator = part
join (part ∷ next ∷ parts) separator = part ++ (separator ++ join (next ∷ parts) separator)

unfoldable pub output : CaptureCollector → Option Text
unfolding complete join value
output c = if complete c then some (join c.parts (value c.joiner)) else none
