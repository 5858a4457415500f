-- ===== src/Workflow/Collector/Output.antt =====
-- The bytes that a collector counts are those of its output.
use vbuff.Base.{
  subst, ℕ, ◌+◌, ◌*◌, ◌≤◌, ◌≡◌, ◌⊎◌, refl, inl, inr, Bool, not, ◌||◌, ◌==◌, ltb, leb, Bool-cases,
  none, some, List, [], ◌∷◌, ◌++◌, arith, length, length-append, checked_add, u64_max,
}
use vbuff.Types.Text.{Text, len}
use vbuff.Workflow.Board.{BoardResult, ok, err, max_label_bytes}
use vbuff.Workflow.Collector.{
  max_text_bytes, max_collector_items, CollectorJoiner, value, CaptureCollector, is_empty, new,
  complete, bit, is_bad_joiner, add_twice, append, join,
}

len-append : (a b : Text) → len (a ++ b) ≡ len a + len b
unfolding len
len-append [] b = omega arith
len-append (c ∷ a) b = omega (arith, len-append a b)

len-join_one :
    (parts : List Text) (text separator : Text)
    → len (join (parts ++ text ∷ []) separator)
      ≡ len (join parts separator) + (bit (not (is_empty parts)) * len separator + len text)
unfolding join len
len-join_one [] text separator = omega arith
len-join_one (part ∷ []) text separator =
    omega (arith, len-append part (separator ++ text), len-append separator text)
len-join_one (part ∷ next ∷ parts) text separator =
    let longer = join (next ∷ parts ++ text ∷ []) separator in
    let shorter = join (next ∷ parts) separator in
    omega (
      arith,
      len-join_one (next ∷ parts) text separator,
      len-append part (separator ++ longer),
      len-append separator longer,
      len-append part (separator ++ shorter),
      len-append separator shorter,
    )

checked_add-cases :
    (a b : ℕ) → (checked_add u64_max a b ≡ none) ⊎ (checked_add u64_max a b ≡ some (a + b))
checked_add-cases a b = elim (Bool-cases (leb (a + b) u64_max)) [
  | inr e ↦ inl (rw (e, checked_add) refl)
  | inl e ↦ inr (rw (e, checked_add) refl)
]

add_twice-cases : (a b c : ℕ) → (add_twice a b c ≡ none) ⊎ (add_twice a b c ≡ some (a + b + c))
add_twice-cases a b c = elim (checked_add-cases a b) [
  | inl e ↦ inl (rw (e, add_twice) refl)
  | inr e ↦ elim (checked_add-cases (a + b) c) [
    | inl f ↦ inl (rw (add_twice, e, f) refl)
    | inr f ↦ inr (rw (add_twice, e, f) refl)
  ]
]

-- The counter is the length of the joined parts, which is within the bound, and there are no more
-- parts than asked for.
abbrev pub IsCounted : CaptureCollector → Type 0
IsCounted c =
    (c.output_bytes ≡ len (join c.parts (value c.joiner)))
    × (c.output_bytes ≤ max_text_bytes)
    × (length c.parts ≤ c.target)

-- The collector after an append, which a refusal leaves as it is.
abbrev appended_or : CaptureCollector → BoardResult (CaptureCollector × Bool) → CaptureCollector
appended_or c (ok (after, done)) = after
appended_or c (err e) = c

abbrev pub append_all : CaptureCollector → List Text → CaptureCollector
append_all c [] = c
append_all c (text ∷ texts) = append_all (appended_or c (append c text)) texts

append-IsCounted :
    (c : CaptureCollector) (text : Text) → IsCounted c → IsCounted (appended_or c (append c text))
unfolding append complete
append-IsCounted c text v =
    let separator = bit (not (is_empty c.parts)) * len (value c.joiner) in
    let next = c.output_bytes + separator + len text in
    elim (Bool-cases (length c.parts == c.target)) [
      | inl e ↦ rw e v
      | inr e ↦ elim (add_twice-cases c.output_bytes separator (len text)) [
        | inl large ↦ rw (e, large) v
        | inr sum ↦ elim (Bool-cases (ltb max_text_bytes next)) [
          | inl large ↦ rw (e, sum, large) v
          | inr fits ↦
              rw (e, sum, fits)
                (
                  omega (arith, v.0, len-join_one c.parts text (value c.joiner)),
                  ground (arith, fits),
                  ground (arith, e, v.2, length-append c.parts (text ∷ [])),
                )
        ]
      ]
    ]

append_all-IsCounted :
    (c : CaptureCollector) (texts : List Text) → IsCounted c → IsCounted (append_all c texts)
append_all-IsCounted c [] v = v
append_all-IsCounted c (text ∷ texts) v =
    append_all-IsCounted (appended_or c (append c text)) texts (append-IsCounted c text v)

abbrev OkIsCounted : BoardResult CaptureCollector → Type 0
OkIsCounted (err e) = Unit {0}
OkIsCounted (ok c) = IsCounted c

new-IsCounted : (target : ℕ) (joiner : CollectorJoiner) → OkIsCounted (new target joiner)
unfolding new join len
new-IsCounted target joiner =
    elim (Bool-cases
      (target == 0 || ltb max_collector_items target || ltb max_label_bytes (len (value joiner)))) [
        | inl e ↦ rw e tt
        | inr e ↦ elim (Bool-cases (is_bad_joiner joiner)) [
          | inl f ↦ rw (e, f) tt
          | inr f ↦ rw (e, f) (refl, omega arith, omega arith)
        ]
      ]

-- Whatever texts are given to a new collector, those it refuses included, the bytes that it counts
-- are the length in UTF-8 of its parts joined by its separator, at most 1 MiB, and it never holds
-- more parts than its target; so an output has that length.
pub append_all-new :
    (target : ℕ) (joiner : CollectorJoiner) (texts : List Text) (c : CaptureCollector)
    → new target joiner ≡ ok c
    → IsCounted (append_all c texts)
append_all-new target joiner texts c h =
    append_all-IsCounted c texts (subst OkIsCounted h (new-IsCounted target joiner))
