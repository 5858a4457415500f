-- ===== src/Capture/Loss.antt =====
-- `CaptureLossLedger` of crates/vbuff-core/src/capture/ledger.rs, with `DropReason` and `DropClass` of
-- crates/vbuff-core/src/capture/policy.rs.
pub mod Totals
use mathlib.Core.Option.{get_or}
use vbuff.Base.{
  ℕ, ◌+◌, compare, Ordering, ◌≡◌, ◌↔◌, refl, ap, List, [], ◌∷◌, arith, Ord, reversed, nat_ord,
  u64_max, saturating_add,
}
use vbuff.Base.Maps.{get, entry}

pub data DropClass : Type 0 where
  intentional loss : DropClass

pub data DropReason : Type 0 where
  empty whitespace_only excluded_source source_rule concealed concealment_unknown provenance_unknown
        coherence_unknown intent_unknown self_write_suppressed primary_without_intent
        no_realized_flavor torn_read generation_gap generation_stale owner_contention
        truncated_flavor over_size_cap backpressure debounce_collapsed store_failure
        memory_only_unsupported :
      DropReason

unfoldable pub class : DropReason → DropClass
class no_realized_flavor = loss
class torn_read = loss
class generation_gap = loss
class generation_stale = loss
class owner_contention = loss
class truncated_flavor = loss
class over_size_cap = loss
class backpressure = loss
class store_failure = loss
class other = intentional

-- The place of a variant in its enum, by which the derived order compares.
abbrev pub discriminant : DropReason → ℕ
discriminant empty = 0
discriminant whitespace_only = 1
discriminant excluded_source = 2
discriminant source_rule = 3
discriminant concealed = 4
discriminant concealment_unknown = 5
discriminant provenance_unknown = 6
discriminant coherence_unknown = 7
discriminant intent_unknown = 8
discriminant self_write_suppressed = 9
discriminant primary_without_intent = 10
discriminant no_realized_flavor = 11
discriminant torn_read = 12
discriminant generation_gap = 13
discriminant generation_stale = 14
discriminant owner_contention = 15
discriminant truncated_flavor = 16
discriminant over_size_cap = 17
discriminant backpressure = 18
discriminant debounce_collapsed = 19
discriminant store_failure = 20
discriminant memory_only_unsupported = 21

discriminant_injective : (a b : DropReason) → discriminant a ≡ discriminant b → a ≡ b
discriminant_injective empty b h = ground arith
discriminant_injective whitespace_only b h = ground arith
discriminant_injective excluded_source b h = ground arith
discriminant_injective source_rule b h = ground arith
discriminant_injective concealed b h = ground arith
discriminant_injective concealment_unknown b h = ground arith
discriminant_injective provenance_unknown b h = ground arith
discriminant_injective coherence_unknown b h = ground arith
discriminant_injective intent_unknown b h = ground arith
discriminant_injective self_write_suppressed b h = ground arith
discriminant_injective primary_without_intent b h = ground arith
discriminant_injective no_realized_flavor b h = ground arith
discriminant_injective torn_read b h = ground arith
discriminant_injective generation_gap b h = ground arith
discriminant_injective generation_stale b h = ground arith
discriminant_injective owner_contention b h = ground arith
discriminant_injective truncated_flavor b h = ground arith
discriminant_injective over_size_cap b h = ground arith
discriminant_injective backpressure b h = ground arith
discriminant_injective debounce_collapsed b h = ground arith
discriminant_injective store_failure b h = ground arith
discriminant_injective memory_only_unsupported b h = ground arith

unfoldable pub cmp_reason : DropReason → DropReason → Ordering
cmp_reason a b = compare (discriminant a) (discriminant b)

pub cmp_reason_eq : (a b : DropReason) → (cmp_reason a b ≡ Ordering.eq) ↔ (a ≡ b)
unfolding cmp_reason
cmp_reason_eq a b = (
  λ h. discriminant_injective a b ((nat_ord.cmp_eq _ _).0 h),
  λ h. (nat_ord.cmp_eq _ _).1 (ap discriminant h),
)

pub cmp_reason_flip : (a b : DropReason) → cmp_reason b a ≡ reversed (cmp_reason a b)
unfolding cmp_reason
cmp_reason_flip a b = nat_ord.cmp_flip (discriminant a) (discriminant b)

pub cmp_reason_trans :
    (a b c : DropReason)
    → cmp_reason a b ≡ Ordering.lt
    → cmp_reason b c ≡ Ordering.lt
    → cmp_reason a c ≡ Ordering.lt
unfolding cmp_reason
cmp_reason_trans a b c = nat_ord.cmp_trans (discriminant a) (discriminant b) (discriminant c)

instance abbrev pub reason_ord : Ord DropReason
reason_ord = record {
  cmp = cmp_reason;
  cmp_eq = cmp_reason_eq;
  cmp_flip = cmp_reason_flip;
  cmp_trans = cmp_reason_trans;
}

pub record CaptureCounters : Type 0 where
  pub captured : ℕ
  pub intentionally_skipped : ℕ
  pub lost : ℕ
  pub by_reason : List (DropReason × ℕ)

abbrev pub default : CaptureCounters
default = record { captured = 0; intentionally_skipped = 0; lost = 0; by_reason = [] }

unfoldable pub count_captured : CaptureCounters → CaptureCounters
count_captured c = record c { captured = saturating_add u64_max c.captured 1 }

unfoldable pub count_class : DropClass → CaptureCounters → ℕ → CaptureCounters
count_class intentional c count = record c {
  intentionally_skipped = saturating_add u64_max c.intentionally_skipped count;
}
count_class loss c count = record c { lost = saturating_add u64_max c.lost count }

unfoldable pub dropped_n : CaptureCounters → DropReason → ℕ → CaptureCounters
unfolding count_class
dropped_n c reason count =
    let counted = record c {
      by_reason = entry reason 0 (λ n. saturating_add u64_max n count) c.by_reason;
    } in
    count_class (class reason) counted count

unfoldable pub dropped : CaptureCounters → DropReason → CaptureCounters
unfolding dropped_n
dropped c reason = dropped_n c reason 1
