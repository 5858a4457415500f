-- ===== src/Ipc/Event.antt =====
-- crates/vbuff-ipc/src/event.rs: the events of the daemon and the filter of a subscription. A set is its
-- list of members. `Capability` is that of handshake.rs.
use Prim.Native.String.{String}
use vbuff.Base.{
  ℕ, Bool, true, false, not, ◌&&◌, ◌||◌, ◌==◌, ltb, Option, none, some, List, [], ◌∷◌, Bytes,
  bytes_ord, same, length,
}
use vbuff.Base.Iter.{any}
use vbuff.Base.Results
use vbuff.Base.Results.{ok, err, fail_if, ◌>>◌, ◌>>=◌}
use vbuff.Sync.Validation.{is_valid_identifier}
use vbuff.Types.Content.{ClipId}

abbrev pub max_filter_collections : ℕ
max_filter_collections = 64

pub data EventKind : Type 0 where
  captured updated deleted pasted health_changed security_changed : EventKind

pub data Capability : Type 0 where
  read_history read_sensitive_history mutate_history subscribe_events dry_run_transforms
        batch_mutations plugin_management diagnostics :
      Capability

abbrev pub kind_rank : EventKind → ℕ
kind_rank captured = 0
kind_rank updated = 1
kind_rank deleted = 2
kind_rank pasted = 3
kind_rank health_changed = 4
kind_rank security_changed = 5

abbrev pub is_sensitive_grant : Capability → Bool
is_sensitive_grant read_sensitive_history = true
is_sensitive_grant _ = false

pub record EventEnvelope : Type 0 where
  pub sequence : ℕ
  pub kind : EventKind
  pub clip_id : Option ClipId
  pub collection_id : Option Bytes
  pub sensitive : Bool

pub record EventFilter : Type 0 where
  pub kinds : List EventKind
  pub collection_ids : List Bytes
  pub include_sensitive : Bool

abbrev pub is_empty {ℓ} : {A : Type ℓ} → List A → Bool
is_empty [] = true
is_empty (x ∷ xs) = false

abbrev pub is_ok : Results.Result String (Unit {0}) → Bool
is_ok (ok _) = true
is_ok (err e) = false

abbrev pub is_listed : List Bytes → Option Bytes → Bool
is_listed ids none = false
is_listed ids (some id) = any (λ other. same other id) ids

unfoldable pub validate : EventFilter → Results.Result String (Unit {0})
validate f = do
  fail_if (ltb max_filter_collections (length f.collection_ids)) "too_many_collection_filters"
  fail_if (any (λ id. not (is_valid_identifier id 128)) f.collection_ids)
      "invalid_collection_filter"

unfoldable pub matches_metadata : EventFilter → EventEnvelope → Bool
unfolding validate
matches_metadata f event =
    is_ok (validate f)
    && (is_empty f.kinds || any (λ kind. kind_rank kind == kind_rank event.kind) f.kinds)
    && (is_empty f.collection_ids || is_listed f.collection_ids event.collection_id)

unfoldable pub matches : EventFilter → EventEnvelope → Bool
unfolding matches_metadata
matches f event = matches_metadata f event && not event.sensitive

unfoldable pub matches_with_grants : EventFilter → EventEnvelope → List Capability → Bool
unfolding matches_metadata
matches_with_grants f event granted =
    matches_metadata f event
    && (not event.sensitive || (f.include_sensitive && any is_sensitive_grant granted))
