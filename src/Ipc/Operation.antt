-- ===== src/Ipc/Operation.antt =====
-- crates/vbuff-ipc/src/operations/mod.rs: the error of the operation contracts, and their identifiers.
use Prim.Native.String.{String}
use vbuff.Base.{ℕ, not, ◌||◌, ◌==◌, ltb, Bytes, length}
use vbuff.Base.Results
use vbuff.Base.Results.{fail_if}
use vbuff.Sync.Validation.{all, is_alphanumeric}

pub data OperationContractError : Type 0 where
  invalid : String → OperationContractError
  cursor_expired rate_limited : OperationContractError

abbrev pub OperationResult : Type 0 → Type 0
OperationResult T = Results.Result OperationContractError T

abbrev pub max_id_bytes : ℕ
max_id_bytes = 128

unfoldable pub validate_id : Bytes → OperationResult (Unit {0})
validate_id value =
    fail_if
      (length value == 0
        || ltb max_id_bytes (length value)
        || not (all (λ b. is_alphanumeric b || (b == b'-' || b == b'_' || b == b'.')) value))
      (invalid "invalid_identifier")
