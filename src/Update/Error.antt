-- ===== src/Update/Error.antt =====
-- `UpdateError` of crates/vbuff-update/src/lib.rs. A message that a library reports is left out.
use Prim.Native.String.{String}
use vbuff.Base.Results

pub data UpdateError : Type 0 where
  invalid_manifest serialization io : String → UpdateError
  untrusted_key invalid_signature downgrade_or_replay incompatible_client duplicate_key_id
        rotation_not_confirmed checksum_mismatch :
      UpdateError

abbrev pub Result : Type 0 → Type 0
Result T = Results.Result UpdateError T
