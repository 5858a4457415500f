-- ===== src/Sync/Preimage.antt =====
-- `Preimage` of crates/vbuff-sync/src/chain.rs: the builder of domain-separated preimages. Its
-- methods return the builder.
pub mod Framing
pub mod Fields
pub mod Unambiguous
use vbuff.Base.{
  ℕ, zero, suc, ◌/◌, ◌%◌, Bool, true, false, Option, none, some, List, [], ◌∷◌, ◌++◌, if◌then◌else◌,
  leb, Bytes, length, u32_max,
}
use vbuff.Sync.Error.{Result, ok, err, invalid}

pub record Preimage : Type 0 where
  pub buf : Bytes
  pub overflow : Bool

-- `to_be_bytes` of a number in so many bytes.
unfoldable pub be_bytes : ℕ → ℕ → Bytes
be_bytes zero n = []
be_bytes (suc w) n = be_bytes w (n / 256) ++ (n % 256) ∷ []

unfoldable pub new : Bytes → Preimage
new domain = record { buf = domain ++ 0 ∷ []; overflow = false }

unfoldable pub fixed : Preimage → Bytes → Preimage
fixed p bytes = record p { buf = p.buf ++ bytes }

-- A field too long for its prefix poisons the builder.
unfoldable pub var : Preimage → Bytes → Preimage
var p bytes =
    if leb (length bytes) u32_max
    then record p { buf = (p.buf ++ be_bytes 4 (length bytes)) ++ bytes }
    else record p { overflow = true }

unfoldable pub byte : Preimage → ℕ → Preimage
byte p value = record p { buf = p.buf ++ value ∷ [] }

unfoldable pub optional : Preimage → Option Bytes → Preimage
unfolding byte var
optional p none = byte p 0
optional p (some bytes) = var (byte p 1) bytes

unfoldable pub u32_be : Preimage → ℕ → Preimage
unfolding fixed
u32_be p value = fixed p (be_bytes 4 value)

unfoldable pub u64_be : Preimage → ℕ → Preimage
unfolding fixed
u64_be p value = fixed p (be_bytes 8 value)

unfoldable pub finish : Preimage → Result Bytes
finish p =
    if p.overflow then err (invalid "preimage field exceeds the u32 length prefix") else ok p.buf
