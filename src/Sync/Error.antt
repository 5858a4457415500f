-- ===== src/Sync/Error.antt =====
-- crates/vbuff-sync/src/error.rs: the crate's error and `Result`. What the serializer reports is
-- left out of its error, and the error of compression is left out with its code.
use Prim.Native.String.{String}
use mathlib.Core.Option.{Option, none, some}
use vbuff.Base.{◌≡◌, refl, ◌⊎◌, inl, inr, arith, Bool, true, false, ap, if◌then◌else◌}

pub data SyncError : Type 0 where
  invalid : String → SyncError
  crypto serialization : SyncError

pub data Result {ℓ} (T : Type ℓ) : Type ℓ where
  err : SyncError → Result T
  ok : T → Result T

-- The `?` operator: an error returns at once.
infixl 5 ◌>>=◌
abbrev pub ◌>>=◌ {ℓ κ} : {T : Type ℓ} {U : Type κ} → Result T → (T → Result U) → Result U
err e >>= next = err e
ok value >>= next = next value

infixl 5 ◌>>◌
abbrev pub ◌>>◌ {ℓ} : {U : Type ℓ} → Result (Unit {0}) → Result U → Result U
checked >> next = do _ ← checked; next

-- `if test { return Err(e); }`.
abbrev pub fail_if : Bool → SyncError → Result (Unit {0})
fail_if test e = if test then err e else ok tt

-- `option.ok_or(e)`.
abbrev pub ok_or {ℓ} : {T : Type ℓ} → Option T → SyncError → Result T
ok_or (some value) e = ok value
ok_or none e = err e

pub Result-cases :
    {T : Type 0} (r : Result T) → ((e : SyncError) × (r ≡ err e)) ⊎ ((t : T) × (r ≡ ok t))
Result-cases (err e) = inl (e, refl)
Result-cases (ok t) = inr (t, refl)

pub ok_injective : {T : Type 0} {x y : T} → ok x ≡ ok y → x ≡ y
ok_injective h = ground (arith, h)

-- What a `?` that did not return says.
pub bind_inv :
    {T U : Type 0} (r : Result T) (next : T → Result U) (u : U)
    → r >>= next ≡ ok u
    → (t : T) × (r ≡ ok t) × (next t ≡ ok u)
bind_inv (err e) next u h = absurd (ground (arith, h))
bind_inv (ok t) next u h = (t, refl, h)

pub fail_if_inv : (test : Bool) (e : SyncError) → fail_if test e ≡ ok tt → test ≡ false
fail_if_inv true e h = absurd (ground (arith, h))
fail_if_inv false e h = refl

ok_or_inv : {T : Type 0} (o : Option T) (e : SyncError) (t : T) → ok_or o e ≡ ok t → o ≡ some t
ok_or_inv none e t h = absurd (ground (arith, h))
ok_or_inv (some u) e t h = ap (λ q. some q) (ok_injective h)
