-- ===== src/Base/Results.antt =====
-- Rust's `Result` at any error type, its `?`, and what a `?` that did not return says.
use mathlib.Core.Path.{◌≡◌, refl, ap}
use mathlib.Core.Logic.{◌⊎◌, inl, inr}
use mathlib.Core.Bool.{Bool, true, false}
use mathlib.Core.Option.{Option, none, some}
use native.Mathlib.Omega.{arith}
use vbuff.Base.Tests.{if◌then◌else◌}

pub data Result (E T : Type 0) : Type 0 where
  err : E → Result E T
  ok : T → Result E T

infixl 5 ◌>>=◌ ◌>>◌
abbrev pub ◌>>=◌ : {E T U : Type 0} → Result E T → (T → Result E U) → Result E U
err e >>= next = err e
ok value >>= next = next value

abbrev pub ◌>>◌ : {E U : Type 0} → Result E (Unit {0}) → Result E U → Result E U
checked >> next = do _ ← checked; next

-- `if test { return Err(e); }`.
abbrev pub fail_if : {E : Type 0} → Bool → E → Result E (Unit {0})
fail_if test e = if test then err e else ok tt

-- `option.ok_or(e)`.
abbrev pub ok_or : {E T : Type 0} → Option T → E → Result E T
ok_or (some value) e = ok value
ok_or none e = err e

pub Result-cases :
    {E T : Type 0} (r : Result E T) → ((e : E) × (r ≡ err e)) ⊎ ((t : T) × (r ≡ ok t))
Result-cases (err e) = inl (e, refl)
Result-cases (ok t) = inr (t, refl)

pub ok_injective : {E T : Type 0} {x y : T} → ◌≡◌ {A = Result E T} (ok x) (ok y) → x ≡ y
ok_injective h = ground (arith, h)

pub err_ne_ok : {E T : Type 0} {e : E} {t : T} → ◌≡◌ {A = Result E T} (err e) (ok t) → ⊥
err_ne_ok h = ground (arith, h)

pub bind_inv :
    {E T U : Type 0} (r : Result E T) (next : T → Result E U) (u : U)
    → r >>= next ≡ ok u
    → (t : T) × (r ≡ ok t) × (next t ≡ ok u)
bind_inv (err e) next u h = absurd (err_ne_ok h)
bind_inv (ok t) next u h = (t, refl, h)

pub and_then :
    {E U : Type 0} (r : Result E (Unit {0})) (s : Result E U) (u : U)
    → r >> s ≡ ok u
    → (r ≡ ok tt) × (s ≡ ok u)
and_then (err e) s u h = absurd (err_ne_ok h)
and_then (ok t) s u h = (refl, h)

pub fail_if_inv : {E : Type 0} (test : Bool) (e : E) → fail_if test e ≡ ok tt → test ≡ false
fail_if_inv true e h = absurd (err_ne_ok h)
fail_if_inv false e h = refl

pub ok_or_inv : {E T : Type 0} (o : Option T) (e : E) (t : T) → ok_or o e ≡ ok t → o ≡ some t
ok_or_inv none e t h = absurd (err_ne_ok h)
ok_or_inv (some u) e t h = ap (λ q. some q) (ok_injective h)
