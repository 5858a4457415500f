-- ===== src/Sync/Membership/Decimal.antt =====
-- The decimal digits that `decimal` writes.
use vbuff.Base.{
  ℕ, zero, suc, ◌+◌, ◌-◌, ◌*◌, ◌/◌, ◌%◌, ◌^◌, ◌<◌, ◌≡◌, refl, ◌∙◌, Bool-cases, inl, inr, ltb, [],
  ◌∷◌, ◌++◌, Bytes, arith,
}
use vbuff.Sync.Membership.Epoch.{decimal}

-- The number that digits write after a number that is read already.
abbrev pub read_from : ℕ → Bytes → ℕ
read_from n [] = n
read_from n (digit ∷ digits) = read_from (10 * n + (digit - b'0')) digits

read_from-append :
    (n : ℕ) (digits : Bytes) (digit : ℕ)
    → read_from n (digits ++ digit ∷ []) ≡ 10 * read_from n digits + (digit - b'0')
read_from-append n [] digit = refl
read_from-append n (d ∷ digits) digit = read_from-append (10 * n + (d - b'0')) digits digit

-- With as many digits as the number has, the number is read back.
pub decimal-read_from : (digits n : ℕ) → n < 10 ^ digits → read_from 0 (decimal digits n) ≡ n
unfolding decimal
decimal-read_from zero n h = omega (arith, h)
decimal-read_from (suc digits) n h = elim (Bool-cases (ltb n 10)) [
  | inl e ↦ rw e (ground (arith, e))
  | inr e ↦
      let front = decimal digits (n / 10) in
      let last = b'0' + n % 10 in
      let before = decimal-read_from digits (n / 10) (omega (arith, h)) in
      rw e (read_from-append 0 front last ∙ omega (arith, before))
]
