-- ===== src/Sync/Merkle/Differing.antt =====
-- The indices at which two lists of leaves differ.
use vbuff.Base.{
  ℕ, zero, suc, ◌+◌, ◌-◌, ◌≤◌, ◌≡◌, refl, ap, sym, ◌∙◌, false, if◌then◌else◌, Bool-cases, inl, inr,
  arith, same, same_iff, List, [], ◌∷◌, ◌++◌, Bytes, bytes_ord, length,
}
use mathlib.Core.List.{append-nil}
use vbuff.Sync.Merkle.{leaf_at, no_hash}

-- The indices from `start` on, so many of them, whose leaves differ.
unfoldable pub differing : List Bytes → List Bytes → ℕ → ℕ → List ℕ
differing left right start zero = []
differing left right start (suc n) =
    let rest = differing left right (suc start) n in
    if same (leaf_at left start) (leaf_at right start) then rest else start ∷ rest

pub differing-add :
    (left right : List Bytes) (start m n : ℕ)
    → differing left right start (m + n)
      ≡ differing left right start m ++ differing left right (start + m) n
unfolding differing
differing-add left right start zero n =
    let e : 0 + n ≡ n = omega arith in
    let same_start : start + 0 ≡ start = omega arith in
    ap (differing left right start) e ∙ ap (λ q. differing left right q n) (sym same_start)
differing-add left right start (suc m) n =
    let more : suc m + n ≡ suc (m + n) = omega arith in
    let later : start + suc m ≡ suc start + m = omega arith in
    let rest = differing-add left right (suc start) m n in
    ap (differing left right start) more
    ∙ elim (Bool-cases (same (leaf_at left start) (leaf_at right start))) [
      | inl e ↦ rw (e, later) rest
      | inr e ↦ rw (e, later) (ap (λ q. start ∷ q) rest)
    ]

pub one_differs :
    (left right : List Bytes) (start : ℕ)
    → same (leaf_at left start) (leaf_at right start) ≡ false
    → differing left right start 1 ≡ start ∷ []
unfolding differing
one_differs left right start e = rw e refl

leaf_at-past :
    (leaves : List Bytes) (index : ℕ) → length leaves ≤ index → leaf_at leaves index ≡ no_hash
unfolding leaf_at
leaf_at-past [] index h = refl
leaf_at-past (leaf ∷ leaves) zero h = absurd (omega arith)
leaf_at-past (leaf ∷ leaves) (suc index) h = leaf_at-past leaves index (omega arith)

differing_past :
    (left right : List Bytes) (start n : ℕ)
    → length left ≤ start
    → length right ≤ start
    → differing left right start n ≡ []
unfolding differing
differing_past left right start zero h k = refl
differing_past left right start (suc n) h k =
    rw
      ((same_iff (leaf_at left start) (leaf_at right start)).1
        (leaf_at-past left start h ∙ sym (leaf_at-past right start k)))
      (differing_past left right (suc start) n (omega arith) (omega arith))

pub differing-take :
    (left right : List Bytes) (n size : ℕ)
    → length left ≤ n
    → length right ≤ n
    → n ≤ size
    → differing left right 0 size ≡ differing left right 0 n
differing-take left right n size h k fits =
    let whole : size ≡ n + (size - n) = omega arith in
    ap (differing left right 0) whole
    ∙ differing-add left right 0 n (size - n)
    ∙ rw (differing_past left right (0 + n) (size - n) (omega arith) (omega arith))
        (append-nil (differing left right 0 n))
