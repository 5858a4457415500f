-- ===== src/Capture/SelfWrite/Echo.antt =====
-- A write of our own is recognised until it expires or the ledger fills up behind it.
use vbuff.Base.{
  ℕ, suc, ◌+◌, ◌≤◌, ◌<◌, ◌≡◌, refl, true, Option, some, List, [], ◌∷◌, ◌++◌, arith, Bytes,
  bytes_ord, same_iff, cmp_refl, length, length-append, leb, ◌==◌, Bool-cases, inl, inr, ◌⊎◌,
}
use vbuff.Capture.Ring.{pop_front}
use vbuff.Capture.SelfWrite.{
  SelfWrite, SelfWriteLedger, drop_expired, prune, expiry, register, any_write, matches,
}

-- The write is in the list, with at most `n` writes behind it.
Within : ℕ → SelfWrite → List SelfWrite → Type 0
Within n w [] = ⊥
Within n w (x ∷ xs) = ((x ≡ w) × (length xs ≤ n)) ⊎ Within n w xs

Within-drop_expired :
    (n now : ℕ) (w : SelfWrite) (xs : List SelfWrite)
    → now < w.expires_at
    → Within n w xs
    → Within n w (drop_expired now xs)
unfolding Within drop_expired
Within-drop_expired n now w [] h m = m
Within-drop_expired n now w (x ∷ xs) h m = elim (Bool-cases (leb x.expires_at now)) [
  | inl e ↦
      rw (e, drop_expired)
        (elim m [
          | inl (here, _) ↦ absurd (ground arith)
          | inr later ↦ Within-drop_expired n now w xs h later
        ])
  | inr e ↦ rw (e, drop_expired) m
]

Within-snoc :
    (n : ℕ) (w y : SelfWrite) (xs : List SelfWrite)
    → Within n w xs
    → Within (suc n) w (xs ++ y ∷ [])
unfolding Within
Within-snoc n w y [] m = absurd m
Within-snoc n w y (x ∷ xs) m = elim m [
  | inl (e, h) ↦ inl (e, omega (arith, length-append xs (y ∷ [])))
  | inr later ↦ inr (Within-snoc n w y xs later)
]

-- Losing the front keeps the write, if more than `n` writes follow the front.
Within-pop_front :
    (n : ℕ) (w : SelfWrite) (xs : List SelfWrite)
    → suc n < length xs
    → Within n w xs
    → Within n w (pop_front xs)
unfolding Within
Within-pop_front n w [] h m = m
Within-pop_front n w (x ∷ xs) h m = elim m [ inl (e, k) ↦ absurd (omega arith) | inr later ↦ later ]

Within-register :
    (latest n : ℕ) (l : SelfWriteLedger) (w : SelfWrite) (hash nonce : Bytes) (now : ℕ)
    → now < w.expires_at
    → suc n < l.capacity
    → Within n w l.writes
    → Within (suc n) w (register latest l hash nonce now).writes
unfolding register prune
Within-register latest n l w hash nonce now h c m =
    let kept = Within-drop_expired n now w l.writes h m in
    Within-snoc n w _ _ (elim (Bool-cases (length (drop_expired now l.writes) == l.capacity)) [
      | inl e ↦ rw e (Within-pop_front n w (drop_expired now l.writes) (ground arith) kept)
      | inr e ↦ rw e kept
    ])

register-capacity :
    (latest : ℕ) (l : SelfWriteLedger) (hash nonce : Bytes) (now : ℕ)
    → (register latest l hash nonce now).capacity ≡ l.capacity
unfolding register prune
register-capacity latest l hash nonce now = refl

-- A registration as its hash, its nonce and its time.
pub record Registration : Type 0 where
  pub hash : Bytes
  pub nonce : Bytes
  pub time : ℕ

unfoldable pub register_all : ℕ → SelfWriteLedger → List Registration → SelfWriteLedger
register_all latest l [] = l
register_all latest l (r ∷ rs) = register_all latest (register latest l r.hash r.nonce r.time) rs

-- Every registration is made before the time.
abbrev pub AllBefore : ℕ → List Registration → Type 0
AllBefore t [] = Unit {0}
AllBefore t (r ∷ rs) = (r.time < t) × AllBefore t rs

Within-register_all :
    (latest n : ℕ) (l : SelfWriteLedger) (w : SelfWrite) (rs : List Registration)
    → AllBefore w.expires_at rs
    → n + length rs < l.capacity
    → Within n w l.writes
    → Within (n + length rs) w (register_all latest l rs).writes
unfolding register_all
Within-register_all latest n l w [] a c m = let e : n + 0 ≡ n = omega arith in rw e m
Within-register_all latest n l w (r ∷ rs) a c m =
    let e : n + suc (length rs) ≡ suc n + length rs = omega arith in
    let same_capacity = register-capacity latest l r.hash r.nonce r.time in
    rw e (
      Within-register_all latest (suc n) (register latest l r.hash r.nonce r.time) w rs a.1
        (omega (arith, same_capacity))
        (Within-register latest n l w r.hash r.nonce r.time a.0 (omega arith) m))

any_write-Within :
    (n : ℕ) (w : SelfWrite) (hash : Bytes) (nonce : Option Bytes) (xs : List SelfWrite)
    → (w.hash ≡ hash) ⊎ (nonce ≡ some w.nonce)
    → Within n w xs
    → any_write hash nonce xs ≡ true
unfolding any_write Within
any_write-Within n w hash _ [] q m = absurd m
any_write-Within n w hash nonce (x ∷ xs) q m = elim m [
  | inl (e, h) ↦ ground (arith, same_iff x.hash hash, cmp_refl w.nonce)
  | inr later ↦ ground (arith, any_write-Within n w hash nonce xs q later)
]

Within-last : (w : SelfWrite) (xs : List SelfWrite) → Within 0 w (xs ++ w ∷ [])
unfolding Within
Within-last w [] = inl (refl, omega arith)
Within-last w (x ∷ xs) = inr (Within-last w xs)

-- A registered write is recognised, by its hash or by its nonce, at any time before it expires,
-- after fewer further registrations than the ledger has room for, made before it expires.
pub matches-register :
    (latest : ℕ) (l : SelfWriteLedger) (hash nonce : Bytes) (now : ℕ) (rs : List Registration)
    (seen : Bytes) (write_nonce : Option Bytes) (later : ℕ)
    → length rs < l.capacity
    → AllBefore (expiry latest now l.ttl) rs
    → later < expiry latest now l.ttl
    → (hash ≡ seen) ⊎ (write_nonce ≡ some nonce)
    → (matches (register_all latest (register latest l hash nonce now) rs) seen write_nonce later).1
      ≡ true
unfolding matches prune
matches-register latest l hash nonce now rs seen write_nonce later room before fresh q =
    let w : SelfWrite = record {
      hash = hash;
      nonce = nonce;
      expires_at = expiry latest now l.ttl;
    } in
    let start : Within 0 w (register latest l hash nonce now).writes =
      unfold register prune in Within-last w _ in
    let m =
      Within-register_all latest 0 (register latest l hash nonce now) w rs before
        (omega (arith, register-capacity latest l hash nonce now)) start in
    any_write-Within (0 + length rs) w seen write_nonce _ q
      (Within-drop_expired (0 + length rs) later w _ fresh m)
