-- ===== src/Capture/SelfWrite.antt =====
-- `SelfWriteLedger` of crates/vbuff-core/src/capture/ledger.rs. Of a capture's lineage the ledger
-- reads the write nonce. The largest instant that the platform can represent is a parameter.
pub mod Echo
use vbuff.Base.{
  ℕ, ◌+◌, max, Bool, true, false, not, ◌||◌, Option, none, some, List, [], ◌∷◌, ◌++◌, if◌then◌else◌,
  leb, ◌==◌, Bytes, bytes_ord, same, length, u64_max, saturating_add, checked_add,
}
use vbuff.Capture.Ring.{pop_front}

pub record SelfWrite : Type 0 where
  pub hash : Bytes
  pub nonce : Bytes
  pub expires_at : ℕ

pub record SelfWriteLedger : Type 0 where
  pub ttl : ℕ
  pub capacity : ℕ
  pub writes : List SelfWrite

unfoldable pub new : ℕ → ℕ → SelfWriteLedger
new ttl capacity = record { ttl = ttl; capacity = max capacity 1; writes = [] }

-- The loop of `prune`: expired writes leave from the front.
unfoldable pub drop_expired : ℕ → List SelfWrite → List SelfWrite
drop_expired now [] = []
drop_expired now (w ∷ ws) =
    let rest = drop_expired now ws in if leb w.expires_at now then rest else w ∷ ws

unfoldable pub prune : SelfWriteLedger → ℕ → SelfWriteLedger
unfolding drop_expired
prune l now = record l { writes = drop_expired now l.writes }

-- `now.checked_add(ttl).unwrap_or(now)`.
unfoldable pub expiry : ℕ → ℕ → ℕ → ℕ
expiry latest now ttl = elim (checked_add latest now ttl) [ none ↦ now | some t ↦ t ]

unfoldable pub register : ℕ → SelfWriteLedger → Bytes → Bytes → ℕ → SelfWriteLedger
register latest l hash nonce now =
    let pruned = prune l now in
    let kept =
      if length pruned.writes == pruned.capacity then pop_front pruned.writes else pruned.writes in
    record pruned {
      writes =
          kept
          ++ record { hash = hash; nonce = nonce; expires_at = expiry latest now pruned.ttl } ∷ [];
    }

abbrev pub is_nonce : Option Bytes → Bytes → Bool
is_nonce none nonce = false
is_nonce (some n) nonce = same n nonce

unfoldable pub any_write : Bytes → Option Bytes → List SelfWrite → Bool
any_write hash write_nonce [] = false
any_write hash write_nonce (w ∷ ws) =
    (same w.hash hash || is_nonce write_nonce w.nonce) || any_write hash write_nonce ws

unfoldable pub matches : SelfWriteLedger → Bytes → Option Bytes → ℕ → SelfWriteLedger × Bool
matches l hash write_nonce now =
    let pruned = prune l now in (pruned, any_write hash write_nonce pruned.writes)
