-- ===== src/Types/Replay.antt =====
-- `ReplayGuard` of crates/vbuff-types/src/replay.rs: a bounded window of the keys that were used. A
-- `BTreeMap` is its ascending list of entries.
pub mod Window
use vbuff.Base.{
  ℕ, max, Bool, true, false, ltb, leb, if◌then◌else◌, Option, none, some, List, [], Ord, length,
}
use vbuff.Base.Maps.{get, map_insert, retain, contains_key}

abbrev pub max_replay_entries : ℕ
max_replay_entries = 4_096

pub record ReplayEntry (S : Type 0) : Type 0 where
  pub state : S
  pub expires_at_ms : ℕ

pub record ReplayGuard (K S : Type 0) : Type 0 where
  pub entries : List (K × ReplayEntry S)
  pub clock_floor_ms : ℕ
  pub capacity : ℕ

unfoldable pub new : {K S : Type 0} → ℕ → ReplayGuard K S
new capacity = record { entries = []; clock_floor_ms = 0; capacity = capacity }

module _ {K S : Type 0} where
  -- The guard and the clock to go on with.
  unfoldable pub advance_to : ReplayGuard K S → ℕ → ReplayGuard K S × ℕ
  advance_to g now_ms =
      let now = max g.clock_floor_ms now_ms in
      (
        record g {
          entries = retain (λ e. ltb now e.expires_at_ms) g.entries;
          clock_floor_ms = now;
        },
        now,
      )

  module _ ⦃o : Ord K⦄ where
    unfoldable pub contains : ReplayGuard K S → K → Bool
    contains g key = contains_key key g.entries

    -- The arm of `record` for a key that is there, and the one for a key that is not.
    abbrev pub record_at :
        ReplayGuard K S → K → S → ℕ → Option (ReplayEntry S) → Option (ReplayGuard K S)
    record_at g key state expires_at_ms (some slot) = some (record g {
      entries =
          map_insert key
            (record { state = state; expires_at_ms = max slot.expires_at_ms expires_at_ms })
            g.entries;
    })
    record_at g key state expires_at_ms none =
        if leb g.capacity (length g.entries)
        then none
        else some (record g {
          entries =
              map_insert key (record { state = state; expires_at_ms = expires_at_ms }) g.entries;
        })

    -- `ReplayGuard::record`; `none` is `ReplayWindowFull`.
    unfoldable pub record_key : ReplayGuard K S → K → S → ℕ → Option (ReplayGuard K S)
    record_key g key state expires_at_ms = record_at g key state expires_at_ms (get key g.entries)

unfoldable pub burn :
    {K : Type 0} ⦃o : Ord K⦄ → ReplayGuard K (Unit {0}) → K → ℕ → Option (ReplayGuard K (Unit {0}))
unfolding record_key
burn g key expires_at_ms = record_key g key tt expires_at_ms
