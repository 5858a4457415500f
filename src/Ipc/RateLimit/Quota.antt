-- ===== src/Ipc/RateLimit/Quota.antt =====
-- The count of a token in a window of time, through one call.
use vbuff.Base.{
  ℕ, ◌+◌, ◌-◌, ◌≤◌, ◌≡◌, ◌∙◌, refl, ap, inl, inr, Bool, true, false, ◌==◌, ltb, leb, if◌then◌else◌,
  Bool-cases, Option-cases, Option, none, some, List, arith, Bytes, bytes_ord, same, same_iff,
}
use vbuff.Base.Maps.{get, map_insert, retain, contains_key, get-map_insert, get-retain}
use vbuff.Ipc.Operation.{OperationResult}
use vbuff.Base.Results.{ok, err}
use vbuff.Ipc.RateLimit.{
  RateLimitKind, kind_ord, RateLimitPolicy, quota, TokenWindow, TokenRateLimiter, window_or_default,
  count_or_default, renewed, count_in, pruned,
}

-- The count of a kind in the given window of time.
abbrev pub stored_in : Option TokenWindow → RateLimitKind → ℕ → ℕ
stored_in none kind window_id = 0
stored_in (some w) kind window_id =
    if w.window_id == window_id then count_or_default (get kind w.counts) else 0

-- One for an admitted call that is asked for.
abbrev pub hit : OperationResult (Unit {0}) → Bool → ℕ
hit (ok _) true = 1
hit (ok _) false = 0
hit (err e) asked = 0

count-map_insert :
    (kind other : RateLimitKind) (n : ℕ) (counts : List (RateLimitKind × ℕ))
    → count_or_default (get kind (map_insert other n counts))
      ≡ (if same kind other then n else count_or_default (get kind counts))
count-map_insert kind other n counts =
    ap count_or_default (get-map_insert kind other n counts)
    ∙ elim (Bool-cases (same kind other)) [ inl e ↦ rw e refl | inr e ↦ rw e refl ]

renewed-window_id :
    (w : TokenWindow) (window_id : ℕ)
    → ltb window_id w.window_id ≡ false
    → (renewed w window_id).window_id ≡ window_id
renewed-window_id w window_id h = ground (arith, h)

stored-le-renewed :
    (o : Option TokenWindow) (kind : RateLimitKind) (window_id : ℕ)
    → stored_in o kind window_id
      ≤ count_or_default (get kind (renewed (window_or_default o) window_id).counts)
stored-le-renewed none kind window_id = omega arith
stored-le-renewed (some w) kind window_id = ground arith

stored_in-default :
    (o : Option TokenWindow) (kind : RateLimitKind) (window_id : ℕ)
    → stored_in o kind window_id ≤ stored_in (some (window_or_default o)) kind window_id
stored_in-default none kind window_id = omega arith
stored_in-default (some w) kind window_id = omega arith

stored_in_current :
    (w : TokenWindow) (kind : RateLimitKind) (window_id : ℕ)
    → w.window_id ≡ window_id
    → stored_in (some w) kind window_id ≡ count_or_default (get kind w.counts)
stored_in_current w kind window_id h = ground (arith, h)

-- A window whose count of one kind is written, against a bound from before.
written-stored :
    (w : TokenWindow) (kind asked : RateLimitKind) (n extra window_id before : ℕ)
    → w.window_id ≡ window_id
    → n ≡ count_or_default (get kind w.counts) + extra
    → before ≤ count_or_default (get asked w.counts)
    → before + (if same asked kind then extra else 0)
      ≤ stored_in (some (record w { counts = map_insert kind n w.counts })) asked window_id
written-stored w kind asked n extra window_id before h k b =
    let now =
      stored_in_current (record w { counts = map_insert kind n w.counts }) asked window_id h in
    let inserted = count-map_insert asked kind n w.counts in
    elim (Bool-cases (same asked kind)) [
      | inl e ↦
          let this : asked ≡ kind = (same_iff asked kind).0 e in
          let counted : count_or_default (get asked w.counts)
              ≡ count_or_default (get kind w.counts) =
            ap (λ q. count_or_default (get q w.counts)) this in
          let value : (if same asked kind then n else count_or_default (get asked w.counts)) ≡ n =
            rw e refl in
          rw e (omega (arith, now, inserted, value, counted))
      | inr e ↦
          let value : (if same asked kind then n else count_or_default (get asked w.counts))
              ≡ count_or_default (get asked w.counts) =
            rw e refl in
          rw e (omega (arith, now, inserted, value))
    ]

hit_ok : (asked : Bool) → hit (ok tt) asked ≡ (if asked then 1 else 0)
hit_ok true = refl
hit_ok false = refl

-- What `count_in` does to the counts of the token.
pub count_in-stored :
    (policy : RateLimitPolicy) (kind asked : RateLimitKind) (window_id : ℕ) (o : Option TokenWindow)
    → (stored_in o asked window_id
          + hit (count_in policy kind window_id (window_or_default o)).1 (same asked kind)
        ≤ stored_in (some (count_in policy kind window_id (window_or_default o)).0) asked window_id)
unfolding count_in
count_in-stored policy kind asked window_id o =
    let w = window_or_default o in
    let current = renewed w window_id in
    let count = count_or_default (get kind current.counts) in
    elim (Bool-cases (ltb window_id w.window_id)) [
      | inl behind ↦ rw behind (omega (arith, stored_in-default o asked window_id))
      | inr ahead ↦ elim (Bool-cases (leb (quota policy kind) count)) [
        | inl full ↦
            rw (ahead, full)
              (let kept =
                  written-stored current kind asked count 0 window_id (stored_in o asked window_id)
                    (renewed-window_id w window_id ahead) (omega arith)
                    (stored-le-renewed o asked window_id) in
                omega (arith, kept))
        | inr room ↦
            rw (ahead, room)
              (let counted =
                  written-stored current kind asked (count + 1) 1 window_id
                    (stored_in o asked window_id) (renewed-window_id w window_id ahead) refl
                    (stored-le-renewed o asked window_id) in
                omega (arith, counted, hit_ok (same asked kind)))
      ]
    ]

-- An admission leaves the count within the quota.
pub count_in-quota :
    (policy : RateLimitPolicy) (kind asked : RateLimitKind) (window_id n : ℕ)
    (o : Option TokenWindow)
    → n ≤ stored_in o asked window_id
    → n ≤ quota policy asked
    → n + hit (count_in policy kind window_id (window_or_default o)).1 (same asked kind)
      ≤ quota policy asked
unfolding count_in
count_in-quota policy kind asked window_id n o h k =
    let w = window_or_default o in
    let current = renewed w window_id in
    let count = count_or_default (get kind current.counts) in
    elim (Bool-cases (ltb window_id w.window_id)) [
      | inl behind ↦ rw behind (omega arith)
      | inr ahead ↦ elim (Bool-cases (leb (quota policy kind) count)) [
        | inl full ↦ rw (ahead, full) (omega arith)
        | inr room ↦ elim (Bool-cases (same asked kind)) [
          | inr other ↦ rw (ahead, room, other) (omega arith)
          | inl this ↦
              let e : asked ≡ kind = (same_iff asked kind).0 this in
              let below : n ≤ count = omega (
                arith,
                stored-le-renewed o asked window_id,
                ap (λ q. count_or_default (get q current.counts)) e,
              ) in
              let bound : quota policy asked ≡ quota policy kind = ap (quota policy) e in
              rw (ahead, room, this) (ground (arith, room, below, bound))
        ]
      ]
    ]

pub pruned-stored :
    (l : TokenRateLimiter) (token asked : Bytes) (kind : RateLimitKind) (window_id : ℕ)
    → stored_in (get asked l.windows) kind window_id
      ≤ stored_in (get asked (pruned l token window_id)) kind window_id
unfolding pruned
pruned-stored l token asked kind window_id =
    let test : TokenWindow → Bool = λ w. leb (window_id - 1) w.window_id in
    elim (Bool-cases (contains_key token l.windows)) [
      | inl there ↦ rw there (omega arith)
      | inr new_token ↦ elim (Option-cases (get asked l.windows)) [
        | inl missing ↦ rw missing (omega arith)
        | inr (w, held) ↦ elim (Bool-cases (w.window_id == window_id)) [
          | inr old ↦
              let zero_now : stored_in (get asked l.windows) kind window_id ≡ 0 =
                rw (held, old) refl in
              omega (arith, zero_now)
          | inl current ↦
              let kept : get asked (retain test l.windows) ≡ some w =
                get-retain asked w test l.windows held (ground (arith, current)) in
              rw (new_token, held, kept) (omega arith)
        ]
      ]
    ]
