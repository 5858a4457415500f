-- ===== src/Ipc/RateLimit/Within.antt =====
-- The calls of one token and kind that a window has admitted, while one call is counted.
use vbuff.Base.{
  ℕ, ◌+◌, ◌/◌, ◌≤◌, ◌≡◌, ◌⊎◌, ◌∙◌, refl, ap, inr, Bool, false, ◌&&◌, ◌==◌, some, List, arith, Bytes,
  bytes_ord, same, same_iff,
}
use vbuff.Base.Maps.{get, map_insert, get-map_insert}
use vbuff.Ipc.Operation.{OperationResult}
use vbuff.Base.Results.{ok, err}
use vbuff.Ipc.RateLimit.{
  RateLimitKind, kind_ord, quota, TokenWindow, TokenRateLimiter, window_or_default, count_in,
}
use vbuff.Ipc.RateLimit.Quota.{stored_in, hit, count_in-stored, count_in-quota}

-- So many operations of the kind were admitted for the token in the window.
pub record Within (l : TokenRateLimiter) (token : Bytes) (kind : RateLimitKind) (window_id n : ℕ)
    : Type 0 where
  pub allowed : n ≤ quota l.policy kind
  pub begun : (n ≡ 0) ⊎ ((latest : ℕ) × (l.latest_window_id ≡ some latest) × (window_id ≤ latest))
  pub held :
      l.latest_window_id ≡ some window_id → n ≤ stored_in (get token l.windows) kind window_id

-- Whether a call is one of the operations that are counted.
abbrev pub is_asked :
    TokenRateLimiter → Bytes → RateLimitKind → ℕ → Bytes → RateLimitKind → ℕ → Bool
is_asked l token kind window_id called other now_ms =
    same token called && (now_ms / l.policy.window_ms == window_id) && same kind other

pub hit-false : (answer : OperationResult (Unit {0})) → hit answer false ≡ 0
hit-false (ok t) = refl
hit-false (err e) = refl

-- The limiter after the count of a call.
abbrev pub counted :
    TokenRateLimiter → Bytes → RateLimitKind → ℕ → List (Bytes × TokenWindow) → TokenRateLimiter
counted l called other id windows = record l {
  windows =
      map_insert called (count_in l.policy other id (window_or_default (get called windows))).0
        windows;
  latest_window_id = some id;
}

abbrev pub answer_of :
    TokenRateLimiter
    → Bytes
    → RateLimitKind
    → ℕ
    → List (Bytes × TokenWindow)
    → OperationResult (Unit {0})
answer_of l called other id windows =
    (count_in l.policy other id (window_or_default (get called windows))).1

-- A call for the token in the window.
pub counted-Within :
    (l : TokenRateLimiter) (called : Bytes) (kind other : RateLimitKind) (id n : ℕ)
    (windows : List (Bytes × TokenWindow))
    → n ≤ stored_in (get called windows) kind id
    → n ≤ quota l.policy kind
    → Within
        (counted l called other id windows)
        called
        kind
        id
        (n + hit (answer_of l called other id windows) (same kind other))
counted-Within l called kind other id n windows h k =
    let window = (count_in l.policy other id (window_or_default (get called windows))).0 in
    let found : get called (map_insert called window windows) ≡ some window =
      get-map_insert called called window windows ∙ rw ((same_iff called called).1 refl) refl in
    record {
      allowed = count_in-quota l.policy other kind id n (get called windows) h k;
      begun = inr (id, refl, omega arith);
      held = λ e. omega (
        arith,
        count_in-stored l.policy other kind id (get called windows),
        ap (λ q. stored_in q kind id) found,
        h,
      );
    }
