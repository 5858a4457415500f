-- ===== src/Ipc/RateLimit/Trace.antt =====
-- No trace of calls gets more operations admitted in one window than the quota allows.
use vbuff.Base.{
  ℕ, ◌+◌, ◌≤◌, ◌≡◌, refl, ap, inl, inr, Bool-cases, none, List, [], ◌∷◌, arith, Bytes, bytes_ord,
}
use vbuff.Base.Results.{ok}
use vbuff.Ipc.RateLimit.{
  RateLimitKind, kind_ord, RateLimitPolicy, quota, TokenRateLimiter, new, is_valid, admit,
}
use vbuff.Ipc.RateLimit.Quota.{hit}
use vbuff.Ipc.RateLimit.Within.{Within, is_asked}
use vbuff.Ipc.RateLimit.Admit.{admit-Within, admit-policy}

pub record Call : Type 0 where
  pub token_hash : Bytes
  pub kind : RateLimitKind
  pub now_ms : ℕ

-- How many operations of the kind are admitted for the token in the window.
unfoldable pub admitted : TokenRateLimiter → List Call → Bytes → RateLimitKind → ℕ → ℕ
admitted l [] token kind window_id = 0
admitted l (c ∷ calls) token kind window_id =
    hit (admit l c.token_hash c.kind c.now_ms).1
      (is_asked l token kind window_id c.token_hash c.kind c.now_ms)
    + admitted (admit l c.token_hash c.kind c.now_ms).0 calls token kind window_id

admitted-le :
    (l : TokenRateLimiter) (calls : List Call) (token : Bytes) (kind : RateLimitKind)
    (window_id n : ℕ)
    → Within l token kind window_id n
    → n + admitted l calls token kind window_id ≤ quota l.policy kind
unfolding admitted
admitted-le l [] token kind window_id n w = omega (arith, w.allowed)
admitted-le l (c ∷ calls) token kind window_id n w =
    let next = (admit l c.token_hash c.kind c.now_ms).0 in
    let more =
      hit (admit l c.token_hash c.kind c.now_ms).1
        (is_asked l token kind window_id c.token_hash c.kind c.now_ms) in
    omega (
      arith,
      admitted-le next calls token kind window_id (n + more)
          (admit-Within l token c.token_hash kind c.kind window_id c.now_ms n w),
      ap (λ q. quota q kind) (admit-policy l token c.token_hash kind c.kind window_id c.now_ms n),
    )

-- From a new limiter on, no trace of calls, at any clock readings and for any tokens, gets more
-- operations of one kind admitted for one token in one window than the policy's quota.
pub admitted-le-quota :
    (policy : RateLimitPolicy) (l : TokenRateLimiter) (calls : List Call) (token : Bytes)
    (kind : RateLimitKind) (window_id : ℕ)
    → new policy ≡ ok l
    → admitted l calls token kind window_id ≤ quota policy kind
unfolding new
admitted-le-quota policy l calls token kind window_id h = elim (Bool-cases (is_valid policy)) [
  | inr bad ↦ absurd (ground (arith, bad))
  | inl good ↦
      let start : l ≡ record { policy = policy; windows = []; latest_window_id = none } =
        ground (arith, good) in
      let policies : l.policy ≡ policy = ap (λ q. q.policy) start in
      omega (
        arith,
        admitted-le l calls token kind window_id 0
            (record { allowed = omega arith; begun = inl refl; held = λ e. omega arith }),
        ap (λ q. quota q kind) policies,
      )
]
