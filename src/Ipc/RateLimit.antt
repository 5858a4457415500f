-- ===== src/Ipc/RateLimit.antt =====
-- `TokenRateLimiter` of crates/vbuff-ipc/src/operations/rate_limit.rs: a quota for each token and
-- kind of operation in each window of time. A `BTreeMap` is its ascending list of entries.
pub mod Quota
pub mod Within
pub mod Admit
pub mod Trace
mod Examples
use vbuff.Base.{
  ℕ, ◌+◌, ◌-◌, ◌/◌, ◌≡◌, ◌↔◌, refl, Ordering, compare, Bool, true, false, not, ◌&&◌, ltb, leb,
  if◌then◌else◌, Option, none, some, List, [], arith, Bytes, bytes_ord, Ord, reversed, same, length,
  replicate,
}
use vbuff.Base.Maps.{get, map_insert, retain, contains_key}
use vbuff.Ipc.Operation.{OperationContractError, OperationResult, invalid, rate_limited}
use vbuff.Base.Results.{ok, err}

abbrev pub max_rate_limit_tokens : ℕ
max_rate_limit_tokens = 1_024

abbrev pub min_rate_limit_window_ms : ℕ
min_rate_limit_window_ms = 1_000

abbrev pub max_rate_limit_window_ms : ℕ
max_rate_limit_window_ms = 86_400_000

pub data RateLimitKind : Type 0 where
  read write paste : RateLimitKind

abbrev rank : RateLimitKind → ℕ
rank read = 0
rank write = 1
rank paste = 2

unfoldable pub cmp_kind : RateLimitKind → RateLimitKind → Ordering
cmp_kind a b = compare (rank a) (rank b)

rank_eq : (a b : RateLimitKind) → rank a ≡ rank b → a ≡ b
rank_eq read read h = refl
rank_eq write write h = refl
rank_eq paste paste h = refl
rank_eq read write h = absurd (omega arith)
rank_eq read paste h = absurd (omega arith)
rank_eq write read h = absurd (omega arith)
rank_eq write paste h = absurd (omega arith)
rank_eq paste read h = absurd (omega arith)
rank_eq paste write h = absurd (omega arith)

pub cmp_kind_eq : (a b : RateLimitKind) → (cmp_kind a b ≡ Ordering.eq) ↔ (a ≡ b)
unfolding cmp_kind
cmp_kind_eq a b = (λ h. rank_eq a b (ground (arith, h)), λ h. ground (arith, h))

pub cmp_kind_flip : (a b : RateLimitKind) → cmp_kind b a ≡ reversed (cmp_kind a b)
unfolding cmp_kind
cmp_kind_flip a b = ground arith

pub cmp_kind_trans :
    (a b c : RateLimitKind)
    → cmp_kind a b ≡ Ordering.lt
    → cmp_kind b c ≡ Ordering.lt
    → cmp_kind a c ≡ Ordering.lt
unfolding cmp_kind
cmp_kind_trans a b c h k = ground arith

instance abbrev pub kind_ord : Ord RateLimitKind
kind_ord = record {
  cmp = cmp_kind;
  cmp_eq = cmp_kind_eq;
  cmp_flip = cmp_kind_flip;
  cmp_trans = cmp_kind_trans;
}

pub record RateLimitPolicy : Type 0 where
  pub window_ms : ℕ
  pub reads_per_window : ℕ
  pub writes_per_window : ℕ
  pub pastes_per_window : ℕ

unfoldable pub quota : RateLimitPolicy → RateLimitKind → ℕ
quota p read = p.reads_per_window
quota p write = p.writes_per_window
quota p paste = p.pastes_per_window

unfoldable pub is_valid : RateLimitPolicy → Bool
is_valid p =
    leb min_rate_limit_window_ms p.window_ms
    && leb p.window_ms max_rate_limit_window_ms
    && ltb 0 p.reads_per_window
    && ltb 0 p.writes_per_window
    && ltb 0 p.pastes_per_window

pub record TokenWindow : Type 0 where
  pub window_id : ℕ
  pub counts : List (RateLimitKind × ℕ)

pub record TokenRateLimiter : Type 0 where
  pub policy : RateLimitPolicy
  pub windows : List (Bytes × TokenWindow)
  pub latest_window_id : Option ℕ

unfoldable pub new : RateLimitPolicy → OperationResult TokenRateLimiter
unfolding is_valid
new policy =
    if not (is_valid policy)
    then err (invalid "rate_limit_policy_invalid")
    else ok (record { policy = policy; windows = []; latest_window_id = none })

-- `or_default` of the two maps.
abbrev pub window_or_default : Option TokenWindow → TokenWindow
window_or_default (some w) = w
window_or_default none = record { window_id = 0; counts = [] }

abbrev pub count_or_default : Option ℕ → ℕ
count_or_default (some n) = n
count_or_default none = 0

abbrev pub is_behind : ℕ → Option ℕ → Bool
is_behind window_id none = false
is_behind window_id (some latest) = ltb window_id latest

-- A window as it is at the given one: an older one starts afresh.
abbrev pub renewed : TokenWindow → ℕ → TokenWindow
renewed w window_id =
    if ltb w.window_id window_id then record { window_id = window_id; counts = [] } else w

-- The end of `admit`: what becomes of the token's window.
unfoldable pub count_in :
    RateLimitPolicy → RateLimitKind → ℕ → TokenWindow → TokenWindow × OperationResult (Unit {0})
count_in policy kind window_id window =
    let current = renewed window window_id in
    let count = count_or_default (get kind current.counts) in
    if ltb window_id window.window_id
    then (window, err (invalid "rate_limit_clock_moved_backward"))
    else if leb (quota policy kind) count
    then (record current { counts = map_insert kind count current.counts }, err rate_limited)
    else (record current { counts = map_insert kind (count + 1) current.counts }, ok tt)

-- The windows that `admit` keeps before it looks for the token's.
unfoldable pub pruned : TokenRateLimiter → Bytes → ℕ → List (Bytes × TokenWindow)
pruned l token_hash window_id =
    if contains_key token_hash l.windows
    then l.windows
    else retain (λ w. leb (window_id - 1) w.window_id) l.windows

unfoldable pub admit :
    TokenRateLimiter → Bytes → RateLimitKind → ℕ → TokenRateLimiter × OperationResult (Unit {0})
unfolding pruned count_in
admit l token_hash kind now_ms =
    let window_id = now_ms / l.policy.window_ms in
    let windows = pruned l token_hash window_id in
    let (window, answer) =
      count_in l.policy kind window_id (window_or_default (get token_hash windows)) in
    if same token_hash (replicate 32 0)
    then (l, err (invalid "rate_limit_token_hash_invalid"))
    else if is_behind window_id l.latest_window_id
    then (l, err (invalid "rate_limit_clock_moved_backward"))
    else if not (contains_key token_hash windows) && leb max_rate_limit_tokens (length windows)
    then (record l { windows = windows; latest_window_id = some window_id }, err rate_limited)
    else (
      record l {
        windows = map_insert token_hash window windows;
        latest_window_id = some window_id;
      },
      answer,
    )
