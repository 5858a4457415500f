-- ===== src/Ipc/RateLimit/Examples.antt =====
-- A limiter with two reads in each window of a second.
use vbuff.Base.{ℕ, ◌≤◌, refl, none, List, [], ◌∷◌, Bytes, replicate}
use vbuff.Ipc.RateLimit.{read, RateLimitPolicy, quota, TokenRateLimiter, new, is_valid}
use vbuff.Ipc.RateLimit.Trace.{Call, admitted, admitted-le-quota}

abbrev two_reads : RateLimitPolicy
two_reads = record {
  window_ms = 1_000;
  reads_per_window = 2;
  writes_per_window = 1;
  pastes_per_window = 1;
}

abbrev fresh : TokenRateLimiter
fresh = record { policy = two_reads; windows = []; latest_window_id = none }

abbrev token : Bytes
token = replicate 32 7

abbrev reading : ℕ → Call
reading now = record { token_hash = token; kind = read; now_ms = now }

abbrev calls : List Call
calls = reading 5_000 ∷ reading 5_100 ∷ reading 5_200 ∷ reading 6_000 ∷ []

admitted-le-quota_example : admitted fresh calls token read 5 ≤ 2
unfolding quota new is_valid
admitted-le-quota_example = admitted-le-quota two_reads fresh calls token read 5 refl
