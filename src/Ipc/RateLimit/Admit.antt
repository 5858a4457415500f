-- ===== src/Ipc/RateLimit/Admit.antt =====
-- What one call of the limiter does to the admitted calls of a token and kind.
use vbuff.Base.{
  ℕ, ◌+◌, ◌/◌, ◌≤◌, ◌≡◌, ◌⊎◌, ◌∙◌, refl, sym, ap, subst, inl, inr, false, not, ◌&&◌, ◌==◌, ==_iff,
  ltb, leb, Bool-cases, some_injective, some, arith, Bytes, bytes_ord, same, same_iff, length,
  replicate,
}
use vbuff.Base.Maps.{get, contains_key, get-map_insert}
use vbuff.Ipc.RateLimit.{
  RateLimitKind, kind_ord, quota, TokenRateLimiter, window_or_default, is_behind, count_in, pruned,
  admit, max_rate_limit_tokens,
}
use vbuff.Ipc.RateLimit.Quota.{stored_in, hit, pruned-stored}
use vbuff.Ipc.RateLimit.Within.{Within, is_asked, hit-false, counted, answer_of, counted-Within}

module _ (l : TokenRateLimiter) (token called : Bytes) (kind other : RateLimitKind)
    (window_id now_ms n : ℕ) where
  fresh_or_held :
      Within l token kind window_id n
      → is_behind window_id l.latest_window_id ≡ false
      → n ≤ stored_in (get token l.windows) kind window_id
  fresh_or_held w h = elim (w.begun) [
    | inl nothing ↦ omega arith
    | inr (latest, e, late) ↦
        let ahead : ltb window_id latest ≡ false = sym (ap (is_behind window_id) e) ∙ h in
        let now : latest ≡ window_id = ground (arith, ahead, late) in w.held (e ∙ ap some now)
  ]

  begun_later :
      (id : ℕ)
      → Within l token kind window_id n
      → is_behind id l.latest_window_id ≡ false
      → (n ≡ 0) ⊎ ((latest : ℕ) × (some id ≡ some latest) × (window_id ≤ latest))
  begun_later id w h = elim (w.begun) [
    | inl nothing ↦ inl nothing
    | inr (latest, e, late) ↦
        let ahead : ltb id latest ≡ false = sym (ap (is_behind id) e) ∙ h in
        inr (id, refl, ground (arith, ahead, late))
  ]

  -- A call in a later window, or for another token, or that is refused before the count.
  moved-Within :
      (id : ℕ) (after : TokenRateLimiter)
      → Within l token kind window_id n
      → is_behind id l.latest_window_id ≡ false
      → after.policy ≡ l.policy
      → after.latest_window_id ≡ some id
      → (id ≡ window_id
          → stored_in (get token l.windows) kind window_id
            ≤ stored_in (get token after.windows) kind window_id)
      → Within after token kind window_id n
  moved-Within id after w h policy latest grows = record {
    allowed = subst (λ q. n ≤ quota q kind) (sym policy) w.allowed;
    begun =
        subst (λ q. (n ≡ 0) ⊎ ((late : ℕ) × (q ≡ some late) × (window_id ≤ late))) (sym latest)
          (begun_later id w h);
    held = λ e.
        (let this : id ≡ window_id = some_injective (sym latest ∙ e) in
          let before =
            fresh_or_held w (subst (λ q. is_behind q l.latest_window_id ≡ false) this h) in
          omega (arith, before, grows this));
  }

  pruned_keeps :
      now_ms / l.policy.window_ms ≡ window_id
      → stored_in (get token l.windows) kind window_id
        ≤ stored_in (get token (pruned l called (now_ms / l.policy.window_ms))) kind window_id
  pruned_keeps e =
      subst
        (λ q.
          stored_in (get token l.windows) kind window_id
          ≤ stored_in (get token (pruned l called q)) kind window_id)
        (sym e) (pruned-stored l called token kind window_id)

  -- A call that is not one of those counted.
  unasked-Within :
      Within l token kind window_id n
      → is_behind (now_ms / l.policy.window_ms) l.latest_window_id ≡ false
      → is_asked l token kind window_id called other now_ms ≡ false
      → (now_ms / l.policy.window_ms ≡ window_id → same token called ≡ false)
      → Within
          (counted l called other
            (now_ms / l.policy.window_ms)
            (pruned l called (now_ms / l.policy.window_ms)))
          token
          kind
          window_id
          (n
            + hit
                (answer_of l called other
                  (now_ms / l.policy.window_ms)
                  (pruned l called (now_ms / l.policy.window_ms)))
                (is_asked l token kind window_id called other now_ms))
  unasked-Within w ahead unasked elsewhere =
      let id : ℕ = now_ms / l.policy.window_ms in
      let windows = pruned l called id in
      let after = counted l called other id windows in
      let none_more : n
          ≡ n
            + hit (answer_of l called other id windows)
                (is_asked l token kind window_id called other now_ms) =
        omega (
          arith,
          ap (hit (answer_of l called other id windows)) unasked,
          hit-false (answer_of l called other id windows),
        ) in
      subst (λ q. Within after token kind window_id q) none_more
        (moved-Within id after w ahead refl refl (λ e.
          (let untouched : get token after.windows ≡ get token windows =
              get-map_insert token called
                (count_in l.policy other id (window_or_default (get called windows))).0 windows
              ∙ rw (elsewhere e) refl in
            omega (arith, pruned_keeps e, ap (λ q. stored_in q kind window_id) untouched))))

  written-Within :
      Within l token kind window_id n
      → is_behind (now_ms / l.policy.window_ms) l.latest_window_id ≡ false
      → Within
          (counted l called other
            (now_ms / l.policy.window_ms)
            (pruned l called (now_ms / l.policy.window_ms)))
          token
          kind
          window_id
          (n
            + hit
                (answer_of l called other
                  (now_ms / l.policy.window_ms)
                  (pruned l called (now_ms / l.policy.window_ms)))
                (is_asked l token kind window_id called other now_ms))
  written-Within w ahead = elim (Bool-cases (same token called)) [
    | inr another ↦ unasked-Within w ahead (rw another refl) (λ e. another)
    | inl named ↦ elim (Bool-cases (now_ms / l.policy.window_ms == window_id)) [
      | inr later ↦
          unasked-Within w ahead (rw (named, later) refl) (λ e. absurd (ground (arith, later, e)))
      | inl current ↦
          let id : ℕ = now_ms / l.policy.window_ms in
          let windows = pruned l called id in
          let this : token ≡ called = (same_iff token called).0 named in
          let now : id ≡ window_id = (==_iff id window_id).0 current in
          let before =
            fresh_or_held w (subst (λ q. is_behind q l.latest_window_id ≡ false) now ahead) in
          let kept : n ≤ stored_in (get token windows) kind window_id =
            omega (arith, before, pruned_keeps now) in
          let own : n ≤ stored_in (get called windows) kind id = omega (
            arith,
            kept,
            ap (λ q. stored_in (get q windows) kind window_id) this,
            ap (λ q. stored_in (get called windows) kind q) now,
          ) in
          let asked : same kind other ≡ is_asked l token kind window_id called other now_ms =
            rw (named, current) refl in
          subst
            (λ q.
              Within (counted l called other id windows) token kind window_id
                (n + hit (answer_of l called other id windows) q))
            asked
            (subst
              (λ q.
                Within (counted l called other id windows) q kind window_id
                  (n + hit (answer_of l called other id windows) (same kind other)))
              (sym this)
              (subst
                (λ q.
                  Within (counted l called other id windows) called kind q
                    (n + hit (answer_of l called other id windows) (same kind other)))
                now (counted-Within l called kind other id n windows own w.allowed)))
    ]
  ]

  pub admit-Within :
      Within l token kind window_id n
      → Within (admit l called other now_ms).0 token kind window_id (
          n
          + hit
              (admit l called other now_ms).1
              (is_asked l token kind window_id called other now_ms))
  unfolding admit
  admit-Within w =
      let id : ℕ = now_ms / l.policy.window_ms in
      let windows = pruned l called id in
      elim (Bool-cases (same called (replicate 32 0))) [
        | inl bad ↦ rw bad (subst (λ q. Within l token kind window_id q) (omega arith) w)
        | inr good ↦ elim (Bool-cases (is_behind id l.latest_window_id)) [
          | inl behind ↦
              rw (good, behind) (subst (λ q. Within l token kind window_id q) (omega arith) w)
          | inr ahead ↦
              elim (Bool-cases
                (not (contains_key called windows) && leb max_rate_limit_tokens (length windows))) [
                  | inl full ↦
                      rw (good, ahead, full)
                        (subst
                          (λ q.
                            Within (record l { windows = windows; latest_window_id = some id })
                              token kind window_id q)
                          (omega arith)
                          (moved-Within id
                            (record l { windows = windows; latest_window_id = some id }) w ahead
                            refl refl pruned_keeps))
                  | inr room ↦ rw (good, ahead, room) (written-Within w ahead)
                ]
        ]
      ]

  pub admit-policy : (admit l called other now_ms).0.policy ≡ l.policy
  unfolding admit
  admit-policy = ground arith
