-- ===== src/Ipc/Replay/Complete.antt =====
-- A client that resumes after the last event it was given.
use vbuff.Base.{
  ℕ, zero, suc, ◌+◌, min, ◌≤◌, ◌≡◌, ◌⊎◌, ◌∙◌, refl, sym, ap, subst, inl, inr, Bool, true, false,
  ◌||◌, ◌==◌, ltb, leb, Bool-cases, List, [], ◌∷◌, ◌++◌, arith, length, drop,
}
use vbuff.Base.Iter.{any, retain, take, take-drop}
use vbuff.Base.Results.{ok, fail_if, and_then, fail_if_inv, ◌>>◌}
use vbuff.Ipc.Operation.{
  OperationContractError, OperationResult, invalid, cursor_expired, validate_id,
}
use vbuff.Ipc.Event.{EventEnvelope}
use vbuff.Ipc.Replay.{EventReplayCursor, validate, is_unordered, wanted, select}

-- The sequence numbers ascend strictly, from the given one.
abbrev pub IsAscendingFrom : ℕ → List EventEnvelope → Type 0
IsAscendingFrom low [] = Unit {0}
IsAscendingFrom low (e ∷ events) = (low ≤ e.sequence) × IsAscendingFrom (e.sequence + 1) events

-- Where a client resumes that has got these events.
abbrev pub after : ℕ → List EventEnvelope → ℕ
after next [] = next
after next (e ∷ events) = after (e.sequence + 1) events

IsAscendingFrom-lower :
    (low lower : ℕ) (events : List EventEnvelope)
    → lower ≤ low
    → IsAscendingFrom low events
    → IsAscendingFrom lower events
IsAscendingFrom-lower low lower [] le h = tt
IsAscendingFrom-lower low lower (e ∷ events) le (first, rest) = (omega (arith, le, first), rest)

IsAscendingFrom-wanted :
    (low next : ℕ) (events : List EventEnvelope)
    → IsAscendingFrom low events
    → IsAscendingFrom low (wanted next events)
IsAscendingFrom-wanted low next [] h = tt
IsAscendingFrom-wanted low next (e ∷ events) (first, rest) =
    let kept = IsAscendingFrom-wanted (e.sequence + 1) next events rest in
    elim (Bool-cases (leb next e.sequence)) [
      | inl k ↦ rw (k, wanted) (first, kept)
      | inr k ↦
          rw (k, wanted)
            (IsAscendingFrom-lower (e.sequence + 1) low (wanted next events) (omega (arith, first))
              kept)
    ]

wanted-all :
    (low next : ℕ) (events : List EventEnvelope)
    → next ≤ low
    → IsAscendingFrom low events
    → wanted next events ≡ events
wanted-all low next [] le h = refl
wanted-all low next (e ∷ events) le (first, rest) =
    let k : leb next e.sequence ≡ true = ground (arith, le, first) in
    rw (k, wanted-all (e.sequence + 1) next events (omega (arith, le, first)) rest) refl

wanted-wanted :
    (next later : ℕ) (events : List EventEnvelope)
    → next ≤ later
    → wanted later (wanted next events) ≡ wanted later events
wanted-wanted next later [] le = refl
wanted-wanted next later (e ∷ events) le =
    let rest = wanted-wanted next later events le in
    elim (Bool-cases (leb next e.sequence)) [
      | inl k ↦ rw (k, rest) refl
      | inr k ↦ let l : leb later e.sequence ≡ false = ground (arith, k, le) in rw (k, l) rest
    ]

after-le :
    (n low : ℕ) (events : List EventEnvelope)
    → IsAscendingFrom low events
    → low ≤ after low (take n events)
after-le zero low events h = omega arith
after-le (suc n) low [] h = omega arith
after-le (suc n) low (e ∷ events) (first, rest) =
    let le = after-le n (e.sequence + 1) events rest in omega (arith, first, le)

-- What is wanted after some events are given is the others.
wanted-after :
    (n low : ℕ) (events : List EventEnvelope)
    → IsAscendingFrom low events
    → wanted (after low (take n events)) events ≡ drop n events
wanted-after zero low events h = wanted-all low low events (omega arith) h
wanted-after (suc n) low [] h = refl
wanted-after (suc n) low (e ∷ events) (first, rest) =
    let le = after-le n (e.sequence + 1) events rest in
    let k : leb (after (e.sequence + 1) (take n events)) e.sequence ≡ false = ground (arith, le) in
    rw k (wanted-after n (e.sequence + 1) events rest)

IsAscendingFrom-ordered :
    (e : EventEnvelope) (events : List EventEnvelope)
    → is_unordered (e ∷ events) ≡ false
    → IsAscendingFrom e.sequence (e ∷ events)
IsAscendingFrom-ordered e [] h = (omega arith, tt)
IsAscendingFrom-ordered e (f ∷ events) h =
    let rest = IsAscendingFrom-ordered f events (ground (arith, h)) in
    (
      omega arith,
      IsAscendingFrom-lower f.sequence (e.sequence + 1) (f ∷ events) (ground (arith, h)) rest,
    )

ordered-IsAscendingFrom :
    (events : List EventEnvelope) → is_unordered events ≡ false → IsAscendingFrom 0 events
ordered-IsAscendingFrom [] h = tt
ordered-IsAscendingFrom (e ∷ events) h =
    IsAscendingFrom-lower e.sequence 0 (e ∷ events) (omega arith)
      (IsAscendingFrom-ordered e events h)

IsAscendingFrom-next :
    (low next : ℕ) (events : List EventEnvelope)
    → IsAscendingFrom low events
    → IsAscendingFrom next (wanted next events)
IsAscendingFrom-next low next [] h = tt
IsAscendingFrom-next low next (e ∷ events) (first, rest) = elim (Bool-cases (leb next e.sequence)) [
  | inl k ↦
      rw (k, wanted) (ground (arith, k), IsAscendingFrom-wanted (e.sequence + 1) next events rest)
  | inr k ↦ rw (k, wanted) (IsAscendingFrom-next (e.sequence + 1) next events rest)
]

length-wanted :
    (next : ℕ) (events : List EventEnvelope) → length (wanted next events) ≤ length events
length-wanted next [] = omega arith
length-wanted next (e ∷ events) =
    let le = length-wanted next events in
    elim (Bool-cases (leb next e.sequence)) [
      | inl k ↦ rw (k, wanted) (omega (arith, le))
      | inr k ↦ rw (k, wanted) (omega (arith, le))
    ]

length-drop : (n : ℕ) (events : List EventEnvelope) → length (drop n events) ≤ length events
length-drop zero events = omega arith
length-drop (suc n) [] = omega arith
length-drop (suc n) (e ∷ events) = let le = length-drop n events in omega (arith, le)

no_length : (events : List EventEnvelope) → length events ≤ 0 → events ≡ []
no_length [] le = refl
no_length (e ∷ events) le = absurd (omega (arith, le))

-- What a daemon answers, and what the client gets by resuming after it.
abbrev resumed :
    OperationResult (List EventEnvelope)
    → (List EventEnvelope → List EventEnvelope)
    → List EventEnvelope
resumed (ok (e ∷ page)) more = (e ∷ page) ++ more (e ∷ page)
resumed _ more = []

-- Everything that a client gets in a number of calls, each from after the last event it has got.
abbrev pub pages : ℕ → EventReplayCursor → ℕ → List EventEnvelope → ℕ → List EventEnvelope
pages zero c first events limit = []
pages (suc n) c first events limit =
    resumed (select c first events limit)
      (λ page. pages n (record c { next_sequence = after c.next_sequence page }) first events limit)

-- What `select` checks.
abbrev IsServed : EventReplayCursor → ℕ → List EventEnvelope → ℕ → Type 0
IsServed c first events limit =
    (validate_id c.stream_id ≡ ok tt)
    × ((c.next_sequence == 0) ≡ false)
    × ((first == 0 || limit == 0) ≡ false)
    × (ltb c.next_sequence first ≡ false)
    × ((any (λ e. ltb e.sequence first) events || is_unordered events) ≡ false)

passed :
    {U : Type 0} {r : OperationResult (Unit {0})} {s t : OperationResult U}
    → r ≡ ok tt
    → s ≡ t
    → r >> s ≡ t
passed {s} h k = ap (λ q. q >> s) h ∙ k

unrefused : {test : Bool} (e : OperationContractError) → test ≡ false → fail_if test e ≡ ok tt
unrefused e h = ap (λ q. fail_if q e) h

select_ok :
    (c : EventReplayCursor) (first : ℕ) (events : List EventEnvelope) (limit : ℕ)
    → IsServed c first events limit
    → select c first events limit ≡ ok (take (min limit 1_024) (wanted c.next_sequence events))
unfolding select validate
select_ok c first events limit (a, b, d, e, f) =
    passed (passed a (unrefused _ b))
      (passed (unrefused _ d) (passed (unrefused _ e) (passed (unrefused _ f) refl)))

select_inv :
    (c : EventReplayCursor) (first : ℕ) (events page : List EventEnvelope) (limit : ℕ)
    → select c first events limit ≡ ok page
    → IsServed c first events limit
unfolding select validate
select_inv c first events page limit h =
    let given : OperationResult (List EventEnvelope) =
      ok (take (min limit 1_024) (wanted c.next_sequence events)) in
    let broken = any (λ e. ltb e.sequence first) events || is_unordered events in
    let started = fail_if (c.next_sequence == 0) (invalid "invalid_replay_sequence") in
    let window = fail_if (first == 0 || limit == 0) (invalid "invalid_replay_window") in
    let retained = fail_if (ltb c.next_sequence first) cursor_expired in
    let ordered = fail_if broken (invalid "replay_events_not_strictly_ordered") in
    let (valid, h) = and_then (validate c) (window >> (retained >> (ordered >> given))) page h in
    let (named, from) = and_then (validate_id c.stream_id) started tt valid in
    let (open_window, h) = and_then window (retained >> (ordered >> given)) page h in
    let (kept, h) = and_then retained (ordered >> given) page h in
    let (sorted, _) = and_then ordered given page h in
    (
      named,
      fail_if_inv (c.next_sequence == 0) (invalid "invalid_replay_sequence") from,
      fail_if_inv (first == 0 || limit == 0) (invalid "invalid_replay_window") open_window,
      fail_if_inv (ltb c.next_sequence first) cursor_expired kept,
      fail_if_inv broken (invalid "replay_events_not_strictly_ordered") sorted,
    )

drop-shorter :
    (k : ℕ) (e : EventEnvelope) (events : List EventEnvelope)
    → 1 ≤ k
    → length (drop k (e ∷ events)) ≤ length events
drop-shorter zero e events le = absurd (omega (arith, le))
drop-shorter (suc k) e events le = length-drop k events

resumed-take :
    (k : ℕ) (e : EventEnvelope) (events : List EventEnvelope)
    (more : List EventEnvelope → List EventEnvelope)
    → 1 ≤ k
    → more (take k (e ∷ events)) ≡ drop k (e ∷ events)
    → resumed (ok (take k (e ∷ events))) more ≡ e ∷ events
resumed-take zero e events more le h = absurd (omega (arith, le))
resumed-take (suc k) e events more le h =
    ap (λ q. take (suc k) (e ∷ events) ++ q) h ∙ take-drop (suc k) (e ∷ events)

IsServed-later :
    (c : EventReplayCursor) (later first : ℕ) (events : List EventEnvelope) (limit : ℕ)
    → c.next_sequence ≤ later
    → IsServed c first events limit
    → IsServed (record c { next_sequence = later }) first events limit
IsServed-later c later first events limit le (a, b, d, e, f) =
    (a, ground (arith, b, le), d, ground (arith, e, le), f)

List-cases :
    (events : List EventEnvelope)
    → (events ≡ []) ⊎ ((e : EventEnvelope) × (rest : List EventEnvelope) × (events ≡ e ∷ rest))
List-cases [] = inl refl
List-cases (e ∷ rest) = inr (e, rest, refl)

take-none : (k : ℕ) → take {A = EventEnvelope} k [] ≡ []
take-none zero = refl
take-none (suc k) = refl

pages-wanted :
    (n : ℕ) (c : EventReplayCursor) (first : ℕ) (events : List EventEnvelope) (limit : ℕ)
    → IsServed c first events limit
    → length (wanted c.next_sequence events) ≤ n
    → pages n c first events limit ≡ wanted c.next_sequence events
pages-wanted zero c first events limit served le =
    sym (no_length (wanted c.next_sequence events) le)
pages-wanted (suc n) c first events limit served le =
    let k = min limit 1_024 in
    let (_, _, window, _, sorted) = served in
    let positive : 1 ≤ k = ground (arith, window) in
    let more : List EventEnvelope → List EventEnvelope = λ page.
      pages n (record c { next_sequence = after c.next_sequence page }) first events limit in
    let asked = select_ok c first events limit served in
    elim (List-cases (wanted c.next_sequence events)) [
      | inl e ↦
          let empty = asked ∙ (ap (λ q. ok (take k q)) e ∙ ap (λ q. ok q) (take-none k)) in
          ap (λ q. resumed q more) empty ∙ sym e
      | inr (x, rest, e) ↦
          let later = after c.next_sequence (take k (x ∷ rest)) in
          let ascending =
            IsAscendingFrom-next 0 c.next_sequence events
              (ordered-IsAscendingFrom events (ground (arith, sorted))) in
          let ascending : IsAscendingFrom c.next_sequence (x ∷ rest) =
            subst (IsAscendingFrom c.next_sequence) e ascending in
          let le_later = after-le k c.next_sequence (x ∷ rest) ascending in
          let others : wanted later events ≡ drop k (x ∷ rest) =
            sym (wanted-wanted c.next_sequence later events le_later)
            ∙ (ap (λ q. wanted later q) e ∙ wanted-after k c.next_sequence (x ∷ rest) ascending) in
          let fewer = drop-shorter k x rest positive in
          let shorter : length (wanted later events) ≤ n =
            subst (λ q. length q ≤ n) (sym others)
              (omega (arith, fewer, subst (λ q. length q ≤ suc n) e le)) in
          let given : more (take k (x ∷ rest)) ≡ drop k (x ∷ rest) =
            pages-wanted n (record c { next_sequence = later }) first events limit
              (IsServed-later c later first events limit le_later served) shorter
            ∙ others in
          ap (λ q. resumed q more) (asked ∙ ap (λ q. ok (take k q)) e)
          ∙ (resumed-take k x rest more positive given ∙ sym e)
    ]

-- While the retained events stay the same, a client whose first call is answered, and that goes on to
-- ask from after the last event that it has got, is given each retained event from its cursor on
-- once and in order, in as many calls as events are retained at most, whatever the limit of a call.
pub select_complete :
    (c : EventReplayCursor) (first : ℕ) (events page : List EventEnvelope) (limit : ℕ)
    → select c first events limit ≡ ok page
    → pages (length events) c first events limit
      ≡ retain (λ e. leb c.next_sequence e.sequence) events
select_complete c first events page limit h =
    pages-wanted (length events) c first events limit (select_inv c first events page limit h)
      (length-wanted c.next_sequence events)
