-- ===== src/Workflow/Router/Choice.antt =====
-- Which board the router resolves a context to.
use vbuff.Base.{
  ℕ, zero, suc, ◌+◌, ◌≤◌, ◌<◌, ◌≡◌, ◌⊎◌, ◌∙◌, refl, sym, ap, subst, inl, inr, compare,
  Ordering-cases, Option, none, some, List, [], ◌∷◌, arith,
}
use native.Mathlib.Omega.{compare-lt, compare-eq, compare-gt}
use vbuff.Workflow.Board.{PinBoard}
use vbuff.Workflow.Router.{
  BoardContext, BoardMatcher, BoardRouter, score, Candidate, candidate_of, cmp_key, candidates,
  better, max_from, max_by_key, board_of, resolve,
}

abbrev Entry : Type 0
Entry = BoardMatcher × PinBoard

abbrev pub nth : List Entry → ℕ → Option Entry
nth [] index = none
nth (entry ∷ entries) zero = some entry
nth (entry ∷ entries) (suc index) = nth entries index

-- A score at an index is no better than the points at the best index: it is lower, or equal and the
-- index is no earlier.
abbrev Loses : Option ℕ → ℕ → ℕ → ℕ → Type 0
Loses none index points best = Unit {0}
Loses (some q) index points best = q < points ⊎ (q ≡ points) × (best ≤ index)

-- Every entry loses, where the first one has the index.
abbrev AllLose : BoardContext → ℕ → ℕ → ℕ → List Entry → Type 0
AllLose context points best index [] = Unit {0}
AllLose context points best index ((matcher, board) ∷ entries) =
    Loses (score matcher context) index points best
    × AllLose context points best (suc index) entries

abbrev NoneFits : BoardContext → List Entry → Type 0
NoneFits context [] = Unit {0}
NoneFits context ((matcher, board) ∷ entries) =
    (score matcher context ≡ none) × NoneFits context entries

-- What an answer of the router means.
abbrev pub IsBest : BoardRouter → BoardContext → Option PinBoard → Type 0
IsBest r context none = NoneFits context r.entries
IsBest r context (some board) =
    (index : ℕ) × (matcher : BoardMatcher) × (points : ℕ) × (nth r.entries index
      ≡ some (matcher, board))
    × (score matcher context ≡ some points)
    × AllLose context points index 0 r.entries

abbrev Below : Candidate → Candidate → Type 0
Below c w = c.score < w.score ⊎ (c.score ≡ w.score) × (w.index ≤ c.index)

abbrev AllBelow : List Candidate → Candidate → Type 0
AllBelow [] w = Unit {0}
AllBelow (c ∷ cs) w = Below c w × AllBelow cs w

abbrev IsIn : Candidate → List Candidate → Type 0
IsIn w [] = ⊥
IsIn w (c ∷ cs) = w ≡ c ⊎ IsIn w cs

Below-trans : (a b c : Candidate) → Below a b → Below b c → Below a c
Below-trans a b c (inl x) (inl y) = inl (omega (arith, x, y))
Below-trans a b c (inl x) (inr y) = inl (omega (arith, x, y.0))
Below-trans a b c (inr x) (inl y) = inl (omega (arith, x.0, y))
Below-trans a b c (inr x) (inr y) = inr (omega (arith, x.0, y.0), omega (arith, x.1, y.1))

better-cases : (a c : Candidate) → (better a c ≡ a) × Below c a ⊎ (better a c ≡ c) × Below a c
unfolding cmp_key
better-cases a c = elim (Ordering-cases (compare a.score c.score)) [
  | inl l ↦ inr (rw (better, l) refl, inl (compare-lt a.score c.score l))
  | inr (inr g) ↦ inl (rw (better, g) refl, inl (compare-gt a.score c.score g))
  | inr (inl e) ↦
      let tied = compare-eq a.score c.score e in
      elim (Ordering-cases (compare c.index a.index)) [
        | inl l ↦
            inr (rw (better, e, l) refl, inr (tied, omega (arith, compare-lt c.index a.index l)))
        | inr (inl f) ↦
            inr (rw (better, e, f) refl, inr (tied, omega (arith, compare-eq c.index a.index f)))
        | inr (inr g) ↦
            inl
              (rw (better, e, g) refl, inr (sym tied, omega (arith, compare-gt c.index a.index g)))
      ]
]

-- The candidate that `max_by_key` keeps is one of them, and the others are below it.
IsTop : Candidate → List Candidate → Type 0
IsTop w cs = IsIn w cs × AllBelow cs w

Below-refl : (c : Candidate) → Below c c
Below-refl c = inr (refl, omega arith)

max_from-IsTop :
    (best : Candidate) (cs : List Candidate)
    → IsIn (max_from best cs) (best ∷ cs) × AllBelow (best ∷ cs) (max_from best cs)
max_from-IsTop best [] = (inl refl, (Below-refl best, tt))
max_from-IsTop best (c ∷ cs) =
    let top = max_from-IsTop (better best c) cs in
    let w = max_from (better best c) cs in
    elim (better-cases best c) [
      | inl (e, below) ↦
          let up : Below best w = subst (λ q. Below q w) e top.1.0 in
          (
            elim top.0 [ inl h ↦ inl (h ∙ e) | inr h ↦ inr (inr h) ],
            (up, (Below-trans c best w below up, top.1.1)),
          )
      | inr (e, below) ↦
          let up : Below c w = subst (λ q. Below q w) e top.1.0 in
          (
            elim top.0 [ inl h ↦ inr (inl (h ∙ e)) | inr h ↦ inr (inr h) ],
            (Below-trans best c w below up, (up, top.1.1)),
          )
    ]

candidate_of-AllBelow :
    (found : Option ℕ) (index : ℕ) (board : PinBoard) (rest : List Candidate) (w : Candidate)
    → AllBelow (candidate_of found index board rest) w
    → Loses found index w.score w.index × AllBelow rest w
candidate_of-AllBelow none index board rest w h = (tt, h)
candidate_of-AllBelow (some q) index board rest w h = h

AllBelow-AllLose :
    (context : BoardContext) (w : Candidate) (index : ℕ) (entries : List Entry)
    → AllBelow (candidates index entries context) w
    → AllLose context w.score w.index index entries
unfolding candidates
AllBelow-AllLose context w index [] h = tt
AllBelow-AllLose context w index ((matcher, board) ∷ entries) h =
    let rest = candidates (suc index) entries context in
    let both = candidate_of-AllBelow (score matcher context) index board rest w h in
    (both.0, AllBelow-AllLose context w (suc index) entries both.1)

candidate_of-IsIn :
    (found : Option ℕ) (index : ℕ) (board : PinBoard) (rest : List Candidate) (w : Candidate)
    → IsIn w (candidate_of found index board rest)
    → (found ≡ some w.score) × (w.index ≡ index) × (board ≡ w.board) ⊎ IsIn w rest
candidate_of-IsIn none index board rest w h = inr h
candidate_of-IsIn (some q) index board rest w (inl h) =
    inl (ap (λ c. some (c.score)) (sym h), ap (λ c. c.index) h, ap (λ c. c.board) (sym h))
candidate_of-IsIn (some q) index board rest w (inr h) = inr h

abbrev Origin : BoardContext → Candidate → ℕ → List Entry → Type 0
Origin context w index entries =
    (k : ℕ) × (matcher : BoardMatcher) × (w.index ≡ index + k)
    × (nth entries k ≡ some (matcher, w.board))
    × (score matcher context ≡ some w.score)

origin :
    (context : BoardContext) (w : Candidate) (index : ℕ) (entries : List Entry)
    → IsIn w (candidates index entries context)
    → Origin context w index entries
unfolding candidates
origin context w index [] h = absurd h
origin context w index ((matcher, board) ∷ entries) h =
    elim (candidate_of-IsIn (score matcher context) index board
      (candidates (suc index) entries context) w h) [
        | inl (found, at, same_board) ↦
            (0, matcher, omega (arith, at), ap (λ b. some (matcher, b)) same_board, found)
        | inr later ↦
            let (k, m, at, there, found) = origin context w (suc index) entries later in
            (suc k, m, omega (arith, at), there, found)
      ]

abbrev IsNil : List Candidate → Type 0
IsNil [] = Unit {0}
IsNil (c ∷ cs) = ⊥

candidate_of-IsNil :
    (found : Option ℕ) (index : ℕ) (board : PinBoard) (rest : List Candidate)
    → IsNil (candidate_of found index board rest)
    → (found ≡ none) × IsNil rest
candidate_of-IsNil none index board rest h = (refl, h)
candidate_of-IsNil (some q) index board rest h = absurd h

IsNil-NoneFits :
    (context : BoardContext) (index : ℕ) (entries : List Entry)
    → IsNil (candidates index entries context)
    → NoneFits context entries
unfolding candidates
IsNil-NoneFits context index [] h = tt
IsNil-NoneFits context index ((matcher, board) ∷ entries) h =
    let both =
      candidate_of-IsNil (score matcher context) index board
        (candidates (suc index) entries context) h in
    (both.0, IsNil-NoneFits context (suc index) entries both.1)

answer-IsBest :
    (r : BoardRouter) (context : BoardContext) (cs : List Candidate)
    → cs ≡ candidates 0 r.entries context
    → IsBest r context (board_of (max_by_key cs))
answer-IsBest r context [] e = IsNil-NoneFits context 0 r.entries (subst IsNil e tt)
answer-IsBest r context (c ∷ cs) e =
    let w = max_from c cs in
    let top = max_from-IsTop c cs in
    let (k, matcher, at, there, found) =
      origin context w 0 r.entries (subst (λ q. IsIn w q) e top.0) in
    let lose = AllBelow-AllLose context w 0 r.entries (subst (λ q. AllBelow q w) e top.1) in
    let at_k : w.index ≡ k = omega (arith, at) in
    (
      k,
      matcher,
      w.score,
      there,
      found,
      subst (λ n. AllLose context w.score n 0 r.entries) at_k lose,
    )

-- The router resolves a context to the board of an entry that fits it and has the highest score of
-- all the entries, the earliest of those on a tie, and to no board only where no entry fits.
pub resolve-IsBest :
    (r : BoardRouter) (context : BoardContext) → IsBest r context (resolve r context)
unfolding resolve
resolve-IsBest r context = answer-IsBest r context (candidates 0 r.entries context) refl
