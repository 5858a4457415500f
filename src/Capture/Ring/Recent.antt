-- ===== src/Capture/Ring/Recent.antt =====
-- A ring holds the most recent entries of its history, oldest first.
use vbuff.Base.{
  ℕ, zero, suc, ◌-◌, ◌≤◌, ◌<◌, max, ◌==◌, ◌≡◌, refl, sym, ap, ◌∙◌, some, List, [], ◌∷◌, ◌++◌, arith,
  length, drop, length-append, leb, leb→le, if◌then◌else◌, Bool-cases, inl, inr,
}
use mathlib.Core.List.{append-nil, append_assoc}
use vbuff.Capture.Ring.{
  pop_front, back, CaptureForensicRing, new_forensic_ring, push_forensic, SkippedCaptureRing,
  new_skipped_ring, push_skipped, latest,
}

-- The last `n` entries of a history.
abbrev pub last_of {ℓ} : {A : Type ℓ} → ℕ → List A → List A
last_of n xs = drop (length xs - n) xs

module _ {ℓ} {A : Type ℓ} where
  length-drop : (n : ℕ) (xs : List A) → length (drop n xs) ≡ length xs - n
  length-drop zero xs = omega arith
  length-drop (suc n) [] = omega arith
  length-drop (suc n) (x ∷ xs) = omega (arith, length-drop n xs)

  drop-append : (n : ℕ) (xs ys : List A) → n ≤ length xs → drop n (xs ++ ys) ≡ drop n xs ++ ys
  drop-append zero xs ys h = refl
  drop-append (suc n) [] ys h = absurd (omega arith)
  drop-append (suc n) (x ∷ xs) ys h = drop-append n xs ys (omega arith)

  pop_front-drop : (n : ℕ) (xs : List A) → pop_front (drop n xs) ≡ drop (suc n) xs
  pop_front-drop zero [] = refl
  pop_front-drop zero (x ∷ xs) = refl
  pop_front-drop (suc n) [] = refl
  pop_front-drop (suc n) (x ∷ xs) = pop_front-drop n xs

  -- What one push makes of the entries.
  abbrev pub pushed : ℕ → List A → A → List A
  pushed capacity entries x =
      (if length entries == capacity then pop_front entries else entries) ++ x ∷ []

  pushed_full :
      (n : ℕ) (xs : List A) (x : A)
      → suc n ≤ length xs
      → pushed (suc n) (last_of (suc n) xs) x ≡ last_of (suc n) (xs ++ x ∷ [])
  pushed_full n xs x h =
      let m = length xs - suc n in
      let full : length (drop m xs) ≡ suc n = omega (arith, length-drop m xs) in
      let later : length (xs ++ x ∷ []) - suc n ≡ suc m =
        omega (arith, length-append xs (x ∷ [])) in
      let kept : (if length (drop m xs) == suc n then pop_front (drop m xs) else drop m xs)
          ≡ drop (suc m) xs =
        ground (arith, full, pop_front-drop m xs) in
      ap (λ k. k ++ x ∷ []) kept
      ∙ sym (drop-append (suc m) xs (x ∷ []) (omega arith))
      ∙ ap (λ k. drop k (xs ++ x ∷ [])) (sym later)

  pushed_room :
      (n : ℕ) (xs : List A) (x : A)
      → length xs < suc n
      → pushed (suc n) (last_of (suc n) xs) x ≡ last_of (suc n) (xs ++ x ∷ [])
  pushed_room n xs x h =
      let before : length xs - suc n ≡ 0 = omega arith in
      let after : length (xs ++ x ∷ []) - suc n ≡ 0 = omega (arith, length-append xs (x ∷ [])) in
      rw (before, after) (ground arith)

  pushed-last_of :
      (n : ℕ) (xs : List A) (x : A)
      → pushed (suc n) (last_of (suc n) xs) x ≡ last_of (suc n) (xs ++ x ∷ [])
  pushed-last_of n xs x = elim (Bool-cases (leb (suc n) (length xs))) [
    | inl e ↦ pushed_full n xs x (leb→le _ _ e)
    | inr e ↦ pushed_room n xs x (ground arith)
  ]

  back-append : (xs : List A) (x : A) → back (xs ++ x ∷ []) ≡ some x
  back-append [] x = refl
  back-append (y ∷ []) x = refl
  back-append (y ∷ z ∷ xs) x = back-append (z ∷ xs) x

module _ {ℓ} {Event : Type ℓ} where
  -- The pushes of a history, oldest first.
  pub push_all_forensic : CaptureForensicRing Event → List Event → CaptureForensicRing Event
  push_all_forensic r [] = r
  push_all_forensic r (e ∷ es) = push_all_forensic (push_forensic r e) es

  forensic-recent :
      (n : ℕ) (before after : List Event)
      → push_all_forensic (record { capacity = suc n; entries = last_of (suc n) before }) after
        ≡ record { capacity = suc n; entries = last_of (suc n) (before ++ after) }
  unfolding push_all_forensic push_forensic
  forensic-recent n before [] = rw append-nil
  forensic-recent n before (e ∷ es) =
      rw (pushed-last_of n before e, push_all_forensic, push_forensic)
        (forensic-recent n (before ++ e ∷ []) es ∙ rw append_assoc)

  -- After any history of pushes a new forensic ring holds the last `capacity` events of it, oldest
  -- first; a capacity of 0 counts as 1.
  pub push_all_forensic-last_of :
      (capacity : ℕ) (history : List Event)
      → (push_all_forensic (new_forensic_ring capacity) history).entries
        ≡ last_of (max capacity 1) history
  unfolding new_forensic_ring
  push_all_forensic-last_of zero history =
      ap (λ (r : CaptureForensicRing Event). r.entries) (forensic-recent 0 [] history)
  push_all_forensic-last_of (suc n) history =
      let room : max (suc n) 1 ≡ suc n = omega arith in
      let start : 0 - suc n ≡ 0 = omega arith in
      rw room (
        ap (λ (r : CaptureForensicRing Event). r.entries)
          (rw start at (forensic-recent n [] history)))

module _ {ℓ} {Skipped : Type ℓ} where
  pub push_all_skipped : SkippedCaptureRing Skipped → List Skipped → SkippedCaptureRing Skipped
  push_all_skipped r [] = r
  push_all_skipped r (e ∷ es) = push_all_skipped (push_skipped r e) es

  skipped-recent :
      (n : ℕ) (before after : List Skipped)
      → push_all_skipped (record { capacity = suc n; entries = last_of (suc n) before }) after
        ≡ record { capacity = suc n; entries = last_of (suc n) (before ++ after) }
  unfolding push_all_skipped push_skipped
  skipped-recent n before [] = rw append-nil
  skipped-recent n before (e ∷ es) =
      rw (pushed-last_of n before e, push_all_skipped, push_skipped)
        (skipped-recent n (before ++ e ∷ []) es ∙ rw append_assoc)

  -- After any history of pushes a new ring of skipped captures holds the last `capacity` of them,
  -- oldest first; a capacity of 0 counts as 1.
  pub push_all_skipped-last_of :
      (capacity : ℕ) (history : List Skipped)
      → (push_all_skipped (new_skipped_ring capacity) history).entries
        ≡ last_of (max capacity 1) history
  unfolding new_skipped_ring
  push_all_skipped-last_of zero history =
      ap (λ (r : SkippedCaptureRing Skipped). r.entries) (skipped-recent 0 [] history)
  push_all_skipped-last_of (suc n) history =
      let room : max (suc n) 1 ≡ suc n = omega arith in
      let start : 0 - suc n ≡ 0 = omega arith in
      rw room (
        ap (λ (r : SkippedCaptureRing Skipped). r.entries)
          (rw start at (skipped-recent n [] history)))

  pub latest-push_skipped :
      (r : SkippedCaptureRing Skipped) (e : Skipped) → latest (push_skipped r e) ≡ some e
  unfolding latest push_skipped
  latest-push_skipped r e =
      back-append (if length r.entries == r.capacity then pop_front r.entries else r.entries) e
