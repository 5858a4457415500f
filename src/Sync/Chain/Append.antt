-- ===== src/Sync/Chain/Append.antt =====
-- What `SignedChain::append` writes, against `SignedChain::verify`.
use vbuff.Base.{
  bytes_ord, inl, inr, Bool-cases, ℕ, suc, ◌+◌, ◌≡◌, refl, sym, ap, ◌∙◌, true, false, List, [], ◌∷◌,
  ◌++◌, arith, same, same_iff, leb, ltb, Bytes, length, length-append,
}
use vbuff.Sync.Error.{Result-cases, Result, ok, err, invalid, ◌>>◌, fail_if}
use vbuff.Sync.Chain.{
  Crypto, ChainEntry, ChainLink, SignedChain, no_hash, last_hash, head, link_preimage, replay,
  append, verify_link, verify_from,
}
use vbuff.Sync.Chain

-- The signatures of a key verify under its public half.
pub record Verifies (c : Crypto) : Type 0 where
  pub keys : (k : Bytes) → c.is_key (c.verifying_key k) ≡ true
  pub signatures : (k m : Bytes) → c.verify (c.verifying_key k) m (c.sign k m) ≡ true

last_hash-append :
    {E : Type 0} (before : Bytes) (ls : List (ChainLink E)) (l : ChainLink E)
    → last_hash before (ls ++ l ∷ []) ≡ l.hash
unfolding last_hash
last_hash-append before [] l = refl
last_hash-append before (k ∷ ls) l = last_hash-append k.hash ls l

and_then :
    {U : Type 0} (r : Result (Unit {0})) (s : Result U) (v : U)
    → r >> s ≡ ok v
    → (r ≡ ok tt) × (s ≡ ok v)
and_then (err e) s v h = absurd (ground arith)
and_then (ok tt) s v h = (refl, h)

same_self : (x : Bytes) → same x x ≡ true
same_self x = (same_iff x x).1 refl

module _ {E State Authority : Type 0} (entry : ChainEntry E State Authority) (c : Crypto) where
  verify_from-append :
      (index : ℕ) (state : State) (before : Bytes) (authority : Authority) (ls : List (ChainLink E))
      (l : ChainLink E)
      → verify_from entry c index state before authority ls ≡ ok tt
      → verify_link entry c
          (index + length ls)
          (replay entry state ls)
          (last_hash before ls)
          authority
          l
        ≡ ok tt
      → verify_from entry c index state before authority (ls ++ l ∷ []) ≡ ok tt
  unfolding verify_from replay last_hash
  verify_from-append index state before authority [] l h k = ground arith
  verify_from-append index state before authority (m ∷ ls) l h k =
      let (first, others) =
        and_then (verify_link entry c index state before authority m)
          (verify_from entry c (suc index) (entry.apply m.payload state) m.hash authority ls) tt
          h in
      rw first (
        verify_from-append (suc index) (entry.apply m.payload state) m.hash authority ls l others
          (ground (arith, k)))

  verify_link-appended :
      (index : ℕ) (state : State) (before : Bytes) (authority : Authority) (payload : E)
      (key preimage : Bytes)
      → Verifies c
      → entry.expected_signing_key payload index state authority ≡ ok (c.verifying_key key)
      → link_preimage entry payload before ≡ ok preimage
      → verify_link entry c index state before authority (record {
        payload = payload;
        previous_hash = before;
        hash = c.blake3 preimage;
        signature = c.sign key preimage;
      })
        ≡ ok tt
  unfolding verify_link
  verify_link-appended index state before authority payload key preimage laws h k = rw (
    k,
    same_self before,
    same_self (c.blake3 preimage),
    h,
    laws.keys key,
    laws.signatures key preimage,
  )

  unfoldable signed_link : SignedChain E → E → Bytes → Bytes → ChainLink E
  signed_link chain payload key preimage = record {
    payload = payload;
    previous_hash = head chain;
    hash = c.blake3 preimage;
    signature = c.sign key preimage;
  }

  append_inv :
      (chain after : SignedChain E) (payload : E) (authority : Authority) (key hash : Bytes)
      → append entry c chain payload authority key ≡ ok (after, hash)
      → (leb entry.max_entries (length chain.entries) ≡ false)
        × (entry.expected_signing_key payload
              (length chain.entries)
              (replay entry entry.initial chain.entries)
              authority
            ≡ ok (c.verifying_key key))
        × ((preimage : Bytes) × (link_preimage entry payload (head chain) ≡ ok preimage)
            × (after.entries ≡ chain.entries ++ signed_link chain payload key preimage ∷ [])
            × (hash ≡ c.blake3 preimage))
  unfolding append signed_link
  append_inv chain after payload authority key hash e =
      elim (Bool-cases (leb entry.max_entries (length chain.entries))) [
        | inl full ↦ absurd (ground arith)
        | inr room ↦
            elim (Result-cases (
              entry.expected_signing_key payload (length chain.entries)
                (replay entry entry.initial chain.entries) authority)) [
                  | inl (_, refused) ↦ absurd (ground arith)
                  | inr (expected, allowed) ↦
                      elim (Bool-cases (same (c.verifying_key key) expected)) [
                        | inr other ↦ absurd (ground arith)
                        | inl mine ↦
                            elim (Result-cases (link_preimage entry payload (head chain))) [
                              | inl (_, long) ↦ absurd (ground arith)
                              | inr (preimage, built) ↦
                                  let known : c.verifying_key key ≡ expected =
                                    (same_iff (c.verifying_key key) expected).0 mine in
                                  let written : append entry c chain payload authority key
                                      ≡ ok (
                                        record {
                                          entries =
                                              chain.entries
                                              ++ signed_link chain payload key preimage ∷ [];
                                        },
                                        c.blake3 preimage,
                                      ) =
                                    rw (room, allowed, mine, built) refl in
                                  let same_result : ok (
                                    record {
                                      entries =
                                          chain.entries
                                          ++ signed_link chain payload key preimage ∷ [];
                                    },
                                    c.blake3 preimage,
                                  )
                                      ≡ ok (after, hash) =
                                    sym written ∙ e in
                                  (
                                    room,
                                    allowed ∙ ap ok (sym known),
                                    (
                                      preimage,
                                      built,
                                      ground (arith, same_result),
                                      ground (arith, same_result),
                                    ),
                                  )
                            ]
                      ]
                ]
      ]

  -- A chain that verifies still verifies after an append that succeeds, and the append adds one
  -- link that carries the payload and the hash that is returned, which is the new head. The
  -- signatures of a key have to verify under its public half.
  pub append-verify :
      (chain after : SignedChain E) (payload : E) (authority : Authority) (key hash : Bytes)
      → Verifies c
      → Chain.verify entry c chain authority ≡ ok tt
      → append entry c chain payload authority key ≡ ok (after, hash)
      → (Chain.verify entry c after authority ≡ ok tt)
        × (head after ≡ hash)
        × ((l : ChainLink E) × (l.payload ≡ payload)
            × (l.previous_hash ≡ head chain)
            × (after.entries ≡ chain.entries ++ l ∷ []))
  unfolding head Chain.verify signed_link
  append-verify chain after payload authority key hash laws h e =
      let (room, allowed, (preimage, built, extended, hashed)) =
        append_inv chain after payload authority key hash e in
      let (_, verified) =
        and_then (fail_if (ltb entry.max_entries (length chain.entries)) (invalid entry.label))
          (verify_from entry c 0 entry.initial no_hash authority chain.entries) tt h in
      let link =
        verify_link-appended (length chain.entries) (replay entry entry.initial chain.entries)
          (head chain) authority payload key preimage laws allowed built in
      let start : 0 + length chain.entries ≡ length chain.entries = omega arith in
      let linked =
        verify_from-append 0 entry.initial no_hash authority chain.entries
          (signed_link chain payload key preimage) verified (rw start link) in
      let bounded : ltb entry.max_entries (length after.entries) ≡ false = ground (
        arith,
        extended,
        length-append chain.entries (signed_link chain payload key preimage ∷ []),
      ) in
      (
        rw (bounded, extended) linked,
        ap (last_hash no_hash) extended
            ∙ last_hash-append no_hash chain.entries (signed_link chain payload key preimage)
            ∙ sym hashed,
        (signed_link chain payload key preimage, refl, refl, extended),
      )
