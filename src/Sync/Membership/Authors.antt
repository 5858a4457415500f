-- ===== src/Sync/Membership/Authors.antt =====
-- Who may have written the entries of a membership log that verifies.
use vbuff.Base.{
  some_injective, ℕ, suc, ◌≡◌, ◌∙◌, refl, sym, ap, subst, true, false, not, ◌||◌, ◌==◌, same,
  same_iff, ltb, Option, none, some, List, [], ◌∷◌, Bytes, bytes_ord, arith, length,
}
use vbuff.Base.Maps.{get, contains_key}
use vbuff.Sync.Error.{
  Result, ok, invalid, crypto, fail_if, ok_injective, bind_inv, fail_if_inv, ◌>>=◌, ◌>>◌,
}
use vbuff.Sync.Validation.{is_valid_identifier}
use vbuff.Sync.Sealing.{SealOps}
use vbuff.Sync.Chain.{
  Crypto, ChainEntry, ChainLink, SignedChain, no_hash, link_preimage, verify_link, verify_from,
}
use vbuff.Sync.Chain
use vbuff.Sync.Membership.{
  max_device_id_bytes, DeviceMember, MembershipEntry, MembershipState, default, apply, or_owner,
  is_not_owner, is_not_after, validate_author, validate_action, validate_entry_semantics,
  key_of_author, expected_signing_key, membership,
}

module _ {E State Authority : Type 0} (entry : ChainEntry E State Authority) (c : Crypto) where
  -- A link that verifies is signed by the key that the entry expects.
  verify_link_inv :
      (index : ℕ) (state : State) (before : Bytes) (authority : Authority) (l : ChainLink E)
      → verify_link entry c index state before authority l ≡ ok tt
      → (preimage : Bytes) × (expected : Bytes) × (link_preimage entry l.payload l.previous_hash
          ≡ ok preimage)
        × (entry.expected_signing_key l.payload index state authority ≡ ok expected)
        × (c.verify expected preimage l.signature ≡ true)
  unfolding verify_link
  verify_link_inv index state before authority l h =
      let signed : Bytes → Bytes → Result (Unit {0}) = λ preimage expected.
        fail_if (not (c.is_key expected)) crypto
        >> fail_if (not (c.verify expected preimage l.signature)) crypto in
      let keyed : Bytes → Result (Unit {0}) = λ preimage.
        fail_if (not (same l.previous_hash before) || not (same (c.blake3 preimage) l.hash))
          (invalid entry.label)
        >> (entry.expected_signing_key l.payload index state authority >>= signed preimage) in
      let (preimage, built, h) =
        bind_inv (link_preimage entry l.payload l.previous_hash) keyed tt h in
      let (_, _, h) =
        bind_inv
          (fail_if (not (same l.previous_hash before) || not (same (c.blake3 preimage) l.hash))
            (invalid entry.label))
          (λ _. entry.expected_signing_key l.payload index state authority >>= signed preimage) tt
          h in
      let (expected, known, h) =
        bind_inv (entry.expected_signing_key l.payload index state authority) (signed preimage) tt
          h in
      let (_, _, h) =
        bind_inv (fail_if (not (c.is_key expected)) crypto)
          (λ _. fail_if (not (c.verify expected preimage l.signature)) crypto) tt h in
      let holds = fail_if_inv (not (c.verify expected preimage l.signature)) crypto h in
      (preimage, expected, built, known, ground (arith, holds))

  verify_from_inv :
      (index : ℕ) (state : State) (before : Bytes) (authority : Authority) (l : ChainLink E)
      (links : List (ChainLink E))
      → verify_from entry c index state before authority (l ∷ links) ≡ ok tt
      → (verify_link entry c index state before authority l ≡ ok tt)
        × (verify_from entry c (suc index) (entry.apply l.payload state) l.hash authority links
            ≡ ok tt)
  unfolding verify_from
  verify_from_inv index state before authority l links h =
      let rest =
        verify_from entry c (suc index) (entry.apply l.payload state) l.hash authority links in
      let (_, first, h) =
        bind_inv (verify_link entry c index state before authority l) (λ _. rest) tt h in
      (first, h)

module _ (c : Crypto) (seal : SealOps) where
  -- A link is by the owner, later than the one before, and signed with the key that the owner, who is
  -- active, is registered with.
  abbrev IsSigned : Bytes → MembershipState → ChainLink MembershipEntry → Type 0
  IsSigned owner state l =
      (l.payload.added_by ≡ owner)
      × (is_not_after state.previous_clock l.payload.clock ≡ false)
      × ((member : DeviceMember) × (preimage : Bytes) × (get owner state.active ≡ some member)
          × (link_preimage (membership seal) l.payload l.previous_hash ≡ ok preimage)
          × (c.verify member.signing_key preimage l.signature ≡ true))

  abbrev pub AllSigned : Bytes → MembershipState → List (ChainLink MembershipEntry) → Type 0
  AllSigned owner state [] = Unit {0}
  AllSigned owner state (l ∷ links) =
      IsSigned owner state l × AllSigned owner (apply l.payload state) links

  is_not_owner_inv :
      (found : Option Bytes) (author : Bytes)
      → is_not_owner found author ≡ false
      → found ≡ some author
  is_not_owner_inv none author h = absurd (ground (arith, h))
  is_not_owner_inv (some owner) author h =
      ap (λ q. some q) ((same_iff owner author).0 (ground (arith, h)))

  key_of_author_inv :
      (found : Option DeviceMember) (key : Bytes)
      → key_of_author seal found ≡ ok key
      → (member : DeviceMember) × (found ≡ some member) × (member.signing_key ≡ key)
  key_of_author_inv none key h = absurd (ground (arith, h))
  key_of_author_inv (some member) key h = (member, refl, ok_injective h)

  validate_inv :
      (state : MembershipState) (e : MembershipEntry)
      → validate_entry_semantics seal false state e ≡ ok tt
      → (state.owner ≡ some e.added_by) × (is_not_after state.previous_clock e.clock ≡ false)
  unfolding validate_entry_semantics
  validate_inv state e h =
      let is_later =
        fail_if (is_not_after state.previous_clock e.clock)
          (invalid "membership clock must advance monotonically") in
      let named =
        fail_if (not (is_valid_identifier e.added_by max_device_id_bytes))
          (invalid "membership author identifier is invalid") in
      let node =
        fail_if (not (is_valid_identifier e.clock.node_id max_device_id_bytes))
          (invalid "membership clock node identifier is invalid") in
      let owner_check =
        fail_if (is_not_owner state.owner e.added_by)
          (invalid "membership entries after the first are authored only by the owner") in
      let active_check =
        fail_if (not (contains_key e.added_by state.active))
          (invalid "membership change was not authorized by an active device") in
      let end = is_later >> validate_action seal state e.action in
      let (_, _, h) =
        bind_inv named (λ _. node >> (validate_author seal false state e >> end)) tt h in
      let (_, _, h) = bind_inv node (λ _. validate_author seal false state e >> end) tt h in
      let (_, authored, h) = bind_inv (validate_author seal false state e) (λ _. end) tt h in
      let (_, later, _) = bind_inv is_later (λ _. validate_action seal state e.action) tt h in
      let (_, owned, _) = bind_inv owner_check (λ _. active_check) tt authored in
      (
        is_not_owner_inv state.owner e.added_by (
            fail_if_inv (is_not_owner state.owner e.added_by)
              (invalid "membership entries after the first are authored only by the owner") owned),
        fail_if_inv (is_not_after state.previous_clock e.clock)
            (invalid "membership clock must advance monotonically") later,
      )

  expected_inv :
      (index : ℕ) (state : MembershipState) (e : MembershipEntry) (key : Bytes)
      → expected_signing_key seal e (suc index) state tt ≡ ok key
      → (validate_entry_semantics seal false state e ≡ ok tt)
        × (key_of_author seal (get e.added_by state.active) ≡ ok key)
  unfolding expected_signing_key
  expected_inv index state e key h =
      let later : (suc index == 0) ≡ false = ground arith in
      let opened : expected_signing_key seal e (suc index) state tt ≡ (
          validate_entry_semantics seal false state e
          >> key_of_author seal (get e.added_by state.active)) =
        rw later refl in
      let (_, valid, h) =
        bind_inv (validate_entry_semantics seal false state e)
          (λ _. key_of_author seal (get e.added_by state.active)) key (sym opened ∙ h) in
      (valid, h)

  apply-owner :
      (owner : Bytes) (state : MembershipState) (e : MembershipEntry)
      → state.owner ≡ some owner
      → (apply e state).owner ≡ some owner
  unfolding apply
  apply-owner owner state e h = ap (λ q. or_owner q e.added_by) h

  verify_from-AllSigned :
      (index : ℕ) (owner : Bytes) (state : MembershipState) (before : Bytes)
      (links : List (ChainLink MembershipEntry))
      → state.owner ≡ some owner
      → verify_from (membership seal) c (suc index) state before tt links ≡ ok tt
      → AllSigned owner state links
  verify_from-AllSigned index owner state before [] o h = tt
  verify_from-AllSigned index owner state before (l ∷ links) o h =
      let (first, others) =
        verify_from_inv (membership seal) c (suc index) state before tt l links h in
      let (preimage, key, built, expected, signed) =
        verify_link_inv (membership seal) c (suc index) state before tt l first in
      let (valid, author_key) = expected_inv index state l.payload key expected in
      let (owned, later) = validate_inv state l.payload valid in
      let (member, active, registered) =
        key_of_author_inv (get l.payload.added_by state.active) key author_key in
      let own : l.payload.added_by ≡ owner = some_injective (sym owned ∙ o) in
      (
        (
          own,
          later,
          (
            member,
            preimage,
            subst (λ q. get q state.active ≡ some member) own active,
            built,
            subst (λ q. c.verify q preimage l.signature ≡ true) (sym registered) signed,
          ),
        ),
        verify_from-AllSigned (suc index) owner (apply l.payload state) l.hash links
            (apply-owner owner state l.payload o) others,
      )

-- In a log that verifies, every entry after the first is written by the first entry's author, at a
-- later clock than the entry before it, while that author is an active device; and it is signed with
-- the key under which the author is then registered.
pub verify-AllSigned :
    (c : Crypto) (seal : SealOps) (log : SignedChain MembershipEntry)
    (first : ChainLink MembershipEntry) (links : List (ChainLink MembershipEntry))
    → log.entries ≡ first ∷ links
    → Chain.verify (membership seal) c log tt ≡ ok tt
    → AllSigned c seal first.payload.added_by (apply first.payload default) links
unfolding Chain.verify apply
verify-AllSigned c seal log first links e h =
    let entry = membership seal in
    let (_, _, h) =
      bind_inv (fail_if (ltb entry.max_entries (length log.entries)) (invalid entry.label))
        (λ _. verify_from entry c 0 entry.initial no_hash tt log.entries) tt h in
    let (_, others) =
      verify_from_inv entry c 0 entry.initial no_hash tt first links
        (subst (λ q. verify_from entry c 0 entry.initial no_hash tt q ≡ ok tt) e h) in
    verify_from-AllSigned c seal 0 first.payload.added_by (apply first.payload default) first.hash
      links refl others
