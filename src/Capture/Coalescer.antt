-- ===== src/Capture/Coalescer.antt =====
-- `FlavorGrowthCoalescer` and `PrimaryIntentGate` of crates/vbuff-core/src/capture/coalesce.rs. A
-- flavor is what the coalescer reads of it: its MIME type, the size of its body and its
-- realization.
pub mod Stability
use vbuff.Base.{
  ℕ, ◌+◌, ◌-◌, compare, Ordering, Bool, true, false, not, ◌&&◌, ◌||◌, Option, none, some, List, [],
  ◌∷◌, map, if◌then◌else◌, leb, ◌==◌, ◌≡◌, ◌↔◌, refl, arith, Bytes, Ord, bytes_ord, cmp_bytes,
  cmp_bytes_eq, cmp_bytes_flip, cmp_bytes_trans, then_with, reversed, same, u8_max, saturating_add,
}
use vbuff.Base.Sets.{set_extend}
use vbuff.Types.Flavor.{FlavorRealization, realized, deferred, failed, truncated}
use vbuff.Capture.Generation.{CaptureGeneration}

pub record Flavor : Type 0 where
  pub mime : Bytes
  pub byte_size : ℕ
  pub realization : FlavorRealization

-- The place of a variant in its enum, by which the derived order compares.
abbrev pub discriminant : FlavorRealization → ℕ
discriminant realized = 0
discriminant deferred = 1
discriminant failed = 2
discriminant truncated = 3

unfoldable pub cmp_flavor : Flavor → Flavor → Ordering
cmp_flavor a b = then_with (cmp_bytes a.mime b.mime) (
    then_with (compare a.byte_size b.byte_size)
      (compare (discriminant a.realization) (discriminant b.realization)))

discriminant_injective : (a b : FlavorRealization) → discriminant a ≡ discriminant b → a ≡ b
discriminant_injective realized b h = ground arith
discriminant_injective deferred b h = ground arith
discriminant_injective failed b h = ground arith
discriminant_injective truncated b h = ground arith

pub cmp_flavor_eq : (a b : Flavor) → (cmp_flavor a b ≡ Ordering.eq) ↔ (a ≡ b)
unfolding cmp_flavor
cmp_flavor_eq a b = (
  λ h.
      ground
        (arith, cmp_bytes_eq a.mime b.mime, discriminant_injective a.realization b.realization),
  λ h. ground (arith, cmp_bytes_eq a.mime b.mime),
)

pub cmp_flavor_flip : (a b : Flavor) → cmp_flavor b a ≡ reversed (cmp_flavor a b)
unfolding cmp_flavor
cmp_flavor_flip a b = ground (arith, cmp_bytes_flip a.mime b.mime)

pub cmp_flavor_trans :
    (a b c : Flavor)
    → cmp_flavor a b ≡ Ordering.lt
    → cmp_flavor b c ≡ Ordering.lt
    → cmp_flavor a c ≡ Ordering.lt
unfolding cmp_flavor
cmp_flavor_trans a b c h k = ground (
  arith,
  cmp_bytes_trans a.mime b.mime c.mime,
  cmp_bytes_eq a.mime b.mime,
  cmp_bytes_eq b.mime c.mime,
)

instance abbrev pub flavor_ord : Ord Flavor
flavor_ord = record {
  cmp = cmp_flavor;
  cmp_eq = cmp_flavor_eq;
  cmp_flip = cmp_flavor_flip;
  cmp_trans = cmp_flavor_trans;
}

pub data CoalesceDecision : Type 0 where
  wait commit restarted : CoalesceDecision

pub record FlavorGrowthCoalescer : Type 0 where
  pub generation : Option CaptureGeneration
  pub signature : List Flavor
  pub stable_observations : ℕ

abbrev pub default : FlavorGrowthCoalescer
default = record { generation = none; signature = []; stable_observations = 0 }

-- `reset` replaces the coalescer by the default one.
unfoldable pub reset : FlavorGrowthCoalescer → FlavorGrowthCoalescer
reset c = default

-- `str::to_ascii_lowercase`.
unfoldable pub to_ascii_lowercase : Bytes → Bytes
to_ascii_lowercase = map λ c. if leb b'A' c && leb c b'Z' then c + 32 else c

-- The set of (mime, size, realization) that an observation shows.
unfoldable pub signature_of : List Flavor → List Flavor
unfolding to_ascii_lowercase
signature_of flavors =
    set_extend [] (map (λ (f : Flavor). record f { mime = to_ascii_lowercase f.mime }) flavors)

abbrev pub is_deferred : FlavorRealization → Bool
is_deferred deferred = true
is_deferred _ = false

unfoldable pub has_pending : List Flavor → Bool
has_pending [] = false
has_pending (f ∷ fs) = is_deferred f.realization || has_pending fs

-- `==` on the sets and on the generations.
unfoldable pub same_signature : List Flavor → List Flavor → Bool
same_signature [] [] = true
same_signature [] (g ∷ gs) = false
same_signature (f ∷ fs) [] = false
same_signature (f ∷ fs) (g ∷ gs) = same f g && same_signature fs gs

abbrev pub same_generation : Option CaptureGeneration → Option CaptureGeneration → Bool
same_generation none none = true
same_generation none (some h) = false
same_generation (some g) none = false
same_generation (some g) (some h) = g.epoch == h.epoch && g.sequence == h.sequence

abbrev pub is_some {ℓ} : {A : Type ℓ} → Option A → Bool
is_some none = false
is_some (some a) = true

unfoldable pub observe :
    FlavorGrowthCoalescer
    → Option CaptureGeneration
    → List Flavor
    → FlavorGrowthCoalescer × CoalesceDecision
observe c generation flavors =
    let signature = signature_of flavors in
    if is_some c.generation && not (same_generation generation c.generation)
    then (
      record { generation = generation; signature = signature; stable_observations = 0 },
      restarted,
    )
    else if not (same_signature signature c.signature)
    then (record { generation = generation; signature = signature; stable_observations = 0 }, wait)
    else if has_pending flavors
    then (record c { generation = generation; stable_observations = 0 }, wait)
    else (let stable = saturating_add u8_max c.stable_observations 1 in
        (
          record c { generation = generation; stable_observations = stable },
          if leb 2 stable then commit else wait,
        ))

pub record PrimaryIntent : Type 0 where
  pub modifier_seen : Bool
  pub middle_click_seen : Bool

pub record PrimaryIntentGate : Type 0 where
  pub settle : ℕ
  pub first_seen : Option ℕ
  pub last_hash : Option Bytes

unfoldable pub new_gate : ℕ → PrimaryIntentGate
new_gate settle = record { settle = settle; first_seen = none; last_hash = none }

abbrev pub is_hash : Option Bytes → Bytes → Bool
is_hash none hash = false
is_hash (some last) hash = same last hash

-- `first_seen.is_some_and(|start| now.saturating_duration_since(start) >= settle)`.
abbrev pub is_settled : Option ℕ → ℕ → ℕ → Bool
is_settled none now settle = false
is_settled (some start) now settle = leb settle (now - start)

unfoldable pub observe_primary :
    PrimaryIntentGate → Bytes → PrimaryIntent → ℕ → PrimaryIntentGate × Bool
observe_primary g hash intent now =
    if not (is_hash g.last_hash hash)
    then (record g { last_hash = some hash; first_seen = some now }, false)
    else (
      g,
      is_settled g.first_seen now g.settle && (intent.modifier_seen || intent.middle_click_seen),
    )
