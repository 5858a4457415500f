-- ===== src/Capture/Consent.antt =====
-- crates/vbuff-core/src/trust/consent.rs: the choices on sensitive sources, the unlock timeouts and the
-- policy of a local workspace. The keys of the maps are hashes, so that no name is kept.
pub mod Choices
use vbuff.Base.{
  ℕ, ◌*◌, Bool, true, false, not, ◌&&◌, ◌||◌, ◌==◌, ltb, leb, if◌then◌else◌, Option, none, some,
  List, [], ◌∷◌, ◌++◌, Bytes, bytes_ord, length,
}
use vbuff.Base.Iter.{any}
use vbuff.Base.Maps.{get, map_insert, contains_key}
use vbuff.Base.Maps.Remove.{map_remove}
use vbuff.Types.Text.{Text, len, is_control}
use vbuff.Types.Ascii.{is_empty, trim}
use vbuff.Types.Utf8.{as_bytes}

abbrev from_secs : ℕ → ℕ
from_secs seconds = seconds * 1_000_000_000

abbrev pub max_source_bytes : ℕ
max_source_bytes = 512

abbrev pub max_source_choices : ℕ
max_source_choices = 1_024

abbrev pub max_device_bytes : ℕ
max_device_bytes = 512

abbrev pub max_device_timeouts : ℕ
max_device_timeouts = 256

abbrev pub min_unlock_timeout : ℕ
min_unlock_timeout = from_secs 30

abbrev pub max_unlock_timeout : ℕ
max_unlock_timeout = from_secs (24 * 60 * 60)

abbrev pub source_hash_domain : Bytes
source_hash_domain =
    b'v' ∷ b'b' ∷ b'u' ∷ b'f' ∷ b'f' ∷ b'-' ∷ b's' ∷ b'e' ∷ b'n' ∷ b's' ∷ b'i' ∷ b't' ∷ b'i' ∷ b'v'
    ∷ b'e' ∷ b'-' ∷ b's' ∷ b'o' ∷ b'u' ∷ b'r' ∷ b'c' ∷ b'e' ∷ b'-' ∷ b'v' ∷ b'1' ∷ 0 ∷ []

abbrev pub device_hash_domain : Bytes
device_hash_domain =
    b'v' ∷ b'b' ∷ b'u' ∷ b'f' ∷ b'f' ∷ b'-' ∷ b'u' ∷ b'n' ∷ b'l' ∷ b'o' ∷ b'c' ∷ b'k' ∷ b'-' ∷ b'd'
    ∷ b'e' ∷ b'v' ∷ b'i' ∷ b'c' ∷ b'e' ∷ b'-' ∷ b'v' ∷ b'1' ∷ 0 ∷ []

pub data SensitiveSourceChoice : Type 0 where
  skip ephemeral normal : SensitiveSourceChoice

pub data SensitiveSourceDecision : Type 0 where
  capture_normally prompt skip_capture : SensitiveSourceDecision
  capture_ephemeral : ℕ → SensitiveSourceDecision

pub record SensitiveSourceConsent : Type 0 where
  pub choices : List (Bytes × SensitiveSourceChoice)
  pub ephemeral_ttl : ℕ

pub record UnlockTimeouts : Type 0 where
  pub timeouts : List (Bytes × ℕ)

pub data ExternalAction : Type 0 where
  sync export webhook plugin ai_action network_request local_capture local_paste : ExternalAction

abbrev pub is_local : ExternalAction → Bool
is_local local_capture = true
is_local local_paste = true
is_local _ = false

-- `LocalOnlyWorkspacePolicy::allows`, with its only field.
unfoldable pub allows : Bool → ExternalAction → Bool
allows strict action = not strict || is_local action

unfoldable pub new : ℕ → Option SensitiveSourceConsent
new ephemeral_ttl =
    if not (ephemeral_ttl == 0) && leb ephemeral_ttl (from_secs (24 * 60 * 60))
    then some (record { choices = []; ephemeral_ttl = ephemeral_ttl })
    else none

abbrev pub decision_of : ℕ → Option SensitiveSourceChoice → SensitiveSourceDecision
decision_of ttl none = prompt
decision_of ttl (some skip) = skip_capture
decision_of ttl (some ephemeral) = capture_ephemeral ttl
decision_of ttl (some normal) = capture_normally

abbrev pub is_some {ℓ} : {A : Type ℓ} → Option A → Bool
is_some none = false
is_some (some a) = true

-- Whether a map of a bounded size takes an entry.
abbrev pub has_room {ℓ} : {A : Type ℓ} → ℕ → Bytes → List (Bytes × A) → Bool
has_room limit key entries = contains_key key entries || ltb (length entries) limit

module _ (blake3 : Bytes → Bytes) where
  unfoldable pub bounded_identity_hash : Bytes → Text → ℕ → Option Bytes
  unfolding trim len is_control as_bytes
  bounded_identity_hash domain value maximum_bytes =
      let trimmed = trim value in
      if is_empty trimmed || ltb maximum_bytes (len trimmed) || any is_control trimmed
      then none
      else some (blake3 (domain ++ as_bytes trimmed))

  abbrev pub source_key : Text → Option Bytes
  source_key source_app = bounded_identity_hash source_hash_domain source_app max_source_bytes

  abbrev pub decide_key : SensitiveSourceConsent → Option Bytes → SensitiveSourceDecision
  decide_key c none = skip_capture
  decide_key c (some key) = decision_of c.ephemeral_ttl (get key c.choices)

  unfoldable pub decide : SensitiveSourceConsent → Text → Bool → SensitiveSourceDecision
  unfolding bounded_identity_hash
  decide c source_app sensitive_source =
      if not sensitive_source then capture_normally else decide_key c (source_key source_app)

  abbrev pub remember_key :
      SensitiveSourceConsent → Option Bytes → SensitiveSourceChoice → SensitiveSourceConsent × Bool
  remember_key c none choice = (c, false)
  remember_key c (some key) choice =
      if has_room max_source_choices key c.choices
      then (record c { choices = map_insert key choice c.choices }, true)
      else (c, false)

  unfoldable pub remember :
      SensitiveSourceConsent → Text → SensitiveSourceChoice → SensitiveSourceConsent × Bool
  unfolding bounded_identity_hash
  remember c source_app choice = remember_key c (source_key source_app) choice

  abbrev pub forget_key : SensitiveSourceConsent → Option Bytes → SensitiveSourceConsent × Bool
  forget_key c none = (c, false)
  forget_key c (some key) =
      (record c { choices = map_remove key c.choices }, is_some (get key c.choices))

  unfoldable pub forget : SensitiveSourceConsent → Text → SensitiveSourceConsent × Bool
  unfolding bounded_identity_hash
  forget c source_app = forget_key c (source_key source_app)

  abbrev pub device_key : Text → Option Bytes
  device_key device_id = bounded_identity_hash device_hash_domain device_id max_device_bytes

  abbrev pub set_key : UnlockTimeouts → Option Bytes → ℕ → UnlockTimeouts × Bool
  set_key t none timeout = (t, false)
  set_key t (some key) timeout =
      if has_room max_device_timeouts key t.timeouts
      then (record { timeouts = map_insert key timeout t.timeouts }, true)
      else (t, false)

  unfoldable pub set : UnlockTimeouts → Text → ℕ → UnlockTimeouts × Bool
  unfolding bounded_identity_hash
  set t device_id timeout =
      if leb min_unlock_timeout timeout && leb timeout max_unlock_timeout
      then set_key t (device_key device_id) timeout
      else (t, false)

  abbrev pub timeout_key : UnlockTimeouts → Option Bytes → Option ℕ
  timeout_key t none = none
  timeout_key t (some key) = get key t.timeouts

  unfoldable pub timeout : UnlockTimeouts → Text → Option ℕ
  unfolding bounded_identity_hash
  timeout t device_id = timeout_key t (device_key device_id)

  abbrev pub is_over : Option ℕ → ℕ → Bool
  is_over none idle_for = true
  is_over (some limit) idle_for = leb limit idle_for

  unfoldable pub should_lock : UnlockTimeouts → Text → ℕ → Bool
  unfolding timeout
  should_lock t device_id idle_for = is_over (timeout t device_id) idle_for
