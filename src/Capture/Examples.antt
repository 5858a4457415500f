-- ===== src/Capture/Examples.antt =====
-- Concrete runs of the capture components.
use vbuff.Base.{ℕ, ◌≡◌, ◌≢◌, refl, true, false, none, some, List, [], ◌∷◌, arith}
use vbuff.Base.Sets.{set_insert, set_extend}
use vbuff.Capture.Supervisor.{
  CaptureSupervisor, resubscribe, enter_degraded_mode, subscription_lost, observe,
}
use vbuff.Capture.Supervisor.Escalation.{lose, rounds, rounds-degraded, observe-lose_unlimited}
use vbuff.Capture.Backpressure.{ByteBackpressure, admit}
use vbuff.Capture.Backpressure.Accounting.{Tracks, sum, queued_after, admit-Tracks}
use vbuff.Capture.Scheduler.{AdaptivePollScheduler}
use vbuff.Capture.Generation.{GenerationTracker}
use vbuff.Capture.Generation.Accounting.{at}
use vbuff.Types.Flavor.{realized}
use vbuff.Capture.Coalescer.{
  Flavor, default, commit, signature_of, has_pending, PrimaryIntent, PrimaryIntentGate,
  observe_primary, cmp_flavor,
}
use vbuff.Capture.Coalescer
use vbuff.Capture.Coalescer.Stability.{once, twice, observe_thrice}
use vbuff.Base.Maps.{get, contains_key}
use vbuff.Types.Text.{len_utf8}
use vbuff.Capture.Consent
use vbuff.Capture.Consent.Choices.{IsDecidedBy, remember-decide}
use vbuff.Capture.SelfWrite.{SelfWriteLedger}

abbrev supervisor : CaptureSupervisor
supervisor = record {
  resubscribe_limit = 2;
  restart_limit = 2;
  failures = 0;
  restarts = 0;
  degraded_retry = 30_000_000_000;
}

rounds-degraded_example :
    observe (lose 2 (rounds 2 supervisor)) subscription_lost
    ≡ (supervisor, enter_degraded_mode 30_000_000_000)
rounds-degraded_example = rounds-degraded supervisor (omega arith) (omega arith) refl refl

observe-lose_unlimited_example :
    (observe (lose 1_000 (record supervisor { resubscribe_limit = 255 })) subscription_lost).1
    ≡ resubscribe
observe-lose_unlimited_example =
    observe-lose_unlimited 1_000 (record supervisor { resubscribe_limit = 255 }) refl

abbrev numbers : List ℕ
numbers = 1 ∷ 2 ∷ 3 ∷ []

-- One payload of 60 bytes is queued.
abbrev queue : ByteBackpressure
queue = record {
  soft_bytes = 100;
  hard_bytes = 200;
  max_items = 3;
  preview_bytes = 16;
  queued_bytes = 60;
  queued_items = 1;
}

queue-Tracks : Tracks queue (60 ∷ [])
unfolding sum
queue-Tracks = omega arith

admit-Tracks_example : Tracks (admit queue 90).0 (queued_after (60 ∷ []) 90 (admit queue 90).1)
admit-Tracks_example = admit-Tracks queue (60 ∷ []) 90 queue-Tracks

abbrev scheduler : AdaptivePollScheduler
scheduler = record {
  minimum = 120_000_000;
  maximum = 900_000_000;
  current = 120_000_000;
  active_for = 3_000_000_000;
  active_until = some 50;
}

abbrev tracker : GenerationTracker
tracker = record { last = some (at 1 4) }

abbrev text : Flavor
text = record { mime = b't' ∷ []; byte_size = 5; realization = realized }

observe_thrice_example :
    ((Coalescer.observe default none (text ∷ [])).1 ≢ commit)
    × ((Coalescer.observe (once default none (text ∷ [])) none (text ∷ [])).1 ≢ commit)
    × ((Coalescer.observe (twice default none (text ∷ [])) none (text ∷ [])).1 ≡ commit)
unfolding has_pending signature_of set_extend set_insert
observe_thrice_example = observe_thrice default none (text ∷ []) refl (λ e. cc)

abbrev gate : PrimaryIntentGate
gate = record { settle = 10; first_seen = some 5; last_hash = some (1 ∷ []) }

abbrev middle_click : PrimaryIntent
middle_click = record { modifier_seen = false; middle_click_seen = true }

abbrev ledger : SelfWriteLedger
ledger = record { ttl = 100; capacity = 2; writes = [] }

abbrev consent : Consent.SensitiveSourceConsent
consent = record { choices = []; ephemeral_ttl = 60 }

remember-decide_example :
    IsDecidedBy
      (λ b. b)
      Consent.skip
      (Consent.source_key (λ b. b) (b'a' ∷ []))
      (Consent.source_key (λ b. b) (b'b' ∷ []))
      consent
      (Consent.decide
        (λ b. b)
        (Consent.remember (λ b. b) consent (b'a' ∷ []) Consent.skip).0
        (b'b' ∷ [])
        true)
      (Consent.decide (λ b. b) consent (b'b' ∷ []) true)
unfolding Consent.remember len_utf8 contains_key get
remember-decide_example = remember-decide (λ b. b) consent (b'a' ∷ []) (b'b' ∷ []) Consent.skip refl
