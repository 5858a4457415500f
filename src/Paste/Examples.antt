-- ===== src/Paste/Examples.antt =====
-- Concrete pastes: a clip is scheduled, its target restored and confirmed, and the keystroke sent.
use vbuff.Base.{ℕ, ◌≤◌, ◌≡◌, refl, true, none, some, List, [], ◌∷◌, Bytes}
use vbuff.Base.Results.{ok}
use vbuff.Types.Text.{len, len_utf8}
use vbuff.Types.Flavor.{Flavor, plain_mime, inline, FlavorOrigin, realized}
use vbuff.Paste.Guard.{GuardOps, from_flavors}
use vbuff.Paste.Coordinator.{
  PasteCoordinator, scheduled, from_millis, retention_hint_applied, require_exclude, CopyAnswers,
  PollAnswers, prepare_target, schedule, poll,
}
use vbuff.Paste.Coordinator.Confirmed.{IsUnchanged, IsInFront}
use vbuff.Paste.Coordinator.Once.{
  Event, preparing, cancelling, scheduling, polling, run, keystrokes-le-scheduled,
}
use vbuff.Paste.Coordinator.Scheduled.{schedule-IsInFront}
use vbuff.Paste.Coordinator.Sensitive.{schedule-sensitive}

abbrev ops : GuardOps
ops = record { parse_url = λ url. none; blake3 = λ bytes. bytes }

abbrev content_hash : List Flavor → Bytes
content_hash flavors = 1 ∷ []

abbrev latest : ℕ
latest = from_millis 1_000_000

abbrev clip : List Flavor
clip =
    record {
      mime = plain_mime;
      body = inline (b'h' ∷ b'i' ∷ []);
      origin = FlavorOrigin.source;
      realization = realized;
      integrity_hash = none;
    }
    ∷ []

abbrev coordinator : PasteCoordinator ℕ
coordinator = record {
  clipboard = true;
  paste = some (record { target = some 4 });
  pending_at = none;
  pending_stage = none;
  pending_guard = none;
  target_ready = true;
  self_writes = record { ttl = 5; capacity = 3; writes = [] };
}

abbrev written : CopyAnswers
written = record {
  nonce = 9 ∷ [];
  locked = true;
  write = λ retention. some retention_hint_applied;
  written_at = 3;
  write_duration = 0;
}

abbrev answers : PollAnswers ℕ
answers = record {
  restored = λ target. ok tt;
  foreground = λ target. ok true;
  read = some clip;
  foreground_again = λ target. ok true;
  injected = ok tt;
}

schedule-IsInFront_example :
    IsUnchanged ops (from_flavors ops clip) answers.read × IsInFront coordinator.paste answers 4
unfolding schedule poll len len_utf8
schedule-IsInFront_example =
    schedule-IsInFront ops content_hash latest coordinator clip true 0 (from_millis 160) written
      ((from_millis 120, answers) ∷ []) answers 4 refl refl

schedule-sensitive_example : written.write require_exclude ≡ some retention_hint_applied
unfolding schedule
schedule-sensitive_example =
    schedule-sensitive ops content_hash latest coordinator clip 0 written scheduled refl

abbrev events : List (Event ℕ)
events =
    preparing (ok 4)
    ∷ scheduling clip true 0 written
    ∷ polling (from_millis 120) answers
    ∷ polling (from_millis 160) answers
    ∷ polling (from_millis 200) answers
    ∷ cancelling
    ∷ []

whole_run : run ops content_hash latest coordinator events ≡ (1, 1)
unfolding schedule poll prepare_target len len_utf8
whole_run = refl

keystrokes-le-scheduled_example :
    (run ops content_hash latest coordinator events).1
    ≤ (run ops content_hash latest coordinator events).0
keystrokes-le-scheduled_example =
    keystrokes-le-scheduled ops content_hash latest coordinator events refl
