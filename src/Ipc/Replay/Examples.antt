-- ===== src/Ipc/Replay/Examples.antt =====
-- A concrete replay of five events, two at a time.
use vbuff.Base.{ℕ, ◌≡◌, refl, false, leb, none, List, [], ◌∷◌, length}
use vbuff.Base.Iter.{retain}
use vbuff.Ipc.Event.{EventEnvelope, EventKind}
use vbuff.Ipc.Replay.{EventReplayCursor, select}
use vbuff.Ipc.Replay.Complete.{pages, select_complete}

abbrev event : ℕ → EventEnvelope
event sequence = record {
  sequence = sequence;
  kind = EventKind.captured;
  clip_id = none;
  collection_id = none;
  sensitive = false;
}

abbrev events : List EventEnvelope
events = event 3 ∷ event 4 ∷ event 7 ∷ event 8 ∷ event 9 ∷ []

abbrev cursor : EventReplayCursor
cursor = record { stream_id = b's' ∷ []; next_sequence = 4 }

select_complete_example :
    pages (length events) cursor 2 events 2
    ≡ retain (λ e. leb cursor.next_sequence e.sequence) events
unfolding select
select_complete_example = select_complete cursor 2 events (event 4 ∷ event 7 ∷ []) 2 refl
