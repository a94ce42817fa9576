-- ===== src/Recovery/Stream.antt =====
-- The streamed text is what no durable message owns.
use outright.Base.{
  ℕ, ◌≡◌, Bool, true, false, if◌then◌else◌, List, [], ◌∷◌, ◌++◌, any, arith, refl, sym, ◌∙◌,
}
use outright.Recovery.{
  RuntimeEvent, message_created, assistant_delta, assistant_message, other_event, is_durable,
  is_checkpointed, streaming_text_after_runtime_event, streaming_text_after_durable_message,
}
use mathlib.Core.List.{append_assoc, append-nil}

-- The events of a conversation, one after the other.
abbrev pub streaming_text : ℕ → List ℕ → List RuntimeEvent → List ℕ
streaming_text checkpoint current [] = current
streaming_text checkpoint current (event ∷ events) =
    streaming_text checkpoint (streaming_text_after_runtime_event current event checkpoint) events

-- Whether an event makes all text before it durable.
abbrev pub is_settling : RuntimeEvent → Bool
is_settling (message_created message) = is_durable message
is_settling assistant_message = true
is_settling _ = false

-- The text that an event streams beyond the checkpoint.
abbrev pub live_text : ℕ → RuntimeEvent → List ℕ
live_text checkpoint (assistant_delta seq added) =
    if is_checkpointed seq checkpoint then [] else added
live_text checkpoint _ = []

abbrev pub live_texts : ℕ → List RuntimeEvent → List ℕ
live_texts checkpoint [] = []
live_texts checkpoint (event ∷ events) = live_text checkpoint event ++ live_texts checkpoint events

-- The events after the last that settles.
abbrev pub after_settled : List RuntimeEvent → List RuntimeEvent
after_settled [] = []
after_settled (event ∷ events) =
    if any is_settling events
    then after_settled events
    else if is_settling event
    then events
    else event ∷ events

streaming_text_after_runtime_event_lem :
    (checkpoint : ℕ) (current : List ℕ) (event : RuntimeEvent)
    → streaming_text_after_runtime_event current event checkpoint
      ≡ (if is_settling event then [] else current ++ live_text checkpoint event)
unfolding streaming_text_after_runtime_event streaming_text_after_durable_message
streaming_text_after_runtime_event_lem checkpoint current (message_created message) =
    ground (arith, append-nil current)
streaming_text_after_runtime_event_lem checkpoint current (assistant_delta seq added) =
    ground (arith, append-nil current)
streaming_text_after_runtime_event_lem checkpoint current assistant_message = refl
streaming_text_after_runtime_event_lem checkpoint current other_event =
    ground (arith, append-nil current)

after_settled_all :
    (events : List RuntimeEvent) → any is_settling events ≡ false → after_settled events ≡ events
after_settled_all [] h = refl
after_settled_all (event ∷ events) h = ground (arith, h)

-- Whatever the order of deltas and durable messages, the streamed text is what the deltas beyond
-- the checkpoint bring after the last event that makes the text before it durable; without such an
-- event it follows the text there was.
pub streaming_text_lem :
    (checkpoint : ℕ) (events : List RuntimeEvent) (current : List ℕ)
    → streaming_text checkpoint current events
      ≡ (if any is_settling events then [] else current)
        ++ live_texts checkpoint (after_settled events)
streaming_text_lem checkpoint [] current = sym (append-nil current)
streaming_text_lem checkpoint (event ∷ events) current =
    streaming_text_lem checkpoint events
      (streaming_text_after_runtime_event current event checkpoint)
    ∙ ground (
      arith,
      streaming_text_after_runtime_event_lem checkpoint current event,
      after_settled_all events,
      append_assoc current (live_text checkpoint event) (live_texts checkpoint events),
    )
