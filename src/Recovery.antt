-- ===== src/Recovery.antt =====
-- src/recovery-policy.js: the text that streams beside durable messages, and the cursors that say up
-- to which event of a run its last checkpoint reaches. A text is the list of its UTF-16 code units;
-- sequence numbers are not negative.
pub mod Gate
pub mod Cursors
pub mod Stream
pub mod Tests
use outright.Base.{
  ℕ, zero, suc, ◌-◌, Bool, true, false, ◌&&◌, ◌||◌, not, Option, none, some, if◌then◌else◌, String,
  string_eq, ◌==◌, ltb, leb, List, [], ◌∷◌, ◌++◌, length, contains,
}
use outright.Base.JsMap.{lookup, insert, erase}

-- `payload.runId`: falsy but no text, a text, or anything else.
pub data RunField : Type 0 where
  falsy other : RunField
  text : String → RunField

abbrev pub is_truthy : RunField → Bool
is_truthy falsy = false
is_truthy other = true
is_truthy (text id) = not (id == "")

pub record Message : Type 0 where
  pub id : String
  pub is_assistant : Bool
  pub run : RunField
  pub checkpoint_event_seq : Option ℕ

pub data RuntimeEvent : Type 0 where
  message_created : Message → RuntimeEvent
  assistant_delta : Option ℕ → List ℕ → RuntimeEvent
  assistant_message other_event : RuntimeEvent

-- Whether a message owns what has streamed so far: `streamingTextAfterDurableMessage` clears it.
abbrev pub is_durable : Message → Bool
is_durable message = message.is_assistant && is_truthy message.run

unfoldable pub streaming_text_after_durable_message : List ℕ → Message → List ℕ
streaming_text_after_durable_message current message = if is_durable message then [] else current

abbrev pub is_checkpointed : Option ℕ → ℕ → Bool
is_checkpointed none checkpoint = false
is_checkpointed (some seq) checkpoint = leb seq checkpoint

-- `streamingTextAfterRuntimeEvent`
unfoldable pub streaming_text_after_runtime_event : List ℕ → RuntimeEvent → ℕ → List ℕ
streaming_text_after_runtime_event current (message_created message) checkpoint =
    streaming_text_after_durable_message current message
streaming_text_after_runtime_event current (assistant_delta seq added) checkpoint =
    if is_checkpointed seq checkpoint then current else current ++ added
streaming_text_after_runtime_event current assistant_message checkpoint = []
streaming_text_after_runtime_event current other_event checkpoint = current

-- The first run in the order of the cursors that is not active.
unfoldable pub evictable : List String → List (String × ℕ) → Option String
evictable active [] = none
evictable active ((id, seq) ∷ cursors) =
    if contains active id then evictable active cursors else some id

-- The loop that evicts; it runs at most once for each cursor. An empty identifier ends it.
unfoldable pub evict : ℕ → List String → List (String × ℕ) → List (String × ℕ)
evict zero active cursors = cursors
evict (suc fuel) active cursors = elim (evictable active cursors) [
  | none ↦ cursors
  | some id ↦
      let rest = evict fuel active (erase id cursors) in
      if ltb 2048 (length cursors) && not (id == "") then rest else cursors
]

abbrev pub is_reached : Option ℕ → ℕ → Bool
is_reached none seq = false
is_reached (some previous) seq = leb seq previous

unfoldable pub set_cursor : List String → String → ℕ → List (String × ℕ) → List (String × ℕ)
set_cursor active id seq cursors =
    let moved = insert id seq (erase id cursors) in
    if is_reached (lookup id cursors) seq then cursors else evict (length moved) active moved

-- The run and the event that a checkpoint names, where both are of their kind.
unfoldable pub named_position : RunField → Option ℕ → Option (String × ℕ)
named_position (text id) (some seq) = some (id, seq)
named_position _ _ = none

abbrev pub position_of : Message → Option (String × ℕ)
position_of message = named_position message.run message.checkpoint_event_seq

-- `recordCheckpointCursor`
unfoldable pub record_checkpoint_cursor :
    List String → List (String × ℕ) → Message → List (String × ℕ)
record_checkpoint_cursor active cursors message = elim (position_of message) [
  | none ↦ cursors
  | some (id, seq) ↦ set_cursor active id seq cursors
]

-- `checkpointCursors`
unfoldable pub checkpoint_cursors :
    List String → List (String × ℕ) → List Message → List (String × ℕ)
checkpoint_cursors active cursors [] = cursors
checkpoint_cursors active cursors (message ∷ messages) =
    checkpoint_cursors active (record_checkpoint_cursor active cursors message) messages

-- `isStaleCheckpointMessage`
unfoldable pub is_stale_checkpoint_message : List (String × ℕ) → Message → Bool
is_stale_checkpoint_message cursors message = elim (position_of message) [
  | none ↦ false
  | some (id, seq) ↦ is_reached (lookup id cursors) seq
]
