-- ===== src/Recovery/Tests.antt =====
-- Runs of the cursors and of the streamed text, and the theorems at them.
use outright.Base.{
  ℕ, ◌≡◌, refl, true, some, if◌then◌else◌, String, string_eq, List, [], ◌∷◌, ◌++◌, any, arith,
}
use outright.Recovery.{
  RunField, Message, RuntimeEvent, message_created, assistant_delta, named_position,
  record_checkpoint_cursor, checkpoint_cursors, is_stale_checkpoint_message,
}
use outright.Recovery.Cursors.{checkpoint_cursors_stale}
use outright.Recovery.Stream.{
  streaming_text, streaming_text_lem, is_settling, live_texts, after_settled,
}

abbrev checkpoint : String → ℕ → Message
checkpoint id seq = record {
  id = id;
  is_assistant = true;
  run = RunField.text "r";
  checkpoint_event_seq = some seq;
}

abbrev active : List String
active = "r" ∷ []

checkpoint_cursors_stale_example :
    is_stale_checkpoint_message
      (checkpoint_cursors active
        (record_checkpoint_cursor active [] (checkpoint "m2" 7))
        (checkpoint "m3" 9 ∷ []))
      (checkpoint "m1" 5)
    ≡ true
unfolding named_position
checkpoint_cursors_stale_example =
    checkpoint_cursors_stale active [] (checkpoint "m2" 7) (checkpoint "m1" 5)
      (checkpoint "m3" 9 ∷ []) "r" 7 5 refl refl refl (omega arith)

abbrev streamed : List RuntimeEvent
streamed =
    assistant_delta (some 6) (1 ∷ [])
    ∷ message_created (checkpoint "m2" 7)
    ∷ assistant_delta (some 7) (2 ∷ [])
    ∷ assistant_delta (some 8) (3 ∷ [])
    ∷ []

streaming_text_lem_example :
    streaming_text 7 (9 ∷ []) streamed
    ≡ (if any is_settling streamed then [] else (9 ∷ [])) ++ live_texts 7 (after_settled streamed)
streaming_text_lem_example = streaming_text_lem 7 streamed (9 ∷ [])

live_run : live_texts 7 (after_settled streamed) ≡ 3 ∷ []
live_run = refl
