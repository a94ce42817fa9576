-- ===== src/Recovery/Gate.antt =====
-- src/recovery-policy.js: which interrupted run holds a conversation back, and what its notice offers.
-- An identifier that is missing is none, and equals another that is missing.
use outright.Base.{
  Bool, true, false, ◌&&◌, ◌||◌, ◌≡◌, not, if◌then◌else◌, ◌==◌, string_eq, String, Option, none,
  some, List, [], ◌∷◌, filter, any, is_some, arith, refl,
}

-- A run, with whether its recovery class is unknown and whether it has a decision, a process and a
-- worktree.
pub record Run : Type 0 where
  pub id : String
  pub conversation_id : Option String
  pub is_interrupted : Bool
  pub is_decided : Bool
  pub is_unknown : Bool
  pub has_pid : Bool
  pub has_worktree : Bool

pub record Conversation : Type 0 where
  pub id : Option String
  pub worktree_interrupted_run : Option Run
  pub oldest_interrupted_run : Option Run
  pub runs : List Run

abbrev pub last_run : List Run → Option Run
last_run [] = none
last_run (run ∷ []) = some run
last_run (run ∷ next ∷ runs) = last_run (next ∷ runs)

abbrev pub is_waiting : Run → Bool
is_waiting run = run.is_interrupted && not run.is_decided

abbrev pub or_run : Option Run → Option Run → Option Run
or_run none other = other
or_run (some run) other = some run

-- `recoveryGate`
unfoldable pub recovery_gate : Conversation → Option Run
recovery_gate conversation =
    or_run conversation.worktree_interrupted_run
      (or_run conversation.oldest_interrupted_run (last_run (filter is_waiting conversation.runs)))

-- `isComposerSubmitKey`, of the key Enter or not and what was held.
abbrev pub is_composer_submit_key : Bool → Bool → Bool → Bool → Bool
is_composer_submit_key enter shift composing repeated =
    enter && not shift && not composing && not repeated

-- `draftAfterSubmission`
unfoldable pub draft_after_submission : String → String → String
draft_after_submission current submitted = if current == submitted then "" else current

-- `isUnverifiableLegacyRecovery`
abbrev pub is_unverifiable_legacy_recovery : Option Run → Bool
is_unverifiable_legacy_recovery none = false
is_unverifiable_legacy_recovery (some run) =
    run.is_unknown && not run.has_pid && not run.has_worktree

abbrev pub same_id : Option String → Option String → Bool
same_id none none = true
same_id none (some right) = false
same_id (some left) none = false
same_id (some left) (some right) = left == right

-- `recoveryBelongsToConversation`
abbrev pub recovery_belongs_to_conversation : Option Run → Option Conversation → Bool
recovery_belongs_to_conversation (some run) (some conversation) =
    same_id run.conversation_id conversation.id
recovery_belongs_to_conversation _ _ = false

pub data NoticeAction : Type 0 where
  discard_unverifiable owner open_recovery : NoticeAction

-- `recoveryNoticeAction`
unfoldable pub recovery_notice_action : Option Run → Option Conversation → NoticeAction
recovery_notice_action run conversation =
    if is_unverifiable_legacy_recovery run
    then NoticeAction.discard_unverifiable
    else if recovery_belongs_to_conversation run conversation
    then NoticeAction.owner
    else NoticeAction.open_recovery

abbrev pub is_named : Option String → Bool
is_named none = false
is_named (some id) = not (id == "")

-- `shouldReloadConversationForResolvedRun`, of an event that is of one of its two types or not.
unfoldable pub should_reload_conversation_for_resolved_run :
    Bool → Option String → Option String → Option String → Option String → Bool
should_reload_conversation_for_resolved_run resolved conversation run selected interrupted =
    resolved && (same_id conversation selected || is_named run && same_id run interrupted)

grown_last : (run : Run) (runs : List Run) → is_some (last_run (run ∷ runs)) ≡ true
grown_last run [] = refl
grown_last run (next ∷ runs) = grown_last next runs

is_some-or_run :
    (left right : Option Run) → is_some (or_run left right) ≡ (is_some left || is_some right)
is_some-or_run none right = refl
is_some-or_run (some run) right = refl

is_some-last_run :
    (runs : List Run) → is_some (last_run (filter is_waiting runs)) ≡ any is_waiting runs
is_some-last_run [] = refl
is_some-last_run (run ∷ runs) =
    ground (arith, is_some-last_run runs, grown_last run (filter is_waiting runs))

-- A conversation is held back exactly where its worktree has an interrupted run, an older run was
-- interrupted, or one of its runs was interrupted and is not decided.
pub recovery_gate_lem :
    (conversation : Conversation)
    → is_some (recovery_gate conversation) ≡ (
        is_some conversation.worktree_interrupted_run
        || is_some conversation.oldest_interrupted_run
        || any is_waiting conversation.runs)
unfolding recovery_gate
recovery_gate_lem conversation =
    let waiting = last_run (filter is_waiting conversation.runs) in
    ground (
      arith,
      is_some-or_run conversation.worktree_interrupted_run
          (or_run conversation.oldest_interrupted_run waiting),
      is_some-or_run conversation.oldest_interrupted_run waiting,
      is_some-last_run conversation.runs,
    )
