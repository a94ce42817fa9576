-- ===== src/Worktree/Lifecycle.antt =====
-- src/lib/worktree-lifecycle.js: the client's states of worktree setup and teardown, the output
-- streamed to them, and what a user may do about a removal that was refused. A text is the list of
-- its UTF-16 code units.
pub mod Snapshot
pub mod Output
pub mod Removal
pub mod Tests
use outright.Base.{
  ℕ, ◌+◌, ◌-◌, ◌*◌, Bool, true, false, ◌&&◌, ◌||◌, not, Option, none, some, if◌then◌else◌, String,
  string_eq, ◌==◌, ltb, leb, List, [], ◌∷◌, ◌++◌, length, drop, filter, any, contains, is_some, map,
}

-- A run's identity in a state or an event, which may lack one.
pub data RunId : Type 0 where
  undefined null : RunId
  run : String → RunId

unfoldable pub run_beq : RunId → RunId → Bool
run_beq undefined undefined = true
run_beq null null = true
run_beq (run a) (run b) = a == b
run_beq _ _ = false

pub record LifecycleState : Type 0 where
  pub worktree_path : String
  pub project_id : String
  pub discovered_path : Option String
  pub revision : ℕ
  pub removed : Bool
  pub run_id : RunId
  pub output : List ℕ
  pub output_end : Option ℕ
  pub output_truncated : Bool

pub record OutputEvent : Type 0 where
  pub worktree_path : String
  pub run_id : RunId
  pub start : ℕ
  pub text : Option (List ℕ)

-- LIFECYCLE_OUTPUT_CHARACTERS
abbrev pub output_characters : ℕ
output_characters = 32 * 1024

-- What an event does to a state.
pub data Update : Type 0 where
  nothing reload : Update
  next : LifecycleState → Update

abbrev pub or_length : Option ℕ → List ℕ → ℕ
or_length none output = length output
or_length (some end) output = end

-- The output joined with what the event adds, cut to its last characters.
abbrev pub add_text : LifecycleState → ℕ → List ℕ → ℕ → LifecycleState
add_text state start text end =
    let output = state.output ++ drop (end - start) text in
    if ltb output_characters (length output)
    then record state {
      output = drop (length output - output_characters) output;
      output_end = some (start + length text);
      output_truncated = true;
    }
    else record state { output = output; output_end = some (start + length text) }

unfoldable pub text_update : LifecycleState → ℕ → List ℕ → Update
text_update state start text =
    let end = or_length state.output_end state.output in
    if leb (start + length text) end
    then nothing
    else if ltb end start
    then reload
    else next (add_text state start text end)

-- `lifecycleOutputUpdate` of a state and an event that are there.
unfoldable pub lifecycle_output_update : LifecycleState → OutputEvent → Update
lifecycle_output_update state payload = elim payload.text [
  | none ↦ nothing
  | some text ↦
      if not (payload.worktree_path == state.worktree_path)
      then nothing
      else if not (run_beq payload.run_id state.run_id)
      then reload
      else text_update state payload.start text
]

-- `states.find(state => state.worktreePath === path)`
unfoldable pub find_path : String → List LifecycleState → Option LifecycleState
find_path path [] = none
find_path path (state ∷ states) =
    if state.worktree_path == path then some state else find_path path states

-- The states without the one that `find_path` finds.
unfoldable pub remove_found : String → List LifecycleState → List LifecycleState
remove_found path [] = []
remove_found path (state ∷ states) =
    if state.worktree_path == path then states else state ∷ remove_found path states

abbrev pub is_newer : Option LifecycleState → ℕ → Bool
is_newer none revision = false
is_newer (some current) revision = ltb revision current.revision

-- A revision that the watermark covers; none is -Infinity.
abbrev pub is_covered : ℕ → Option ℕ → Bool
is_covered revision none = false
is_covered revision (some watermark) = leb revision watermark

-- `upsertLifecycleState`
unfoldable pub upsert_lifecycle_state :
    List LifecycleState → LifecycleState → Option ℕ → List LifecycleState
upsert_lifecycle_state states payload watermark =
    if is_newer (find_path payload.worktree_path states) payload.revision
      || is_covered payload.revision watermark
    then states
    else payload ∷ remove_found payload.worktree_path states

abbrev pub later_than : ℕ → LifecycleState → Bool
later_than revision state = ltb revision state.revision

abbrev pub is_unpublished : List LifecycleState → LifecycleState → Bool
is_unpublished newer state =
    not (contains (map (λ other. other.worktree_path) newer) state.worktree_path)

-- `mergeLifecycleSnapshot`
unfoldable pub merge_lifecycle_snapshot :
    List LifecycleState → List LifecycleState → ℕ → List LifecycleState
merge_lifecycle_snapshot states snapshot revision =
    let newer = filter (later_than revision) states in
    newer ++ filter (is_unpublished newer) snapshot

-- A removal's refusal.
pub data Code : Type 0 where
  teardown_failed trust_required config_invalid outcome_unknown acknowledgement_stale agent_active
        other_code :
      Code

pub data Choice : Type 0 where
  acknowledge retry skip unchosen : Choice

unfoldable pub choice_beq : Choice → Choice → Bool
choice_beq acknowledge acknowledge = true
choice_beq retry retry = true
choice_beq skip skip = true
choice_beq unchosen unchosen = true
choice_beq _ _ = false

pub record Refusal : Type 0 where
  pub code : Code
  pub run_id : Option String
  pub lifecycle_run_id : Option String
  pub lifecycle_outcome_unknown : Bool
  pub teardown : Bool

pub record TeardownProblem : Type 0 where
  pub worktree_path : String
  pub choices : List Choice
  pub outcome_unknown : Bool
  pub run_id : Option String
  pub teardown : Bool
  pub choice : Choice

-- TEARDOWN_PROBLEMS
abbrev pub is_teardown_problem : Code → Bool
is_teardown_problem other_code = false
is_teardown_problem _ = true

abbrev pub is_unknown_code : Code → Bool
is_unknown_code outcome_unknown = true
is_unknown_code acknowledgement_stale = true
is_unknown_code _ = false

abbrev pub is_agent_active : Code → Bool
is_agent_active agent_active = true
is_agent_active _ = false

abbrev pub is_unknown : Refusal → Bool
is_unknown refusal = is_unknown_code refusal.code || refusal.lifecycle_outcome_unknown

abbrev pub or_run : Option String → Option String → Option String
or_run none other = other
or_run (some id) other = some id

-- `Boolean(runId)`
abbrev pub is_named : Option String → Bool
is_named none = false
is_named (some id) = not (id == "")

abbrev pub refusal_run : Refusal → Option String
refusal_run refusal =
    if is_unknown refusal then or_run refusal.run_id refusal.lifecycle_run_id else none

unfoldable pub refusal_choices : Refusal → List Choice
refusal_choices refusal =
    if is_agent_active refusal.code || (is_unknown refusal && not (is_named (refusal_run refusal)))
    then []
    else if is_unknown refusal && not refusal.teardown
    then acknowledge ∷ []
    else (if is_unknown refusal then acknowledge else retry) ∷ skip ∷ []

abbrev pub first_choice : List Choice → Choice
first_choice [] = unchosen
first_choice (choice ∷ choices) = choice

-- `teardownProblem`
unfoldable pub teardown_problem : Refusal → String → Option TeardownProblem
teardown_problem refusal path =
    if not (is_teardown_problem refusal.code)
    then none
    else some (record {
      worktree_path = path;
      choices = refusal_choices refusal;
      outcome_unknown = is_unknown refusal;
      run_id = refusal_run refusal;
      teardown = refusal.teardown;
      choice = if is_unknown refusal then unchosen else first_choice (refusal_choices refusal);
    })

-- The fields of a removal request that a problem decides; a run acknowledged may be null.
pub record RemovalBody : Type 0 where
  pub skip_teardown : Bool
  pub acknowledge_unconfirmed : Option (Option String)

unfoldable pub is_offered : List Choice → Choice → Bool
is_offered [] choice = false
is_offered (offer ∷ offers) choice = choice_beq offer choice || is_offered offers choice

abbrev pub plain : RemovalBody
plain = record { skip_teardown = false; acknowledge_unconfirmed = none }

-- `removalRequest`
unfoldable pub removal_request : String → Option TeardownProblem → RemovalBody
removal_request path none = plain
removal_request path (some problem) =
    if not (problem.worktree_path == path) || not (is_offered problem.choices problem.choice)
    then plain
    else record {
      skip_teardown = choice_beq problem.choice skip;
      acknowledge_unconfirmed =
          if problem.outcome_unknown
            && (choice_beq problem.choice acknowledge || choice_beq problem.choice skip)
          then some problem.run_id
          else none;
    }
