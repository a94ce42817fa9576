-- ===== src/Worktree/Lifecycle/Tests.antt =====
-- Runs of the client's lifecycle states on concrete events, and the theorems at them.
use outright.Base.{
  ℕ, ◌≡◌, refl, true, false, none, some, String, string_eq, List, [], ◌∷◌, arith, different,
}
use outright.Worktree.Lifecycle.{
  LifecycleState, OutputEvent, run, run_beq, lifecycle_output_update, find_path,
  upsert_lifecycle_state, merge_lifecycle_snapshot, Refusal, Code, Choice, skip, acknowledge,
  teardown_problem, removal_request, RemovalBody, refusal_run, is_unknown, is_named,
  refusal_choices, is_offered, choice_beq,
}
use outright.Worktree.Lifecycle.Snapshot.{
  IsKeyed, merge_lifecycle_snapshot-upsert, upsert_lifecycle_state_comm,
}
use outright.Worktree.Lifecycle.Output.{Outcome, lifecycle_output_update-IsShown}
use outright.Worktree.Lifecycle.Removal.{chosen, removal_request_acknowledges}

abbrev state_at : String → ℕ → LifecycleState
state_at path revision = record {
  worktree_path = path;
  project_id = "p";
  discovered_path = none;
  revision = revision;
  removed = false;
  run_id = run "r";
  output = 1 ∷ 2 ∷ [];
  output_end = some 3;
  output_truncated = true;
}

abbrev two : List LifecycleState
two = state_at "/a" 2 ∷ state_at "/b" 5 ∷ []

two-IsKeyed : IsKeyed two
two-IsKeyed path = ground (
  arith,
  string_eq.same_iff "/a" path,
  string_eq.same_iff "/b" path,
  different {A = String} "/a" "/b" refl,
)

merge_lifecycle_snapshot-upsert_example :
    find_path "/a" (
      merge_lifecycle_snapshot
        (upsert_lifecycle_state two (state_at "/a" 6) (some 1))
        (state_at "/a" 4 ∷ [])
        4)
    ≡ find_path "/a" (
        upsert_lifecycle_state
          (merge_lifecycle_snapshot two (state_at "/a" 4 ∷ []) 4)
          (state_at "/a" 6)
          (some 4))
unfolding find_path
merge_lifecycle_snapshot-upsert_example =
    merge_lifecycle_snapshot-upsert "/a" two (state_at "/a" 4 ∷ []) (state_at "/a" 6) 4 1
      two-IsKeyed refl (omega arith)

upsert_lifecycle_state_comm_example :
    find_path "/a" (
      upsert_lifecycle_state
        (upsert_lifecycle_state two (state_at "/a" 6) none)
        (state_at "/a" 7)
        none)
    ≡ find_path "/a" (
        upsert_lifecycle_state
          (upsert_lifecycle_state two (state_at "/a" 7) none)
          (state_at "/a" 6)
          none)
upsert_lifecycle_state_comm_example =
    upsert_lifecycle_state_comm "/a" two (state_at "/a" 6) (state_at "/a" 7) none (omega arith)

abbrev written : List ℕ
written = 0 ∷ 1 ∷ 2 ∷ 3 ∷ 4 ∷ []

abbrev more_output : OutputEvent
more_output = record { worktree_path = "/a"; run_id = run "r"; start = 2; text = some (2 ∷ 3 ∷ []) }

lifecycle_output_update-IsShown_example :
    Outcome written (state_at "/a" 2) 2 4 (lifecycle_output_update (state_at "/a" 2) more_output)
unfolding run_beq
lifecycle_output_update-IsShown_example =
    lifecycle_output_update-IsShown written (state_at "/a" 2) more_output (2 ∷ 3 ∷ [])
      (omega arith, omega arith, refl) refl refl refl (omega arith, refl)

abbrev shown : String
shown = "/a"

abbrev attempt : String
attempt = "r"

abbrev unconfirmed : Refusal
unconfirmed = record {
  code = Code.outcome_unknown;
  run_id = some "r";
  lifecycle_run_id = none;
  lifecycle_outcome_unknown = false;
  teardown = true;
}

abbrev request : Choice → RemovalBody
request pick = removal_request "/a" (chosen (teardown_problem unconfirmed "/a") pick)

acknowledged_run : (request acknowledge).acknowledge_unconfirmed ≡ some (some "r")
unfolding removal_request teardown_problem refusal_choices is_offered choice_beq
acknowledged_run = refl

removal_request_acknowledges_example :
    (shown ≡ shown)
    × (is_unknown unconfirmed ≡ true)
    × (some attempt ≡ refusal_run unconfirmed)
    × (is_named (some attempt) ≡ true)
removal_request_acknowledges_example =
    removal_request_acknowledges unconfirmed "/a" "/a" acknowledge (some "r") acknowledged_run

skipped : (request skip).skip_teardown ≡ true
unfolding removal_request teardown_problem refusal_choices is_offered choice_beq
skipped = refl
