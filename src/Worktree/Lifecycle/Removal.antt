-- ===== src/Worktree/Lifecycle/Removal.antt =====
-- What a removal request may override.
use outright.Base.{true, ◌≡◌, Option, none, some, if◌then◌else◌, String, string_eq, arith}
use outright.Worktree.Lifecycle.{
  Choice, acknowledge, retry, skip, unchosen, choice_beq, Refusal, TeardownProblem, is_unknown,
  is_named, refusal_run, refusal_choices, teardown_problem, removal_request, is_offered,
}

-- The problem with the user's choice.
abbrev pub chosen : Option TeardownProblem → Choice → Option TeardownProblem
chosen none choice = none
chosen (some problem) choice = some (record problem { choice = choice })

-- A removal request acknowledges processes that are not confirmed stopped only for the worktree
-- whose refusal was shown, where the refusal was of that kind, and it names the run shown.
pub removal_request_acknowledges :
    (refusal : Refusal) (shown path : String) (choice : Choice) (run : Option String)
    → (removal_request path
        (chosen (teardown_problem refusal shown) choice)).acknowledge_unconfirmed
      ≡ some run
    → (shown ≡ path)
      × (is_unknown refusal ≡ true)
      × (run ≡ refusal_run refusal)
      × (is_named run ≡ true)
unfolding removal_request teardown_problem refusal_choices is_offered
removal_request_acknowledges refusal shown path choice run h =
    ground (arith, h, string_eq.same_iff shown path)

-- A removal request skips teardown only for the worktree whose refusal was shown and as the user's
-- choice, and it acknowledges the run just where processes are not confirmed stopped.
pub removal_request_skips :
    (refusal : Refusal) (shown path : String) (choice : Choice)
    → (removal_request path (chosen (teardown_problem refusal shown) choice)).skip_teardown ≡ true
    → (shown ≡ path)
      × (choice ≡ skip)
      × ((removal_request path
            (chosen (teardown_problem refusal shown) choice)).acknowledge_unconfirmed
          ≡ (if is_unknown refusal then some (refusal_run refusal) else none))
unfolding removal_request teardown_problem refusal_choices is_offered choice_beq
removal_request_skips refusal shown path acknowledge h = ground (arith, h)
removal_request_skips refusal shown path retry h = ground (arith, h)
removal_request_skips refusal shown path unchosen h = ground (arith, h)
removal_request_skips refusal shown path skip h = ground (arith, h, string_eq.same_iff shown path)
