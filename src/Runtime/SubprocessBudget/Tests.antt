-- ===== src/Runtime/SubprocessBudget/Tests.antt =====
-- Runs of a budget with one retained owner, and the theorems at them.
use outright.Base.{
  ◌+◌, ◌≤◌, ◌≡◌, max, refl, true, false, not, if◌then◌else◌, String, string_eq, List, [], ◌∷◌,
  length, contains, count, arith,
}
use outright.Base.JsSet.{add, remove}
use outright.Runtime.OwnerProof.{proven, owner_released, is_release_evidence}
use outright.Runtime.SubprocessBudget.{
  System, new_budget, new_system, Check, run_command, releasing, checked, step, run, admit,
  start_release, finish_check, conclude, verdict, forget_owner, Reachable, start, after,
}
use outright.Runtime.SubprocessBudget.Counts.{Reachable-IsAccounted, IsAccounted}
use outright.Runtime.SubprocessBudget.Bounds.{active-Reachable}
use outright.Runtime.SubprocessBudget.Release.{
  step_released, finish_check-Reachable, Evidence, is_cleared,
}

abbrev retained : List String
retained = "a" ∷ []

retained_distinct : (a : String) → count a retained ≤ 1
retained_distinct a = ground arith

-- The operator has the retained owner checked while a command runs.
abbrev claimed : System
claimed = step (new_system 2 retained) (releasing "a")

abbrev both : System
both = step claimed (run_command "b" true)

abbrev gone : Check
gone = record { proof = proven; adopted = true; clears = true; audited = true; removed = true }

claimed-Reachable : Reachable 2 retained claimed
claimed-Reachable = after (releasing "a") start tt

both-Reachable : Reachable 2 retained both
unfolding step start_release new_budget add
both-Reachable = after (run_command "b" true) claimed-Reachable (refl, refl, refl)

active_run : both.budget.active ≡ 2
unfolding step start_release new_budget add run admit
active_run = refl

cleared_run : (step both (checked "a" gone)).budget.active ≡ 1
unfolding step start_release new_budget add run admit finish_check conclude verdict forget_owner
    owner_released is_release_evidence
cleared_run = refl

Reachable-IsAccounted_example : IsAccounted both
Reachable-IsAccounted_example =
    Reachable-IsAccounted 2 retained both retained_distinct both-Reachable

active-Reachable_example : (both.budget.limit ≡ 2) × (both.budget.active ≤ max 2 (length retained))
active-Reachable_example = active-Reachable 2 retained both both-Reachable

before : contains both.budget.unknown_owners "a" ≡ true
unfolding step start_release new_budget add run admit
before = refl

now : contains (step both (checked "a" gone)).budget.unknown_owners "a" ≡ false
unfolding step start_release new_budget add run admit finish_check conclude verdict forget_owner
    owner_released is_release_evidence remove
now = refl

step_released_example : Evidence (checked "a" gone) "a"
step_released_example = step_released both (checked "a" gone) "a" before now

checking : contains both.checks "a" ≡ true
unfolding step start_release new_budget add run admit
checking = refl

finish_check-Reachable_example :
    let next = finish_check "a" gone both in
    (next.budget.active + (if is_cleared gone then 1 else 0) ≡ both.budget.active)
    × (contains next.budget.unknown_owners "a" ≡ not (is_cleared gone))
    × (contains next.budget.in_flight_owners "a" ≡ false)
finish_check-Reachable_example =
    finish_check-Reachable 2 retained both "a" gone retained_distinct both-Reachable checking
