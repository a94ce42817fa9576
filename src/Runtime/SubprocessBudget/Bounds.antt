-- ===== src/Runtime/SubprocessBudget/Bounds.antt =====
-- A budget keeps to its limit.
use outright.Base.{ℕ, ◌≤◌, ◌≡◌, max, Bool, String, string_eq, List, length, arith, refl}
use outright.Runtime.SubprocessBudget.{
  System, new_budget, admit, forget_owner, run, settle, finish_late, finish, launch_detached,
  finish_detached, start_reconcile, start_release, Check, conclude, finish_check, Action,
  run_command, finished, launched, detached_finished, reconciling, releasing, checked, step,
  Reachable, start, after,
}

finish-limit :
    (id : String) (frame_proven removed clears : Bool) (s : System)
    → let next = finish id frame_proven removed clears s in
      (next.budget.limit ≡ s.budget.limit) × (next.budget.active ≤ s.budget.active)
unfolding finish settle finish_late forget_owner
finish-limit id frame_proven removed clears s = ground arith

finish_check-limit :
    (id : String) (c : Check) (s : System)
    → let next = finish_check id c s in
      (next.budget.limit ≡ s.budget.limit) × (next.budget.active ≤ s.budget.active)
unfolding finish_check conclude forget_owner
finish_check-limit id c s = ground arith

step-limit :
    (s : System) (action : Action)
    → ((step s action).budget.limit ≡ s.budget.limit)
      × ((step s action).budget.active ≤ max s.budget.limit s.budget.active)
unfolding step run admit launch_detached finish_detached start_reconcile start_release
step-limit s (run_command id recorded) = ground arith
step-limit s (finished id frame_proven removed clears) =
    omega (arith, finish-limit id frame_proven removed clears s)
step-limit s launched = ground arith
step-limit s detached_finished = ground arith
step-limit s (reconciling id) = ground arith
step-limit s (releasing id) = ground arith
step-limit s (checked id c) = omega (arith, finish_check-limit id c s)

-- A budget never gives more permits than its limit, except to the owners that were retained.
pub active-Reachable :
    (limit : ℕ) (retained : List String) (s : System)
    → Reachable limit retained s
    → (s.budget.limit ≡ limit) × (s.budget.active ≤ max limit (length retained))
unfolding new_budget
active-Reachable limit retained _ start = (refl, omega arith)
active-Reachable limit retained _ (after {s} action before can) =
    ground (arith, active-Reachable limit retained s before, step-limit s action)
