-- ===== src/Runtime/SubprocessBudget/Release.antt =====
-- What releases an unknown owner and its permit.
use outright.Base.{
  beq_refl, ℕ, ◌+◌, ◌≤◌, ◌≡◌, Bool, true, false, ◌&&◌, not, if◌then◌else◌, String, string_eq, List,
  contains, count, contains_iff_count, arith,
}
use outright.Base.JsSet.{contains-add, contains-remove, length-remove}
use outright.Runtime.OwnerProof.{owner_released, Proof}
use outright.Runtime.SubprocessBudget.{
  System, admit, forget_owner, run, settle, finish_late, finish, launch_detached, finish_detached,
  start_reconcile, start_release, verdict, Check, conclude, finish_check, Action, run_command,
  finished, launched, detached_finished, reconciling, releasing, checked, step, Reachable,
}
use outright.Runtime.SubprocessBudget.Counts.{Reachable-IsAccounted}

-- The evidence in an action that an owner's tree is gone and its record was removed.
abbrev pub Evidence : Action → String → Type 0
Evidence (finished id frame_proven removed clears) owner =
    (id ≡ owner) × (frame_proven ≡ true) × (removed ≡ true)
Evidence (checked id c) owner =
    (id ≡ owner) × (owner_released c.proof ≡ true) × (c.audited ≡ true) × (c.removed ≡ true)
Evidence _ owner = ⊥

owner_released-verdict :
    (p : Proof) (adopted : Bool) → owner_released (verdict p adopted) ≡ owner_released p
unfolding verdict owner_released
owner_released-verdict p adopted = ground arith

finish_released :
    (id owner : String) (frame_proven removed clears : Bool) (s : System)
    → contains s.budget.unknown_owners owner ≡ true
    → contains (finish id frame_proven removed clears s).budget.unknown_owners owner ≡ false
    → Evidence (finished id frame_proven removed clears) owner
unfolding finish settle finish_late forget_owner owner_released
finish_released id owner frame_proven removed clears s before now = ground (
  arith,
  before,
  now,
  string_eq.same_iff id owner,
  contains-add id owner s.budget.unknown_owners,
  contains-remove id owner s.budget.unknown_owners,
)

finish_check_released :
    (id owner : String) (c : Check) (s : System)
    → contains s.budget.unknown_owners owner ≡ true
    → contains (finish_check id c s).budget.unknown_owners owner ≡ false
    → Evidence (checked id c) owner
unfolding finish_check conclude forget_owner
finish_check_released id owner c s before now = ground (
  arith,
  before,
  now,
  string_eq.same_iff id owner,
  owner_released-verdict c.proof c.adopted,
  contains-remove id owner s.budget.unknown_owners,
)

-- An unknown owner stays charged unless the supervisor's frame or the proof of a check releases it
-- and its durable record was removed.
pub step_released :
    (s : System) (action : Action) (owner : String)
    → contains s.budget.unknown_owners owner ≡ true
    → contains (step s action).budget.unknown_owners owner ≡ false
    → Evidence action owner
unfolding step run admit launch_detached finish_detached start_reconcile start_release
step_released s (run_command id recorded) owner before now = ground (arith, before, now)
step_released s (finished id frame_proven removed clears) owner before now =
    finish_released id owner frame_proven removed clears s before now
step_released s launched owner before now = ground (arith, before, now)
step_released s detached_finished owner before now = ground (arith, before, now)
step_released s (reconciling id) owner before now = ground (arith, before, now)
step_released s (releasing id) owner before now = ground (arith, before, now)
step_released s (checked id c) owner before now = finish_check_released id owner c s before now

abbrev pub is_cleared : Check → Bool
is_cleared c = owner_released c.proof && c.audited && c.removed

-- In every state that a budget comes to, the check of an owner frees its one permit and forgets
-- it where the proof, the audit and the removal of its files all succeed, and otherwise
-- keeps it charged; either way it may be checked again.
pub finish_check-Reachable :
    (limit : ℕ) (retained : List String) (s : System) (id : String) (c : Check)
    → ((a : String) → count a retained ≤ 1)
    → Reachable limit retained s
    → contains s.checks id ≡ true
    → let next = finish_check id c s in
      (next.budget.active + (if is_cleared c then 1 else 0) ≡ s.budget.active)
      × (contains next.budget.unknown_owners id ≡ not (is_cleared c))
      × (contains next.budget.in_flight_owners id ≡ false)
unfolding finish_check conclude forget_owner
finish_check-Reachable limit retained s id c distinct reached checking =
    let all = Reachable-IsAccounted limit retained s distinct reached in
    ground (
      arith,
      checking,
      all.0,
      all.1 id,
      beq_refl id,
      owner_released-verdict c.proof c.adopted,
      contains-remove id id s.budget.unknown_owners,
      contains-remove id id s.budget.in_flight_owners,
      contains_iff_count s.budget.unknown_owners id,
      length-remove id s.budget.unknown_owners,
    )
