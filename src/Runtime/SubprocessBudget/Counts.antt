-- ===== src/Runtime/SubprocessBudget/Counts.antt =====
-- The permits of a budget are accounted for.
use outright.Base.{
  inl, inr, beq_refl, ℕ, ◌+◌, ◌≤◌, ◌≡◌, Bool, true, false, ◌&&◌, ◌||◌, not, String, string_eq, List,
  length, contains, count, contains_iff_count, arith, Bool-cases,
}
use outright.Base.JsSet.{
  remove, contains-add, contains-remove, count-add, count-remove-le, length-add, length-remove,
}
use outright.Runtime.OwnerProof.{owner_released}
use outright.Runtime.SubprocessBudget.{
  Budget, System, new_budget, admit, forget_owner, run, frame_proof, settle, finish_late, finish,
  launch_detached, finish_detached, start_reconcile, start_release, is_reconcilable, is_checkable,
  claim, verdict, Check, conclude, finish_check, Action, run_command, finished, launched,
  detached_finished, reconciling, releasing, checked, step, CanHappen, Reachable, start, after,
}

-- Each permit is held by an unknown owner, a running command or a detached launch.
abbrev pub Balanced : System → Type 0
Balanced s =
    (s.budget.active ≡ s.budget.unknown + length s.running + s.detached)
    × (s.budget.unknown ≡ length s.budget.unknown_owners)

-- An owner is known once, in flight just while a command of it runs or it is checked, checked only
-- while unknown, and unknown only while no command of it runs.
abbrev pub Placed : System → String → Type 0
Placed s a =
    (count a s.budget.unknown_owners ≤ 1)
    × (count a s.running ≤ 1)
    × (contains s.budget.in_flight_owners a ≡ (contains s.running a || contains s.checks a))
    × ((contains s.checks a && not (contains s.budget.unknown_owners a)) ≡ false)
    × ((contains s.running a && contains s.budget.unknown_owners a) ≡ false)

abbrev pub IsAccounted : System → Type 0
IsAccounted s = Balanced s × ((a : String) → Placed s a)

run-IsAccounted :
    (id : String) (recorded : Bool) (s : System)
    → CanHappen s (run_command id recorded)
    → IsAccounted s
    → IsAccounted (run id recorded s)
unfolding run admit
run-IsAccounted id recorded s can (balanced, placed) = (
  ground (arith, can, balanced, length-add id s.running),
  λ a. ground (
    arith,
    can,
    placed a,
    string_eq.same_iff id a,
    count-add id a s.running,
    contains-add id a s.running,
    contains-add id a s.budget.in_flight_owners,
  ),
)

settle-IsAccounted :
    (id : String) (frame_proven removed clears : Bool) (s : System)
    → contains s.running id ≡ true
    → IsAccounted s
    → IsAccounted (record s {
      budget = settle id frame_proven removed clears s.budget;
      running = remove id s.running;
    })
unfolding settle
settle-IsAccounted id frame_proven removed clears s runs (balanced, placed) = (
  ground (
    arith,
    runs,
    balanced,
    placed id,
    length-remove id s.running,
    length-add id s.budget.unknown_owners,
    contains_iff_count s.running id,
  ),
  λ a. ground (
    arith,
    runs,
    placed a,
    placed id,
    string_eq.same_iff id a,
    count-remove-le id a s.running,
    contains-remove id a s.running,
    contains-remove id a s.budget.in_flight_owners,
    contains-add id a s.budget.unknown_owners,
    count-add id a s.budget.unknown_owners,
  ),
)

forget_owner-IsAccounted :
    (id : String) (s : System)
    → contains s.budget.unknown_owners id ≡ true
    → contains s.budget.in_flight_owners id ≡ false
    → IsAccounted s
    → IsAccounted (record s { budget = forget_owner id s.budget })
unfolding forget_owner
forget_owner-IsAccounted id s owned idle (balanced, placed) = (
  ground (
    arith,
    owned,
    balanced,
    placed id,
    length-remove id s.budget.unknown_owners,
    contains_iff_count s.budget.unknown_owners id,
  ),
  λ a. ground (
    arith,
    owned,
    idle,
    placed a,
    placed id,
    string_eq.same_iff id a,
    count-remove-le id a s.budget.unknown_owners,
    contains-remove id a s.budget.unknown_owners,
  ),
)

claim-IsAccounted :
    (id : String) (s : System)
    → contains s.budget.unknown_owners id ≡ true
    → IsAccounted s
    → IsAccounted (claim id s)
claim-IsAccounted id s owned (balanced, placed) = (
  balanced,
  λ a. ground (
    arith,
    owned,
    placed a,
    string_eq.same_iff id a,
    contains-add id a s.budget.in_flight_owners,
    contains-add id a s.checks,
  ),
)

-- The end of a check, by whether the owner is forgotten.
kept-IsAccounted :
    (id : String) (s : System)
    → contains s.checks id ≡ true
    → IsAccounted s
    → IsAccounted (record s {
      budget = record s.budget { in_flight_owners = remove id s.budget.in_flight_owners };
      checks = remove id s.checks;
    })
kept-IsAccounted id s checks (balanced, placed) = (
  balanced,
  λ a. ground (
    arith,
    checks,
    placed a,
    placed id,
    string_eq.same_iff id a,
    contains-remove id a s.budget.in_flight_owners,
    contains-remove id a s.checks,
  ),
)

abbrev is_late_release : String → Bool → Bool → Budget → Bool
is_late_release id frame_proven removed b =
    owner_released (frame_proof frame_proven)
    && contains b.unknown_owners id
    && not (contains b.in_flight_owners id)
    && removed

finish_late-IsAccounted :
    (id : String) (frame_proven removed : Bool) (s : System)
    → IsAccounted s
    → IsAccounted (record s { budget = finish_late id frame_proven removed s.budget })
unfolding finish_late
finish_late-IsAccounted id frame_proven removed s h =
    elim (Bool-cases (is_late_release id frame_proven removed s.budget)) [
      | inl e ↦ rw e (forget_owner-IsAccounted id s (ground (arith, e)) (ground (arith, e)) h)
      | inr e ↦ rw e h
    ]

finish-IsAccounted :
    (id : String) (frame_proven removed clears : Bool) (s : System)
    → IsAccounted s
    → IsAccounted (finish id frame_proven removed clears s)
unfolding finish
finish-IsAccounted id frame_proven removed clears s h = elim (Bool-cases (contains s.running id)) [
  | inl e ↦ rw e (settle-IsAccounted id frame_proven removed clears s e h)
  | inr e ↦ rw e (finish_late-IsAccounted id frame_proven removed s h)
]

start_reconcile-IsAccounted :
    (id : String) (s : System) → IsAccounted s → IsAccounted (start_reconcile id s)
unfolding start_reconcile
start_reconcile-IsAccounted id s h = elim (Bool-cases (is_reconcilable s.budget id)) [
  | inl e ↦ rw e (claim-IsAccounted id s (ground (arith, e)) h)
  | inr e ↦ rw e h
]

start_release-IsAccounted :
    (id : String) (s : System) → IsAccounted s → IsAccounted (start_release id s)
unfolding start_release
start_release-IsAccounted id s h = elim (Bool-cases (is_checkable s.budget id)) [
  | inl e ↦ rw e (claim-IsAccounted id s (ground (arith, e)) h)
  | inr e ↦ rw e h
]

-- The end of a check that forgets its owner.
forgotten-IsAccounted :
    (id : String) (s : System)
    → contains s.checks id ≡ true
    → IsAccounted s
    → IsAccounted (record s {
      budget = record (forget_owner id s.budget) {
        in_flight_owners = remove id (forget_owner id s.budget).in_flight_owners;
      };
      checks = remove id s.checks;
    })
unfolding forget_owner
forgotten-IsAccounted id s checks h =
    forget_owner-IsAccounted id
      (record s {
        budget = record s.budget { in_flight_owners = remove id s.budget.in_flight_owners };
        checks = remove id s.checks;
      })
      (ground (arith, checks, h.1 id))
      (ground (arith, contains-remove id id s.budget.in_flight_owners, beq_refl id))
      (kept-IsAccounted id s checks h)

-- The end of a check forgets the owner or changes only what is reported of it.
finish_check-IsAccounted :
    (id : String) (c : Check) (s : System)
    → contains s.checks id ≡ true
    → IsAccounted s
    → IsAccounted (finish_check id c s)
unfolding finish_check conclude
finish_check-IsAccounted id c s checks h =
    elim (Bool-cases (owner_released (verdict c.proof c.adopted))) [
      | inr e ↦ rw e (kept-IsAccounted id s checks h)
      | inl e ↦ elim (Bool-cases c.audited) [
        | inr f ↦ rw (e, f) (kept-IsAccounted id s checks h)
        | inl f ↦ elim (Bool-cases c.removed) [
          | inr g ↦ rw (e, f, g) (kept-IsAccounted id s checks h)
          | inl g ↦ rw (e, f, g) (forgotten-IsAccounted id s checks h)
        ]
      ]
    ]

launch_detached-IsAccounted : (s : System) → IsAccounted s → IsAccounted (launch_detached s)
unfolding launch_detached admit
launch_detached-IsAccounted s (balanced, placed) =
    (ground (arith, balanced), λ a. ground (arith, placed a))

finish_detached-IsAccounted :
    (s : System) → CanHappen s detached_finished → IsAccounted s → IsAccounted (finish_detached s)
unfolding finish_detached
finish_detached-IsAccounted s can (balanced, placed) = (ground (arith, can, balanced), placed)

step-IsAccounted :
    (s : System) (action : Action)
    → CanHappen s action
    → IsAccounted s
    → IsAccounted (step s action)
unfolding step
step-IsAccounted s (run_command id recorded) can h = run-IsAccounted id recorded s can h
step-IsAccounted s (finished id frame_proven removed clears) can h =
    finish-IsAccounted id frame_proven removed clears s h
step-IsAccounted s launched can h = launch_detached-IsAccounted s h
step-IsAccounted s detached_finished can h = finish_detached-IsAccounted s can h
step-IsAccounted s (reconciling id) can h = start_reconcile-IsAccounted id s h
step-IsAccounted s (releasing id) can h = start_release-IsAccounted id s h
step-IsAccounted s (checked id c) can h = finish_check-IsAccounted id c s can h

-- Where the retained owners differ, in every state that a budget comes to each permit is held by
-- just one of the unknown owners, the running commands and the detached launches, and an owner is
-- in flight just while its command runs or it is checked.
pub Reachable-IsAccounted :
    (limit : ℕ) (retained : List String) (s : System)
    → ((a : String) → count a retained ≤ 1)
    → Reachable limit retained s
    → IsAccounted s
unfolding new_budget
Reachable-IsAccounted limit retained _ distinct start =
    (omega arith, λ a. ground (arith, distinct a))
Reachable-IsAccounted limit retained _ distinct (after {s} action before can) =
    step-IsAccounted s action can (Reachable-IsAccounted limit retained s distinct before)
