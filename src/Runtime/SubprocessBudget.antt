-- ===== src/Runtime/SubprocessBudget.antt =====
-- server/subprocess-budget.mjs, createSubprocessBudget: the permits of utility processes. An action
-- is one uninterrupted stretch of the code, with what files, proofs and processes answered in it.
-- Only a budget whose directory of unknown owners could be read is modelled, and counts are
-- natural numbers.
pub mod Bounds
pub mod Counts
pub mod Release
pub mod Tests
use outright.Base.{
  ℕ, ◌+◌, ◌-◌, Bool, true, false, ◌&&◌, ◌||◌, not, ◌≡◌, Option, none, some, if◌then◌else◌, String,
  string_eq, leb, List, [], ◌∷◌, map, take, length, contains, ◌<◌,
}
use outright.Base.JsMap.{insert, lookup, erase}
use outright.Base.JsSet.{add, remove}
use outright.Runtime.OwnerProof.{
  Reason, proven_reason, earlier_boot, owner_unsettled, release_failed, boot_adoption_failed,
  awaiting_reconciliation, Proof, proven, unproven, owner_released, is_live, is_rejection,
}

pub record OwnerState : Type 0 where
  pub reason : Reason
  pub restart : Bool

pub record Budget : Type 0 where
  pub limit : ℕ
  pub active : ℕ
  pub unknown : ℕ
  pub accounted_owners : List String
  pub unknown_owners : List String
  pub in_flight_owners : List String
  pub owner_states : List (String × OwnerState)

-- The budget and what is under way: the commands that have not settled, the detached launches that
-- have not, and the checks of retained owners.
pub record System : Type 0 where
  pub budget : Budget
  pub running : List String
  pub detached : ℕ
  pub checks : List String

-- `createSubprocessBudget`, with the owners retained from an earlier runtime.
unfoldable pub new_budget : ℕ → List String → Budget
new_budget limit retained = record {
  limit = limit;
  active = length retained;
  unknown = length retained;
  accounted_owners = retained;
  unknown_owners = retained;
  in_flight_owners = [];
  owner_states = [];
}

abbrev pub new_system : ℕ → List String → System
new_system limit retained = record {
  budget = new_budget limit retained;
  running = [];
  detached = 0;
  checks = [];
}

-- `admit`; none where it throws.
unfoldable pub admit : Budget → Option Budget
admit b = if leb b.limit b.active then none else some (record b { active = b.active + 1 })

-- `forgetOwner`
unfoldable pub forget_owner : String → Budget → Budget
forget_owner id b = record b {
  active = b.active - 1;
  unknown = b.unknown - 1;
  accounted_owners = remove id b.accounted_owners;
  unknown_owners = remove id b.unknown_owners;
  owner_states = erase id b.owner_states;
}

abbrev pub set_state : String → Reason → Bool → Budget → Budget
set_state id reason restart b = record b {
  owner_states = insert id (record { reason = reason; restart = restart }) b.owner_states;
}

-- `run` up to the command's start, with the answer of writing the owner's record.
unfoldable pub run : String → Bool → System → System
run id recorded s = elim (admit s.budget) [
  | none ↦ s
  | some b ↦
      if recorded
      then record s {
        budget = record b { in_flight_owners = add id b.in_flight_owners };
        running = add id s.running;
      }
      else record s { budget = record b { active = b.active - 1 } }
]

-- What `finish` makes of the supervisor's frame.
abbrev pub frame_proof : Bool → Proof
frame_proof frame_proven = if frame_proven then proven else unproven owner_unsettled

-- `finish` where the command had not settled: the frame, whether the record was removed, and
-- `clearsAfterRestart` of the record.
unfoldable pub settle : String → Bool → Bool → Bool → Budget → Budget
settle id frame_proven removed clears b =
    if owner_released (frame_proof frame_proven) && removed
    then record b { in_flight_owners = remove id b.in_flight_owners; active = b.active - 1 }
    else record b {
      in_flight_owners = remove id b.in_flight_owners;
      unknown = b.unknown + 1;
      accounted_owners = add id b.accounted_owners;
      unknown_owners = add id b.unknown_owners;
      owner_states =
          insert id (record { reason = owner_unsettled; restart = clears }) b.owner_states;
    }

-- `finish` of a command that has settled before.
unfoldable pub finish_late : String → Bool → Bool → Budget → Budget
finish_late id frame_proven removed b =
    if owner_released (frame_proof frame_proven)
      && contains b.unknown_owners id
      && not (contains b.in_flight_owners id)
      && removed
    then forget_owner id b
    else b

-- `finish`
unfoldable pub finish : String → Bool → Bool → Bool → System → System
finish id frame_proven removed clears s =
    if contains s.running id
    then record s {
      budget = settle id frame_proven removed clears s.budget;
      running = remove id s.running;
    }
    else record s { budget = finish_late id frame_proven removed s.budget }

-- `launchDetached` up to the spawn.
unfoldable pub launch_detached : System → System
launch_detached s = elim (admit s.budget) [
  | none ↦ s
  | some b ↦ record s { budget = b; detached = s.detached + 1 }
]

-- `finish` of a detached launch that had not settled.
unfoldable pub finish_detached : System → System
finish_detached s = record s {
  budget = record s.budget { active = s.budget.active - 1 };
  detached = s.detached - 1;
}

-- Whether a reconciliation takes an owner up, and whether an operator may have one checked.
abbrev pub is_reconcilable : Budget → String → Bool
is_reconcilable b id =
    contains b.accounted_owners id
    && not (contains b.in_flight_owners id)
    && contains b.unknown_owners id

abbrev pub is_checkable : Budget → String → Bool
is_checkable b id = contains b.unknown_owners id && not (contains b.in_flight_owners id)

abbrev pub claim : String → System → System
claim id s = record s {
  budget = record s.budget { in_flight_owners = add id s.budget.in_flight_owners };
  checks = add id s.checks;
}

-- The start of one owner's turn in `reconcileUnknown`.
unfoldable pub start_reconcile : String → System → System
start_reconcile id s = if is_reconcilable s.budget id then claim id s else s

-- The start of `releaseUnknownOwner`; where it throws, nothing changes.
unfoldable pub start_release : String → System → System
start_release id s = if is_checkable s.budget id then claim id s else s

-- `proveRetainedOwner`, with the answers of `proveOwner` and `adoptObservedBoot`.
unfoldable pub verdict : Proof → Bool → Proof
verdict proof adopted =
    if not (owner_released proof) && not adopted && not (is_live proof.reason)
    then unproven boot_adoption_failed
    else proof

-- What an owner's check found: the proof, whether its boot was adopted, `clearsAfterRestart`,
-- whether the audit went through (a reconciliation has none) and whether its files were removed.
pub record Check : Type 0 where
  pub proof : Proof
  pub adopted : Bool
  pub clears : Bool
  pub audited : Bool
  pub removed : Bool

-- `proveRetainedOwner` and what its callers do, `releaseProvenOwner` included.
unfoldable pub conclude : String → Check → Budget → Budget
conclude id c b =
    let found = verdict c.proof c.adopted in
    if owner_released found
    then (if c.audited
        then (if c.removed then forget_owner id b else set_state id release_failed c.clears b)
        else b)
    else set_state id found.reason (not (is_rejection found.reason) && c.clears) b

-- The end of an owner's check, `finally` included.
unfoldable pub finish_check : String → Check → System → System
finish_check id c s =
    let b = conclude id c s.budget in
    record s {
      budget = record b { in_flight_owners = remove id b.in_flight_owners };
      checks = remove id s.checks;
    }

-- RECHECK_REASONS
abbrev pub is_recheck : Reason → Bool
is_recheck awaiting_reconciliation = true
is_recheck owner_unsettled = true
is_recheck release_failed = true
is_recheck _ = false

pub record OwnerStatus : Type 0 where
  pub id : String
  pub reason : Reason
  pub releasable : Bool
  pub clears_after_restart : Bool

abbrev pub state_of : Option OwnerState → OwnerState
state_of none = record { reason = awaiting_reconciliation; restart = false }
state_of (some state) = state

-- `unknownOwnerStatus`
unfoldable pub unknown_owner_status : Budget → List OwnerStatus
unknown_owner_status b =
    map
      (λ id.
        let state = state_of (lookup id b.owner_states) in
        record {
          id = id;
          reason = state.reason;
          releasable = is_recheck state.reason && not (contains b.in_flight_owners id);
          clears_after_restart = state.restart;
        })
      (take 32 b.unknown_owners)

pub data Action : Type 0 where
  run_command : String → Bool → Action
  finished : String → Bool → Bool → Bool → Action
  launched detached_finished : Action
  reconciling releasing : String → Action
  checked : String → Check → Action

unfoldable pub step : System → Action → System
step s (run_command id recorded) = run id recorded s
step s (finished id frame_proven removed clears) = finish id frame_proven removed clears s
step s launched = launch_detached s
step s detached_finished = finish_detached s
step s (reconciling id) = start_reconcile id s
step s (releasing id) = start_release id s
step s (checked id c) = finish_check id c s

-- When an action can happen: `randomUUID` gives an identifier that nothing bears, and what ends was
-- under way.
abbrev pub CanHappen : System → Action → Type 0
CanHappen s (run_command id recorded) =
    (contains s.running id ≡ false)
    × (contains s.checks id ≡ false)
    × (contains s.budget.unknown_owners id ≡ false)
CanHappen s detached_finished = 0 < s.detached
CanHappen s (checked id c) = contains s.checks id ≡ true
CanHappen s _ = Unit

-- The states of a budget that starts with a limit and the owners retained.
pub data Reachable (limit : ℕ) (retained : List String) : System → Type 0 where
  start : Reachable limit retained (new_system limit retained)
  after :
      {s : System} (action : Action)
      → Reachable limit retained s
      → CanHappen s action
      → Reachable limit retained (step s action)
