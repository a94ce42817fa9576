-- ===== src/Remediation/Persistence.antt =====
-- A closed gate stays closed until the family is assessed or resolved.
use outright.Base.{
  ℕ, ◌≤◌, ◌≡◌, Bool, true, false, Option, none, some, String, string_eq, nat_eq, ◌==◌, leb, List,
  [], ◌∷◌, ◌++◌, length, length-append, arith, Bool-cases, Option-cases, inl, inr, ap, ◌∙◌, ◌&&◌,
  ◌||◌,
}
use outright.Base.JsMap.{lookup, insert, lookup-insert}
use outright.Remediation.{
  Family, Ledger, Failure, Command, failure_command, assessment_command, resolve_command, run_cli,
  add_round, fail_family, record_failure, record_assessment, resolve_family, or_new,
  is_reset_required, evaluate_ledger, architecture_assessed, resolved,
}
use outright.Remediation.Gate.{families_in-lookup, not_empty, length-sort_rounds}

-- The gate is closed for a family that failed in two rounds.
abbrev pub blocks : Option Family → Bool
blocks none = false
blocks (some family) = is_reset_required family.state && leb 2 (length family.failed_rounds)

abbrev pub is_blocked : Ledger → String → Bool
is_blocked ledger id = blocks (lookup id ledger.families)

-- A command that may open the gate for a family.
abbrev pub may_open : String → Command → Bool
may_open id (failure_command failure) = false
may_open id (assessment_command other assessment) = other == id
may_open id (resolve_command other resolution) = other == id

length-add_round-le :
    (round : ℕ) (rounds : List ℕ) → length rounds ≤ length (add_round round rounds)
unfolding add_round
length-add_round-le round rounds = ground (
  arith,
  length-sort_rounds rounds,
  length-sort_rounds (rounds ++ (round ∷ [])),
  length-append rounds (round ∷ []),
)

fail_family-blocks :
    (failure : Failure) (family : Option Family) (title : String)
    → blocks family ≡ true
    → blocks (some (fail_family failure (or_new family title))) ≡ true
unfolding fail_family
fail_family-blocks failure none title h = ground (arith, h)
fail_family-blocks failure (some family) title h =
    ground (arith, h, length-add_round-le failure.round family.failed_rounds)

record_failure-is_blocked :
    (ledger : Ledger) (failure : Failure) (id : String)
    → is_blocked ledger id ≡ true
    → is_blocked (record_failure ledger failure) id ≡ true
unfolding record_failure
record_failure-is_blocked ledger failure id h =
    let failed =
      fail_family failure (or_new (lookup failure.family_id ledger.families) failure.title) in
    elim (Bool-cases (failure.family_id == id)) [
      | inl e ↦
          let same : failure.family_id ≡ id = (string_eq.same_iff failure.family_id id).0 e in
          rw (lookup-insert failure.family_id id failed ledger.families, e)
            (fail_family-blocks failure (lookup failure.family_id ledger.families) failure.title
              (ap (is_blocked ledger) same ∙ h))
      | inr e ↦ rw (lookup-insert failure.family_id id failed ledger.families, e) h
    ]

insert-is_blocked :
    (other id : String) (family : Family) (families : List (String × Family))
    → (other == id) ≡ false
    → blocks (lookup id (insert other family families)) ≡ blocks (lookup id families)
insert-is_blocked other id family families apart =
    rw (lookup-insert other id family families, apart)

run_cli-is_blocked :
    (is_blank : String → Bool) (ledger : Ledger) (command : Command) (id : String)
    → may_open id command ≡ false
    → is_blocked ledger id ≡ true
    → is_blocked (run_cli is_blank ledger command) id ≡ true
unfolding run_cli record_assessment resolve_family
run_cli-is_blocked is_blank ledger (failure_command failure) id keeps h =
    record_failure-is_blocked ledger failure id h
run_cli-is_blocked is_blank ledger (assessment_command other assessment) id keeps h =
    elim (Option-cases (lookup other ledger.families)) [
      | inl e ↦ ground (arith, h, e)
      | inr (family, e) ↦
          let changed : Family = record family {
            assessment = some assessment;
            state = architecture_assessed;
          } in
          ground (arith, h, e, insert-is_blocked other id changed ledger.families keeps)
    ]
run_cli-is_blocked is_blank ledger (resolve_command other resolution) id keeps h =
    elim (Option-cases (lookup other ledger.families)) [
      | inl e ↦ ground (arith, h, e)
      | inr (family, e) ↦
          let changed : Family = record family { state = resolved; resolution = some resolution } in
          ground (arith, h, e, insert-is_blocked other id changed ledger.families keeps)
    ]

abbrev pub run_all : (String → Bool) → Ledger → List Command → Ledger
run_all is_blank ledger [] = ledger
run_all is_blank ledger (command ∷ commands) =
    run_all is_blank (run_cli is_blank ledger command) commands

abbrev pub any_opens : String → List Command → Bool
any_opens id [] = false
any_opens id (command ∷ commands) = may_open id command || any_opens id commands

blocked_gate :
    (ledger : Ledger) (id : String)
    → is_blocked ledger id ≡ true
    → (evaluate_ledger ledger).ok ≡ false
unfolding evaluate_ledger
blocked_gate ledger id h = elim (Option-cases (lookup id ledger.families)) [
  | inl e ↦ ground (arith, h, e)
  | inr (family, e) ↦
      not_empty _ id
        (families_in-lookup is_reset_required ledger.families id family e (ground (arith, h, e)))
]

-- While a family that failed in two rounds waits for a reset, no commands open the gate but an
-- assessment or a resolution of that family.
pub run_all_closed :
    (is_blank : String → Bool) (commands : List Command) (ledger : Ledger) (id : String)
    → is_blocked ledger id ≡ true
    → any_opens id commands ≡ false
    → (evaluate_ledger (run_all is_blank ledger commands)).ok ≡ false
run_all_closed is_blank [] ledger id h keeps = blocked_gate ledger id h
run_all_closed is_blank (command ∷ commands) ledger id h keeps =
    run_all_closed is_blank commands (run_cli is_blank ledger command) id
      (run_cli-is_blocked is_blank ledger command id (ground (arith, keeps)) h)
      (ground (arith, keeps))
