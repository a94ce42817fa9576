-- ===== src/Remediation/Tests.antt =====
-- A family that failed in round 1, and the theorems at it.
use outright.Base.{ℕ, ◌≡◌, refl, true, false, string_eq, [], ◌∷◌, contains, arith}
use outright.Base.JsMap.{lookup, insert}
use outright.Remediation.{
  Family, Ledger, Failure, failure_command, record_failure, evaluate_ledger, fail_family,
  new_family, add_round, sort_rounds, insert_round,
}
use outright.Remediation.Gate.{evaluate_ledger-record_failure}
use outright.Remediation.Persistence.{run_all_closed, run_all, is_blocked}

abbrev failure_in : ℕ → Failure
failure_in round = record {
  family_id = "f";
  title = "t";
  round = round;
  head = "h";
  evidence = "e";
}

abbrev once : Family
once = record (new_family "t") { failed_rounds = 1 ∷ [] }

abbrev ledger : Ledger
ledger = record { current_head = "h"; families = ("f", once) ∷ [] }

evaluate_ledger-record_failure_example :
    let gate = evaluate_ledger (record_failure ledger (failure_in 2)) in
    (gate.ok ≡ false) × (contains gate.reset_required "f" ≡ true)
unfolding lookup
evaluate_ledger-record_failure_example =
    evaluate_ledger-record_failure ledger (failure_in 2) once 1 refl refl (omega arith)

abbrev twice : Ledger
twice = record_failure ledger (failure_in 2)

blocked_run : is_blocked twice "f" ≡ true
unfolding record_failure lookup insert fail_family add_round sort_rounds insert_round
blocked_run = refl

run_all_closed_example :
    (evaluate_ledger (run_all (λ text. false) twice (failure_command (failure_in 2) ∷ []))).ok
    ≡ false
run_all_closed_example =
    run_all_closed (λ text. false) (failure_command (failure_in 2) ∷ []) twice "f" blocked_run refl
