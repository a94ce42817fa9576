-- ===== src/Remediation.antt =====
-- automation/hermes/pr-remediation-ledger.mjs: the ledger of defect families that keeps a family which
-- failed in two rounds from further routine fixes. Rounds are whole numbers; whether a text is blank
-- is a parameter, since `trim` is the platform's.
pub mod Gate
pub mod Persistence
pub mod Tests
use outright.Base.{
  ℕ, Bool, true, false, not, Option, none, some, if◌then◌else◌, String, string_eq, nat_eq, ◌==◌,
  ltb, leb, List, [], ◌∷◌, ◌++◌, length, contains, filter, map, ◌||◌,
}
use outright.Base.JsMap.{lookup, insert}

pub data FamilyState : Type 0 where
  opened architecture_reset_required architecture_assessed resolved : FamilyState

pub record Attempt : Type 0 where
  pub round : ℕ
  pub head : String
  pub evidence : String

pub record Assessment : Type 0 where
  pub invariant : String
  pub failing_evidence : String
  pub coordinated_plan : String
  pub verification_criteria : String

pub record Resolution : Type 0 where
  pub head : String
  pub evidence : String

pub record Family : Type 0 where
  pub title : String
  pub state : FamilyState
  pub failed_rounds : List ℕ
  pub attempts : List Attempt
  pub assessment : Option Assessment
  pub resolution : Option Resolution

pub record Ledger : Type 0 where
  pub current_head : String
  pub families : List (String × Family)

pub record Failure : Type 0 where
  pub family_id : String
  pub title : String
  pub round : ℕ
  pub head : String
  pub evidence : String

abbrev pub new_family : String → Family
new_family title = record {
  title = title;
  state = opened;
  failed_rounds = [];
  attempts = [];
  assessment = none;
  resolution = none;
}

abbrev pub or_new : Option Family → String → Family
or_new none title = new_family title
or_new (some family) title = family

-- `left || right` of texts.
abbrev pub or_text : String → String → String
or_text left right = if left == "" then right else left

unfoldable pub insert_round : ℕ → List ℕ → List ℕ
insert_round round [] = round ∷ []
insert_round round (other ∷ rounds) =
    if leb round other then round ∷ other ∷ rounds else other ∷ insert_round round rounds

-- `rounds.sort((a, b) => a - b)`
unfoldable pub sort_rounds : List ℕ → List ℕ
sort_rounds [] = []
sort_rounds (round ∷ rounds) = insert_round round (sort_rounds rounds)

unfoldable pub add_round : ℕ → List ℕ → List ℕ
add_round round rounds =
    sort_rounds (if contains rounds round then rounds else rounds ++ (round ∷ []))

unfoldable pub fail_family : Failure → Family → Family
fail_family failure family =
    let rounds = add_round failure.round family.failed_rounds in
    record {
      title = or_text failure.title family.title;
      state = if leb 2 (length rounds) then architecture_reset_required else opened;
      failed_rounds = rounds;
      attempts =
          family.attempts
          ++ (record { round = failure.round; head = failure.head; evidence = failure.evidence }
              ∷ []);
      assessment = none;
      resolution = none;
    }

-- `recordFailure`
unfoldable pub record_failure : Ledger → Failure → Ledger
record_failure ledger failure = record {
  current_head = or_text failure.head ledger.current_head;
  families =
      insert failure.family_id
        (fail_family failure (or_new (lookup failure.family_id ledger.families) failure.title))
        ledger.families;
}

-- `recordAssessment`; none where it throws.
unfoldable pub record_assessment : (String → Bool) → Ledger → String → Assessment → Option Ledger
record_assessment is_blank ledger id assessment = elim (lookup id ledger.families) [
  | none ↦ none
  | some family ↦
      if is_blank assessment.invariant
        || is_blank assessment.failing_evidence
        || is_blank assessment.coordinated_plan
        || is_blank assessment.verification_criteria
      then none
      else some (record ledger {
        families =
            insert id
              (record family { assessment = some assessment; state = architecture_assessed })
              ledger.families;
      })
]

-- The command `resolve-family`.
unfoldable pub resolve_family : Ledger → String → Resolution → Option Ledger
resolve_family ledger id resolution = elim (lookup id ledger.families) [
  | none ↦ none
  | some family ↦ some (record {
    current_head = resolution.head;
    families =
        insert id (record family { state = resolved; resolution = some resolution })
          ledger.families;
  })
]

abbrev pub is_reset_required : FamilyState → Bool
is_reset_required architecture_reset_required = true
is_reset_required _ = false

abbrev pub is_assessed : FamilyState → Bool
is_assessed architecture_assessed = true
is_assessed _ = false

pub data Mode : Type 0 where
  reset_mode assessed_mode routine : Mode

pub record Evaluation : Type 0 where
  pub ok : Bool
  pub mode : Mode
  pub reset_required : List String
  pub assessed : List String

abbrev pub is_empty : List String → Bool
is_empty [] = true
is_empty (id ∷ ids) = false

unfoldable pub families_in : (FamilyState → Bool) → List (String × Family) → List String
families_in test [] = []
families_in test ((id, family) ∷ families) =
    if test family.state then id ∷ families_in test families else families_in test families

-- `evaluateLedger`
unfoldable pub evaluate_ledger : Ledger → Evaluation
evaluate_ledger ledger =
    let reset = families_in is_reset_required ledger.families in
    let assessed_ids = families_in is_assessed ledger.families in
    record {
      ok = is_empty reset;
      mode =
          if not (is_empty reset)
          then reset_mode
          else if not (is_empty assessed_ids)
          then assessed_mode
          else routine;
      reset_required = reset;
      assessed = assessed_ids;
    }

-- The commands of the tool that change a family.
pub data Command : Type 0 where
  failure_command : Failure → Command
  assessment_command : String → Assessment → Command
  resolve_command : String → Resolution → Command

abbrev pub or_ledger : Option Ledger → Ledger → Ledger
or_ledger none ledger = ledger
or_ledger (some written) ledger = written

-- The ledger after a command; one that throws writes nothing.
unfoldable pub run_cli : (String → Bool) → Ledger → Command → Ledger
run_cli is_blank ledger (failure_command failure) = record_failure ledger failure
run_cli is_blank ledger (assessment_command id assessment) =
    or_ledger (record_assessment is_blank ledger id assessment) ledger
run_cli is_blank ledger (resolve_command id resolution) =
    or_ledger (resolve_family ledger id resolution) ledger
