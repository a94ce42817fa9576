-- ===== src/Remediation/Gate.antt =====
-- What closes the gate for a family, and what opens it again.
use outright.Base.{
  ℕ, suc, ◌≤◌, ◌≡◌, ◌≢◌, Bool, true, false, some, String, string_eq, nat_eq, ◌==◌, List, [], ◌∷◌,
  ◌++◌, length, length-append, contains, arith, Bool-cases, inl, inr, refl, ap, beq_refl,
}
use outright.Base.JsMap.{lookup, insert, lookup-insert}
use outright.Remediation.{
  FamilyState, Family, Ledger, Failure, insert_round, sort_rounds, add_round, fail_family,
  record_failure, or_new, is_reset_required, families_in, evaluate_ledger, is_empty,
}

length-insert_round :
    (round : ℕ) (rounds : List ℕ) → length (insert_round round rounds) ≡ suc (length rounds)
unfolding insert_round
length-insert_round round [] = refl
length-insert_round round (other ∷ rounds) = ground (arith, length-insert_round round rounds)

pub length-sort_rounds : (rounds : List ℕ) → length (sort_rounds rounds) ≡ length rounds
unfolding sort_rounds
length-sort_rounds [] = refl
length-sort_rounds (round ∷ rounds) =
    omega (arith, length-sort_rounds rounds, length-insert_round round (sort_rounds rounds))

contains-length :
    (round other : ℕ) (rounds : List ℕ)
    → contains rounds other ≡ true
    → other ≢ round
    → 1 ≤ length rounds
contains-length round other [] h apart = ground (arith, h)
contains-length round other (first ∷ rounds) h apart = omega arith

two_elements :
    (round other : ℕ) (rounds : List ℕ)
    → contains rounds other ≡ true
    → contains rounds round ≡ true
    → other ≢ round
    → 2 ≤ length rounds
two_elements round other [] h k apart = ground (arith, h)
two_elements round other (first ∷ []) h k apart =
    ground (arith, h, k, apart, nat_eq.same_iff first other, nat_eq.same_iff first round)
two_elements round other (first ∷ second ∷ rounds) h k apart = omega arith

length-add_round :
    (round other : ℕ) (rounds : List ℕ)
    → contains rounds other ≡ true
    → other ≢ round
    → 2 ≤ length (add_round round rounds)
unfolding add_round
length-add_round round other rounds h apart = ground (
  arith,
  h,
  apart,
  two_elements round other rounds h,
  contains-length round other rounds h apart,
  length-sort_rounds rounds,
  length-sort_rounds (rounds ++ (round ∷ [])),
  length-append rounds (round ∷ []),
)

-- The gate names a family that needs a reset.
pub families_in-lookup :
    (test : FamilyState → Bool) (families : List (String × Family)) (id : String) (family : Family)
    → lookup id families ≡ some family
    → test family.state ≡ true
    → contains (families_in test families) id ≡ true
unfolding families_in lookup
families_in-lookup test [] id family h k = ground (arith, h)
families_in-lookup test ((key, first) ∷ families) id family h k = elim (Bool-cases (key == id)) [
  | inl e ↦
      let same : first ≡ family = ground (arith, h, e) in
      ground (arith, e, k, ap (λ f. test f.state) same)
  | inr e ↦ ground (arith, e, h, families_in-lookup test families id family, k)
]

failed_again :
    (failure : Failure) (family : Family) (earlier : ℕ)
    → contains family.failed_rounds earlier ≡ true
    → earlier ≢ failure.round
    → is_reset_required (fail_family failure family).state ≡ true
unfolding fail_family
failed_again failure family earlier h apart =
    ground (arith, length-add_round failure.round earlier family.failed_rounds h apart)

pub not_empty : (ids : List String) (id : String) → contains ids id ≡ true → is_empty ids ≡ false
not_empty [] id h = ground (arith, h)
not_empty (first ∷ ids) id h = refl

-- A family that fails in a second round closes the gate, which names it.
pub evaluate_ledger-record_failure :
    (ledger : Ledger) (failure : Failure) (family : Family) (earlier : ℕ)
    → lookup failure.family_id ledger.families ≡ some family
    → contains family.failed_rounds earlier ≡ true
    → earlier ≢ failure.round
    → let gate = evaluate_ledger (record_failure ledger failure) in
      (gate.ok ≡ false) × (contains gate.reset_required failure.family_id ≡ true)
unfolding evaluate_ledger record_failure
evaluate_ledger-record_failure ledger failure family earlier known before apart =
    let failed =
      fail_family failure (or_new (lookup failure.family_id ledger.families) failure.title) in
    let all = insert failure.family_id failed ledger.families in
    let named : contains (families_in is_reset_required all) failure.family_id ≡ true =
      families_in-lookup is_reset_required all failure.family_id failed
        (ground (
          arith,
          beq_refl failure.family_id,
          lookup-insert failure.family_id failure.family_id failed ledger.families,
        ))
        (rw known (failed_again failure family earlier before apart)) in
    (not_empty (families_in is_reset_required all) failure.family_id named, named)
