-- ===== src/Runtime/OwnerProof/Tests.antt =====
-- Runs of the owner proof on concrete records, and the theorems at them.
use outright.Base.{
  ◌≡◌, ◌≢◌, ◌↔◌, refl, true, false, none, some, String, string_eq, different, arith, ◌⊎◌, inl, inr,
  nat_beq, ℕ, List, [], ◌∷◌, not, if◌then◌else◌, Bool-cases,
}
use outright.Runtime.OwnerProof.{
  linux, earlier_boot, owner_released, Field, OwnerRecord, Paths, rejection, boot_of,
  clears_after_restart, World, platform_beq, identity_matches, recorded_handshake, recorded_boot,
  process_proof, owner_process_gone, tree_proof, linux_tree_proof, is_release_evidence, Handshake,
  Status, StatText, Signal, Lookup, removed_by_supervisor, last_close, is_zombie, is_earlier_boot,
  native_owner_proof,
}
use outright.Runtime.OwnerProof.Restart.{clears_after_restart_iff}
use outright.Runtime.OwnerProof.Processes.{Facts, IsStat, IsTruthful}
use outright.Runtime.OwnerProof.Release.{IsOwned, IsReported, native_owner_proof_released}

abbrev paths : Paths
paths = record {
  is_absolute = λ path. true;
  base_name = λ path. "owner.json";
  dir_name = λ path. path;
  owner_directory_name = λ id. "owner.json";
  native_handshake_path = λ id. "/tmp/owner.json";
  native_label = λ id. id;
  native_job_name = λ id. id;
}

-- "9 (git) Z 1"
abbrev ended_stat : List ℕ
ended_stat = 57 ∷ 32 ∷ 40 ∷ 103 ∷ 105 ∷ 116 ∷ 41 ∷ 32 ∷ 90 ∷ 32 ∷ 49 ∷ []

-- Process 9 has ended and process 7 runs; the handshake was removed by the supervisor.
abbrev answers : World
answers = record {
  proc_stat = λ pid. if nat_beq pid 9 then StatText.contents ended_stat else StatText.unread;
  signal = λ pid. Signal.delivered;
  handshake = Handshake.absent;
  private_directory = some true;
  handshake_left = Lookup.no_entry;
  last_status = Status.absent;
  probe_fails = false;
  marker = none;
}

abbrev facts : Facts
facts = record { boot = "boot-1"; runs = λ pid. not (nat_beq pid 9); has_tree = false }

abbrev launched : OwnerRecord
launched = record {
  platform = some linux;
  has_known_state = true;
  handshake_path = Field.text "/tmp/x/owner.json";
  label = Field.missing;
  job_name = Field.missing;
  boot_id = Field.text "boot-1";
  observed_boot_id = Field.missing;
  is_unauthorized = false;
  pid = some 9;
  runtime_pid = some 7;
}

released :
    owner_released (native_owner_proof paths answers (some launched) "u" linux (some "boot-1"))
    ≡ true
unfolding owner_released native_owner_proof rejection platform_beq identity_matches
    recorded_handshake is_earlier_boot recorded_boot process_proof owner_process_gone tree_proof
    linux_tree_proof is_release_evidence removed_by_supervisor is_zombie last_close
released = refl

other_boot : boot_of (some launched) ≢ some "boot-2"
unfolding recorded_boot
other_boot e = ground (arith, e, different {A = String} "boot-1" "boot-2" refl)

clears_after_restart_iff_example : (clears_after_restart paths (some launched) "u" linux ≡ true) ↔ (
    (native_owner_proof paths answers (some launched) "u" linux (some "boot-2")).reason
    ≡ earlier_boot)
clears_after_restart_iff_example =
    clears_after_restart_iff paths answers (some launched) "u" linux "boot-2"
      (different "boot-2" "" refl) other_boot

ended-IsStat : (units : List ℕ) → units ≡ ended_stat → IsStat units 90
ended-IsStat units e = record {
  front = 57 ∷ 32 ∷ 40 ∷ 103 ∷ 105 ∷ 116 ∷ [];
  rest = 32 ∷ 49 ∷ [];
  written = e;
  closed = refl;
}

answers-IsStat :
    (pid : ℕ) (units : List ℕ)
    → answers.proc_stat pid ≡ StatText.contents units
    → (letter : ℕ) × IsStat units letter × ((facts.runs pid ≡ false) ⊎ (letter ≢ 90))
answers-IsStat pid units read = elim (Bool-cases (nat_beq pid 9)) [
  | inl nine ↦ (90, ended-IsStat units (ground (arith, nine, read)), inl (ground (arith, nine)))
  | inr other ↦ ground (arith, other, read)
]

answers-IsTruthful : IsTruthful linux answers facts
answers-IsTruthful = record {
  listed = λ pid e read. ground (arith, read);
  state = λ pid units e read. answers-IsStat pid units read;
  found = λ pid sent. ground (arith, sent);
}

answers-IsReported : (r : OwnerRecord) → IsReported paths answers facts r "u" linux (some "boot-1")
answers-IsReported r = record {
  read_boot = λ boot e given. cc (e);
  other_boot = λ boot e other. refl;
  reserved = λ pid e owner gone. refl;
  removed = λ pid e owner gone private left. refl;
  reaped = λ pid e owner gone last. refl;
  exited = λ pid e owner gone last. refl;
  marked = λ pid marker boot e owner gone read file fields given bound. refl;
}

native_owner_proof_released_example :
    (r : OwnerRecord) × (some launched ≡ some r)
    × IsOwned paths r "u" linux
    × (facts.has_tree ≡ false)
native_owner_proof_released_example =
    native_owner_proof_released paths answers facts (some launched) "u" linux (some "boot-1")
      answers-IsTruthful (λ r e owned. answers-IsReported r) released
