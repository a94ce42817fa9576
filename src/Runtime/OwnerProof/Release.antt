-- ===== src/Runtime/OwnerProof/Release.antt =====
-- The release of an owner, and the promises on which it rests.
use outright.Base.{
  ℕ, ◌≡◌, ◌≢◌, ◌⊎◌, inl, inr, refl, sym, ap, ◌∙◌, Bool, true, false, ◌&&◌, Option, none, some,
  if◌then◌else◌, String, string_eq, ◌==◌, List, [], ◌∷◌, nat_eq, arith, is_some, Option-cases,
  Bool-cases,
}
use outright.Runtime.OwnerProof.{
  Platform, platform_beq, platform_is, Field, OwnerRecord, Paths, World, Status, Marker, Lookup,
  proven, unproven, Reason, owner_alive, runtime_alive, owner_released, is_release_evidence,
  rejection, identity_matches, recorded_handshake, field_matches, recorded_boot, named,
  is_earlier_boot, native_owner_proof, process_proof, tree_proof, linux_tree_proof,
  darwin_tree_proof, windows_tree_proof, owner_process_gone, removed_by_supervisor, marker_matches,
  fields_match, tree_empty_proof, is_boot, or_false, is_no_entry,
}
use outright.Runtime.OwnerProof.Restart.{rejection-none}
use outright.Runtime.OwnerProof.Processes.{Facts, IsTruthful, owner_gone}

-- A field that is missing or holds a text.
abbrev pub Names : Field → String → Type 0
Names field expected = (field ≡ Field.missing) ⊎ (field ≡ Field.text expected)

-- The record's name for the tree is one that an owner has on its platform.
abbrev pub IsNamed : Paths → OwnerRecord → String → Platform → Type 0
IsNamed paths r id Platform.darwin = Names r.label (paths.native_label id)
IsNamed paths r id Platform.win32 = Names r.job_name (paths.native_job_name id)
IsNamed paths r id Platform.linux =
    (r.handshake_path ≡ Field.missing)
    ⊎ ((path : String) × (r.handshake_path ≡ Field.text path)
        × (paths.is_absolute path ≡ true)
        × (paths.base_name path ≡ "owner.json")
        × (paths.base_name (paths.dir_name path) ≡ paths.owner_directory_name id))

-- A record of an owner on a platform, in one of the two states that such a record has.
abbrev pub IsOwned : Paths → OwnerRecord → String → Platform → Type 0
IsOwned paths r id platform =
    (r.platform ≡ some platform) × (r.has_known_state ≡ true) × IsNamed paths r id platform

-- What boots, runtimes, supervisors, launchd and the Windows kernel promise about an owner's tree.
-- The identity of the boot that is read is that of the boot that runs, and no tree outlives its boot.
-- Before its record allows the launch, a tree runs only while the runtime does. Once the recorded
-- owner has ended: the supervisor removes the handshake from its private directory only after the
-- tree is empty; launchd reports the service absent only after its coalition is reaped; an opened job
-- has ended only with no members; and the marker of a job in a boot is written only after that.
pub record IsReported (paths : Paths) (w : World) (facts : Facts) (r : OwnerRecord) (id : String)
    (platform : Platform) (current : Option String) : Type 0 where
  pub read_boot : (boot : String) → current ≡ some boot → boot ≢ "" → facts.boot ≡ boot
  pub other_boot :
      (boot : String) → recorded_boot r ≡ some boot → facts.boot ≢ boot → facts.has_tree ≡ false
  pub reserved :
      (pid : ℕ)
      → r.is_unauthorized ≡ true
      → r.runtime_pid ≡ some pid
      → facts.runs pid ≡ false
      → facts.has_tree ≡ false
  pub removed :
      (pid : ℕ)
      → platform ≡ Platform.linux
      → r.pid ≡ some pid
      → facts.runs pid ≡ false
      → w.private_directory ≡ some true
      → w.handshake_left ≡ Lookup.no_entry
      → facts.has_tree ≡ false
  pub reaped :
      (pid : ℕ)
      → platform ≡ Platform.darwin
      → r.pid ≡ some pid
      → facts.runs pid ≡ false
      → w.last_status ≡ Status.absent
      → facts.has_tree ≡ false
  pub exited :
      (pid : ℕ)
      → platform ≡ Platform.win32
      → r.pid ≡ some pid
      → facts.runs pid ≡ false
      → w.last_status ≡ Status.exited
      → facts.has_tree ≡ false
  pub marked :
      (pid : ℕ) (marker : Marker) (boot : String)
      → platform ≡ Platform.win32
      → r.pid ≡ some pid
      → facts.runs pid ≡ false
      → w.marker ≡ some marker
      → marker.is_file ≡ true
      → marker.fields ≡ tree_empty_proof ∷ paths.native_job_name id ∷ boot ∷ "" ∷ []
      → boot ≢ ""
      → (named r.boot_id ≡ none) ⊎ (named r.boot_id ≡ some boot)
      → facts.has_tree ≡ false

field_matches_lem :
    (field : Field) (expected : String) → field_matches field expected ≡ true → Names field expected
unfolding field_matches
field_matches_lem Field.missing expected h = inl refl
field_matches_lem Field.other expected h = ground (arith, h)
field_matches_lem (Field.text value) expected h =
    inr (ap Field.text ((string_eq.same_iff value expected).0 h))

handshake-IsNamed :
    (paths : Paths) (r : OwnerRecord) (id : String) (field : Field)
    → r.handshake_path ≡ field
    → is_some (recorded_handshake paths r id) ≡ true
    → IsNamed paths r id Platform.linux
unfolding recorded_handshake
handshake-IsNamed paths r id Field.missing e h = inl e
handshake-IsNamed paths r id Field.other e h = ground (arith, e, h)
handshake-IsNamed paths r id (Field.text path) e h =
    let test : (paths.is_absolute path
          && paths.base_name path == "owner.json"
          && paths.base_name (paths.dir_name path) == paths.owner_directory_name id)
        ≡ true =
      ground (arith, e, h) in
    inr (
      path,
      e,
      ground (arith, test),
      (string_eq.same_iff (paths.base_name path) "owner.json").0 (ground (arith, test)),
      (string_eq.same_iff (paths.base_name (paths.dir_name path)) (paths.owner_directory_name id)).0
          (ground (arith, test)),
    )

identity_matches_lem :
    (paths : Paths) (r : OwnerRecord) (id : String) (platform : Platform)
    → identity_matches paths r id platform ≡ true
    → IsNamed paths r id platform
unfolding identity_matches
identity_matches_lem paths r id Platform.linux h =
    handshake-IsNamed paths r id r.handshake_path refl h
identity_matches_lem paths r id Platform.darwin h =
    field_matches_lem r.label (paths.native_label id) h
identity_matches_lem paths r id Platform.win32 h =
    field_matches_lem r.job_name (paths.native_job_name id) h

platform_is_lem :
    (recorded : Option Platform) (platform : Platform)
    → platform_is recorded platform ≡ true
    → recorded ≡ some platform
unfolding platform_beq
platform_is_lem none platform h = ground (arith, h)
platform_is_lem (some Platform.darwin) Platform.darwin h = refl
platform_is_lem (some Platform.darwin) Platform.linux h = ground (arith, h)
platform_is_lem (some Platform.darwin) Platform.win32 h = ground (arith, h)
platform_is_lem (some Platform.linux) Platform.darwin h = ground (arith, h)
platform_is_lem (some Platform.linux) Platform.linux h = refl
platform_is_lem (some Platform.linux) Platform.win32 h = ground (arith, h)
platform_is_lem (some Platform.win32) Platform.darwin h = ground (arith, h)
platform_is_lem (some Platform.win32) Platform.linux h = ground (arith, h)
platform_is_lem (some Platform.win32) Platform.win32 h = refl

rejection_lem :
    (paths : Paths) (r : OwnerRecord) (id : String) (platform : Platform)
    → rejection paths (some r) id platform ≡ none
    → IsOwned paths r id platform
unfolding rejection
rejection_lem paths r id platform h = (
  platform_is_lem r.platform platform (ground (arith, h)),
  ground (arith, h),
  identity_matches_lem paths r id platform (ground (arith, h)),
)

released_proven :
    (test : Bool) (why : Reason)
    → owner_released (if test then proven else unproven why) ≡ true
    → test ≡ true
unfolding owner_released
released_proven true why h = refl
released_proven false why h = ground (arith, h)

boot_lem :
    (recorded : Option String) (boot : String)
    → is_boot recorded boot ≡ true
    → (recorded ≡ none) ⊎ (recorded ≡ some boot)
boot_lem none boot h = inl refl
boot_lem (some known) boot h = inr (ap some (sym ((string_eq.same_iff boot known).0 h)))

private_lem : (answer : Option Bool) → or_false answer ≡ true → answer ≡ some true
private_lem none h = ground (arith, h)
private_lem (some test) h = ap some h

no_entry_lem : (answer : Lookup) → is_no_entry answer ≡ true → answer ≡ Lookup.no_entry
no_entry_lem Lookup.no_entry h = refl
no_entry_lem Lookup.found h = ground (arith, h)
no_entry_lem Lookup.failed h = ground (arith, h)

fields_lem :
    (job_name : String) (recorded : Option String) (fields : List String)
    → fields_match job_name recorded fields ≡ true
    → (boot : String) × (fields ≡ tree_empty_proof ∷ job_name ∷ boot ∷ "" ∷ [])
      × (boot ≢ "")
      × ((recorded ≡ none) ⊎ (recorded ≡ some boot))
unfolding fields_match
fields_lem job_name recorded [] h = ground (arith, h)
fields_lem job_name recorded (proof ∷ []) h = ground (arith, h)
fields_lem job_name recorded (proof ∷ job ∷ []) h = ground (arith, h)
fields_lem job_name recorded (proof ∷ job ∷ boot ∷ []) h = ground (arith, h)
fields_lem job_name recorded (proof ∷ job ∷ boot ∷ rest ∷ more ∷ fields) h = ground (arith, h)
fields_lem job_name recorded (proof ∷ job ∷ boot ∷ rest ∷ []) h =
    let proof_is : proof ≡ tree_empty_proof =
      (string_eq.same_iff proof tree_empty_proof).0 (ground (arith, h)) in
    let job_is : job ≡ job_name = (string_eq.same_iff job job_name).0 (ground (arith, h)) in
    let rest_is : rest ≡ "" = (string_eq.same_iff rest "").0 (ground (arith, h)) in
    (
      boot,
      rw (proof_is, job_is, rest_is) refl,
      λ empty. ground (arith, h, (string_eq.same_iff boot "").1 empty),
      boot_lem recorded boot (ground (arith, h)),
    )

linux_empty :
    (w : World) → owner_released (linux_tree_proof w) ≡ true → removed_by_supervisor w ≡ true
unfolding linux_tree_proof owner_released is_release_evidence
linux_empty w h = ground (arith, h)

darwin_empty :
    (w : World) → owner_released (darwin_tree_proof w) ≡ true → w.last_status ≡ Status.absent
unfolding darwin_tree_proof owner_released is_release_evidence
darwin_empty w h = ground (arith, h)

windows_empty :
    (paths : Paths) (w : World) (r : OwnerRecord) (id : String)
    → owner_released (windows_tree_proof paths w r id) ≡ true
    → (w.last_status ≡ Status.exited)
      ⊎ (marker_matches (paths.native_job_name id) (named r.boot_id) w.marker ≡ true)
unfolding windows_tree_proof owner_released is_release_evidence
windows_empty paths w r id h = ground (arith, h)

module _ (paths : Paths) (w : World) (facts : Facts) (r : OwnerRecord) (id : String)
    (current : Option String) where
  removed_lem :
      (pid : ℕ)
      → IsReported paths w facts r id Platform.linux current
      → r.pid ≡ some pid
      → facts.runs pid ≡ false
      → removed_by_supervisor w ≡ true
      → facts.has_tree ≡ false
  unfolding removed_by_supervisor
  removed_lem pid reported owner gone h =
      reported.removed pid refl owner gone (private_lem w.private_directory (ground (arith, h)))
        (no_entry_lem w.handshake_left (ground (arith, h)))

  marked_lem :
      (pid : ℕ) (marker : Option Marker)
      → IsReported paths w facts r id Platform.win32 current
      → r.pid ≡ some pid
      → facts.runs pid ≡ false
      → w.marker ≡ marker
      → marker_matches (paths.native_job_name id) (named r.boot_id) marker ≡ true
      → facts.has_tree ≡ false
  unfolding marker_matches
  marked_lem pid none reported owner gone read h = ground (arith, h)
  marked_lem pid (some marker) reported owner gone read h =
      let (boot, fields, given, bound) =
        fields_lem (paths.native_job_name id) (named r.boot_id) marker.fields (ground (arith, h)) in
      reported.marked pid marker boot refl owner gone read (ground (arith, h)) fields given bound

  tree_lem :
      (pid : ℕ) (platform : Platform)
      → IsReported paths w facts r id platform current
      → r.pid ≡ some pid
      → facts.runs pid ≡ false
      → owner_released (tree_proof paths w r id platform) ≡ true
      → facts.has_tree ≡ false
  unfolding tree_proof
  tree_lem pid Platform.linux reported owner gone h =
      removed_lem pid reported owner gone (linux_empty w h)
  tree_lem pid Platform.darwin reported owner gone h =
      reported.reaped pid refl owner gone (darwin_empty w h)
  tree_lem pid Platform.win32 reported owner gone h = elim (windows_empty paths w r id h) [
    | inl ended ↦ reported.exited pid refl owner gone ended
    | inr matches ↦ marked_lem pid w.marker reported owner gone refl matches
  ]

  process_lem :
      (platform : Platform)
      → IsTruthful platform w facts
      → IsReported paths w facts r id platform current
      → owner_released (process_proof paths w r id platform) ≡ true
      → facts.has_tree ≡ false
  unfolding process_proof
  process_lem platform truthful reported h = elim (Bool-cases r.is_unauthorized) [
    | inl waits ↦
        let (pid, runtime, gone) = owner_gone platform w facts r.runtime_pid truthful (
          released_proven (owner_process_gone platform w r.runtime_pid) runtime_alive
            (rw (process_proof, waits) at h)) in
        reported.reserved pid waits runtime gone
    | inr launched ↦ elim (Bool-cases (owner_process_gone platform w r.pid)) [
      | inl ended ↦
          let (pid, owner, gone) = owner_gone platform w facts r.pid truthful ended in
          let whole : process_proof paths w r id platform ≡ tree_proof paths w r id platform =
            ground (arith, launched, ended) in
          tree_lem pid platform reported owner gone (rw whole at h)
      | inr alive ↦
          let kept = released_proven false owner_alive (rw (process_proof, launched, alive) at h) in
          ground (arith, kept)
    ]
  ]

  -- A boot that was recorded and is not the one read is not the one that runs.
  earlier_lem :
      (platform : Platform) (recorded current_boot : Option String)
      → IsReported paths w facts r id platform current_boot
      → recorded_boot r ≡ recorded
      → is_earlier_boot recorded current_boot ≡ true
      → facts.has_tree ≡ false
  unfolding is_earlier_boot
  earlier_lem platform none current_boot reported e h = ground (arith, h)
  earlier_lem platform (some recorded) none reported e h = ground (arith, h)
  earlier_lem platform (some recorded) (some boot) reported e h =
      let given : boot ≢ "" = λ empty. ground (arith, h, (string_eq.same_iff boot "").1 empty) in
      let apart : facts.boot ≢ recorded = λ same. ground (
        arith,
        h,
        (string_eq.same_iff recorded boot).1 (sym same ∙ reported.read_boot boot refl given),
      ) in
      reported.other_boot recorded e apart

  accepted_lem :
      (platform : Platform)
      → rejection paths (some r) id platform ≡ none
      → IsTruthful platform w facts
      → IsReported paths w facts r id platform current
      → owner_released (native_owner_proof paths w (some r) id platform current) ≡ true
      → facts.has_tree ≡ false
  unfolding native_owner_proof
  accepted_lem platform e truthful reported h =
      elim (Bool-cases (is_earlier_boot (recorded_boot r) current)) [
        | inl late ↦ earlier_lem platform (recorded_boot r) current reported refl late
        | inr same ↦ process_lem platform truthful reported (rw (native_owner_proof, e, same) at h)
      ]

rejected_lem :
    (paths : Paths) (w : World) (read : Option OwnerRecord) (id : String) (platform : Platform)
    (current : Option String) (why : Reason)
    → rejection paths read id platform ≡ some why
    → owner_released (native_owner_proof paths w read id platform current) ≡ false
unfolding native_owner_proof owner_released
rejected_lem paths w read id platform current why e = rw (native_owner_proof, e) refl

-- No process of an owner's tree runs once the owner is released, and its record is one of an owner on
-- this platform. This rests on what the operating system answers about processes, and, for such a
-- record, on what boots, the runtime, the supervisor, launchd and Windows jobs promise.
pub native_owner_proof_released :
    (paths : Paths) (w : World) (facts : Facts) (read : Option OwnerRecord) (id : String)
    (platform : Platform) (current : Option String)
    → IsTruthful platform w facts
    → ((r : OwnerRecord)
        → read ≡ some r
        → IsOwned paths r id platform
        → IsReported paths w facts r id platform current)
    → owner_released (native_owner_proof paths w read id platform current) ≡ true
    → (r : OwnerRecord) × (read ≡ some r) × IsOwned paths r id platform × (facts.has_tree ≡ false)
native_owner_proof_released paths w facts none id platform current truthful reported h =
    elim (Option-cases (rejection paths none id platform)) [
      | inl e ↦ ground (arith, e, rejection-none paths id platform)
      | inr (why, e) ↦ ground (arith, h, rejected_lem paths w none id platform current why e)
    ]
native_owner_proof_released paths w facts (some r) id platform current truthful reported h =
    elim (Option-cases (rejection paths (some r) id platform)) [
      | inr (why, e) ↦ ground (arith, h, rejected_lem paths w (some r) id platform current why e)
      | inl e ↦
          let owned = rejection_lem paths r id platform e in
          let empty =
            accepted_lem paths w facts r id current platform e truthful (reported r refl owned) h in
          (r, refl, owned, empty)
    ]
