-- ===== src/Runtime/OwnerProof.antt =====
-- server/subprocess-budget.mjs: what proves that the process tree of a recorded owner is gone. What
-- the platform answers (files, probes, processes) is an input.
pub mod Restart
pub mod Processes
pub mod Release
pub mod Tests
use outright.Base.{
  ℕ, suc, List, [], ◌∷◌, leb, get_elem?, Bool, true, false, ◌&&◌, ◌||◌, not, Option, none, some,
  if◌then◌else◌, String, string_eq, nat_eq, nat_beq, nat_beq_iff, StrictEq, ◌==◌, ◌≡◌, ◌↔◌, arith,
  is_some, ltb,
}

pub data Platform : Type 0 where
  darwin linux win32 : Platform

abbrev platform_rank : Platform → ℕ
platform_rank darwin = 0
platform_rank linux = 1
platform_rank win32 = 2

unfoldable pub platform_beq : Platform → Platform → Bool
platform_beq p q = nat_beq (platform_rank p) (platform_rank q)

pub data Reason : Type 0 where
  proven_reason earlier_boot record_unreadable identity_mismatch runtime_alive owner_alive
        handshake_unreadable owner_directory_missing handshake_invalid handshake_retained
        probe_failed service_retained job_alive job_absent_without_marker awaiting_reconciliation
        owner_unsettled release_failed boot_adoption_failed :
      Reason

pub record Proof : Type 0 where
  pub empty : Bool
  pub reason : Reason

abbrev pub proven : Proof
proven = record { empty = true; reason = proven_reason }

abbrev pub unproven : Reason → Proof
unproven why = record { empty = false; reason = why }

-- RELEASE_EVIDENCE
unfoldable pub is_release_evidence : Reason → Bool
is_release_evidence proven_reason = true
is_release_evidence earlier_boot = true
is_release_evidence _ = false

-- LIVE_OWNER_REASONS
unfoldable pub is_live : Reason → Bool
is_live owner_alive = true
is_live runtime_alive = true
is_live job_alive = true
is_live service_retained = true
is_live handshake_retained = true
is_live _ = false

-- REJECTED_RECORD_REASONS
unfoldable pub is_rejection : Reason → Bool
is_rejection record_unreadable = true
is_rejection identity_mismatch = true
is_rejection _ = false

-- `utilityOwnerReleased`
unfoldable pub owner_released : Proof → Bool
owner_released p = p.empty && is_release_evidence p.reason

-- A field of a parsed record: missing, of another type, or text.
pub data Field : Type 0 where
  missing other : Field
  text : String → Field

pub record OwnerRecord : Type 0 where
  pub platform : Option Platform
  pub has_known_state : Bool
  pub handshake_path : Field
  pub label : Field
  pub job_name : Field
  pub boot_id : Field
  pub observed_boot_id : Field
  pub is_unauthorized : Bool
  pub pid : Option ℕ
  pub runtime_pid : Option ℕ

-- What the functions take from the platform's path module, and the names that `nativeOwner` builds.
pub record Paths : Type 0 where
  pub is_absolute : String → Bool
  pub base_name : String → String
  pub dir_name : String → String
  pub owner_directory_name : String → String
  pub native_handshake_path : String → String
  pub native_label : String → String
  pub native_job_name : String → String

-- `recordedLinuxHandshake`
unfoldable pub recorded_handshake : Paths → OwnerRecord → String → Option String
recorded_handshake paths r id = elim r.handshake_path [
  | missing ↦ some (paths.native_handshake_path id)
  | other ↦ none
  | text path ↦
      if paths.is_absolute path
        && paths.base_name path == "owner.json"
        && paths.base_name (paths.dir_name path) == paths.owner_directory_name id
      then some path
      else none
]

-- `record[key] === undefined || record[key] === expected`
unfoldable pub field_matches : Field → String → Bool
field_matches missing expected = true
field_matches other expected = false
field_matches (text value) expected = value == expected

-- `recordedIdentityMatches`
unfoldable pub identity_matches : Paths → OwnerRecord → String → Platform → Bool
identity_matches paths r id linux = is_some (recorded_handshake paths r id)
identity_matches paths r id darwin = field_matches r.label (paths.native_label id)
identity_matches paths r id win32 = field_matches r.job_name (paths.native_job_name id)

-- Text that is not empty.
abbrev pub named : Field → Option String
named missing = none
named other = none
named (text value) = if value == "" then none else some value

abbrev pub or_named : Option String → Option String → Option String
or_named none next = next
or_named (some value) next = some value

-- `recordedBootIdentity`
unfoldable pub recorded_boot : OwnerRecord → Option String
recorded_boot r = or_named (named r.boot_id) (named r.observed_boot_id)

abbrev pub platform_is : Option Platform → Platform → Bool
platform_is none q = false
platform_is (some p) q = platform_beq p q

-- `recordRejection`, on a record that could not be read or one that was.
unfoldable pub rejection : Paths → Option OwnerRecord → String → Platform → Option Reason
rejection paths none id platform = some record_unreadable
rejection paths (some r) id platform =
    if not (platform_is r.platform platform) || not r.has_known_state
    then some record_unreadable
    else if not (identity_matches paths r id platform)
    then some identity_mismatch
    else none

abbrev pub boot_of : Option OwnerRecord → Option String
boot_of none = none
boot_of (some r) = recorded_boot r

-- `clearsAfterRestart`
unfoldable pub clears_after_restart : Paths → Option OwnerRecord → String → Platform → Bool
clears_after_restart paths r id platform =
    not (is_some (rejection paths r id platform)) && is_some (boot_of r)

-- What reading a file of `/proc` gave.
pub data StatText : Type 0 where
  no_file unread : StatText
  contents : List ℕ → StatText

-- What sending a signal to a process gave, and what `lstat` of a path gave.
pub data Signal : Type 0 where
  delivered no_such_process refused : Signal

pub data Lookup : Type 0 where
  found no_entry failed : Lookup

-- The recorded handshake: missing, not to be read as JSON, or with its process and whether its
-- process identity is a text. A handshake that is the JSON `null`, on which the function throws, is
-- left out.
pub data Handshake : Type 0 where
  absent unreadable : Handshake
  parsed : Option ℕ → Bool → Handshake

pub data Status : Type 0 where
  absent exited other_status : Status

-- The marker of an empty tree, with its text split at spaces and newlines.
pub record Marker : Type 0 where
  pub is_file : Bool
  pub size : ℕ
  pub fields : List String

-- What the platform answers about an owner. What is asked after a termination is answered after it:
-- the handshake that is left and the last status. `private_directory` is none where the directory
-- cannot be looked up, `marker` where there is none to read.
pub record World : Type 0 where
  pub proc_stat : ℕ → StatText
  pub signal : ℕ → Signal
  pub handshake : Handshake
  pub private_directory : Option Bool
  pub handshake_left : Lookup
  pub last_status : Status
  pub probe_fails : Bool
  pub marker : Option Marker

-- `text.lastIndexOf(")")`
unfoldable pub last_close : List ℕ → Option ℕ
last_close [] = none
last_close (unit ∷ units) = elim (last_close units) [
  | some index ↦ some (suc index)
  | none ↦ if nat_beq unit 41 then some 0 else none
]

-- Whether the state after the last parenthesis and a blank is Z.
unfoldable pub is_zombie : List ℕ → Bool
is_zombie units = elim (last_close units) [
  | none ↦ false
  | some close ↦ elim (get_elem? units (suc (suc close))) [
    | none ↦ false
    | some unit ↦ nat_beq unit 90
  ]
]

abbrev pub is_stat_gone : StatText → Bool
is_stat_gone no_file = true
is_stat_gone unread = false
is_stat_gone (contents units) = is_zombie units

abbrev pub is_no_such_process : Signal → Bool
is_no_such_process no_such_process = true
is_no_such_process _ = false

-- `ownerProcessGone`
unfoldable pub owner_process_gone : Platform → World → Option ℕ → Bool
owner_process_gone platform w none = false
owner_process_gone platform w (some pid) =
    ltb 0 pid
    && (platform_beq platform linux && is_stat_gone (w.proc_stat pid)
        || is_no_such_process (w.signal pid))

abbrev pub or_false : Option Bool → Bool
or_false none = false
or_false (some test) = test

abbrev pub is_no_entry : Lookup → Bool
is_no_entry no_entry = true
is_no_entry _ = false

-- `handshakeRemovedBySupervisor`
unfoldable pub removed_by_supervisor : World → Bool
removed_by_supervisor w = or_false w.private_directory && is_no_entry w.handshake_left

abbrev pub is_process : Option ℕ → Bool
is_process none = false
is_process (some pid) = ltb 0 pid

-- TREE_EMPTY_PROOF without its newline.
abbrev pub tree_empty_proof : String
tree_empty_proof = "__OUTRIGHT_UTILITY_TREE_EMPTY_V1__"

abbrev pub is_boot : Option String → String → Bool
is_boot none boot = true
is_boot (some recorded) boot = boot == recorded

-- The fields of `emptyMarkerMatches`, for a job name and the boot that the record gives.
unfoldable pub fields_match : String → Option String → List String → Bool
fields_match job_name recorded (proof ∷ job ∷ boot ∷ rest ∷ []) =
    proof == tree_empty_proof
    && job == job_name
    && not (boot == "")
    && is_boot recorded boot
    && rest == ""
fields_match job_name recorded _ = false

-- `emptyMarkerMatches`
unfoldable pub marker_matches : String → Option String → Option Marker → Bool
marker_matches job_name recorded none = false
marker_matches job_name recorded (some marker) =
    marker.is_file && leb marker.size 4096 && fields_match job_name recorded marker.fields

-- `linuxTreeProof`
unfoldable pub linux_tree_proof : World → Proof
linux_tree_proof w = elim w.handshake [
  | absent ↦ if removed_by_supervisor w then proven else unproven owner_directory_missing
  | unreadable ↦ unproven handshake_unreadable
  | parsed pid named_process ↦
      if not (is_process pid) || not named_process
      then unproven handshake_invalid
      else if removed_by_supervisor w
      then proven
      else unproven handshake_retained
]

-- `darwinTreeProof`, by the probe after any termination.
unfoldable pub darwin_tree_proof : World → Proof
darwin_tree_proof w = elim w.last_status [
  | absent ↦ proven
  | _ ↦ unproven (if w.probe_fails then probe_failed else service_retained)
]

-- `windowsTreeProof`, by the probe after any termination.
unfoldable pub windows_tree_proof : Paths → World → OwnerRecord → String → Proof
windows_tree_proof paths w r id = elim w.last_status [
  | exited ↦ proven
  | absent ↦
      if marker_matches (paths.native_job_name id) (named r.boot_id) w.marker
      then proven
      else unproven job_absent_without_marker
  | other_status ↦ unproven (if w.probe_fails then probe_failed else job_alive)
]

unfoldable pub tree_proof : Paths → World → OwnerRecord → String → Platform → Proof
tree_proof paths w r id linux = linux_tree_proof w
tree_proof paths w r id darwin = darwin_tree_proof w
tree_proof paths w r id win32 = windows_tree_proof paths w r id

-- `recordedBoot && bootId && recordedBoot !== bootId`
unfoldable pub is_earlier_boot : Option String → Option String → Bool
is_earlier_boot none current = false
is_earlier_boot (some recorded) none = false
is_earlier_boot (some recorded) (some current) = not (current == "") && not (recorded == current)

-- `nativeOwnerProof` after the record and the boots were checked.
unfoldable pub process_proof : Paths → World → OwnerRecord → String → Platform → Proof
process_proof paths w r id platform =
    if r.is_unauthorized
    then (if owner_process_gone platform w r.runtime_pid then proven else unproven runtime_alive)
    else if not (owner_process_gone platform w r.pid)
    then unproven owner_alive
    else tree_proof paths w r id platform

unfoldable pub native_owner_proof :
    Paths → World → Option OwnerRecord → String → Platform → Option String → Proof
native_owner_proof paths w r id platform current = elim (rejection paths r id platform) [
  | some why ↦ unproven why
  | none ↦
      if is_earlier_boot (boot_of r) current
      then record { empty = true; reason = earlier_boot }
      else elim r [
        | none ↦ unproven record_unreadable
        | some owner ↦ process_proof paths w owner id platform
      ]
]
