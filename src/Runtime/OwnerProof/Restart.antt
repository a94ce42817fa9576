-- ===== src/Runtime/OwnerProof/Restart.antt =====
-- Restarts of the computer in the proof of an owner.
use outright.Base.{
  ◌≡◌, ◌≢◌, ◌↔◌, inl, inr, true, Option, none, some, String, string_eq, arith, Option-cases,
}
use outright.Runtime.OwnerProof.{
  Platform, earlier_boot, OwnerRecord, Paths, rejection, boot_of, clears_after_restart, World,
  tree_proof, linux_tree_proof, darwin_tree_proof, windows_tree_proof, is_earlier_boot,
  process_proof, native_owner_proof,
}

-- No platform's evidence names an earlier boot.
tree_proof-ne-earlier_boot :
    (paths : Paths) (w : World) (r : OwnerRecord) (id : String) (p : Platform)
    → (tree_proof paths w r id p).reason ≢ earlier_boot
unfolding tree_proof linux_tree_proof darwin_tree_proof windows_tree_proof
tree_proof-ne-earlier_boot paths w r id Platform.linux h = ground arith
tree_proof-ne-earlier_boot paths w r id Platform.darwin h = ground arith
tree_proof-ne-earlier_boot paths w r id Platform.win32 h = ground arith

process_proof-ne-earlier_boot :
    (paths : Paths) (w : World) (r : OwnerRecord) (id : String) (p : Platform)
    → (process_proof paths w r id p).reason ≢ earlier_boot
unfolding process_proof
process_proof-ne-earlier_boot paths w r id p h =
    ground (arith, tree_proof-ne-earlier_boot paths w r id p)

rejection-ne-earlier_boot :
    (paths : Paths) (r : Option OwnerRecord) (id : String) (p : Platform)
    → rejection paths r id p ≢ some earlier_boot
unfolding rejection
rejection-ne-earlier_boot paths none id p h = cc
rejection-ne-earlier_boot paths (some r) id p h = ground arith

pub rejection-none : (paths : Paths) (id : String) (p : Platform) → rejection paths none id p ≢ none
unfolding rejection
rejection-none paths id p h = cc

-- A restart is promised exactly where the proof, given another boot's readable identity, is of an earlier
-- boot, whatever the platform answers.
pub clears_after_restart_iff :
    (paths : Paths) (w : World) (r : Option OwnerRecord) (id : String) (platform : Platform)
    (later : String)
    → later ≢ ""
    → boot_of r ≢ some later
    → (clears_after_restart paths r id platform ≡ true)
      ↔ ((native_owner_proof paths w r id platform (some later)).reason ≡ earlier_boot)
unfolding clears_after_restart native_owner_proof is_earlier_boot
clears_after_restart_iff paths w none id platform later given other =
    ground
      (arith, rejection-ne-earlier_boot paths none id platform, rejection-none paths id platform)
clears_after_restart_iff paths w (some r) id platform later given other =
    elim (Option-cases (boot_of (some r))) [
      | inl e ↦ ground (
        arith,
        e,
        rejection-ne-earlier_boot paths (some r) id platform,
        process_proof-ne-earlier_boot paths w r id platform,
      )
      | inr (b, e) ↦ ground (
        arith,
        e,
        rejection-ne-earlier_boot paths (some r) id platform,
        string_eq.same_iff b later,
        string_eq.same_iff later "",
        process_proof-ne-earlier_boot paths w r id platform,
      )
    ]
