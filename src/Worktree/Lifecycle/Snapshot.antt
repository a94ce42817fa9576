-- ===== src/Worktree/Lifecycle/Snapshot.antt =====
-- Events and bootstrap snapshots give the client the same states in either order.
use outright.Base.{
  ℕ, ◌+◌, ◌≤◌, ◌≡◌, ◌≢◌, Bool, false, ◌&&◌, not, Option, none, some, if◌then◌else◌, String,
  string_eq, ◌==◌, List, [], ◌∷◌, ◌++◌, filter, contains, map, arith, Bool-cases, inl, inr, refl,
  is_some, beq_refl,
}
use outright.Worktree.Lifecycle.{
  LifecycleState, find_path, remove_found, is_newer, is_covered, upsert_lifecycle_state, later_than,
  is_unpublished, merge_lifecycle_snapshot,
}

abbrev pub path_count : String → List LifecycleState → ℕ
path_count path [] = 0
path_count path (state ∷ states) =
    (if state.worktree_path == path then 1 else 0) + path_count path states

-- No path has two states.
abbrev pub IsKeyed : List LifecycleState → Type 0
IsKeyed states = (path : String) → path_count path states ≤ 1

find_path-remove_found :
    (gone path : String) (states : List LifecycleState)
    → gone ≢ path
    → find_path path (remove_found gone states) ≡ find_path path states
unfolding find_path remove_found
find_path-remove_found gone path [] apart = refl
find_path-remove_found gone path (state ∷ states) apart = ground (
  arith,
  apart,
  find_path-remove_found gone path states apart,
  string_eq.same_iff state.worktree_path gone,
  string_eq.same_iff state.worktree_path path,
)

path_count-remove_found-le :
    (gone path : String) (states : List LifecycleState)
    → path_count path (remove_found gone states) ≤ path_count path states
unfolding remove_found
path_count-remove_found-le gone path [] = omega arith
path_count-remove_found-le gone path (state ∷ states) =
    ground (arith, path_count-remove_found-le gone path states)

path_count-remove_found :
    (path : String) (states : List LifecycleState)
    → path_count path states ≤ 1
    → path_count path (remove_found path states) ≡ 0
unfolding remove_found
path_count-remove_found path [] once = omega arith
path_count-remove_found path (state ∷ states) once =
    ground (arith, once, path_count-remove_found path states)

-- Whether an event replaces what the client holds for its path.
abbrev pub is_accepted : LifecycleState → Option LifecycleState → Option ℕ → Bool
is_accepted payload current watermark =
    not (is_newer current payload.revision) && not (is_covered payload.revision watermark)

find_path-upsert_same :
    (states : List LifecycleState) (payload : LifecycleState) (watermark : Option ℕ)
    → let path = payload.worktree_path in
      find_path path (upsert_lifecycle_state states payload watermark) ≡ (
        if is_accepted payload (find_path path states) watermark
        then some payload
        else find_path path states)
unfolding upsert_lifecycle_state find_path
find_path-upsert_same states payload watermark = ground (arith, beq_refl payload.worktree_path)

find_path-upsert_lifecycle_state :
    (path : String) (states : List LifecycleState) (payload : LifecycleState) (watermark : Option ℕ)
    → find_path path (upsert_lifecycle_state states payload watermark) ≡ (
        if payload.worktree_path == path && is_accepted payload (find_path path states) watermark
        then some payload
        else find_path path states)
unfolding upsert_lifecycle_state find_path
find_path-upsert_lifecycle_state path states payload watermark =
    elim (Bool-cases (payload.worktree_path == path)) [
      | inl e ↦
          let same = (string_eq.same_iff payload.worktree_path path).0 e in
          ground (arith, e, rw same at (find_path-upsert_same states payload watermark))
      | inr e ↦ ground (
        arith,
        e,
        string_eq.same_iff payload.worktree_path path,
        find_path-remove_found payload.worktree_path path states,
      )
    ]

upsert_lifecycle_state-IsKeyed :
    (states : List LifecycleState) (payload : LifecycleState) (watermark : Option ℕ)
    → IsKeyed states
    → IsKeyed (upsert_lifecycle_state states payload watermark)
unfolding upsert_lifecycle_state
upsert_lifecycle_state-IsKeyed states payload watermark keyed path = ground (
  arith,
  keyed path,
  string_eq.same_iff payload.worktree_path path,
  path_count-remove_found path states,
  path_count-remove_found-le payload.worktree_path path states,
)

find_path-append :
    (path : String) (front back : List LifecycleState)
    → find_path path (front ++ back)
      ≡ (if is_some (find_path path front) then find_path path front else find_path path back)
unfolding find_path
find_path-append path [] back = refl
find_path-append path (state ∷ front) back = ground (arith, find_path-append path front back)

contains-paths :
    (path : String) (states : List LifecycleState)
    → contains (map (λ other. other.worktree_path) states) path ≡ is_some (find_path path states)
unfolding find_path
contains-paths path [] = refl
contains-paths path (state ∷ states) = ground (arith, contains-paths path states)

find_path-none :
    (path : String) (states : List LifecycleState)
    → path_count path states ≡ 0
    → find_path path states ≡ none
unfolding find_path
find_path-none path [] h = refl
find_path-none path (state ∷ states) h = ground (arith, h, find_path-none path states)

path_count-filter :
    (path : String) (test : LifecycleState → Bool) (states : List LifecycleState)
    → path_count path (filter test states) ≤ path_count path states
path_count-filter path test [] = omega arith
path_count-filter path test (state ∷ states) = ground (arith, path_count-filter path test states)

abbrev keep_if : (LifecycleState → Bool) → Option LifecycleState → Option LifecycleState
keep_if test none = none
keep_if test (some state) = if test state then some state else none

find_path-filter :
    (path : String) (test : LifecycleState → Bool) (states : List LifecycleState)
    → path_count path states ≤ 1
    → find_path path (filter test states) ≡ keep_if test (find_path path states)
unfolding find_path
find_path-filter path test [] once = refl
find_path-filter path test (state ∷ states) once = ground (
  arith,
  once,
  find_path-filter path test states,
  path_count-filter path test states,
  find_path-none path (filter test states),
)

find_path-unpublished :
    (path : String) (newer snapshot : List LifecycleState)
    → find_path path (filter (is_unpublished newer) snapshot)
      ≡ (if is_some (find_path path newer) then none else find_path path snapshot)
unfolding find_path
find_path-unpublished path newer [] = ground arith
find_path-unpublished path newer (state ∷ snapshot) =
    elim (Bool-cases (state.worktree_path == path)) [
      | inr e ↦ ground (arith, e, find_path-unpublished path newer snapshot)
      | inl e ↦
          let same = (string_eq.same_iff state.worktree_path path).0 e in
          ground (
            arith,
            e,
            find_path-unpublished path newer snapshot,
            rw same at (contains-paths state.worktree_path newer),
          )
    ]

find_path-merge :
    (path : String) (states snapshot : List LifecycleState) (revision : ℕ)
    → path_count path states ≤ 1
    → let kept = keep_if (later_than revision) (find_path path states) in
      find_path path (merge_lifecycle_snapshot states snapshot revision)
      ≡ (if is_some kept then kept else find_path path snapshot)
unfolding merge_lifecycle_snapshot
find_path-merge path states snapshot revision once =
    let newer = filter (later_than revision) states in
    ground (
      arith,
      once,
      find_path-append path newer (filter (is_unpublished newer) snapshot),
      find_path-unpublished path newer snapshot,
      find_path-filter path (later_than revision) states,
    )

-- An event that reaches the client before a snapshot and one that reaches it after leave it with
-- the same state of every worktree, where the client has one state for each path, the snapshot
-- is of no later revision than it says and no earlier snapshot was later.
pub merge_lifecycle_snapshot-upsert :
    (path : String) (states snapshot : List LifecycleState) (payload : LifecycleState)
    (revision watermark : ℕ)
    → IsKeyed states
    → is_newer (find_path path snapshot) revision ≡ false
    → watermark ≤ revision
    → find_path path (
        merge_lifecycle_snapshot
          (upsert_lifecycle_state states payload (some watermark))
          snapshot
          revision)
      ≡ find_path path (
          upsert_lifecycle_state
            (merge_lifecycle_snapshot states snapshot revision)
            payload
            (some revision))
merge_lifecycle_snapshot-upsert path states snapshot payload revision watermark keyed past older =
    let upserted = upsert_lifecycle_state states payload (some watermark) in
    ground (
      arith,
      past,
      older,
      keyed path,
      find_path-merge path upserted snapshot revision
          (upsert_lifecycle_state-IsKeyed states payload (some watermark) keyed path),
      find_path-merge path states snapshot revision (keyed path),
      find_path-upsert_lifecycle_state path states payload (some watermark),
      find_path-upsert_lifecycle_state path (merge_lifecycle_snapshot states snapshot revision)
          payload (some revision),
    )

-- Two events of different revisions leave the client with the same state of every worktree in
-- whichever order they arrive.
pub upsert_lifecycle_state_comm :
    (path : String) (states : List LifecycleState) (one other : LifecycleState)
    (watermark : Option ℕ)
    → one.revision ≢ other.revision
    → find_path path
        (upsert_lifecycle_state (upsert_lifecycle_state states one watermark) other watermark)
      ≡ find_path path
          (upsert_lifecycle_state (upsert_lifecycle_state states other watermark) one watermark)
upsert_lifecycle_state_comm path states one other watermark apart =
    let after_one = upsert_lifecycle_state states one watermark in
    let after_other = upsert_lifecycle_state states other watermark in
    ground (
      arith,
      apart,
      find_path-upsert_lifecycle_state path after_one other watermark,
      find_path-upsert_lifecycle_state path states one watermark,
      find_path-upsert_lifecycle_state path after_other one watermark,
      find_path-upsert_lifecycle_state path states other watermark,
    )
