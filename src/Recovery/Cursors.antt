-- ===== src/Recovery/Cursors.antt =====
-- The cursors of active runs only grow, and only they can exceed the bound.
use outright.Base.{
  ℕ, zero, suc, ◌≤◌, ◌<◌, ◌≡◌, ◌⊎◌, true, false, ◌&&◌, ◌||◌, none, some, String, string_eq, ◌==◌,
  leb, List, [], ◌∷◌, length, contains, arith, Bool-cases, Option-cases, inl, inr, refl, beq_refl,
}
use outright.Base.JsMap.{lookup, insert, erase, lookup-erase, lookup-insert, length-erase-le}
use outright.Recovery.{
  Message, evictable, evict, is_reached, set_cursor, record_checkpoint_cursor, checkpoint_cursors,
  is_stale_checkpoint_message, position_of,
}

evictable_inactive :
    (active : List String) (cursors : List (String × ℕ)) (id : String)
    → evictable active cursors ≡ some id
    → contains active id ≡ false
unfolding evictable
evictable_inactive active [] id h = ground (arith, h)
evictable_inactive active ((key, seq) ∷ cursors) id h = elim (Bool-cases (contains active key)) [
  | inl e ↦ evictable_inactive active cursors id (ground (arith, h, e))
  | inr e ↦ ground (arith, h, e)
]

erase-evictable-length :
    (active : List String) (cursors : List (String × ℕ)) (id : String)
    → evictable active cursors ≡ some id
    → length (erase id cursors) < length cursors
unfolding evictable erase
erase-evictable-length active [] id h = ground (arith, h)
erase-evictable-length active ((key, seq) ∷ cursors) id h = ground (
  arith,
  h,
  erase-evictable-length active cursors id,
  length-erase-le id cursors,
  string_eq.same_iff key id,
)

-- Eviction leaves the cursors of active runs.
lookup-evict :
    (fuel : ℕ) (active : List String) (cursors : List (String × ℕ)) (id : String)
    → contains active id ≡ true
    → lookup id (evict fuel active cursors) ≡ lookup id cursors
unfolding evict
lookup-evict zero active cursors id h = refl
lookup-evict (suc fuel) active cursors id h = elim (Option-cases (evictable active cursors)) [
  | inl e ↦ rw (evict, e)
  | inr (gone, e) ↦
      rw (evict, e)
        (ground (
          arith,
          h,
          evictable_inactive active cursors gone e,
          lookup-erase gone id cursors,
          string_eq.same_iff gone id,
          lookup-evict fuel active (erase gone cursors) id h,
        ))
]

-- With as much fuel as there are cursors, the loop ends within the bound or with no run to evict.
evict_ends :
    (fuel : ℕ) (active : List String) (cursors : List (String × ℕ))
    → length cursors ≤ fuel
    → (length (evict fuel active cursors) ≤ 2048)
      ⊎ ((evictable active (evict fuel active cursors) ≡ none)
          ⊎ (evictable active (evict fuel active cursors) ≡ some ""))
unfolding evict
evict_ends zero active cursors enough = inl (omega (arith, enough))
evict_ends (suc fuel) active cursors enough = elim (Option-cases (evictable active cursors)) [
  | inl e ↦ rw (evict, e) (inr (inl e))
  | inr (gone, e) ↦
      rw (evict, e)
        (ground (
          arith,
          e,
          string_eq.same_iff gone "",
          erase-evictable-length active cursors gone e,
          evict_ends fuel active (erase gone cursors),
        ))
]

set_cursor_reaches :
    (active : List String) (id other : String) (seq : ℕ) (cursors : List (String × ℕ))
    (position : ℕ)
    → contains active other ≡ true
    → (is_reached (lookup other cursors) position || (id == other && leb position seq)) ≡ true
    → is_reached (lookup other (set_cursor active id seq cursors)) position ≡ true
unfolding set_cursor
set_cursor_reaches active id other seq cursors position busy h =
    let moved = insert id seq (erase id cursors) in
    ground (
      arith,
      busy,
      h,
      string_eq.same_iff id other,
      lookup-evict (length moved) active moved other,
      lookup-insert id other seq (erase id cursors),
      lookup-erase id other cursors,
    )

record_checkpoint_cursor_keeps :
    (active : List String) (cursors : List (String × ℕ)) (message : Message) (id : String)
    (position : ℕ)
    → contains active id ≡ true
    → is_reached (lookup id cursors) position ≡ true
    → is_reached (lookup id (record_checkpoint_cursor active cursors message)) position ≡ true
unfolding record_checkpoint_cursor
record_checkpoint_cursor_keeps active cursors message id position busy h =
    elim (Option-cases (position_of message)) [
      | inl e ↦ rw (record_checkpoint_cursor, e) h
      | inr ((run, seq), e) ↦
          rw (record_checkpoint_cursor, e)
            (set_cursor_reaches active run id seq cursors position busy (ground (arith, h)))
    ]

checkpoint_cursors_keeps :
    (active : List String) (messages : List Message) (cursors : List (String × ℕ)) (id : String)
    (position : ℕ)
    → contains active id ≡ true
    → is_reached (lookup id cursors) position ≡ true
    → is_reached (lookup id (checkpoint_cursors active cursors messages)) position ≡ true
unfolding checkpoint_cursors
checkpoint_cursors_keeps active [] cursors id position busy h = h
checkpoint_cursors_keeps active (message ∷ messages) cursors id position busy h =
    checkpoint_cursors_keeps active messages (record_checkpoint_cursor active cursors message) id
      position busy (record_checkpoint_cursor_keeps active cursors message id position busy h)

-- Once a checkpoint of an active run was recorded, it and every earlier checkpoint of the run are
-- stale, whatever checkpoints are recorded later.
pub checkpoint_cursors_stale :
    (active : List String) (cursors : List (String × ℕ)) (message earlier : Message)
    (later : List Message) (id : String) (seq old : ℕ)
    → contains active id ≡ true
    → position_of message ≡ some (id, seq)
    → position_of earlier ≡ some (id, old)
    → old ≤ seq
    → is_stale_checkpoint_message
        (checkpoint_cursors active (record_checkpoint_cursor active cursors message) later)
        earlier
      ≡ true
unfolding is_stale_checkpoint_message record_checkpoint_cursor
checkpoint_cursors_stale active cursors message earlier later id seq old busy names before order =
    rw (is_stale_checkpoint_message, before, record_checkpoint_cursor, names)
      (checkpoint_cursors_keeps active later (set_cursor active id seq cursors) id old busy
        (set_cursor_reaches active id id seq cursors old busy (ground (arith, order, beq_refl id))))

-- Cursors within the bound, or with no run that the loop would evict.
abbrev pub InBound : List String → List (String × ℕ) → Type 0
InBound active cursors =
    (length cursors ≤ 2048)
    ⊎ ((evictable active cursors ≡ none) ⊎ (evictable active cursors ≡ some ""))

set_cursor-InBound :
    (active : List String) (id : String) (seq : ℕ) (cursors : List (String × ℕ))
    → InBound active cursors
    → InBound active (set_cursor active id seq cursors)
unfolding set_cursor
set_cursor-InBound active id seq cursors h =
    let moved = insert id seq (erase id cursors) in
    elim (Bool-cases (is_reached (lookup id cursors) seq)) [
      | inl e ↦ rw e h
      | inr e ↦ rw e (evict_ends (length moved) active moved (omega arith))
    ]

record_checkpoint_cursor-InBound :
    (active : List String) (cursors : List (String × ℕ)) (message : Message)
    → InBound active cursors
    → InBound active (record_checkpoint_cursor active cursors message)
unfolding record_checkpoint_cursor
record_checkpoint_cursor-InBound active cursors message h =
    elim (Option-cases (position_of message)) [
      | inl e ↦ rw (record_checkpoint_cursor, e) h
      | inr ((run, seq), e) ↦
          rw (record_checkpoint_cursor, e) (set_cursor-InBound active run seq cursors h)
    ]

-- After any checkpoints at most 2048 runs have a cursor, or the first that is not active is the
-- empty identifier, or all are active.
pub checkpoint_cursors-InBound :
    (active : List String) (messages : List Message) (cursors : List (String × ℕ))
    → InBound active cursors
    → InBound active (checkpoint_cursors active cursors messages)
unfolding checkpoint_cursors
checkpoint_cursors-InBound active [] cursors h = h
checkpoint_cursors-InBound active (message ∷ messages) cursors h =
    checkpoint_cursors-InBound active messages (record_checkpoint_cursor active cursors message)
      (record_checkpoint_cursor-InBound active cursors message h)
