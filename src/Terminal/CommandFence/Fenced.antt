-- ===== src/Terminal/CommandFence/Fenced.antt =====
-- A fence bars input until another runtime verifies the terminal, and at most 256 are kept.
use outright.Base.{
  ◌≤◌, ◌≡◌, refl, Bool, true, false, ◌&&◌, Option, none, some, List, [], ◌∷◌, ◌++◌, if◌then◌else◌,
  String, string_eq, ◌==◌, arith, length, beq_refl, All,
}
use outright.Base.JsMap.{lookup, insert, erase, lookup-erase, length-erase-le, length-insert-le}
use outright.Terminal.CommandFence.{
  Terminal, Event, connected, reattached_event, audit_failed, other_event, Fence, new_fence,
  instance_of, connect, release, adopt, evict_oldest, or_runtime, same_id, observe, observe_all,
  input, resize, other_message, allows,
}
use outright.Terminal.CommandFence.Release.{
  frees, lookup-release_named, length-release_named, lookup-adopt, length-adopt,
}

-- Whether an event frees the terminal `id` that `owner` fenced.
unfoldable pub lifts : String → String → Event → Bool
lifts id owner (connected instance terminals) = frees id owner (instance_of instance) terminals
lifts id owner (reattached_event terminal_id instance t) =
    same_id t.id terminal_id && frees id owner (instance_of instance) (some (some t ∷ []))
lifts id owner (audit_failed terminal_id reporter) = false
lifts id owner other_event = false

abbrev pub is_audit : Event → Bool
is_audit (audit_failed terminal_id reporter) = true
is_audit _ = false

lookup-connect :
    (f : Fence) (o : Option String) (ts : Option (List (Option Terminal))) (id owner : String)
    → lookup id f.unknown ≡ some (some owner)
    → lookup id (connect f o ts).0.unknown
      ≡ (if frees id owner o ts then none else some (some owner))
unfolding connect
lookup-connect f none ts id owner h = h
lookup-connect f (some name) ts id owner h =
    lookup-release_named (some name) ts (adopt name f.unknown) id owner
      (lookup-adopt name id f.unknown owner h)

-- An event other than a new fence ends a fence exactly if it is another runtime's report that the
-- terminal is verified, and otherwise leaves it as it was.
pub lookup-observe :
    (f : Fence) (e : Event) (id owner : String)
    → is_audit e ≡ false
    → lookup id f.unknown ≡ some (some owner)
    → lookup id (observe f e).0.unknown ≡ (if lifts id owner e then none else some (some owner))
unfolding observe lifts release
lookup-observe f (connected instance ts) id owner q h =
    lookup-connect f (instance_of instance) ts id owner h
lookup-observe f (reattached_event terminal_id instance t) id owner q h =
    ground
      (arith, lookup-release_named (instance_of instance) (some (some t ∷ [])) f.unknown id owner h)
lookup-observe f (audit_failed terminal_id reporter) id owner q h = cc
lookup-observe f other_event id owner q h = h

insert_last :
    (id : String) (v : Option String) (m : List (String × Option String))
    → lookup id m ≡ none
    → insert id v m ≡ m ++ (id, v) ∷ []
unfolding insert lookup
insert_last id v [] h = refl
insert_last id v ((j, w) ∷ m) h = ground (arith, insert_last id v m)

lookup-snoc :
    (id : String) (v : Option String) (m : List (String × Option String))
    → lookup id m ≡ none
    → lookup id (m ++ (id, v) ∷ []) ≡ some v
unfolding lookup
lookup-snoc id v [] h = rw (beq_refl id)
lookup-snoc id v ((j, w) ∷ m) h = ground (arith, lookup-snoc id v m)

not_first :
    (id j : String) (w : Option String) (m : List (String × Option String))
    → lookup id ((j, w) ∷ m) ≡ none
    → (j == id) ≡ false
unfolding lookup
not_first id j w m h = ground arith

-- The oldest fence to give way is never the one just set.
lookup-evict_oldest :
    (id : String) (v : Option String) (m : List (String × Option String))
    → lookup id m ≡ none
    → lookup id (evict_oldest (m ++ (id, v) ∷ [])) ≡ some v
unfolding evict_oldest
lookup-evict_oldest id v [] h = lookup-snoc id v [] h
lookup-evict_oldest id v ((j, w) ∷ m) h =
    let kept = lookup-snoc id v ((j, w) ∷ m) h in
    let other : (j == id) ≡ false = not_first id j w m h in
    ground (arith, lookup-erase j id ((j, w) ∷ (m ++ (id, v) ∷ [])), kept, other)

-- A runtime's report that it could not verify a terminal fences it, whatever was fenced before.
pub lookup-observe_audit :
    (f : Fence) (id : String) (reporter : Option String)
    → lookup id (observe f (audit_failed (some id) reporter)).0.unknown
      ≡ some (or_runtime (instance_of reporter) f.runtime)
unfolding observe
lookup-observe_audit f id reporter =
    let gone : lookup id (erase id f.unknown) ≡ none =
      ground (arith, lookup-erase id id f.unknown, beq_refl id) in
    rw (insert_last id (or_runtime (instance_of reporter) f.runtime) (erase id f.unknown) gone) (
      lookup-evict_oldest id (or_runtime (instance_of reporter) f.runtime) (erase id f.unknown)
        gone)

length-evict_oldest :
    (m : List (String × Option String)) → length m ≤ 257 → length (evict_oldest m) ≤ 256
unfolding evict_oldest erase
length-evict_oldest [] h = omega arith
length-evict_oldest ((j, w) ∷ m) h = ground (arith, beq_refl j, length-erase-le j m)

length-connect :
    (f : Fence) (o : Option String) (ts : Option (List (Option Terminal)))
    → length (connect f o ts).0.unknown ≤ length f.unknown
unfolding connect
length-connect f none ts = omega arith
length-connect f (some name) ts =
    omega (
      arith,
      length-adopt name f.unknown,
      length-release_named (some name) ts (adopt name f.unknown),
    )

length-observe :
    (f : Fence) (e : Event) → length f.unknown ≤ 256 → length (observe f e).0.unknown ≤ 256
unfolding observe release
length-observe f (connected instance ts) h =
    omega (arith, length-connect f (instance_of instance) ts)
length-observe f (reattached_event terminal_id instance t) h =
    ground (arith, length-release_named (instance_of instance) (some (some t ∷ [])) f.unknown)
length-observe f (audit_failed none reporter) h = h
length-observe f (audit_failed (some id) reporter) h = length-evict_oldest _ (
    omega (
      arith,
      length-insert-le id (or_runtime (instance_of reporter) f.runtime) (erase id f.unknown),
      length-erase-le id f.unknown,
    ))
length-observe f other_event h = h

length_after :
    (f : Fence) (es : List Event) → length f.unknown ≤ 256 → length (observe_all f es).unknown ≤ 256
unfolding observe_all
length_after f [] h = h
length_after f (e ∷ es) h = length_after (observe f e).0 es (length-observe f e h)

-- After any history at most 256 terminals are fenced.
pub length-observe_all : (es : List Event) → length (observe_all new_fence es).unknown ≤ 256
unfolding new_fence
length-observe_all es = length_after new_fence es (omega arith)

-- Neither a new fence nor the end of the fence of `id`.
abbrev pub IsQuiet : String → String → Event → Type 0
IsQuiet id owner e = (is_audit e ≡ false) × (lifts id owner e ≡ false)

lookup-observe_all :
    (f : Fence) (es : List Event) (id owner : String)
    → All (IsQuiet id owner) es
    → lookup id f.unknown ≡ some (some owner)
    → lookup id (observe_all f es).unknown ≡ some (some owner)
unfolding observe_all
lookup-observe_all f [] id owner quiet h = h
lookup-observe_all f (e ∷ es) id owner quiet h =
    lookup-observe_all (observe f e).0 es id owner quiet.1
      (rw (lookup-observe f e id owner quiet.0.0 h, quiet.0.1))

-- From the report on, no input or resize goes to the terminal while no other runtime verifies it
-- and no further terminal is fenced; every other message goes through.
pub allows-observe_all :
    (f : Fence) (es : List Event) (id owner : String) (reporter : Option String)
    → or_runtime (instance_of reporter) f.runtime ≡ some owner
    → All (IsQuiet id owner) es
    → (let fenced = observe_all (observe f (audit_failed (some id) reporter)).0 es in
        (allows fenced (input id) ≡ false)
        × (allows fenced (resize id) ≡ false)
        × (allows fenced other_message ≡ true))
unfolding allows
allows-observe_all f es id owner reporter known quiet =
    let kept =
      lookup-observe_all (observe f (audit_failed (some id) reporter)).0 es id owner quiet
        (rw (← known) (lookup-observe_audit f id reporter)) in
    (rw kept, rw kept, refl)
