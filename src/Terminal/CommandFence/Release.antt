-- ===== src/Terminal/CommandFence/Release.antt =====
-- What a report of terminals does to one fence.
use outright.Base.{
  ◌≤◌, ◌≡◌, refl, Bool, true, false, ◌&&◌, ◌||◌, not, Option, none, some, List, [], ◌∷◌,
  if◌then◌else◌, String, string_eq, ◌==◌, arith, length,
}
use outright.Base.JsMap.{lookup, lookup-erase, length-erase-le}
use outright.Terminal.CommandFence.{
  Terminal, verified, keeps, lookup_id, release_if, release_one, release_all, release_named, adopt,
  same_id,
}

-- Some entry of a report verifies the terminal `id`.
abbrev pub verifies : String → Option Terminal → Bool
verifies id none = false
verifies id (some t) = verified t && same_id t.id (some id)

abbrev pub any_verifies : String → List (Option Terminal) → Bool
any_verifies id [] = false
any_verifies id (t ∷ rest) = verifies id t || any_verifies id rest

release_case :
    (tid : Option String) (good : Bool) (name id : String) (m : List (String × Option String))
    → lookup id (release_if (not good || keeps (lookup_id tid m) name) tid m).0 ≡ (
        if (good && same_id tid (some id)) && not (keeps (lookup id m) name)
        then none
        else lookup id m)
unfolding keeps
release_case none good name id m = ground arith
release_case (some j) good name id m = ground (arith, lookup-erase j id m, string_eq.same_iff j id)

-- An entry releases the terminal that it verifies, unless the same runtime fenced it.
lookup-release_one :
    (name id : String) (t : Option Terminal) (m : List (String × Option String))
    → lookup id (release_one name t m).0
      ≡ (if verifies id t && not (keeps (lookup id m) name) then none else lookup id m)
unfolding release_one
lookup-release_one name id none m = refl
lookup-release_one name id (some t) m = release_case t.id (verified t) name id m

lookup-release_all :
    (name id : String) (ts : List (Option Terminal)) (m : List (String × Option String))
    → lookup id (release_all name ts m).0
      ≡ (if any_verifies id ts && not (keeps (lookup id m) name) then none else lookup id m)
unfolding release_all keeps
lookup-release_all name id [] m = refl
lookup-release_all name id (t ∷ ts) m =
    ground (
      arith,
      lookup-release_one name id t m,
      lookup-release_all name id ts (release_one name t m).0,
    )

length-release_one :
    (name : String) (t : Option Terminal) (m : List (String × Option String))
    → length (release_one name t m).0 ≤ length m
unfolding release_one
length-release_one name none m = omega arith
length-release_one name (some t) m =
    shorter t.id (not (verified t) || keeps (lookup_id t.id m) name)
  where
    shorter : (tid : Option String) (kept : Bool) → length (release_if kept tid m).0 ≤ length m
    shorter tid true = omega arith
    shorter none false = omega arith
    shorter (some j) false = length-erase-le j m

length-release_all :
    (name : String) (ts : List (Option Terminal)) (m : List (String × Option String))
    → length (release_all name ts m).0 ≤ length m
unfolding release_all
length-release_all name [] m = omega arith
length-release_all name (t ∷ ts) m =
    omega (arith, length-release_one name t m, length-release_all name ts (release_one name t m).0)

pub length-release_named :
    (instance : Option String) (ts : Option (List (Option Terminal)))
    (m : List (String × Option String))
    → length (release_named instance ts m).0 ≤ length m
unfolding release_named
length-release_named none ts m = omega arith
length-release_named (some name) none m = omega arith
length-release_named (some name) (some ts) m = length-release_all name ts m

-- Whether a report by a runtime frees the terminal `id` that `owner` fenced.
abbrev pub frees : String → String → Option String → Option (List (Option Terminal)) → Bool
frees id owner none ts = false
frees id owner (some name) none = false
frees id owner (some name) (some ts) = not (owner == name) && any_verifies id ts

freed :
    (owner : String) (a b : Bool)
    → (if a && not b then none else some (some owner))
      ≡ (if not b && a then none else some (some owner))
freed owner a b = ground arith

-- A report by the runtime that owns a fence, or that does not verify the terminal, keeps the fence.
pub lookup-release_named :
    (o : Option String) (ts : Option (List (Option Terminal))) (m : List (String × Option String))
    (id owner : String)
    → lookup id m ≡ some (some owner)
    → lookup id (release_named o ts m).0 ≡ (if frees id owner o ts then none else some (some owner))
unfolding release_named keeps
lookup-release_named none ts m id owner h = h
lookup-release_named (some name) none m id owner h = h
lookup-release_named (some name) (some ts) m id owner h =
    rw (lookup-release_all name id ts m, h) (freed owner (any_verifies id ts) (owner == name))

-- Naming the runtime of the fences that have none leaves the others alone.
pub lookup-adopt :
    (name id : String) (m : List (String × Option String)) (owner : String)
    → lookup id m ≡ some (some owner)
    → lookup id (adopt name m) ≡ some (some owner)
unfolding adopt lookup
lookup-adopt name id [] owner h = h
lookup-adopt name id ((j, none) ∷ m) owner h = ground (arith, lookup-adopt name id m owner)
lookup-adopt name id ((j, some o) ∷ m) owner h = ground (arith, lookup-adopt name id m owner)

pub length-adopt :
    (name : String) (m : List (String × Option String)) → length (adopt name m) ≡ length m
unfolding adopt
length-adopt name [] = refl
length-adopt name ((j, none) ∷ m) = omega (arith, length-adopt name m)
length-adopt name ((j, some o) ∷ m) = omega (arith, length-adopt name m)
