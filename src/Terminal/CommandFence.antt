-- ===== src/Terminal/CommandFence.antt =====
-- src/lib/terminal-command-fence.js: the terminals whose owner a runtime could not verify, and to
-- which no command may go. A value that is not text is `none` where the code tests for text.
pub mod Release
pub mod Fenced
pub mod Tests
use outright.Base.{
  ℕ, ◌+◌, Bool, true, false, ◌&&◌, ◌||◌, not, Option, none, some, List, [], ◌∷◌, if◌then◌else◌, ltb,
  String, string_eq, ◌==◌, length, is_some,
}
use outright.Base.JsMap.{lookup, insert, erase, has}

-- A terminal as a runtime reports it.
pub record Terminal : Type 0 where
  pub id : Option String
  pub running : Bool
  pub reattached : Bool
  pub reserved : Bool

pub data Event : Type 0 where
  connected : Option String → Option (List (Option Terminal)) → Event
  reattached_event : Option String → Option String → Terminal → Event
  audit_failed : Option String → Option String → Event
  other_event : Event

-- Each fenced terminal with the runtime that reported it, and the runtime now connected.
pub record Fence : Type 0 where
  pub unknown : List (String × Option String)
  pub runtime : Option String

unfoldable pub new_fence : Fence
new_fence = record { unknown = []; runtime = none }

-- A text that is not empty.
abbrev pub instance_of : Option String → Option String
instance_of none = none
instance_of (some name) = if name == "" then none else some name

-- The conditions under which a report releases a terminal.
abbrev pub verified : Terminal → Bool
verified t = t.running && t.reattached && not t.reserved

-- `owner == null || owner === instance` keeps the fence.
unfoldable pub keeps : Option (Option String) → String → Bool
keeps none name = true
keeps (some none) name = true
keeps (some (some owner)) name = owner == name

abbrev pub lookup_id : Option String → List (String × Option String) → Option (Option String)
lookup_id none m = none
lookup_id (some id) m = lookup id m

abbrev pub erase_id : Option String → List (String × Option String) → List (String × Option String)
erase_id none m = m
erase_id (some id) m = erase id m

abbrev pub release_if :
    Bool → Option String → List (String × Option String) → List (String × Option String) × Bool
release_if kept tid m = if kept then (m, false) else (erase_id tid m, true)

-- One round of the loop of `release`: the fences, and whether one was released.
unfoldable pub release_one :
    String → Option Terminal → List (String × Option String) → List (String × Option String) × Bool
release_one name none m = (m, false)
release_one name (some t) m = release_if (not (verified t) || keeps (lookup_id t.id m) name) t.id m

unfoldable pub release_all :
    String
    → List (Option Terminal)
    → List (String × Option String)
    → List (String × Option String) × Bool
release_all name [] m = (m, false)
release_all name (t ∷ rest) m =
    let (m', one) = release_one name t m in
    let (m'', more) = release_all name rest m' in (m'', one || more)

-- `release` by a runtime whose identity is text, or not.
unfoldable pub release_named :
    Option String
    → Option (List (Option Terminal))
    → List (String × Option String)
    → List (String × Option String) × Bool
release_named none ts m = (m, false)
release_named (some name) none m = (m, false)
release_named (some name) (some ts) m = release_all name ts m

unfoldable pub release :
    Option String
    → Option (List (Option Terminal))
    → List (String × Option String)
    → List (String × Option String) × Bool
release instance ts m = release_named (instance_of instance) ts m

-- Events replayed before the first connection came from the runtime that now connects.
unfoldable pub adopt : String → List (String × Option String) → List (String × Option String)
adopt name [] = []
adopt name ((id, none) ∷ m) = (id, some name) ∷ adopt name m
adopt name ((id, some owner) ∷ m) = (id, some owner) ∷ adopt name m

-- At most 256 terminals are fenced; the oldest gives way.
unfoldable pub evict_oldest : List (String × Option String) → List (String × Option String)
evict_oldest [] = []
evict_oldest ((id, owner) ∷ m) =
    if ltb 256 (length ((id, owner) ∷ m)) then erase id ((id, owner) ∷ m) else (id, owner) ∷ m

abbrev pub or_runtime : Option String → Option String → Option String
or_runtime none runtime = runtime
or_runtime (some reporter) runtime = some reporter

-- `event.payload?.id === event.terminalId`
abbrev pub same_id : Option String → Option String → Bool
same_id none none = true
same_id none (some b) = false
same_id (some a) none = false
same_id (some a) (some b) = a == b

-- `connected(payload)`, for an identity that is text, or not. The test that `release` makes of the
-- identity was made here.
unfoldable pub connect : Fence → Option String → Option (List (Option Terminal)) → Fence × Bool
connect f none terminals = (f, false)
connect f (some name) terminals =
    let (m, released) = release_named (some name) terminals (adopt name f.unknown) in
    (record { unknown = m; runtime = some name }, released)

-- `observe`: the fence, and whether it changed what may be sent.
unfoldable pub observe : Fence → Event → Fence × Bool
observe f (connected instance terminals) = connect f (instance_of instance) terminals
observe f (reattached_event terminal_id instance t) =
    let (m, released) = release instance (some (some t ∷ [])) f.unknown in
    if same_id t.id terminal_id then (record f { unknown = m }, released) else (f, false)
observe f (audit_failed none reporter) = (f, false)
observe f (audit_failed (some id) reporter) = (
  record f {
    unknown =
        evict_oldest (insert id (or_runtime (instance_of reporter) f.runtime) (erase id f.unknown));
  },
  true,
)
observe f other_event = (f, false)

pub data Message : Type 0 where
  input resize : String → Message
  other_message : Message

unfoldable pub allows : Fence → Message → Bool
allows f (input id) = not (has id f.unknown)
allows f (resize id) = not (has id f.unknown)
allows f other_message = true

-- A page's history.
unfoldable pub observe_all : Fence → List Event → Fence
observe_all f [] = f
observe_all f (e ∷ rest) = observe_all (observe f e).0 rest
