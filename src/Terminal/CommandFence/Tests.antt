-- ===== src/Terminal/CommandFence/Tests.antt =====
-- Runs of the command fence, and the theorems about it at concrete events.
use outright.Base.{◌≡◌, ◌≤◌, refl, true, false, none, some, [], ◌∷◌, string_eq, length}
use outright.Base.JsMap.{lookup, insert, erase}
use outright.Terminal.CommandFence.{
  Terminal, Event, connected, audit_failed, other_event, Fence, new_fence, keeps, release_one,
  release_all, release_named, adopt, evict_oldest, connect, observe, observe_all, input, resize,
  other_message, allows,
}
use outright.Terminal.CommandFence.Fenced.{
  lifts, lookup-observe, length-observe_all, allows-observe_all,
}

abbrev live : Terminal
live = record { id = some "t1"; running = true; reattached = true; reserved = false }

abbrev first_runtime : Event
first_runtime = connected (some "r1") (some [])

abbrev second_runtime : Event
second_runtime = connected (some "r2") (some (none ∷ some live ∷ []))

-- The same runtime's report does not lift the fence, and a later runtime's does.
lifted_once :
    (observe_all new_fence
      (first_runtime ∷ audit_failed (some "t1") none ∷ second_runtime ∷ [])).unknown
    ≡ []
unfolding observe_all observe connect release_named release_all release_one keeps adopt evict_oldest
    new_fence insert erase lookup
lifted_once = refl

abbrev fenced : Fence
fenced = record { unknown = ("t1", some "r1") ∷ []; runtime = some "r1" }

lookup-observe_example : lookup "t1" (observe fenced second_runtime).0.unknown ≡ none
unfolding lookup lifts
lookup-observe_example = lookup-observe fenced second_runtime "t1" "r1" refl refl

length-observe_all_example :
    length (observe_all new_fence (audit_failed (some "t1") none ∷ [])).unknown ≤ 256
length-observe_all_example = length-observe_all (audit_failed (some "t1") none ∷ [])

allows-observe_all_example :
    (let after =
        observe_all
          (observe fenced (audit_failed (some "t2") (some "r2"))).0
          (second_runtime ∷ other_event ∷ []) in
      (allows after (input "t2") ≡ false)
      × (allows after (resize "t2") ≡ false)
      × (allows after other_message ≡ true))
unfolding lifts
allows-observe_all_example =
    allows-observe_all fenced (second_runtime ∷ other_event ∷ []) "t2" "r2" (some "r2") refl
      ((refl, refl), ((refl, refl), tt))
