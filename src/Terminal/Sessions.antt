-- ===== src/Terminal/Sessions.antt =====
-- src/lib/terminal-exit-state.js: the labels of terminals, and the one that reopening a worktree
-- shows. A number or a time is the text that JavaScript makes of it; how JavaScript orders two texts
-- is a parameter.
pub mod Preferred
use Prim.Native.String.{◌++◌}
use outright.Base.{
  Bool, true, false, ◌&&◌, ◌||◌, not, if◌then◌else◌, ◌==◌, string_eq, String, Option, none, some,
  List, [], ◌∷◌, map, filter, find, contains,
}

pub data Status : Type 0 where
  running unknown ended exited other_status : Status

pub data EndReason : Type 0 where
  restart closed other_reason : EndReason

pub record Session : Type 0 where
  pub id : String
  pub name : String
  pub status : Status
  pub end_reason : EndReason
  pub exit_code : Option String
  pub is_reattached : Bool
  pub is_relaunched : Bool
  pub ended_at : Option String

pub record Pending : Type 0 where
  pub id : String
  pub has_exit : Bool

abbrev pub is_running : Session → Bool
is_running session = elim session.status [ running ↦ true | _ ↦ false ]

abbrev pub is_unknown : Session → Bool
is_unknown session = elim session.status [ unknown ↦ true | _ ↦ false ]

abbrev pub is_ended : Session → Bool
is_ended session = elim session.status [ ended ↦ true | _ ↦ false ]

abbrev pub or_string : String → Option String → String
or_string default none = default
or_string default (some text) = text

abbrev pub ids_of : List Session → List String
ids_of [] = []
ids_of (session ∷ sessions) = session.id ∷ ids_of sessions

abbrev pub retained_ids : List Session → Option Pending → List String
retained_ids sessions none = ids_of sessions
retained_ids sessions (some pending) =
    if pending.has_exit then pending.id ∷ ids_of sessions else ids_of sessions

-- `pruneExitedIds`
unfoldable pub prune_exited_ids : List String → List Session → Option Pending → List String
prune_exited_ids exited_ids sessions pending =
    filter (contains (retained_ids sessions pending)) exited_ids

abbrev pub exit_label : Session → String
exit_label session = "process exited " ++ or_string "unknown" session.exit_code

-- `terminalEndLabel`
unfoldable pub terminal_end_label : Session → String
terminal_end_label session = elim session.status [
  | ended ↦ elim session.end_reason [
    | restart ↦ "ended when Outright restarted"
    | closed ↦ "closed; its saved output could not be deleted"
    | other_reason ↦ exit_label session
  ]
  | exited ↦ exit_label session
  | _ ↦ ""
]

abbrev pub live_name : Session → String
live_name session =
    if session.is_reattached
    then session.name ++ ", live process reattached"
    else if session.is_relaunched
    then session.name ++ ", new shell"
    else session.name

-- `terminalTabLabel`
unfoldable pub terminal_tab_label : Session → String
terminal_tab_label session = elim session.status [
  | ended ↦ session.name ++ ", saved output, " ++ terminal_end_label session
  | unknown ↦ session.name ++ ", ownership unverified"
  | exited ↦ live_name session ++ ", " ++ terminal_end_label session
  | _ ↦ live_name session
]

-- `terminalTabBadge`
unfoldable pub terminal_tab_badge : Session → String
terminal_tab_badge session =
    if is_ended session
    then "Saved"
    else if session.is_reattached
    then (if is_unknown session then "" else "Reattached")
    else if session.is_relaunched
    then "New shell"
    else ""

abbrev pub or_session : Option Session → Option Session → Option Session
or_session none other = other
or_session (some session) other = some session

module _ (at_least : String → String → Bool) where
  abbrev pub ends_later : Session → Option Session → Bool
  ends_later session none = true
  ends_later session (some saved) =
      at_least (or_string "" session.ended_at) (or_string "" saved.ended_at)

  -- The loop over the saved sessions.
  unfoldable pub newest_saved : List Session → Option Session → Option Session
  newest_saved [] saved = saved
  newest_saved (session ∷ sessions) saved =
      newest_saved sessions
        (if is_ended session && ends_later session saved then some session else saved)

  -- `preferredTerminal`
  unfoldable pub preferred_terminal : List Session → String → Option Session
  preferred_terminal sessions previous_id =
      or_session
        (find (λ session. session.id == previous_id && (is_running session || is_ended session))
          sessions)
        (or_session (find is_running sessions)
          (or_session (find is_unknown sessions) (newest_saved sessions none)))
