-- ===== src/Terminal/Sessions/Preferred.antt =====
-- Which terminal is shown.
use outright.Base.{
  Bool, true, ◌&&◌, ◌||◌, ◌≡◌, String, string_eq, ◌==◌, Option, none, some, List, [], ◌∷◌, any,
  find, is_some, arith, refl,
}
use outright.Terminal.Sessions.{
  Session, is_running, is_unknown, is_ended, or_session, newest_saved, preferred_terminal,
}

-- A session that reopening a worktree can show.
abbrev pub is_shown : Session → Bool
is_shown session = is_running session || is_unknown session || is_ended session

is_some-find :
    (test : Session → Bool) (sessions : List Session)
    → is_some (find test sessions) ≡ any test sessions
is_some-find test [] = refl
is_some-find test (session ∷ sessions) = ground (arith, is_some-find test sessions)

is_some-or_session :
    (left right : Option Session)
    → is_some (or_session left right) ≡ (is_some left || is_some right)
is_some-or_session none right = refl
is_some-or_session (some session) right = refl

any_shown :
    (sessions : List Session)
    → any is_shown sessions
      ≡ (any is_running sessions || any is_unknown sessions || any is_ended sessions)
any_shown [] = refl
any_shown (session ∷ sessions) = ground (arith, any_shown sessions)

previous_shown :
    (previous_id : String) (sessions : List Session)
    → any
        (λ session. session.id == previous_id && (is_running session || is_ended session))
        sessions
      ≡ true
    → any is_shown sessions ≡ true
previous_shown previous_id [] h = h
previous_shown previous_id (session ∷ sessions) h =
    ground (arith, h, previous_shown previous_id sessions)

module _ (at_least : String → String → Bool) where
  is_some-newest_saved :
      (sessions : List Session) (saved : Option Session)
      → is_some (newest_saved at_least sessions saved) ≡ (is_some saved || any is_ended sessions)
  unfolding newest_saved
  is_some-newest_saved [] saved = ground arith
  is_some-newest_saved (session ∷ sessions) none =
      ground
        (arith, is_some-newest_saved sessions none, is_some-newest_saved sessions (some session))
  is_some-newest_saved (session ∷ sessions) (some saved) = ground (
    arith,
    is_some-newest_saved sessions (some saved),
    is_some-newest_saved sessions (some session),
  )

  -- Reopening a worktree shows a terminal exactly if one of its terminals is running,
  -- unverified or saved.
  pub preferred_terminal_lem :
      (sessions : List Session) (previous_id : String)
      → is_some (preferred_terminal at_least sessions previous_id) ≡ any is_shown sessions
  unfolding preferred_terminal
  preferred_terminal_lem sessions previous_id =
      let is_previous : Session → Bool =
        λ session. session.id == previous_id && (is_running session || is_ended session) in
      ground (
        arith,
        is_some-or_session (find is_previous sessions) (
            or_session (find is_running sessions)
              (or_session (find is_unknown sessions) (newest_saved at_least sessions none))),
        is_some-or_session (find is_running sessions)
            (or_session (find is_unknown sessions) (newest_saved at_least sessions none)),
        is_some-or_session (find is_unknown sessions) (newest_saved at_least sessions none),
        is_some-find is_previous sessions,
        is_some-find is_running sessions,
        is_some-find is_unknown sessions,
        is_some-newest_saved sessions none,
        any_shown sessions,
        previous_shown previous_id sessions,
      )
