-- ===== src/Terminal/Search/FindTests.antt =====
-- A Find over a view of two rows of three columns, and the theorems at it.
use outright.Base.{
  ℕ, zero, suc, ◌≡◌, refl, true, false, Option, none, some, List, [], ◌∷◌, All, get_elem?,
}
use outright.Terminal.Search.{Cell, Line, Match}
use outright.Terminal.Search.Find.{Xterm, Setup, Current, Find, Direction, index_of}
use outright.Terminal.Search.Handlers.{
  Event, set_query_to, step_to, written, timed, view_changed, handle_all, new_find, step,
}
use outright.Terminal.Search.Current.{IsAt, IsInRange, handle_all-new_find}
use outright.Terminal.Search.Turns.{match_of, step-step}

abbrev letters : List ℕ → ℕ → Option Cell
letters units col = elim (get_elem? units col) [
  | none ↦ none
  | some unit ↦ some (record { chars = unit ∷ []; width = 1 })
]

abbrev rows_of : ℕ → Option Line
rows_of zero = some (record {
  is_wrapped = false;
  size = 3;
  cell = letters (97 ∷ 98 ∷ 97 ∷ []);
  text = λ trimmed. 97 ∷ 98 ∷ 97 ∷ [];
})
rows_of (suc row) = none

-- The view is the row at its top; a marker is its row.
abbrev xterm : Xterm ℕ ℕ
xterm = record {
  rows = λ view. 2;
  cols = λ view. 3;
  viewport = λ view. view;
  buffer = λ view. record { size = 1; line = rows_of };
  selection_position = λ view. none;
  has_selection = λ view. true;
  marker_line = λ marker view. some marker;
  clear_selection = λ view. view;
  select_cells = λ match view. view;
  register_marker = λ row view. (some row, view);
  dispose_marker = λ marker view. view;
  scroll_to_line = λ line view. line;
}

abbrev setup : Setup ℕ ℕ
setup = record {
  xterm = xterm;
  casefold = λ unit. none;
  limit = 1000;
  covered_rows = 1;
  covered_column = λ view. 2;
}

abbrev events : List (Event setup)
events =
    set_query_to (97 ∷ [])
    ∷ step_to Direction.down
    ∷ written
    ∷ timed
    ∷ view_changed (λ view. suc view)
    ∷ step_to Direction.up
    ∷ []

handle_all-new_find_example :
    let find = handle_all setup events (new_find 2 0) in
    IsAt find.matches find.current × All IsInRange find.reports
handle_all-new_find_example = handle_all-new_find setup events 2 0

abbrev two_matches : List Match
two_matches = record { row = 0; col = 0; size = 1 } ∷ record { row = 0; col = 2; size = 1 } ∷ []

abbrev last_match : Current ℕ
last_match = record { match = record { row = 0; col = 2; size = 1 }; index = 1; marker = some 0 }

abbrev searching : Find ℕ ℕ
searching = record {
  query = 97 ∷ [];
  matches = two_matches;
  capped = false;
  current = some last_match;
  is_held = true;
  is_timed = false;
  covered = false;
  height_changed = false;
  view_rows = 2;
  view = 0;
  reports = [];
}

step-step_example :
    let back = step setup Direction.up (step setup Direction.down searching) in
    (index_of back.current ≡ some 1)
    × (match_of back.current ≡ some (record { row = 0; col = 2; size = 1 }))
    × (back.matches ≡ two_matches)
step-step_example = step-step setup searching Direction.down last_match refl refl refl refl
