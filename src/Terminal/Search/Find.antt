-- ===== src/Terminal/Search/Find.antt =====
-- src/lib/terminal-search.js, createTerminalSearch: the Find of one view of a terminal. xterm is an
-- interface: what its view answers and what its calls make of it. A match that is current is held
-- with its index, for which the source searches by identity. A call of xterm tells the handlers here
-- of nothing: a selection that Find draws or clears is none of theirs, and the report that a scroll
-- may make within an operation is replaced by the one at the operation's end.
use outright.Base.{
  ℕ, zero, suc, ◌+◌, ◌-◌, ◌*◌, ◌/◌, ◌%◌, min, max, Bool, true, false, ◌&&◌, ◌||◌, not,
  if◌then◌else◌, ltb, leb, nat_beq, Option, none, some, List, [], ◌∷◌, length, get_elem?,
}
use outright.Terminal.Search.{Buffer, Match, Found, same_match, find_terminal_matches}

-- The corners of a selection.
pub record Range : Type 0 where
  pub start_x : ℕ
  pub start_y : ℕ
  pub end_x : ℕ
  pub end_y : ℕ

-- `marker_line` is none for a marker that is disposed of or whose line is gone.
pub record Xterm (View Marker : Type 0) : Type 0 where
  pub rows : View → ℕ
  pub cols : View → ℕ
  pub viewport : View → ℕ
  pub buffer : View → Buffer
  pub selection_position : View → Option Range
  pub has_selection : View → Bool
  pub marker_line : Marker → View → Option ℕ
  pub clear_selection : View → View
  pub select_cells : Match → View → View
  pub register_marker : ℕ → View → Option Marker × View
  pub dispose_marker : Marker → View → View
  pub scroll_to_line : ℕ → View → View

pub record Current (Marker : Type 0) : Type 0 where
  pub match : Match
  pub index : ℕ
  pub marker : Option Marker

-- What `onChange` is given.
pub record Report : Type 0 where
  pub total : ℕ
  pub capped : Bool
  pub index : Option ℕ
  pub covered : Bool
  pub selected : Bool

-- `is_held` says that xterm's selection is the highlight Find drew; the last report comes first.
pub record Find (View Marker : Type 0) : Type 0 where
  pub query : List ℕ
  pub matches : List Match
  pub capped : Bool
  pub current : Option (Current Marker)
  pub is_held : Bool
  pub is_timed : Bool
  pub covered : Bool
  pub height_changed : Bool
  pub view_rows : ℕ
  pub view : View
  pub reports : List Report

pub data Direction : Type 0 where
  down up : Direction

-- The first index that passes a test, and the last.
abbrev pub find_index {ℓ} : {A : Type ℓ} → (A → Bool) → List A → Option ℕ
find_index test [] = none
find_index test (item ∷ items) =
    if test item
    then some 0
    else elim (find_index test items) [ none ↦ none | some index ↦ some (suc index) ]

abbrev pub find_last_index {ℓ} : {A : Type ℓ} → (A → Bool) → List A → Option ℕ
find_last_index test [] = none
find_last_index test (item ∷ items) = elim (find_last_index test items) [
  | some index ↦ some (suc index)
  | none ↦ if test item then some 0 else none
]

abbrev pub or_index : ℕ → Option ℕ → ℕ
or_index default none = default
or_index default (some index) = index

abbrev pub or_found : Option Found → Found
or_found none = record { matches = []; capped = false }
or_found (some found) = found

abbrev pub index_of : {Marker : Type 0} → Option (Current Marker) → Option ℕ
index_of none = none
index_of (some current) = some current.index

-- The last row of a match; a match has at least one cell.
abbrev pub last_row : ℕ → Match → ℕ
last_row cols match = match.row + (match.col + match.size + cols - 1) / cols - 1

-- The end of the selection of a match.
abbrev pub end_of : ℕ → Match → ℕ × ℕ
end_of cols match =
    let end = match.col + match.size in
    if leb end cols
    then (end, match.row)
    else if nat_beq (end % cols) 0
    then (cols, match.row + end / cols - 1)
    else (end % cols, match.row + end / cols)

-- The loop of `underBar` over a number of rows.
unfoldable pub any_under : ℕ → ℕ → Match → ℕ → ℕ → Bool
any_under cols from match zero row = false
any_under cols from match (suc left) row =
    let offset = (row - match.row) * cols in
    ltb (max from (match.col - offset)) (min (match.col + match.size - offset) cols)
    || any_under cols from match left (suc row)

abbrev pub is_asked : {View Marker : Type 0} → Find View Marker → Bool
is_asked find = elim find.query [ [] ↦ false | unit ∷ units ↦ true ]

-- `schedule`
abbrev pub schedule : {View Marker : Type 0} → Find View Marker → Find View Marker
schedule find = record find { is_timed = find.is_timed || is_asked find }

-- What `createTerminalSearch` is given, and the table of case foldings.
pub record Setup (View Marker : Type 0) : Type 0 where
  pub xterm : Xterm View Marker
  pub casefold : ℕ → Option (List ℕ)
  pub limit : ℕ
  pub covered_rows : ℕ
  pub covered_column : View → ℕ

module _ {View Marker : Type 0} (setup : Setup View Marker) where
  -- `selectionCovers`
  unfoldable pub selection_covers : View → Match → Bool
  selection_covers view match = elim (setup.xterm.selection_position view) [
    | none ↦ false
    | some range ↦
        let end = end_of (setup.xterm.cols view) match in
        nat_beq range.start_x match.col
        && nat_beq range.start_y match.row
        && nat_beq range.end_x end.0
        && nat_beq range.end_y end.1
  ]

  -- `underBar`
  unfoldable pub under_bar : View → Match → ℕ → Bool
  under_bar view match top =
      let first = max match.row top in
      let stop = min (suc (last_row (setup.xterm.cols view) match)) (top + setup.covered_rows) in
      any_under (setup.xterm.cols view) (setup.covered_column view) match (stop - first) first

  -- `isCovered`
  unfoldable pub is_covered : Find View Marker → Bool
  is_covered find = elim find.current [
    | none ↦ false
    | some current ↦ under_bar find.view current.match (setup.xterm.viewport find.view)
  ]

  -- `publish`
  unfoldable pub publish : Find View Marker → Find View Marker
  publish find =
      let covered = is_covered find in
      let report : Report = record {
        total = length find.matches;
        capped = find.capped;
        index = index_of find.current;
        covered = covered;
        selected = find.is_held;
      } in
      record find { covered = covered; reports = report ∷ find.reports }

  -- `scan`
  unfoldable pub scan : Find View Marker → Find View Marker
  scan find =
      let buffer = setup.xterm.buffer find.view in
      let found = or_found (
        find_terminal_matches setup.casefold buffer find.query (setup.xterm.cols find.view)
          setup.limit) in
      record find { matches = found.matches; capped = found.capped }

  -- `releaseSelection`
  unfoldable pub release_selection : Find View Marker → Find View Marker
  release_selection find = record find {
    is_held = false;
    view =
        if find.is_held && setup.xterm.has_selection find.view
        then setup.xterm.clear_selection find.view
        else find.view;
  }

  -- `current?.marker?.dispose()`
  abbrev pub dispose_current : Option (Current Marker) → View → View
  dispose_current none view = view
  dispose_current (some current) view = elim current.marker [
    | none ↦ view
    | some marker ↦ setup.xterm.dispose_marker marker view
  ]

  -- `drop`
  unfoldable pub drop_current : Find View Marker → Find View Marker
  drop_current find =
      release_selection
        (record find { current = none; view = dispose_current find.current find.view })

  -- `highlight`
  unfoldable pub highlight : Match → Find View Marker → Find View Marker
  highlight match find = record find {
    is_held = true;
    view = setup.xterm.select_cells match find.view;
  }

  -- The view scrolled to a match that it does not show whole, or that is under the bar.
  unfoldable pub show_match : Match → View → View
  show_match match view =
      let count = last_row (setup.xterm.cols view) match - match.row + 1 in
      let above = min (setup.xterm.rows view / 2) (setup.xterm.rows view - count) in
      if ltb match.row (setup.xterm.viewport view)
        || ltb (setup.xterm.viewport view + setup.xterm.rows view) (match.row + count)
        || under_bar view match (setup.xterm.viewport view)
      then setup.xterm.scroll_to_line (match.row - above) view
      else view

  -- `select`
  unfoldable pub select : ℕ → Find View Marker → Find View Marker
  select index find = elim (get_elem? find.matches index) [
    | none ↦ find
    | some match ↦
        let made = setup.xterm.register_marker match.row (dispose_current find.current find.view) in
        let chosen : Find View Marker = record find {
          current = some (record { match = match; index = index; marker = made.0 });
          view = made.1;
        } in
        let shown = highlight match chosen in record shown { view = show_match match shown.view }
  ]

  abbrev pub moved_line : Current Marker → View → Option ℕ
  moved_line current view = elim current.marker [
    | none ↦ none
    | some marker ↦ setup.xterm.marker_line marker view
  ]

  -- Where the current match is after a scan, by its marker.
  abbrev pub found_again : Current Marker → Find View Marker → Option ℕ
  found_again kept find = elim (moved_line kept find.view) [
    | none ↦ none
    | some line ↦
        find_index (λ candidate. same_match candidate (record kept.match { row = line }))
          find.matches
  ]

  -- The current match at its new index.
  unfoldable pub keep_current : Current Marker → ℕ → Match → Find View Marker → Find View Marker
  keep_current kept index match find =
      let moved : Find View Marker = record find {
        current = some (record { match = match; index = index; marker = kept.marker });
      } in
      if find.is_held && not (selection_covers find.view match)
      then highlight match moved
      else moved

  unfoldable pub renew_current : Current Marker → Find View Marker → Find View Marker
  renew_current kept find = elim (found_again kept find) [
    | none ↦ drop_current find
    | some index ↦ elim (get_elem? find.matches index) [
      | none ↦ drop_current find
      | some match ↦ keep_current kept index match find
    ]
  ]

  abbrev pub renew : Option (Current Marker) → Find View Marker → Find View Marker
  renew none find = find
  renew (some kept) find = renew_current kept find

  -- `recount`
  unfoldable pub recount : Find View Marker → Find View Marker
  recount find =
      let stopped : Find View Marker = record find { is_timed = false } in
      if is_asked find then publish (renew find.current (scan stopped)) else stopped
