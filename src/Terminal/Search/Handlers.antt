-- ===== src/Terminal/Search/Handlers.antt =====
-- src/lib/terminal-search.js, createTerminalSearch: the methods of a view's Find and what it does on
-- the events of xterm, of its timer and of its element.
use outright.Base.{
  ℕ, ◌+◌, ◌-◌, ◌%◌, Bool, false, ◌&&◌, ◌||◌, not, if◌then◌else◌, ltb, leb, nat_beq, Option, none,
  some, List, [], ◌∷◌, length,
}
use outright.Terminal.Search.{Match}
use outright.Terminal.Search.Find.{
  Setup, Current, Find, Direction, find_index, find_last_index, or_index, index_of, is_covered,
  publish, scan, drop_current, dispose_current, highlight, select, recount, schedule, is_asked,
}

-- The index after a step.
abbrev pub turned : Direction → ℕ → ℕ → ℕ
turned Direction.down count index = (index + 1 + count) % count
turned Direction.up count index = (index + count - 1) % count

module _ {View Marker : Type 0} (setup : Setup View Marker) where
  -- The newest match at or above the bottom of the view, else the first.
  abbrev pub visible_index : Find View Marker → ℕ
  visible_index find =
      let below = setup.xterm.viewport find.view + setup.xterm.rows find.view in
      or_index 0 (find_last_index (λ match. ltb match.row below) find.matches)

  -- `setQuery`, of the folded query.
  unfoldable pub set_query : List ℕ → Find View Marker → Find View Marker
  set_query query find =
      let dropped = drop_current setup (record find { is_timed = false }) in
      let asked : Find View Marker = record dropped {
        query = query;
        matches = [];
        capped = false;
      } in
      let scanned = scan setup asked in
      publish setup (if is_asked asked then select setup (visible_index scanned) scanned else asked)

  -- Where a step goes that starts from the view.
  abbrev pub view_index : Direction → Find View Marker → ℕ
  view_index Direction.down find =
      or_index 0 (find_index (λ match. leb (setup.xterm.viewport find.view) match.row) find.matches)
  view_index Direction.up find =
      let below = setup.xterm.viewport find.view + setup.xterm.rows find.view in
      or_index (length find.matches - 1)
        (find_last_index (λ match. ltb match.row below) find.matches)

  abbrev pub next_of : Direction → Find View Marker → ℕ
  next_of direction find = elim (index_of find.current) [
    | none ↦ view_index direction find
    | some index ↦ turned direction (length find.matches) index
  ]

  -- `step`
  unfoldable pub step : Direction → Find View Marker → Find View Marker
  step direction find =
      let counted = if find.is_timed then recount setup find else find in
      if not (is_asked find)
      then find
      else if nat_beq (length counted.matches) 0
      then publish setup counted
      else publish setup (select setup (next_of direction counted) counted)

  -- `clear`
  unfoldable pub clear : Find View Marker → Find View Marker
  clear find =
      let dropped = drop_current setup (record find { is_timed = false }) in
      publish setup (record dropped { query = []; matches = []; capped = false })

  -- `press`, of the primary button or not, where a program tracks the mouse or not, and with the key
  -- that forces a selection or not.
  unfoldable pub press : Bool → Bool → Bool → Find View Marker → Find View Marker
  press primary tracked forced find =
      if not find.is_held || not primary || tracked && not forced
      then find
      else publish setup (record find { is_held = false })

  -- `onResize`
  unfoldable pub resize : ℕ → Find View Marker → Find View Marker
  resize rows find =
      schedule
        (record find { height_changed = not (nat_beq rows find.view_rows); view_rows = rows })

  -- `onBufferChange`
  unfoldable pub change_buffer : Find View Marker → Find View Marker
  change_buffer find = schedule (drop_current setup find)

  -- The current match on its marker's row.
  abbrev pub held_match : Option (Current Marker) → View → Option Match
  held_match none view = none
  held_match (some current) view = elim current.marker [
    | none ↦ none
    | some marker ↦ elim (setup.xterm.marker_line marker view) [
      | none ↦ none
      | some line ↦ some (record current.match { row = line })
    ]
  ]

  -- A highlight that xterm cleared for a change of height, drawn again.
  abbrev pub redrawn : Option Match → Find View Marker → Find View Marker
  redrawn none find = publish setup (record find { is_held = false })
  redrawn (some match) find = highlight setup match (record find { height_changed = false })

  -- `onSelectionChange`
  unfoldable pub change_selection : Find View Marker → Find View Marker
  change_selection find =
      let released = publish setup (record find { is_held = false }) in
      let drawn = redrawn (held_match find.current find.view) find in
      if not find.is_held
      then find
      else if find.height_changed && not (setup.xterm.has_selection find.view)
      then drawn
      else released

  -- `onScroll`
  unfoldable pub scroll : Find View Marker → Find View Marker
  scroll find =
      let covered = is_covered setup find in
      if covered && find.covered || not covered && not find.covered
      then find
      else publish setup find

  -- `dispose`
  unfoldable pub dispose : Find View Marker → Find View Marker
  dispose find = record find {
    is_timed = false;
    current = none;
    view = dispose_current setup find.current find.view;
  }

  -- What can happen; `change_view` is any change that xterm makes to its view.
  pub data Event : Type 0 where
    set_query_to : List ℕ → Event
    step_to : Direction → Event
    cleared written timed settled buffer_changed selection_changed scrolled disposed : Event
    pressed : Bool → Bool → Bool → Event
    resized : ℕ → Event
    view_changed : (View → View) → Event

  unfoldable pub handle : Event → Find View Marker → Find View Marker
  handle (set_query_to query) find = set_query query find
  handle (step_to direction) find = step direction find
  handle cleared find = clear find
  handle written find = schedule find
  handle timed find = if find.is_timed then recount setup find else find
  handle settled find = record find { height_changed = false }
  handle buffer_changed find = change_buffer find
  handle selection_changed find = change_selection find
  handle scrolled find = scroll find
  handle disposed find = dispose find
  handle (pressed primary tracked forced) find = press primary tracked forced find
  handle (resized rows) find = resize rows find
  handle (view_changed change) find = record find { view = change find.view }

  unfoldable pub handle_all : List Event → Find View Marker → Find View Marker
  handle_all [] find = find
  handle_all (event ∷ events) find = handle_all events (handle event find)

-- `createTerminalSearch`, of a view with some rows.
abbrev pub new_find : {View Marker : Type 0} → ℕ → View → Find View Marker
new_find rows view = record {
  query = [];
  matches = [];
  capped = false;
  current = none;
  is_held = false;
  is_timed = false;
  covered = false;
  height_changed = false;
  view_rows = rows;
  view = view;
  reports = [];
}
