-- ===== src/Terminal/Search/Current.antt =====
-- The current match is one of the matches, whatever happens.
use outright.Base.{
  ℕ, zero, suc, ◌<◌, ◌≡◌, ◌⊎◌, inl, inr, Bool, true, false, ◌&&◌, ◌||◌, not, if◌then◌else◌, nat_beq,
  Option, none, some, List, [], ◌∷◌, length, get_elem?, All, arith, refl, Bool-cases, Option-cases,
}
use outright.Terminal.Search.{Match}
use outright.Terminal.Search.Find.{
  Direction, Setup, Current, Find, Report, index_of, publish, scan, release_selection, drop_current,
  highlight, select, keep_current, renew_current, renew, recount, is_asked, is_covered, found_again,
  selection_covers,
}
use outright.Terminal.Search.Handlers.{
  Event, set_query_to, step_to, cleared, written, timed, settled, buffer_changed, selection_changed,
  scrolled, disposed, pressed, resized, view_changed, handle, handle_all, set_query, step, clear,
  press, resize, change_buffer, change_selection, scroll, dispose, new_find, visible_index, next_of,
  held_match, redrawn,
}

-- The current match stands at its index.
abbrev pub IsAt : {Marker : Type 0} → List Match → Option (Current Marker) → Type 0
IsAt matches none = Unit
IsAt matches (some current) = get_elem? matches current.index ≡ some current.match

-- The index that a report names is one of its matches.
abbrev pub IsInRange : Report → Type 0
IsInRange report = elim report.index [ none ↦ Unit | some index ↦ index < report.total ]

abbrev pub IsSound : {View Marker : Type 0} → Find View Marker → Type 0
IsSound find =
    IsAt find.matches find.current
    × All IsInRange find.reports
    × ((find.current ≡ none) ⊎ (is_asked find ≡ true))

pub get_elem?-length :
    (matches : List Match) (index : ℕ) (match : Match)
    → get_elem? matches index ≡ some match
    → index < length matches
get_elem?-length [] index match h = ground (arith, h)
get_elem?-length (first ∷ matches) zero match h = omega arith
get_elem?-length (first ∷ matches) (suc index) match h =
    omega (arith, get_elem?-length matches index match h)

in_range :
    {Marker : Type 0} (matches : List Match) (current : Option (Current Marker))
    → IsAt matches current
    → elim (index_of current) as (λ x. Type 0) [ none ↦ Unit | some index ↦ index < length matches ]
in_range matches none at = tt
in_range matches (some current) at = get_elem?-length matches current.index current.match at

-- Both branches of a test, each where it is taken.
if-IsSound :
    {View Marker : Type 0} (test : Bool) (left right : Find View Marker)
    → (test ≡ true → IsSound left)
    → (test ≡ false → IsSound right)
    → IsSound (if test then left else right)
if-IsSound true left right then_left else_right = then_left refl
if-IsSound false left right then_left else_right = else_right refl

module _ {View Marker : Type 0} (setup : Setup View Marker) where
  publish-IsSound : (find : Find View Marker) → IsSound find → IsSound (publish setup find)
  unfolding publish
  publish-IsSound find (at, reports, asked) =
      (at, (in_range find.matches find.current at, reports), asked)

  drop_current-IsSound :
      (find : Find View Marker) → IsSound find → IsSound (drop_current setup find)
  unfolding drop_current release_selection
  drop_current-IsSound find (at, reports, asked) = (tt, reports, inl refl)

  select-IsSound :
      (index : ℕ) (find : Find View Marker)
      → is_asked find ≡ true
      → IsSound find
      → IsSound (select setup index find)
  unfolding select highlight
  select-IsSound index find asked sound = elim (Option-cases (get_elem? find.matches index)) [
    | inl gone ↦ rw (select, gone) sound
    | inr (match, e) ↦ rw (select, e) (e, sound.1, inr asked)
  ]

  keep_current-IsSound :
      (kept : Current Marker) (index : ℕ) (match : Match) (find : Find View Marker)
      → get_elem? find.matches index ≡ some match
      → is_asked find ≡ true
      → All IsInRange find.reports
      → IsSound (keep_current setup kept index match find)
  unfolding keep_current highlight
  keep_current-IsSound kept index match find at asked reports =
      elim (Bool-cases (find.is_held && not (selection_covers setup find.view match))) [
        | inl redrawn ↦ rw (keep_current, redrawn) (at, reports, inr asked)
        | inr same ↦ rw (keep_current, same) (at, reports, inr asked)
      ]

  dropped-IsSound :
      (find : Find View Marker) → All IsInRange find.reports → IsSound (drop_current setup find)
  unfolding drop_current release_selection
  dropped-IsSound find reports = (tt, reports, inl refl)

  renew_current-IsSound :
      (kept : Current Marker) (find : Find View Marker)
      → is_asked find ≡ true
      → All IsInRange find.reports
      → IsSound (renew_current setup kept find)
  unfolding renew_current
  renew_current-IsSound kept find asked reports =
      elim (Option-cases (found_again setup kept find)) [
        | inl lost ↦ rw (renew_current, lost) (dropped-IsSound find reports)
        | inr (index, again) ↦ elim (Option-cases (get_elem? find.matches index)) [
          | inl gone ↦ rw (renew_current, again, gone) (dropped-IsSound find reports)
          | inr (match, e) ↦
              rw (renew_current, again, e)
                (keep_current-IsSound kept index match find e asked reports)
        ]
      ]

  renew-IsSound :
      (current : Option (Current Marker)) (find : Find View Marker)
      → is_asked find ≡ true
      → All IsInRange find.reports
      → find.current ≡ current
      → IsSound (renew setup current find)
  renew-IsSound none find asked reports e = (rw e tt, reports, inl e)
  renew-IsSound (some kept) find asked reports e = renew_current-IsSound kept find asked reports

  recount-IsSound : (find : Find View Marker) → IsSound find → IsSound (recount setup find)
  unfolding recount scan
  recount-IsSound find sound = elim (Bool-cases (is_asked find)) [
    | inr quiet ↦ rw quiet sound
    | inl asked ↦
        let scanned = scan setup (record find { is_timed = false }) in
        rw asked (
          publish-IsSound (renew setup find.current scanned)
            (renew-IsSound find.current scanned asked sound.1 refl))
  ]

  asked_of :
      (query : List ℕ) (find : Find View Marker)
      → All IsInRange find.reports
      → IsSound (set_query setup query find)
  unfolding set_query scan drop_current release_selection
  asked_of query find reports =
      let dropped = drop_current setup (record find { is_timed = false }) in
      let asked : Find View Marker = record dropped {
        query = query;
        matches = [];
        capped = false;
      } in
      let scanned = scan setup asked in
      elim (Bool-cases (is_asked asked)) [
        | inr quiet ↦ rw quiet (publish-IsSound asked (tt, reports, inl refl))
        | inl some_query ↦ rw some_query (
            publish-IsSound (select setup (visible_index setup scanned) scanned) (
              select-IsSound (visible_index setup scanned) scanned some_query
                (tt, reports, inl refl)))
      ]

  keep_current-query :
      (kept : Current Marker) (index : ℕ) (match : Match) (find : Find View Marker)
      → (keep_current setup kept index match find).query ≡ find.query
  unfolding keep_current highlight
  keep_current-query kept index match find =
      elim (Bool-cases (find.is_held && not (selection_covers setup find.view match))) [
        | inl redrawn ↦ rw redrawn refl
        | inr same ↦ rw same refl
      ]

  drop_current-query : (find : Find View Marker) → (drop_current setup find).query ≡ find.query
  unfolding drop_current release_selection
  drop_current-query find = refl

  renew-query :
      (current : Option (Current Marker)) (find : Find View Marker)
      → (renew setup current find).query ≡ find.query
  unfolding renew_current
  renew-query none find = refl
  renew-query (some kept) find = elim (Option-cases (found_again setup kept find)) [
    | inl lost ↦ rw (renew_current, lost) (drop_current-query find)
    | inr (index, again) ↦ elim (Option-cases (get_elem? find.matches index)) [
      | inl gone ↦ rw (renew_current, again, gone) (drop_current-query find)
      | inr (match, e) ↦ rw (renew_current, again, e) (keep_current-query kept index match find)
    ]
  ]

  recount-query : (find : Find View Marker) → (recount setup find).query ≡ find.query
  unfolding recount publish scan
  recount-query find = elim (Bool-cases (is_asked find)) [
    | inr quiet ↦ rw quiet refl
    | inl asked ↦
        rw asked (renew-query find.current (scan setup (record find { is_timed = false })))
  ]

  asked_recount :
      (find : Find View Marker) → is_asked find ≡ true → is_asked (recount setup find) ≡ true
  asked_recount find asked = rw (recount-query find) asked

  counted-IsSound :
      (find : Find View Marker)
      → IsSound find
      → IsSound (if find.is_timed then recount setup find else find)
  counted-IsSound find sound =
      if-IsSound find.is_timed (recount setup find) find (λ t. recount-IsSound find sound)
        (λ t. sound)

  counted-asked :
      (find : Find View Marker) (test : Bool)
      → is_asked find ≡ true
      → is_asked (if test then recount setup find else find) ≡ true
  counted-asked find true asked = asked_recount find asked
  counted-asked find false asked = asked

  step-IsSound :
      (direction : Direction) (find : Find View Marker)
      → IsSound find
      → IsSound (step setup direction find)
  unfolding step
  step-IsSound direction find sound =
      let counted : Find View Marker = if find.is_timed then recount setup find else find in
      let next = select setup (next_of setup direction counted) counted in
      let stands = counted-IsSound find sound in
      let moved : Find View Marker =
        if nat_beq (length counted.matches) 0 then publish setup counted else publish setup next in
      if-IsSound (not (is_asked find)) find moved (λ quiet. sound)
        (λ asked.
          if-IsSound (nat_beq (length counted.matches) 0) (publish setup counted)
            (publish setup next) (λ empty. publish-IsSound counted stands)
            (λ full. publish-IsSound next (
              select-IsSound (next_of setup direction counted) counted
                (counted-asked find find.is_timed (ground (arith, asked))) stands)))

  released-IsSound :
      (find : Find View Marker)
      → IsSound find
      → IsSound (publish setup (record find { is_held = false }))
  released-IsSound find sound = publish-IsSound (record find { is_held = false }) sound

  drawn-IsSound :
      (match : Option Match) (find : Find View Marker)
      → IsSound find
      → IsSound (redrawn setup match find)
  unfolding highlight
  drawn-IsSound none find sound = released-IsSound find sound
  drawn-IsSound (some match) find sound = sound

  change_selection-IsSound :
      (find : Find View Marker) → IsSound find → IsSound (change_selection setup find)
  unfolding change_selection
  change_selection-IsSound find sound =
      let released = publish setup (record find { is_held = false }) in
      let drawn = redrawn setup (held_match setup find.current find.view) find in
      let test = find.height_changed && not (setup.xterm.has_selection find.view) in
      if-IsSound (not find.is_held) find (if test then drawn else released) (λ free. sound)
        (λ held.
          if-IsSound test drawn released
            (λ t. drawn-IsSound (held_match setup find.current find.view) find sound)
            (λ t. released-IsSound find sound))

  clear-IsSound : (find : Find View Marker) → IsSound find → IsSound (clear setup find)
  unfolding clear drop_current release_selection
  clear-IsSound find sound =
      let dropped = drop_current setup (record find { is_timed = false }) in
      publish-IsSound (record dropped { query = []; matches = []; capped = false })
        (tt, sound.1, inl refl)

  handle-IsSound :
      (event : Event setup) (find : Find View Marker)
      → IsSound find
      → IsSound (handle setup event find)
  unfolding handle press resize change_buffer scroll dispose
  handle-IsSound (set_query_to query) find sound = asked_of query find sound.1
  handle-IsSound (step_to direction) find sound = step-IsSound direction find sound
  handle-IsSound cleared find sound = clear-IsSound find sound
  handle-IsSound written find sound = sound
  handle-IsSound timed find sound = counted-IsSound find sound
  handle-IsSound settled find sound = sound
  handle-IsSound buffer_changed find sound = drop_current-IsSound find sound
  handle-IsSound selection_changed find sound = change_selection-IsSound find sound
  handle-IsSound scrolled find sound =
      let covered = is_covered setup find in
      if-IsSound (covered && find.covered || not covered && not find.covered) find
        (publish setup find) (λ same. sound) (λ other. publish-IsSound find sound)
  handle-IsSound disposed find sound = (tt, sound.1, inl refl)
  handle-IsSound (pressed primary tracked forced) find sound =
      if-IsSound (not find.is_held || not primary || tracked && not forced) find
        (publish setup (record find { is_held = false })) (λ kept. sound)
        (λ taken. released-IsSound find sound)
  handle-IsSound (resized rows) find sound = sound
  handle-IsSound (view_changed change) find sound = sound

  handle_all-IsSound :
      (events : List (Event setup)) (find : Find View Marker)
      → IsSound find
      → IsSound (handle_all setup events find)
  unfolding handle_all
  handle_all-IsSound [] find sound = sound
  handle_all-IsSound (event ∷ events) find sound =
      handle_all-IsSound events (handle setup event find) (handle-IsSound event find sound)

-- Whatever xterm does and in whatever order Find's methods are called and its handlers run, the
-- current match is the one at its index among the matches, and every report that names an index
-- names one below its total.
pub handle_all-new_find :
    {View Marker : Type 0} (setup : Setup View Marker) (events : List (Event setup)) (rows : ℕ)
    (view : View)
    → let find = handle_all setup events (new_find rows view) in
      IsAt find.matches find.current × All IsInRange find.reports
handle_all-new_find setup events rows view =
    let sound = handle_all-IsSound setup events (new_find rows view) (tt, tt, inl refl) in
    (sound.0, sound.1)
