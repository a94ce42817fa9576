-- ===== src/Terminal/Search/Turns.antt =====
-- Steps through the matches go around.
use outright.Base.{
  ℕ, zero, suc, ◌+◌, ◌-◌, ◌%◌, ◌<◌, ◌≡◌, true, false, if◌then◌else◌, ltb, nat_beq, Option, none,
  some, List, [], ◌∷◌, length, get_elem?, arith, refl, sym, ap, ◌∙◌,
}
use outright.Terminal.Search.{Match}
use outright.Terminal.Search.Find.{
  Direction, Setup, Current, Find, index_of, publish, select, highlight, is_asked, dispose_current,
}
use outright.Terminal.Search.Current.{get_elem?-length}
use outright.Terminal.Search.Handlers.{step, turned, next_of}

turned_down :
    (count index : ℕ)
    → index < count
    → turned Direction.down count index ≡ (if ltb (suc index) count then suc index else 0)
turned_down count index h = grind (arith, h)

around : (count index : ℕ) → index < count → (index + count) % count ≡ index
around count index h = grind (arith, h)

turned_up :
    (count index : ℕ)
    → index < count
    → turned Direction.up count index ≡ (if nat_beq index 0 then count - 1 else index - 1)
turned_up count zero h = grind (arith, h)
turned_up count (suc index) h =
    let back : suc index + count - 1 ≡ index + count = omega arith in
    let same : suc index - 1 ≡ index = omega arith in
    ground (arith, ap (λ n. n % count) back, around count index (omega (arith, h)))

get_elem?-below :
    (matches : List Match) (index : ℕ)
    → index < length matches
    → (match : Match) × (get_elem? matches index ≡ some match)
get_elem?-below [] index h = ground (arith, h)
get_elem?-below (first ∷ matches) zero h = (first, refl)
get_elem?-below (first ∷ matches) (suc index) h = get_elem?-below matches index (omega (arith, h))

turned_below :
    (direction : Direction) (count index : ℕ) → index < count → turned direction count index < count
turned_below Direction.down count index h = ground (arith, turned_down count index h, h)
turned_below Direction.up count index h = ground (arith, turned_up count index h, h)

abbrev pub opposite : Direction → Direction
opposite Direction.down = Direction.up
opposite Direction.up = Direction.down

turned_back :
    (direction : Direction) (count index : ℕ)
    → index < count
    → turned (opposite direction) count (turned direction count index) ≡ index
turned_back Direction.down count index h = ground (
  arith,
  turned_down count index h,
  turned_up count (turned Direction.down count index) (turned_below Direction.down count index h),
  h,
)
turned_back Direction.up count index h = ground (
  arith,
  turned_up count index h,
  turned_down count (turned Direction.up count index) (turned_below Direction.up count index h),
  h,
)

-- What a step leaves: a current match, and the rest of the search as it was.
pub record IsStepped {View Marker : Type 0} (before after : Find View Marker) (index : ℕ)
    : Type 0 where
  pub current : Current Marker
  pub held : after.current ≡ some current
  pub index_is : current.index ≡ index
  pub at : get_elem? before.matches index ≡ some current.match
  pub matches_are : after.matches ≡ before.matches
  pub query_is : after.query ≡ before.query
  pub untimed : after.is_timed ≡ before.is_timed

abbrev pub match_of : {Marker : Type 0} → Option (Current Marker) → Option Match
match_of none = none
match_of (some current) = some current.match

module _ {View Marker : Type 0} (setup : Setup View Marker) where
  select_lem :
      (find : Find View Marker) (index : ℕ)
      → index < length find.matches
      → IsStepped find (publish setup (select setup index find)) index
  unfolding publish select highlight
  select_lem find index low =
      let (match, e) = get_elem?-below find.matches index low in
      let made =
        setup.xterm.register_marker match.row (dispose_current setup find.current find.view) in
      record {
        current = record { match = match; index = index; marker = made.0 };
        held = rw (select, e) refl;
        index_is = refl;
        at = e;
        matches_are = rw (select, e) refl;
        query_is = rw (select, e) refl;
        untimed = rw (select, e) refl;
      }

  step_lem :
      (find : Find View Marker) (direction : Direction) (current : Current Marker)
      → is_asked find ≡ true
      → find.is_timed ≡ false
      → find.current ≡ some current
      → current.index < length find.matches
      → IsStepped find
          (step setup direction find)
          (turned direction (length find.matches) current.index)
  unfolding step
  step_lem find direction current asked untimed held low =
      let full : nat_beq (length find.matches) 0 ≡ false = ground (arith, low) in
      let next : next_of setup direction find
          ≡ turned direction (length find.matches) current.index =
        rw held refl in
      let stepped : step setup direction find
          ≡ publish setup (select setup (next_of setup direction find) find) =
        rw (step, asked, untimed, full) refl in
      rw (stepped, next)
        (select_lem find (turned direction (length find.matches) current.index)
          (turned_below direction (length find.matches) current.index low))

  -- A step and then one the other way: with a query, a current match and no recount due, the match
  -- that was current is current again, at the same index of the same matches.
  pub step-step :
      (find : Find View Marker) (direction : Direction) (current : Current Marker)
      → is_asked find ≡ true
      → find.is_timed ≡ false
      → find.current ≡ some current
      → get_elem? find.matches current.index ≡ some current.match
      → let back = step setup (opposite direction) (step setup direction find) in
        (index_of back.current ≡ some current.index)
        × (match_of back.current ≡ some current.match)
        × (back.matches ≡ find.matches)
  step-step find direction current asked untimed held at =
      let count = length find.matches in
      let low = get_elem?-length find.matches current.index current.match at in
      let once = step setup direction find in
      let there = step_lem find direction current asked untimed held low in
      let same : length once.matches ≡ count = ap length there.matches_are in
      let twice = step setup (opposite direction) once in
      let back =
        step_lem once (opposite direction) there.current (rw there.query_is asked)
          (there.untimed ∙ untimed) there.held
          (omega (arith, same, there.index_is, turned_below direction count current.index low)) in
      let home : turned (opposite direction) (length once.matches) there.current.index
          ≡ current.index =
        rw (same, there.index_is) (turned_back direction count current.index low) in
      let again : get_elem? once.matches current.index ≡ some back.current.match =
        rw home at back.at in
      (
        rw back.held (ap some (back.index_is ∙ home)),
        rw back.held (sym again ∙ ap (λ l. get_elem? l current.index) there.matches_are ∙ at),
        back.matches_are ∙ there.matches_are,
      )
