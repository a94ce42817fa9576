-- ===== src/Terminal/Search.antt =====
-- src/lib/terminal-search.js and src/lib/find-text.js: the matches of a query in the buffer of a
-- terminal. A text is the list of its UTF-16 code units. xterm's buffer is what its lines answer; the
-- generated table of case foldings is a parameter.
pub mod Locate
pub mod Occurrences
pub mod Capped
pub mod Find
pub mod Handlers
pub mod Current
pub mod Turns
pub mod Tests
pub mod FindTests
use mathlib.Core.List.{reverse}
use outright.Base.{
  ℕ, zero, suc, ◌+◌, ◌-◌, ◌*◌, ◌/◌, Bool, true, false, ◌&&◌, ◌||◌, not, if◌then◌else◌, ltb, leb,
  nat_beq, is_some, Option, none, some, List, [], ◌∷◌, ◌++◌, length, take, drop, get_elem?,
}

pub record Cell : Type 0 where
  pub chars : List ℕ
  pub width : ℕ

-- A row of a buffer; `text` is `translateToString`.
pub record Line : Type 0 where
  pub is_wrapped : Bool
  pub size : ℕ
  pub cell : ℕ → Option Cell
  pub text : Bool → List ℕ

pub record Buffer : Type 0 where
  pub size : ℕ
  pub line : ℕ → Option Line

pub record Match : Type 0 where
  pub row : ℕ
  pub col : ℕ
  pub size : ℕ

abbrev pub terminal_match_limit : ℕ
terminal_match_limit = 1000

-- Whether a text starts with another.
abbrev pub starts_with : List ℕ → List ℕ → Bool
starts_with [] text = true
starts_with (unit ∷ query) [] = false
starts_with (unit ∷ query) (code ∷ text) = nat_beq unit code && starts_with query text

abbrev pub occurs : List ℕ → List ℕ → ℕ → Bool
occurs query text index = starts_with query (drop index text)

-- `text.lastIndexOf(query, from)`
unfoldable pub last_index_of : List ℕ → List ℕ → ℕ → Option ℕ
last_index_of query text zero = if occurs query text 0 then some 0 else none
last_index_of query text (suc from) =
    let rest = last_index_of query text from in
    if occurs query text (suc from) then some (suc from) else rest

-- The last row, from some row on, whose first unit is not past a unit; each turn halves the rows that
-- are left.
unfoldable pub row_of : ℕ → List ℕ → ℕ → ℕ → ℕ → ℕ
row_of zero starts unit low high = low
row_of (suc fuel) starts unit low high =
    let middle = (low + high + 1) / 2 in
    let right = row_of fuel starts unit middle high in
    let left = row_of fuel starts unit low (middle - 1) in
    let is_at : Bool = elim (get_elem? starts middle) [
      | none ↦ false
      | some start ↦ leb start unit
    ] in
    if ltb low high then (if is_at then right else left) else low

unfoldable pub row_starts : ℕ → List (List ℕ) → List ℕ
row_starts offset [] = []
row_starts offset (row ∷ rows) = offset ∷ row_starts (offset + length row) rows

abbrev pub is_wide_padding : Option Cell → Bool
is_wide_padding none = false
is_wide_padding (some cell) = elim cell.chars [ [] ↦ nat_beq cell.width 1 | unit ∷ units ↦ false ]

abbrev pub ends_blank : List ℕ → Bool
ends_blank [] = false
ends_blank (unit ∷ []) = nat_beq unit 32
ends_blank (unit ∷ next ∷ text) = ends_blank (next ∷ text)

abbrev pub last_cell : Line → Option Cell
last_cell line = if nat_beq line.size 0 then none else line.cell (line.size - 1)

abbrev pub starts_wide : Option Line → Bool
starts_wide none = false
starts_wide (some line) = elim (line.cell 0) [ none ↦ false | some cell ↦ nat_beq cell.width 2 ]

-- The text of a row of a logical line.
abbrev pub row_text : Buffer → ℕ → ℕ → List ℕ
row_text buffer end row = elim (buffer.line row) [
  | none ↦ []
  | some line ↦
      let text = line.text (nat_beq row end) in
      if ltb row end
        && ends_blank text
        && is_wide_padding (last_cell line)
        && starts_wide (buffer.line (suc row))
      then take (length text - 1) text
      else text
]

abbrev pub same_match : Match → Match → Bool
same_match left right =
    nat_beq left.row right.row && nat_beq left.col right.col && nat_beq left.size right.size

-- The found matches with one more, unless it has the cells of the one before it.
abbrev pub add_match : Match → List Match → List Match
add_match new [] = new ∷ []
add_match new (last ∷ []) = if same_match last new then last ∷ [] else last ∷ new ∷ []
add_match new (first ∷ next ∷ found) = first ∷ add_match new (next ∷ found)

-- The character that a surrogate pair encodes.
abbrev pub code_point : ℕ → ℕ → ℕ
code_point high low = 65536 + (high - 55296) * 1024 + (low - 56320)

abbrev pub is_pair : ℕ → ℕ → Bool
is_pair high low = leb 55296 high && leb high 56319 && leb 56320 low && leb low 57343

abbrev pub or_units : List ℕ → Option (List ℕ) → List ℕ
or_units units none = units
or_units units (some folded) = folded

module _ (casefold : ℕ → Option (List ℕ)) where
  -- One character: capital letters and all beyond ASCII are looked up.
  abbrev pub fold_unit : ℕ → List ℕ
  fold_unit unit =
      if leb 65 unit && leb unit 90 || leb 128 unit
      then or_units (unit ∷ []) (casefold unit)
      else unit ∷ []

  -- `foldFindText`
  unfoldable pub fold_find_text : List ℕ → List ℕ
  fold_find_text [] = []
  fold_find_text (unit ∷ []) = fold_unit unit
  fold_find_text (unit ∷ next ∷ text) = elim (is_pair unit next) [
    | true ↦ or_units (unit ∷ next ∷ []) (casefold (code_point unit next)) ++ fold_find_text text
    | false ↦ fold_unit unit ++ fold_find_text (next ∷ text)
  ]

  -- `terminalFindQuery`, with the platform's `trim`.
  abbrev pub terminal_find_query : (List ℕ → List ℕ) → List ℕ → List ℕ
  terminal_find_query trim value = fold_find_text (trim value)

  -- `logicalLineRows`, of a number of rows from one on.
  unfoldable pub logical_line_rows : Buffer → ℕ → ℕ → ℕ → List (List ℕ)
  logical_line_rows buffer end zero row = []
  logical_line_rows buffer end (suc left) row =
      fold_find_text (row_text buffer end row) ∷ logical_line_rows buffer end left (suc row)

  abbrev pub cell_units : Option Cell → ℕ
  cell_units none = length (fold_find_text (32 ∷ []))
  cell_units (some cell) = elim cell.chars [
    | [] ↦ length (fold_find_text (32 ∷ []))
    | unit ∷ units ↦ length (fold_find_text (unit ∷ units))
  ]

  abbrev pub cell_width : Option Cell → ℕ
  cell_width none = 1
  cell_width (some cell) = cell.width

  abbrev pub copies : ℕ → ℕ × ℕ → List (ℕ × ℕ)
  copies zero cell = []
  copies (suc n) cell = cell ∷ copies n cell

  -- The loop of `rowCells`: the column and the width of each folded unit.
  unfoldable pub cells_from : Line → ℕ → ℕ → ℕ → List (ℕ × ℕ) → List (ℕ × ℕ)
  cells_from line size zero col cells = cells
  cells_from line size (suc left) col cells =
      let current = line.cell col in
      let width = cell_width current in
      let skipped = cells_from line size left (suc col) cells in
      let drawn =
        cells_from line size left (suc col) (cells ++ copies (cell_units current) (col, width)) in
      if ltb (length cells) size then (if nat_beq width 0 then skipped else drawn) else cells

  -- `rowCells`
  abbrev pub row_cells : Buffer → ℕ → ℕ → List (ℕ × ℕ)
  row_cells buffer row size = elim (buffer.line row) [
    | none ↦ []
    | some line ↦ cells_from line size line.size 0 []
  ]

  abbrev pub row_size : Option (List ℕ) → ℕ
  row_size none = 0
  row_size (some row) = length row

  abbrev pub start_of : Option ℕ → ℕ
  start_of none = 0
  start_of (some start) = start

  -- `locate`: the row, the column and the width of the cell that drew a unit.
  unfoldable pub locate : Buffer → ℕ → List (List ℕ) → ℕ → Option (ℕ × ℕ × ℕ)
  locate buffer start rows unit =
      let starts = row_starts 0 rows in
      let low = row_of (length rows) starts unit 0 (length rows - 1) in
      let cells = row_cells buffer (start + low) (row_size (get_elem? rows low)) in
      elim (get_elem? cells (unit - start_of (get_elem? starts low))) [
        | none ↦ none
        | some (col, width) ↦ some (start + low, col, width)
      ]

  -- The match at an index of the text, if both ends are cells.
  unfoldable pub match_at : Buffer → ℕ → List (List ℕ) → ℕ → ℕ → ℕ → Option Match
  match_at buffer start rows cols count index = elim (locate buffer start rows index) [
    | none ↦ none
    | some (row, col, width) ↦ elim (locate buffer start rows (index + count - 1)) [
      | none ↦ none
      | some (last_row, last_col, last_width) ↦ some (record {
        row = row;
        col = col;
        size = (last_row - row) * cols + last_col + last_width - col;
      })
    ]
  ]

abbrev pub add_found : Option Match → List Match → List Match
add_found none found = found
add_found (some new) found = add_match new found

-- The next index of the loop of `lineMatches`.
abbrev pub next_index : List ℕ → List ℕ → ℕ → Option ℕ
next_index query text index =
    if ltb index (length query) then none else last_index_of query text (index - length query)

module _ (at : ℕ → Option Match) (query text : List ℕ) (budget : ℕ) where
  -- The loop of `lineMatches`, with the match of an index.
  unfoldable pub visit_index : ℕ → Option ℕ → List Match → List Match
  visit_index zero index found = found
  visit_index (suc fuel) none found = found
  visit_index (suc fuel) (some index) found =
      let rest = visit_index fuel (next_index query text index) (add_found (at index) found) in
      if leb (length found) budget then rest else found

abbrev pub join_rows : List (List ℕ) → List ℕ
join_rows [] = []
join_rows (row ∷ rows) = row ++ join_rows rows

abbrev pub is_wrapped_at : Buffer → ℕ → Bool
is_wrapped_at buffer row = elim (buffer.line row) [ none ↦ false | some line ↦ line.is_wrapped ]

-- The first row of a logical line.
unfoldable pub line_start : Buffer → ℕ → ℕ
line_start buffer zero = 0
line_start buffer (suc row) =
    let above = line_start buffer row in if is_wrapped_at buffer (suc row) then above else suc row

pub record Found : Type 0 where
  pub matches : List Match
  pub capped : Bool

module _ (casefold : ℕ → Option (List ℕ)) (buffer : Buffer) (query : List ℕ) (cols : ℕ) where
  -- `lineMatches`, of the logical line between two rows.
  unfoldable pub line_matches : ℕ → ℕ → ℕ → List Match
  line_matches budget start end =
      let rows = logical_line_rows casefold buffer end (suc end - start) start in
      let text = join_rows rows in
      visit_index (match_at casefold buffer start rows cols (length query)) query text budget
        (suc (length text)) (last_index_of query text (length text)) []

  abbrev pub has_query : ℕ → ℕ → Bool
  has_query start end =
      let text = join_rows (logical_line_rows casefold buffer end (suc end - start) start) in
      is_some (last_index_of query text (length text))

  -- The loop of `findTerminalMatches`; `left` rows are not looked at yet.
  unfoldable pub find_from : ℕ → ℕ → ℕ → List Match → Option Found
  find_from limit zero zero newest = some (record { matches = reverse newest; capped = false })
  find_from limit zero (suc end) newest = none
  find_from limit (suc fuel) zero newest =
      some (record { matches = reverse newest; capped = false })
  find_from limit (suc fuel) (suc end) newest =
      let start = line_start buffer end in
      let budget = limit - length newest in
      let found = line_matches budget start end in
      let skipped = find_from limit fuel start newest in
      let added = find_from limit fuel start (newest ++ found) in
      if has_query start end
      then (if ltb budget (length found)
          then some (record { matches = reverse (newest ++ take budget found); capped = true })
          else added)
      else skipped

  -- `findTerminalMatches`; none means that the fuel ran out.
  unfoldable pub find_terminal_matches : ℕ → Option Found
  find_terminal_matches limit =
      if nat_beq (length query) 0 || nat_beq cols 0
      then some (record { matches = []; capped = false })
      else find_from limit buffer.size buffer.size []
