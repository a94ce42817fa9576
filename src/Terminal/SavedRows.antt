-- ===== src/Terminal/SavedRows.antt =====
-- src/lib/terminal-exit-state.js, newestRows and savedOutputRows: the newest rows of saved output within
-- a budget of rows and of characters. What xterm made of a segment is a parameter: its rows, newest
-- first, as they were drawn. The activation is current throughout.
pub mod Budget
pub mod Tests
use mathlib.Core.List.{reverse}
use outright.Base.{
  ℕ, zero, suc, ◌+◌, ◌-◌, ◌*◌, Bool, true, false, ◌||◌, if◌then◌else◌, ltb, leb, List, [], ◌∷◌,
  ◌++◌, length,
}

abbrev pub max_saved_rows : ℕ
max_saved_rows = 20_000

abbrev pub max_saved_chars : ℕ
max_saved_chars = 4 * 1024 * 1024

-- The copies of a row that a shortened repeat left out, with its text where the next row wraps from it
-- and where not.
pub record Run : Type 0 where
  pub count : ℕ
  pub whole : List ℕ
  pub last : List ℕ

-- A row of the normal screen, and the runs that follow it, newest first.
pub record Row : Type 0 where
  pub whole : List ℕ
  pub last : List ℕ
  pub is_wrapped : Bool
  pub runs : List Run

-- What is kept so far, newest first, whether a row was left out, and whether the next row is drawn
-- whole.
pub record Kept : Type 0 where
  pub kept : List (List ℕ)
  pub size : ℕ
  pub dropped : Bool
  pub full : Bool

-- `keep`
unfoldable pub keep : ℕ → ℕ → List ℕ → Kept → Kept
keep budget chars text k =
    if k.dropped || leb budget (length k.kept) || ltb chars (k.size + length text)
    then record k { dropped = true }
    else record k { kept = k.kept ++ text ∷ []; size = k.size + length text }

unfoldable pub keep_copies : ℕ → ℕ → ℕ → Run → Kept → Kept
keep_copies budget chars zero run k = k
keep_copies budget chars (suc copies) run k =
    keep_copies budget chars copies run
      (record (keep budget chars (if k.full then run.whole else run.last) k) { full = true })

unfoldable pub keep_runs : ℕ → ℕ → List Run → Kept → Kept
keep_runs budget chars [] k = k
keep_runs budget chars (run ∷ runs) k =
    keep_runs budget chars runs (keep_copies budget chars run.count run k)

abbrev pub keep_row : ℕ → ℕ → Row → Kept → Kept
keep_row budget chars row k =
    let copied = keep_runs budget chars row.runs k in
    record (keep budget chars (if copied.full then row.whole else row.last) copied) {
      full = row.is_wrapped;
    }

-- The loop of `newestRows`.
unfoldable pub newest_rows : ℕ → ℕ → List Row → Kept → Kept
newest_rows budget chars [] k = k
newest_rows budget chars (row ∷ rows) k =
    newest_rows budget chars rows (keep_row budget chars row k)

pub record SavedRows : Type 0 where
  pub rows : List (List ℕ)
  pub dropped : Bool

abbrev pub is_empty : List (List ℕ) → Bool
is_empty [] = true
is_empty (write ∷ writes) = false

abbrev pub no_rows : Kept
no_rows = record { kept = []; size = 0; dropped = false; full = false }

module _ (segment_rows : List (List ℕ) → ℕ → List Row) where
  -- One turn of the loop of `savedOutputRows`, with the budget that is left.
  unfoldable pub read_segment : ℕ → ℕ → List (List ℕ) → Kept → Kept
  read_segment max_rows max_chars writes k =
      let budget = max_rows - length k.kept in
      let chars = max_chars - k.size in
      let read = newest_rows budget chars (segment_rows writes budget) no_rows in
      if k.dropped || is_empty writes
      then k
      else if leb max_rows (length k.kept) || leb max_chars k.size
      then record k { dropped = true }
      else record k {
        kept = k.kept ++ read.kept;
        size = k.size + read.size;
        dropped = read.dropped;
      }

  unfoldable pub read_segments : ℕ → ℕ → List (List (List ℕ)) → Kept → Kept
  read_segments max_rows max_chars [] k = k
  read_segments max_rows max_chars (writes ∷ older) k =
      read_segments max_rows max_chars older (read_segment max_rows max_chars writes k)

  -- `savedOutputRows`, of the segments newest first.
  unfoldable pub saved_output_rows : List (List (List ℕ)) → SavedRows
  saved_output_rows segments =
      let k = read_segments max_saved_rows max_saved_chars segments no_rows in
      record { rows = reverse k.kept; dropped = k.dropped }
