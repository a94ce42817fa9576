-- ===== src/Terminal/SavedPages.antt =====
-- src/lib/terminal-exit-state.js, savedRowPages and savedPageText: the pages of saved rows. A row is
-- the list of its code units and begins with a line break unless it wraps.
pub mod Pages
pub mod Tests
use outright.Base.{
  ℕ, zero, suc, ◌+◌, ◌-◌, ◌/◌, max, Bool, true, false, Option, none, some, if◌then◌else◌, nat_beq,
  List, [], ◌∷◌, ◌++◌, length, drop, get_elem?,
}
use outright.Base.Slices.{slice}

-- `Math.ceil(a / b)`
abbrev pub ceil_div : ℕ → ℕ → ℕ
ceil_div a b = (a + b - 1) / b

abbrev pub starts_line : List ℕ → Bool
starts_line (first ∷ second ∷ units) = if nat_beq first 0x0d then nat_beq second 0x0a else false
starts_line _ = false

abbrev pub row_opens : Option (List ℕ) → Bool
row_opens none = false
row_opens (some units) = starts_line units

-- `opens`
unfoldable pub opens : List (List ℕ) → ℕ → Bool
opens rows zero = true
opens rows (suc index) = row_opens (get_elem? rows (suc index))

-- Rows on a page.
unfoldable pub even_size : ℕ → ℕ → ℕ
even_size count size = ceil_div count (max 1 (ceil_div count size))

-- The first row from `row` on that opens, or the end of the rows looked at.
unfoldable pub open_after : List (List ℕ) → ℕ → ℕ → ℕ
open_after rows zero row = row
open_after rows (suc left) row =
    let rest = open_after rows left (suc row) in if opens rows row then row else rest

-- The last row up to `row` that opens, or the last one looked at.
unfoldable pub open_before : List (List ℕ) → ℕ → ℕ → ℕ
open_before rows zero row = row
open_before rows (suc left) row =
    let rest = open_before rows left (row - 1) in if opens rows row then row else rest

abbrev pub open_of : List (List ℕ) → ℕ → ℕ → ℕ → ℕ
open_of rows size start end =
    let after = open_after rows (end - start) start in
    if nat_beq after end then open_before rows (start - (end - size)) start else after

-- Where the page that ends at `end` starts.
unfoldable pub page_start : List (List ℕ) → ℕ → ℕ → ℕ → ℕ
page_start rows size even end =
    let start = end - even in
    let row = open_of rows size start end in if opens rows row then row else start

-- The loop, with fuel; none means that the fuel ran out.
unfoldable pub pages_from : ℕ → List (List ℕ) → ℕ → ℕ → ℕ → List (ℕ × ℕ) → Option (List (ℕ × ℕ))
pages_from zero rows size even end pages = none
pages_from (suc fuel) rows size even end pages =
    let start = page_start rows size even end in
    let rest = pages_from fuel rows size even start ((start, end) ∷ pages) in
    if nat_beq start 0 then some ((start, end) ∷ pages) else rest

-- `savedRowPages`; there is at least one page.
unfoldable pub saved_row_pages : List (List ℕ) → ℕ → Option (List (ℕ × ℕ))
saved_row_pages rows size =
    pages_from (suc (length rows)) rows size (even_size (length rows) size) (length rows) []

abbrev pub flat : List (List ℕ) → List ℕ
flat [] = []
flat (row ∷ rows) = row ++ flat rows

-- `savedPageText`
unfoldable pub saved_page_text : List (List ℕ) → ℕ × ℕ → List ℕ
saved_page_text rows page =
    let text = flat (slice page.0 page.1 rows) in if starts_line text then drop 2 text else text
