-- ===== src/Terminal/SavedRows/Budget.antt =====
-- The rows kept stay within the budget.
use mathlib.Core.List.{reverse, reverse-append}
use outright.Base.{
  ℕ, zero, suc, ◌+◌, ◌-◌, ◌≤◌, ◌≡◌, true, if◌then◌else◌, List, [], ◌∷◌, ◌++◌, length, length-append,
  arith, refl, ap, ◌∙◌,
}
use outright.Terminal.SavedRows.{
  Run, Row, Kept, keep, keep_copies, keep_runs, keep_row, newest_rows, read_segment, read_segments,
  saved_output_rows, max_saved_rows, max_saved_chars, no_rows,
}

abbrev pub size_of : List (List ℕ) → ℕ
size_of [] = 0
size_of (text ∷ texts) = length text + size_of texts

size_of-append :
    (front back : List (List ℕ)) → size_of (front ++ back) ≡ size_of front + size_of back
size_of-append [] back = omega arith
size_of-append (text ∷ front) back = omega (arith, size_of-append front back)

size_of-reverse : (texts : List (List ℕ)) → size_of (reverse texts) ≡ size_of texts
size_of-reverse [] = refl
size_of-reverse (text ∷ texts) =
    ap size_of (reverse-append (text ∷ []) texts)
    ∙ omega (arith, size_of-append (reverse texts) (text ∷ []), size_of-reverse texts)

length-reverse : (texts : List (List ℕ)) → length (reverse texts) ≡ length texts
length-reverse [] = refl
length-reverse (text ∷ texts) =
    ap length (reverse-append (text ∷ []) texts)
    ∙ omega (arith, length-append (reverse texts) (text ∷ []), length-reverse texts)

-- The size is that of the rows, and both are within their bounds.
abbrev pub IsWithin : ℕ → ℕ → Kept → Type 0
IsWithin budget chars k = (size_of k.kept ≡ k.size) × (length k.kept ≤ budget) × (k.size ≤ chars)

keep-IsWithin :
    (budget chars : ℕ) (text : List ℕ) (k : Kept)
    → IsWithin budget chars k
    → IsWithin budget chars (keep budget chars text k)
unfolding keep
keep-IsWithin budget chars text k h =
    ground (arith, h, size_of-append k.kept (text ∷ []), length-append k.kept (text ∷ []))

keep_copies-IsWithin :
    (budget chars copies : ℕ) (run : Run) (k : Kept)
    → IsWithin budget chars k
    → IsWithin budget chars (keep_copies budget chars copies run k)
unfolding keep_copies
keep_copies-IsWithin budget chars zero run k h = h
keep_copies-IsWithin budget chars (suc copies) run k h =
    let text = if k.full then run.whole else run.last in
    keep_copies-IsWithin budget chars copies run (record (keep budget chars text k) { full = true })
      (keep-IsWithin budget chars text k h)

keep_runs-IsWithin :
    (budget chars : ℕ) (runs : List Run) (k : Kept)
    → IsWithin budget chars k
    → IsWithin budget chars (keep_runs budget chars runs k)
unfolding keep_runs
keep_runs-IsWithin budget chars [] k h = h
keep_runs-IsWithin budget chars (run ∷ runs) k h =
    keep_runs-IsWithin budget chars runs (keep_copies budget chars run.count run k)
      (keep_copies-IsWithin budget chars run.count run k h)

newest_rows-IsWithin :
    (budget chars : ℕ) (rows : List Row) (k : Kept)
    → IsWithin budget chars k
    → IsWithin budget chars (newest_rows budget chars rows k)
unfolding newest_rows
newest_rows-IsWithin budget chars [] k h = h
newest_rows-IsWithin budget chars (row ∷ rows) k h =
    let copied = keep_runs budget chars row.runs k in
    newest_rows-IsWithin budget chars rows (keep_row budget chars row k) (
      keep-IsWithin budget chars (if copied.full then row.whole else row.last) copied
        (keep_runs-IsWithin budget chars row.runs k h))

module _ (segment_rows : List (List ℕ) → ℕ → List Row) where
  read_segment-IsWithin :
      (max_rows max_chars : ℕ) (writes : List (List ℕ)) (k : Kept)
      → IsWithin max_rows max_chars k
      → IsWithin max_rows max_chars (read_segment segment_rows max_rows max_chars writes k)
  unfolding read_segment
  read_segment-IsWithin max_rows max_chars writes k h =
      let budget = max_rows - length k.kept in
      let chars = max_chars - k.size in
      let read = newest_rows budget chars (segment_rows writes budget) no_rows in
      ground (
        arith,
        h,
        newest_rows-IsWithin budget chars (segment_rows writes budget) no_rows (omega arith),
        size_of-append k.kept read.kept,
        length-append k.kept read.kept,
      )

  read_segments-IsWithin :
      (max_rows max_chars : ℕ) (segments : List (List (List ℕ))) (k : Kept)
      → IsWithin max_rows max_chars k
      → IsWithin max_rows max_chars (read_segments segment_rows max_rows max_chars segments k)
  unfolding read_segments
  read_segments-IsWithin max_rows max_chars [] k h = h
  read_segments-IsWithin max_rows max_chars (writes ∷ older) k h =
      read_segments-IsWithin max_rows max_chars older
        (read_segment segment_rows max_rows max_chars writes k)
        (read_segment-IsWithin max_rows max_chars writes k h)

  -- Whatever the output and whatever xterm makes of it, at most 20000 rows of at most 4 MiB of
  -- characters are kept.
  pub saved_output_rows_bounds :
      (segments : List (List (List ℕ)))
      → (length (saved_output_rows segment_rows segments).rows ≤ max_saved_rows)
        × (size_of (saved_output_rows segment_rows segments).rows ≤ max_saved_chars)
  unfolding saved_output_rows
  saved_output_rows_bounds segments =
      let all =
        read_segments-IsWithin max_saved_rows max_saved_chars segments no_rows (omega arith) in
      let rows =
        (read_segments segment_rows max_saved_rows max_saved_chars segments no_rows).kept in
      omega (arith, all, size_of-reverse rows, length-reverse rows)
