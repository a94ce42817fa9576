-- ===== src/Terminal/SavedRows/Tests.antt =====
-- Two segments of one row each, and the theorem at them.
use outright.Base.{ℕ, ◌≤◌, ◌≡◌, refl, false, List, [], ◌∷◌, length}
use outright.Terminal.SavedRows.{
  Row, saved_output_rows, read_segments, read_segment, newest_rows, keep, keep_runs, max_saved_rows,
  max_saved_chars,
}
use outright.Terminal.SavedRows.Budget.{saved_output_rows_bounds, size_of}

-- Each segment draws its first write.
abbrev drawn : List (List ℕ) → ℕ → List Row
drawn [] budget = []
drawn (write ∷ writes) budget =
    record { whole = write; last = write; is_wrapped = false; runs = [] } ∷ []

abbrev segments : List (List (List ℕ))
segments = ((2 ∷ []) ∷ []) ∷ ((1 ∷ []) ∷ []) ∷ []

rows_run : (saved_output_rows drawn segments).rows ≡ (1 ∷ []) ∷ (2 ∷ []) ∷ []
unfolding saved_output_rows read_segments read_segment newest_rows keep keep_runs
rows_run = refl

saved_output_rows_bounds_example :
    (length (saved_output_rows drawn segments).rows ≤ max_saved_rows)
    × (size_of (saved_output_rows drawn segments).rows ≤ max_saved_chars)
saved_output_rows_bounds_example = saved_output_rows_bounds drawn segments
