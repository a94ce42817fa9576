-- ===== src/Windowing/Tests.antt =====
-- A window over four rows, and the theorems at it.
use outright.Base.{ℕ, ◌+◌, ◌-◌, ◌≤◌, ◌<◌, ◌≡◌, refl, List, [], ◌∷◌, length, take, drop, arith}
use outright.Windowing.{sum, scan, scan_row, window_range}
use outright.Windowing.Rows.{window_range_fills, window_range_shows}

abbrev rows : List ℕ
rows = 10 ∷ 20 ∷ 30 ∷ 40 ∷ []

-- The rows from 35 to 40, without overscan.
range_run :
    window_range rows 35 5 0 ≡ record { start = 2; end = 3; top = 30; bottom = 40; total = 100 }
unfolding window_range scan scan_row
range_run = refl

window_range_fills_example :
    let r = window_range rows 35 5 0 in
    (r.start ≤ r.end)
    × (r.end ≤ length rows)
    × (r.top ≡ sum (take r.start rows))
    × (r.total ≡ sum rows)
    × (r.top + sum (take (r.end - r.start) (drop r.start rows)) + r.bottom ≡ r.total)
window_range_fills_example = window_range_fills rows 35 5 0

window_range_shows_example : let r = window_range rows 35 5 0 in (r.start ≤ 2) × (2 < r.end)
window_range_shows_example =
    window_range_shows rows 35 5 0 2 (omega arith) (omega arith) (omega arith)
