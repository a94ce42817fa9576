-- ===== src/Windowing.antt =====
-- src/lib/windowing.js, windowRange: which rows of a long list are rendered, and the spacers above and
-- below them. Sizes are whole pixels; `sizeAt` is the list of its values.
pub mod Rows
pub mod Tests
use outright.Base.{
  ℕ, suc, ◌+◌, ◌-◌, Bool, if◌then◌else◌, ltb, leb, List, [], ◌∷◌, length, drop, max,
}

-- The variables of the loop.
pub record Scan : Type 0 where
  pub position : ℕ
  pub start : ℕ
  pub end : ℕ
  pub top : ℕ

pub record WindowRange : Type 0 where
  pub start : ℕ
  pub end : ℕ
  pub top : ℕ
  pub bottom : ℕ
  pub total : ℕ

abbrev pub sum : List ℕ → ℕ
sum [] = 0
sum (size ∷ sizes) = size + sum sizes

-- One turn of the loop, at an index with the size of its row.
unfoldable pub scan_row : ℕ → ℕ → ℕ → ℕ → Scan → Scan
scan_row start_edge end_edge index size s =
    let next = s.position + size in
    record {
      position = next;
      start = if ltb next start_edge then suc index else s.start;
      end = if leb s.position end_edge then suc index else s.end;
      top = if ltb next start_edge then next else s.top;
    }

unfoldable pub scan : ℕ → ℕ → ℕ → List ℕ → Scan → Scan
scan start_edge end_edge index [] s = s
scan start_edge end_edge index (size ∷ sizes) s =
    scan start_edge end_edge (suc index) sizes (scan_row start_edge end_edge index size s)

abbrev pub end_edge_of : ℕ → ℕ → ℕ → ℕ
end_edge_of offset viewport overscan = offset + max 1 viewport + overscan

-- `windowRange`
unfoldable pub window_range : List ℕ → ℕ → ℕ → ℕ → WindowRange
window_range [] offset viewport overscan = record {
  start = 0;
  end = 0;
  top = 0;
  bottom = 0;
  total = 0;
}
window_range (size ∷ sizes) offset viewport overscan =
    let rows = size ∷ sizes in
    let s =
      scan (offset - overscan) (end_edge_of offset viewport overscan) 0 rows
        (record { position = 0; start = 0; end = length rows; top = 0 }) in
    let end = max s.end s.start in
    record {
      start = s.start;
      end = end;
      top = s.top;
      bottom = sum (drop end rows);
      total = s.position;
    }
