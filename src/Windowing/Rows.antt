-- ===== src/Windowing/Rows.antt =====
-- The rendered rows and the spacers fill the list, and no visible row is left out.
use outright.Base.{
  ℕ, zero, suc, ◌+◌, ◌-◌, ◌≤◌, ◌<◌, ◌≡◌, ◌⊎◌, List, [], ◌∷◌, length, take, drop, max, arith, refl,
  inl, ap,
}
use outright.Windowing.{Scan, sum, scan_row, scan, end_edge_of, window_range}

take-row :
    (index k size : ℕ) (sizes : List ℕ)
    → index < k
    → sum (take (k - index) (size ∷ sizes)) ≡ size + sum (take (k - suc index) sizes)
take-row index k size sizes h =
    ap (λ i. sum (take i (size ∷ sizes))) {x = k - index} {y = suc (k - suc index)}
      (omega (arith, h))

sum-take_none : (k : ℕ) (sizes : List ℕ) → k ≡ 0 → sum (take k sizes) ≡ 0
sum-take_none zero sizes h = refl
sum-take_none (suc k) sizes h = ground (arith, h)

-- What the loop has left, from where it was.
abbrev pub Scanned : ℕ → ℕ → ℕ → List ℕ → Scan → Scan → Type 0
Scanned start_edge end_edge index sizes s r =
    (r.position ≡ s.position + sum sizes)
    × (((r.start ≡ s.start) × (r.top ≡ s.top))
        ⊎ ((index < r.start)
            × (r.start ≤ index + length sizes)
            × (r.top ≡ s.position + sum (take (r.start - index) sizes))
            × (r.top < start_edge)))
    × ((r.end ≡ s.end) ⊎ ((index < r.end) × (r.end ≤ index + length sizes)))

scan-Scanned :
    (start_edge end_edge index : ℕ) (sizes : List ℕ) (s : Scan)
    → Scanned start_edge end_edge index sizes s (scan start_edge end_edge index sizes s)
unfolding scan scan_row
scan-Scanned start_edge end_edge index [] s = (omega arith, inl (refl, refl), inl refl)
scan-Scanned start_edge end_edge index (size ∷ sizes) s =
    let t = scan_row start_edge end_edge index size s in
    let r = scan start_edge end_edge (suc index) sizes t in
    ground (
      arith,
      scan-Scanned start_edge end_edge (suc index) sizes t,
      take-row index r.start size sizes,
      sum-take_none (r.start - suc index) sizes,
    )

-- A row past the end that the loop finds begins below the edge.
scan_past :
    (start_edge end_edge index : ℕ) (sizes : List ℕ) (s : Scan) (k : ℕ)
    → k < length sizes
    → (scan start_edge end_edge index sizes s).end ≤ index + k
    → end_edge < s.position + sum (take k sizes)
unfolding scan scan_row
scan_past start_edge end_edge index [] s k h past = ground (arith, h)
scan_past start_edge end_edge index (size ∷ sizes) s zero h past = ground (
  arith,
  past,
  scan-Scanned start_edge end_edge (suc index) sizes (scan_row start_edge end_edge index size s),
)
scan_past start_edge end_edge index (size ∷ sizes) s (suc k) h past =
    let t = scan_row start_edge end_edge index size s in
    omega (
      arith,
      scan_past start_edge end_edge (suc index) sizes t k (omega (arith, h)) (omega (arith, past)),
    )

sum-take-le : (i j : ℕ) (sizes : List ℕ) → i ≤ j → sum (take i sizes) ≤ sum (take j sizes)
sum-take-le zero j sizes h = omega arith
sum-take-le (suc i) zero sizes h = ground (arith, h)
sum-take-le (suc i) (suc j) [] h = omega arith
sum-take-le (suc i) (suc j) (size ∷ sizes) h =
    omega (arith, sum-take-le i j sizes (omega (arith, h)))

sum-take-drop : (i : ℕ) (sizes : List ℕ) → sum (take i sizes) + sum (drop i sizes) ≡ sum sizes
sum-take-drop zero sizes = omega arith
sum-take-drop (suc i) [] = omega arith
sum-take-drop (suc i) (size ∷ sizes) = omega (arith, sum-take-drop i sizes)

sum-take_nil : (i : ℕ) → sum (take i []) ≡ 0
sum-take_nil zero = refl
sum-take_nil (suc i) = refl

sum-slices :
    (i j : ℕ) (sizes : List ℕ)
    → i ≤ j
    → sum (take i sizes) + sum (take (j - i) (drop i sizes)) + sum (drop j sizes) ≡ sum sizes
sum-slices zero j sizes h =
    omega
      (arith, sum-take-drop j sizes, ap (λ k. sum (take k sizes)) {x = j - 0} {y = j} (omega arith))
sum-slices (suc i) zero sizes h = ground (arith, h)
sum-slices (suc i) (suc j) [] h = omega (arith, sum-take_nil (suc j - suc i))
sum-slices (suc i) (suc j) (size ∷ sizes) h = omega (
  arith,
  sum-slices i j sizes (omega (arith, h)),
  ap (λ k. sum (take k (drop i sizes))) {x = suc j - suc i} {y = j - i} (omega arith),
)

-- The spacer above is as high as the rows before the first that is rendered, and the spacers and
-- the rendered rows are together as high as the list.
pub window_range_fills :
    (rows : List ℕ) (offset viewport overscan : ℕ)
    → let r = window_range rows offset viewport overscan in
      (r.start ≤ r.end)
      × (r.end ≤ length rows)
      × (r.top ≡ sum (take r.start rows))
      × (r.total ≡ sum rows)
      × (r.top + sum (take (r.end - r.start) (drop r.start rows)) + r.bottom ≡ r.total)
unfolding window_range
window_range_fills [] offset viewport overscan = (omega arith, omega arith, refl, refl, refl)
window_range_fills (size ∷ sizes) offset viewport overscan =
    let rows = size ∷ sizes in
    let begin : Scan = record { position = 0; start = 0; end = length rows; top = 0 } in
    let s = scan (offset - overscan) (end_edge_of offset viewport overscan) 0 rows begin in
    let all =
      scan-Scanned (offset - overscan) (end_edge_of offset viewport overscan) 0 rows begin in
    ground (
      arith,
      all,
      sum-slices s.start (max s.end s.start) rows,
      sum-take_none s.start rows,
      ap (λ k. sum (take k rows)) {x = s.start - 0} {y = s.start} (omega arith),
    )

-- Every row that reaches into the window is rendered.
pub window_range_shows :
    (rows : List ℕ) (offset viewport overscan k : ℕ)
    → k < length rows
    → offset ≤ sum (take (suc k) rows)
    → sum (take k rows) ≤ offset + viewport
    → let r = window_range rows offset viewport overscan in (r.start ≤ k) × (k < r.end)
unfolding window_range
window_range_shows [] offset viewport overscan k h below above = ground (arith, h)
window_range_shows (size ∷ sizes) offset viewport overscan k h below above =
    let rows = size ∷ sizes in
    let begin : Scan = record { position = 0; start = 0; end = length rows; top = 0 } in
    let s = scan (offset - overscan) (end_edge_of offset viewport overscan) 0 rows begin in
    let all =
      scan-Scanned (offset - overscan) (end_edge_of offset viewport overscan) 0 rows begin in
    ground (
      arith,
      h,
      below,
      above,
      all,
      sum-take-le (suc k) s.start rows,
      scan_past (offset - overscan) (end_edge_of offset viewport overscan) 0 rows begin k h,
      ap (λ i. sum (take i rows)) {x = s.start - 0} {y = s.start} (omega arith),
    )
