-- ===== src/PaneLayout/Geometry/Tiling.antt =====
-- Where every pane fits, panes and separators tile the window.
use outright.Base.{
  ℕ, ◌+◌, ◌-◌, ◌≤◌, ◌<◌, ◌≡◌, refl, ◌∙◌, ◌&&◌, none, List, [], ◌∷◌, ◌++◌, if◌then◌else◌, arith, ltb,
  leb, Bool-cases, inl, inr, ◌==◌, count, count-append,
}
use outright.Base.JsMap.{lookup, insert, lookup-insert}
use outright.PaneLayout.Tree.{
  View, view_eq, view_beq_iff, Node, pane, split, Axis, row, column, Ratios, layout_views,
}
use outright.PaneLayout.Edit.{Step, first, second}
use outright.PaneLayout.Edit.Counting.{Distinct}
use outright.PaneLayout.Geometry.{
  width, height, minimum_size, Rect, Separator, Placement, place_pane, separator_size, extent,
  slice, first_size, separator_of, place, compute_pane_rects,
}
use outright.PaneLayout.Geometry.Fits.{Roomy, children_Roomy, first_size_bounds}

-- Whether a point lies in a rectangle, as 1 or 0.
abbrev pub holds : Rect → ℕ → ℕ → ℕ
holds area px py =
    if (leb area.x px && ltb px (area.x + area.w)) && (leb area.y py && ltb py (area.y + area.h))
    then 1
    else 0

abbrev pub pane_covers : List (View × Rect) → ℕ → ℕ → ℕ
pane_covers [] px py = 0
pane_covers ((v, area) ∷ rest) px py = holds area px py + pane_covers rest px py

abbrev pub separator_covers : List Separator → ℕ → ℕ → ℕ
separator_covers [] px py = 0
separator_covers (s ∷ rest) px py = holds s.area px py + separator_covers rest px py

-- How many panes and separators cover a point.
abbrev pub covers : Placement → ℕ → ℕ → ℕ
covers s px py = pane_covers s.panes px py + separator_covers s.separators px py

separator_covers-snoc :
    (xs : List Separator) (s : Separator) (px py : ℕ)
    → separator_covers (xs ++ s ∷ []) px py ≡ separator_covers xs px py + holds s.area px py
separator_covers-snoc [] s px py = omega arith
separator_covers-snoc (x ∷ xs) s px py = omega (arith, separator_covers-snoc xs s px py)

pane_covers-insert :
    (v : View) (area : Rect) (m : List (View × Rect)) (px py : ℕ)
    → lookup v m ≡ none
    → pane_covers (insert v area m) px py ≡ pane_covers m px py + holds area px py
unfolding insert lookup
pane_covers-insert v area [] px py h = omega arith
pane_covers-insert v area ((u, other) ∷ m) px py h = elim (Bool-cases (u == v)) [
  | inl e ↦ absurd (ground (arith, e))
  | inr e ↦ rw e (omega (arith, pane_covers-insert v area m px py (rw (e, lookup) at h)))
]

-- A slice of an area, the separator behind it and the rest make up the area.
slices :
    (axis : Axis) (area : Rect) (size px py : ℕ)
    → size + separator_size ≤ extent axis area
    → holds (slice axis area 0 size) px py
        + holds (slice axis area size separator_size) px py
        + holds
            (slice axis area (size + separator_size) (extent axis area - separator_size - size))
            px
            py
      ≡ holds area px py
slices row area size px py h = ground arith
slices column area size px py h = ground arith

module _ {R : Type 0} ⦃r : Ratios R⦄ where
  abbrev Fresh : Node R → Placement → Type 0
  Fresh n s = (v : View) → 0 < count v (layout_views n) → lookup v s.panes ≡ none

  separator_fits :
      (axis : Axis) (ratio : R) (a b : Node R) (area : Rect)
      → Roomy (split axis ratio a b) area
      → first_size axis ratio a b area + separator_size ≤ extent axis area
  unfolding minimum_size
  separator_fits row ratio a b area h =
      omega (arith, (first_size_bounds row ratio a b area (omega (arith, h.wide))).1)
  separator_fits column ratio a b area h =
      omega (arith, (first_size_bounds column ratio a b area (omega (arith, h.high))).1)

  -- Placing a node writes the panes of its views only.
  lookup-place :
      (n : Node R) (area : Rect) (path : List Step) (s : Placement) (v : View)
      → count v (layout_views n) ≡ 0
      → lookup v (place n area path s).panes ≡ lookup v s.panes
  unfolding place place_pane layout_views
  lookup-place (pane u) area path s v h = ground (arith, lookup-insert u v area s.panes)
  lookup-place (split axis ratio a b) area path s v h =
      let both = count-append v (layout_views a) (layout_views b) in
      lookup-place b _ (path ++ second ∷ []) _ v (omega (arith, both))
      ∙ lookup-place a _ (path ++ first ∷ []) _ v (omega (arith, both))

  -- Placing a node covers each point of its area once more.
  covers-place :
      (n : Node R) (area : Rect) (path : List Step) (s : Placement) (px py : ℕ)
      → Roomy n area
      → Distinct n
      → Fresh n s
      → covers (place n area path s) px py ≡ covers s px py + holds area px py
  unfolding place place_pane layout_views separator_of
  covers-place (pane v) area path s px py roomy once fresh =
      omega (
        arith,
        pane_covers-insert v area s.panes px py (fresh v (ground (arith, view_beq_iff v v))),
      )
  covers-place (split axis ratio a b) area path s px py roomy once fresh =
      let (ra, rb) = children_Roomy axis ratio a b area roomy in
      let size = first_size axis ratio a b area in
      let both = λ (v : View). count-append v (layout_views a) (layout_views b) in
      let marked : Placement = record s {
        separators = s.separators ++ separator_of axis ratio a b area path ∷ [];
      } in
      let placed = place a (slice axis area 0 size) (path ++ first ∷ []) marked in
      omega (
        arith,
        separator_covers-snoc s.separators (separator_of axis ratio a b area path) px py,
        covers-place a _ (path ++ first ∷ []) marked px py ra (λ v. omega (arith, once v, both v))
            (λ v h. fresh v (omega (arith, h, both v))),
        covers-place b _ (path ++ second ∷ []) placed px py rb (λ v. omega (arith, once v, both v))
            (λ v h.
              lookup-place a _ (path ++ first ∷ []) marked v (omega (arith, h, once v, both v))
              ∙ fresh v (omega (arith, h, both v))),
        slices axis area size px py (separator_fits axis ratio a b area roomy),
      )

  -- In a window with room for every minimum, each point inside the window lies in exactly one pane
  -- or separator, and no point outside lies in any.
  pub covers-compute_pane_rects :
      (root : Node R) (w h px py : ℕ)
      → Distinct root
      → minimum_size root width ≤ w
      → minimum_size root height ≤ h
      → covers (compute_pane_rects root w h) px py ≡ (if ltb px w && ltb py h then 1 else 0)
  unfolding compute_pane_rects lookup
  covers-compute_pane_rects root w h px py once wide high =
      covers-place root (record { x = 0; y = 0; w = w; h = h }) [] _ px py
        (record { wide = wide; high = high }) once (λ v _. refl)
      ∙ ground arith
