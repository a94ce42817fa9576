-- ===== src/PaneLayout/Geometry/Fits.antt =====
-- When every pane gets its minimum size.
use outright.Base.{
  ℕ, ◌+◌, ◌-◌, ◌≤◌, ◌≡◌, sym, ◌∙◌, false, ◌&&◌, List, [], ◌∷◌, ◌++◌, arith, leb, Bool-cases, inl,
  inr,
}
use outright.PaneLayout.Tree.{View, Node, pane, split, Axis, row, column, Ratios}
use outright.PaneLayout.Edit.{Step, first, second}
use outright.PaneLayout.Geometry.{
  width, height, min_pane_size, separator_size, minimum_size, Rect, Placement, place_pane, extent,
  dimension, slice, first_size, place, compute_pane_rects,
}

place_pane_fits :
    (v : View) (area : Rect) (s : Placement)
    → min_pane_size v width ≤ area.w
    → min_pane_size v height ≤ area.h
    → (place_pane v area s).fits ≡ s.fits
unfolding place_pane
place_pane_fits v area s h k = ground arith

module _ {R : Type 0} ⦃r : Ratios R⦄ where
  -- A node has its minimum in an area.
  pub record Roomy (n : Node R) (area : Rect) : Type 0 where
    pub wide : minimum_size n width ≤ area.w
    pub high : minimum_size n height ≤ area.h

  -- The two extents of a split: each child has its minimum, and with the separator they fill it.
  pub first_size_bounds :
      (axis : Axis) (ratio : R) (a b : Node R) (area : Rect)
      → minimum_size a (dimension axis) + minimum_size b (dimension axis) + separator_size
        ≤ extent axis area
      → (minimum_size a (dimension axis) ≤ first_size axis ratio a b area)
        × (first_size axis ratio a b area + minimum_size b (dimension axis) + separator_size
            ≤ extent axis area)
  unfolding first_size
  first_size_bounds axis ratio a b area h = ground arith

  -- In an area with room for a split each child's part has room for the child.
  pub children_Roomy :
      (axis : Axis) (ratio : R) (a b : Node R) (area : Rect)
      → Roomy (split axis ratio a b) area
      → (let size = first_size axis ratio a b area in
          let rest = extent axis area - separator_size - size in
          Roomy a (slice axis area 0 size) × Roomy b (slice axis area (size + separator_size) rest))
  unfolding minimum_size
  children_Roomy row ratio a b area h =
      let fit = first_size_bounds row ratio a b area (omega (arith, h.wide)) in
      (
        record { wide = fit.0; high = omega (arith, h.high) },
        record { wide = omega (arith, fit.1); high = omega (arith, h.high) },
      )
  children_Roomy column ratio a b area h =
      let fit = first_size_bounds column ratio a b area (omega (arith, h.high)) in
      (
        record { wide = omega (arith, h.wide); high = fit.0 },
        record { wide = omega (arith, h.wide); high = omega (arith, fit.1) },
      )

  -- Where there is room no pane is short of its minimum.
  place_fits :
      (n : Node R) (area : Rect) (path : List Step) (s : Placement)
      → Roomy n area
      → (place n area path s).fits ≡ s.fits
  unfolding place minimum_size
  place_fits (pane v) area path s h = place_pane_fits v area s h.wide h.high
  place_fits (split axis ratio a b) area path s h =
      let (ra, rb) = children_Roomy axis ratio a b area h in
      place_fits b _ (path ++ second ∷ []) _ rb ∙ place_fits a _ (path ++ first ∷ []) _ ra

  -- Nothing sets `fits` again.
  place_unfit :
      (n : Node R) (area : Rect) (path : List Step) (s : Placement)
      → s.fits ≡ false
      → (place n area path s).fits ≡ false
  unfolding place place_pane
  place_unfit (pane v) area path s h = ground arith
  place_unfit (split axis ratio a b) area path s h =
      place_unfit b _ (path ++ second ∷ []) _ (place_unfit a _ (path ++ first ∷ []) _ h)

  -- `fits` is true exactly when the window has room for every minimum, however the ratios share it.
  pub compute_pane_rects-fits :
      (root : Node R) (w h : ℕ)
      → (compute_pane_rects root w h).fits
        ≡ (leb (minimum_size root width) w && leb (minimum_size root height) h)
  unfolding compute_pane_rects
  compute_pane_rects-fits root w h =
      elim (Bool-cases (leb (minimum_size root width) w && leb (minimum_size root height) h)) [
        | inl e ↦ place_fits root _ [] _ (record { wide = ground arith; high = ground arith })
        | inr e ↦ place_unfit root _ [] _ e ∙ sym e
      ]
