-- ===== src/PaneLayout/Geometry.antt =====
-- src/lib/pane-layout.js: minimum sizes, and the pixel rectangles of panes and separators. Sizes
-- and positions are whole numbers of pixels.
pub mod Fits
pub mod Tiling
use outright.Base.{
  ℕ, ◌+◌, ◌-◌, Bool, true, false, ◌&&◌, ◌||◌, List, [], ◌∷◌, ◌++◌, if◌then◌else◌, ltb, leb, min,
  max,
}
use outright.Base.JsMap.{insert}
use outright.PaneLayout.Tree.{
  View, conversation, changes, terminal, context, view_eq, Node, pane, split, Axis, row, column,
  Ratios, layout_views,
}
use outright.PaneLayout.Edit.{Step, first, second}

pub data Dimension : Type 0 where
  width height : Dimension

-- MIN_PANE_SIZE
unfoldable pub min_pane_size : View → Dimension → ℕ
min_pane_size conversation width = 320
min_pane_size conversation height = 400
min_pane_size changes width = 280
min_pane_size changes height = 340
min_pane_size terminal width = 260
min_pane_size terminal height = 200
min_pane_size context width = 240
min_pane_size context height = 180

-- PANE_SEPARATOR_SIZE
abbrev pub separator_size : ℕ
separator_size = 6

-- `(axis === "row") === (dimension === "width")`
abbrev pub along : Axis → Dimension → Bool
along row width = true
along row height = false
along column width = false
along column height = true

unfoldable pub minimum_size : {R : Type 0} → Node R → Dimension → ℕ
minimum_size (pane v) d = min_pane_size v d
minimum_size (split axis ratio a b) d =
    if along axis d
    then minimum_size a d + minimum_size b d + separator_size
    else max (minimum_size a d) (minimum_size b d)

pub record Rect : Type 0 where
  pub x : ℕ
  pub y : ℕ
  pub w : ℕ
  pub h : ℕ

pub record Separator : Type 0 where
  pub path : List Step
  pub axis : Axis
  pub before : List View
  pub after : List View
  pub start : ℕ
  pub available : ℕ
  pub size : ℕ
  pub lower : ℕ
  pub upper : ℕ
  pub area : Rect

-- The variables that `place` writes.
pub record Placement : Type 0 where
  pub panes : List (View × Rect)
  pub separators : List Separator
  pub fits : Bool

unfoldable pub place_pane : View → Rect → Placement → Placement
place_pane v area s = record {
  panes = insert v area s.panes;
  separators = s.separators;
  fits =
      if ltb area.w (min_pane_size v width) || ltb area.h (min_pane_size v height)
      then false
      else s.fits;
}

-- The range of the first child's extent: both minimums if they fit, and otherwise everything.
unfoldable pub limits : ℕ → ℕ → ℕ → ℕ × ℕ
limits first_min second_min available =
    if ltb available (first_min + second_min)
    then (0, available)
    else (first_min, available - second_min)

abbrev pub extent : Axis → Rect → ℕ
extent row area = area.w
extent column area = area.h

abbrev pub origin : Axis → Rect → ℕ
origin row area = area.x
origin column area = area.y

abbrev pub dimension : Axis → Dimension
dimension row = width
dimension column = height

-- The part of an area that starts `offset` along the axis and is `size` long.
abbrev pub slice : Axis → Rect → ℕ → ℕ → Rect
slice row area offset size = record area { x = area.x + offset; w = size }
slice column area offset size = record area { y = area.y + offset; h = size }

module _ {R : Type 0} ⦃r : Ratios R⦄ where
  abbrev pub split_limits : Axis → Node R → Node R → Rect → ℕ × ℕ
  split_limits axis a b area =
      limits (minimum_size a (dimension axis)) (minimum_size b (dimension axis))
        (extent axis area - separator_size)

  -- The extent of the first child.
  unfoldable pub first_size : Axis → R → Node R → Node R → Rect → ℕ
  unfolding limits
  first_size axis ratio a b area =
      let (lower, upper) = split_limits axis a b area in
      min upper (max lower (r.share ratio (extent axis area - separator_size)))

  unfoldable pub separator_of : Axis → R → Node R → Node R → Rect → List Step → Separator
  unfolding limits
  separator_of axis ratio a b area path =
      let size = first_size axis ratio a b area in
      let (lower, upper) = split_limits axis a b area in
      record {
        path = path;
        axis = axis;
        before = layout_views a;
        after = layout_views b;
        start = origin axis area;
        available = extent axis area - separator_size;
        size = size;
        lower = lower;
        upper = upper;
        area = slice axis area size separator_size;
      }

  unfoldable pub place : Node R → Rect → List Step → Placement → Placement
  place (pane v) area path s = place_pane v area s
  place (split axis ratio a b) area path s =
      let size = first_size axis ratio a b area in
      let rest = extent axis area - separator_size - size in
      let marked = record s {
        separators = s.separators ++ separator_of axis ratio a b area path ∷ [];
      } in
      let placed = place a (slice axis area 0 size) (path ++ first ∷ []) marked in
      place b (slice axis area (size + separator_size) rest) (path ++ second ∷ []) placed

  unfoldable pub compute_pane_rects : Node R → ℕ → ℕ → Placement
  compute_pane_rects root total_width total_height =
      place root (record { x = 0; y = 0; w = total_width; h = total_height }) []
        (record {
          panes = [];
          separators = [];
          fits =
              leb (minimum_size root width) total_width
              && leb (minimum_size root height) total_height;
        })
