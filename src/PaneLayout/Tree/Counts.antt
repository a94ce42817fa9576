-- ===== src/PaneLayout/Tree/Counts.antt =====
-- How often each view stands in a tree after the functions on nodes.
use outright.Base.{
  ◌+◌, ◌≡◌, refl, Option, none, some, List, [], ◌∷◌, if◌then◌else◌, arith, ◌==◌, count,
  count-append,
}
use outright.PaneLayout.Tree.{
  View, view_eq, view_beq_iff, Node, pane, split, Side, left, right, up, down, Ratios, layout_views,
  is_pane_of, replace_node, join, remove_view, beside, dock,
}

-- The views that a tree, if there is one, shows.
abbrev pub remaining : {R : Type 0} → Option (Node R) → List View
remaining none = []
remaining (some n) = layout_views n

module _ {R : Type 0} where
  remaining-join :
      (axis : _) (ratio : R) (a b : Option (Node R)) (w : View)
      → count w (remaining (join axis ratio a b)) ≡ count w (remaining a) + count w (remaining b)
  unfolding join layout_views
  remaining-join axis ratio none b w = omega arith
  remaining-join axis ratio (some a) none w = omega arith
  remaining-join axis ratio (some a) (some b) w = count-append w (layout_views a) (layout_views b)

  -- Removing a view removes its panes and no other.
  pub count-remove_view :
      (n : Node R) (v w : View)
      → count w (remaining (remove_view n v)) ≡ (if v == w then 0 else count w (layout_views n))
  unfolding remove_view layout_views
  count-remove_view (pane u) v w =
      ground (arith, view_beq_iff u v, view_beq_iff v w, view_beq_iff u w)
  count-remove_view (split axis ratio a b) v w = ground (
    arith,
    remaining-join axis ratio (remove_view a v) (remove_view b v) w,
    count-remove_view a v w,
    count-remove_view b v w,
    count-append w (layout_views a) (layout_views b),
  )

module _ {R : Type 0} ⦃r : Ratios R⦄ where
  count-beside :
      (v w : View) (side : Side) (n : Node R)
      → count w (layout_views (beside v side n)) ≡ count w (v ∷ layout_views n)
  unfolding beside layout_views
  count-beside v w left n = refl
  count-beside v w right n = omega (arith, count-append w (layout_views n) (v ∷ []))
  count-beside v w up n = refl
  count-beside v w down n = omega (arith, count-append w (layout_views n) (v ∷ []))

  -- Docking adds one pane of the view for each pane of the target.
  pub count-dock :
      (n : Node R) (v t w : View) (side : Side)
      → count w (layout_views (dock n v t side))
        ≡ count w (layout_views n) + (if v == w then count t (layout_views n) else 0)
  unfolding dock replace_node is_pane_of layout_views
  count-dock (pane u) v t w side =
      ground (
        arith,
        view_beq_iff u t,
        view_beq_iff t w,
        view_beq_iff u w,
        count-beside v w side (pane u),
      )
  count-dock (split axis ratio a b) v t w side = ground (
    arith,
    count-dock a v t w side,
    count-dock b v t w side,
    count-append w (layout_views a) (layout_views b),
    count-append t (layout_views a) (layout_views b),
    count-append w (layout_views (dock a v t side)) (layout_views (dock b v t side)),
  )
