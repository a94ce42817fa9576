-- ===== src/PaneLayout/Edit/Effects.antt =====
-- What each operation does to a layout: closing undoes opening, swapping undoes itself, moving
-- keeps the views, and resizing sets one ratio.
use outright.Base.{
  ℕ, zero, suc, ◌<◌, ◌≡◌, refl, ap, ◌∙◌, ◌⊎◌, inl, inr, Bool, true, false, ◌||◌, not, Option, none,
  some, if◌then◌else◌, arith, ◌==◌, contains_iff_count, count_of_contains, count_of_not_contains,
  count, count-append, Bool-cases, beq_refl,
}
use outright.PaneLayout.Tree.{
  View, conversation, view_eq, view_beq_iff, Node, pane, split, Side, left, right, up, down, Axis,
  Ratios, Layout, layout_views, is_pane_of, replace_node, join, remove_view, find_successor,
  or_else, beside, dock,
}
use outright.PaneLayout.Tree.Counts.{count-dock}
use outright.PaneLayout.Edit.{
  has_view, refocus, or_node, close_view, swapped, swap_nodes, swap_views, anchor_of, open_view,
  move_view,
}
use outright.PaneLayout.Edit.Counting.{count-removed, count-swap_nodes}
use outright.PaneLayout.Edit.Invariant.{IsValid, anchor_shown}

count_cases : (n : ℕ) → (n ≡ 0) ⊎ (0 < n)
count_cases zero = inl refl
count_cases (suc n) = inr (omega arith)

module _ {R : Type 0} where
  remove_view_absent :
      (n : Node R) (v : View) → count v (layout_views n) ≡ 0 → remove_view n v ≡ some n
  unfolding remove_view layout_views join
  remove_view_absent (pane u) v h = ground arith
  remove_view_absent (split axis ratio a b) v h =
      let both = count-append v (layout_views a) (layout_views b) in
      rw
        (remove_view_absent a v (omega (arith, both)), remove_view_absent b v (omega (arith, both)))

  is_pane_of_absent :
      (n : Node R) (v : View) → count v (layout_views n) ≡ 0 → is_pane_of v n ≡ false
  unfolding is_pane_of layout_views
  is_pane_of_absent (pane u) v h = ground arith
  is_pane_of_absent (split axis ratio a b) v h = refl

  find_successor_absent :
      (n : Node R) (v : View) → count v (layout_views n) ≡ 0 → find_successor n v ≡ none
  unfolding find_successor layout_views
  find_successor_absent (pane u) v h = refl
  find_successor_absent (split axis ratio a b) v h =
      let both = count-append v (layout_views a) (layout_views b) in
      rw (
        is_pane_of_absent a v (omega (arith, both)),
        is_pane_of_absent b v (omega (arith, both)),
        find_successor_absent a v (omega (arith, both)),
        find_successor_absent b v (omega (arith, both)),
      )

  remove_view-split :
      (axis : Axis) (ratio : R) (a b : Node R) (v : View) {a' b' : Node R}
      → remove_view a v ≡ some a'
      → remove_view b v ≡ some b'
      → remove_view (split axis ratio a b) v ≡ some (split axis ratio a' b')
  unfolding remove_view join
  remove_view-split axis ratio a b v p q = rw (p, q)

  find_successor-split :
      (axis : Axis) (ratio : R) (a b : Node R) (v : View)
      → is_pane_of v a ≡ false
      → is_pane_of v b ≡ false
      → find_successor (split axis ratio a b) v ≡ or_else (find_successor a v) (find_successor b v)
  unfolding find_successor
  find_successor-split axis ratio a b v p q = rw (p, q)

  swap_nodes-swap_nodes :
      (n : Node R) (a b : View) → (a == b) ≡ false → swap_nodes (swap_nodes n a b) a b ≡ n
  unfolding swap_nodes replace_node is_pane_of swapped
  swap_nodes-swap_nodes (pane u) a b ne = ground (
    arith,
    view_beq_iff u a,
    view_beq_iff u b,
    view_beq_iff a b,
    view_beq_iff b a,
    view_beq_iff b b,
    view_beq_iff a a,
  )
  swap_nodes-swap_nodes (split axis ratio c d) a b ne =
      cc (swap_nodes-swap_nodes c a b ne, swap_nodes-swap_nodes d a b ne)

module _ (R : Type 0) ⦃r : Ratios R⦄ where
  remove_view-beside :
      (v u : View) (side : Side)
      → (u == v) ≡ false
      → remove_view {R = R} (beside v side (pane u)) v ≡ some (pane u)
  unfolding remove_view beside join
  remove_view-beside v u left h = rw (h, beq_refl v)
  remove_view-beside v u right h = rw (h, beq_refl v)
  remove_view-beside v u up h = rw (h, beq_refl v)
  remove_view-beside v u down h = rw (h, beq_refl v)

  find_successor-beside :
      (v u : View) (side : Side)
      → (u == v) ≡ false
      → find_successor {R = R} (beside v side (pane u)) v ≡ some u
  unfolding find_successor beside is_pane_of layout_views
  find_successor-beside v u left h = rw (beq_refl v)
  find_successor-beside v u right h = rw (h, beq_refl v)
  find_successor-beside v u up h = rw (beq_refl v)
  find_successor-beside v u down h = rw (h, beq_refl v)

module _ {R : Type 0} ⦃r : Ratios R⦄ where
  dock_pane :
      (u v t : View) (side : Side)
      → dock {R = R} (pane u) v t side ≡ (if u == t then beside v side (pane u) else pane u)
  unfolding dock replace_node is_pane_of
  dock_pane u v t side = refl

  dock_split :
      (axis : Axis) (ratio : R) (a b : Node R) (v t : View) (side : Side)
      → dock (split axis ratio a b) v t side ≡ split axis ratio (dock a v t side) (dock b v t side)
  unfolding dock replace_node is_pane_of
  dock_split axis ratio a b v t side = refl

  dock_absent :
      (n : Node R) (v t : View) (side : Side) → count t (layout_views n) ≡ 0 → dock n v t side ≡ n
  unfolding dock replace_node is_pane_of layout_views
  dock_absent (pane u) v t side h = ground arith
  dock_absent (split axis ratio a b) v t side h =
      let both = count-append t (layout_views a) (layout_views b) in
      cc
        (dock_absent a v t side (omega (arith, both)), dock_absent b v t side (omega (arith, both)))

  -- Removing the view that was docked gives the tree back.
  remove_view-dock :
      (n : Node R) (v t : View) (side : Side)
      → count v (layout_views n) ≡ 0
      → remove_view (dock n v t side) v ≡ some n
  unfolding dock replace_node is_pane_of layout_views
  remove_view-dock (pane u) v t side h =
      let fresh : (u == v) ≡ false = ground arith in
      elim (Bool-cases (u == t)) [
        | inl e ↦ rw (dock_pane u v t side, e) (remove_view-beside R v u side fresh)
        | inr e ↦ rw (dock_pane u v t side, e) (remove_view_absent (pane u) v h)
      ]
  remove_view-dock (split axis ratio a b) v t side h =
      let both = count-append v (layout_views a) (layout_views b) in
      rw (dock_split axis ratio a b v t side) (
        remove_view-split axis ratio _ _ v (remove_view-dock a v t side (omega (arith, both)))
          (remove_view-dock b v t side (omega (arith, both))))

  is_pane_of-dock :
      (n : Node R) (v t : View) (side : Side)
      → count v (layout_views n) ≡ 0
      → is_pane_of v (dock n v t side) ≡ false
  unfolding dock replace_node is_pane_of layout_views beside
  is_pane_of-dock (pane u) v t left h = ground arith
  is_pane_of-dock (pane u) v t right h = ground arith
  is_pane_of-dock (pane u) v t up h = ground arith
  is_pane_of-dock (pane u) v t down h = ground arith
  is_pane_of-dock (split axis ratio a b) v t side h = refl

  -- The sibling of a docked pane is its target.
  find_successor-dock :
      (n : Node R) (v t : View) (side : Side)
      → count v (layout_views n) ≡ 0
      → count t (layout_views n) ≡ 1
      → find_successor (dock n v t side) v ≡ some t
  unfolding layout_views
  find_successor-dock (pane u) v t side h k =
      let fresh : (u == v) ≡ false = ground arith in
      let hit : (u == t) ≡ true = ground arith in
      rw (dock_pane u v t side, hit)
        (find_successor-beside R v u side fresh ∙ ap some ((view_beq_iff u t).0 hit))
  find_successor-dock (split axis ratio a b) v t side h k =
      let views = count-append v (layout_views a) (layout_views b) in
      let targets = count-append t (layout_views a) (layout_views b) in
      let no_a : count v (layout_views a) ≡ 0 = omega (arith, views) in
      let no_b : count v (layout_views b) ≡ 0 = omega (arith, views) in
      rw
        (
          dock_split axis ratio a b v t side,
          find_successor-split axis ratio (dock a v t side) (dock b v t side) v
              (is_pane_of-dock a v t side no_a) (is_pane_of-dock b v t side no_b),
        )
        (elim (count_cases (count t (layout_views a))) [
          | inl e ↦
              rw (dock_absent a v t side e, find_successor_absent a v no_a)
                (find_successor-dock b v t side no_b (omega (arith, targets)))
          | inr e ↦ rw (find_successor-dock a v t side no_a (omega (arith, targets)))
        ])

module _ {R : Type 0} ⦃r : Ratios R⦄ (l : Layout R) (v : IsValid l) where
  -- Closing a view that was just opened restores the layout, with the pane that the view was
  -- opened beside focused.
  pub close_view-open_view :
      (view : View) (target : Option View) (side : Side)
      → has_view l view ≡ false
      → close_view (open_view l (some view) target (some side)) view
        ≡ refocus l (anchor_of l target)
  unfolding close_view open_view
  close_view-open_view view target side fresh =
      let gone = count_of_not_contains (layout_views l.root) view fresh in
      let t = anchor_of l target in
      let once : count t (layout_views l.root) ≡ 1 =
        omega (arith, anchor_shown target v, v.distinct t) in
      let other : (view == conversation) ≡ false =
        ground (arith, view_beq_iff view conversation, v.conversation_shown) in
      let docked : has_view (record l { root = dock l.root view t side }) view ≡ true = ground (
        arith,
        count-dock l.root view t view side,
        contains_iff_count (layout_views (dock l.root view t side)) view,
        view_beq_iff view view,
      ) in
      rw (
        fresh,
        other,
        docked,
        beq_refl view,
        remove_view-dock l.root view t side gone,
        find_successor-dock l.root view t side gone once,
      )

  -- Swapping the same two views twice restores the tree.
  pub swap_views-swap_views : (a b : View) → (swap_views (swap_views l a b) a b).root ≡ l.root
  unfolding swap_views
  swap_views-swap_views a b = elim (Bool-cases refused) [
    | inl e ↦ rw (e, e)
    | inr e ↦ rw e (
        ground (
          arith,
          swap_nodes-swap_nodes l.root a b,
          count-swap_nodes l.root a b a,
          count-swap_nodes l.root a b b,
          contains_iff_count (layout_views l.root) a,
          contains_iff_count (layout_views l.root) b,
          contains_iff_count (layout_views (swap_nodes l.root a b)) a,
          contains_iff_count (layout_views (swap_nodes l.root a b)) b,
          view_beq_iff a a,
          view_beq_iff b a,
          view_beq_iff a b,
          view_beq_iff b b,
        ))
  ]
    where
      refused : Bool
      refused = a == b || not (has_view l a) || not (has_view l b)

  -- Moving a pane keeps the views that are shown.
  pub count-move_view :
      (view target w : View) (side : Option Side)
      → count w (layout_views (move_view l view target side).root) ≡ count w (layout_views l.root)
  unfolding move_view
  count-move_view view target w none = refl
  count-move_view view target w (some side) = elim (Bool-cases refused) [
    | inl e ↦ rw e
    | inr e ↦
        let kept = λ (u : View).
          count-removed l.root view target u (ground arith)
            (count_of_contains (layout_views l.root) target (ground arith)) in
        rw e (
          ground (
            arith,
            count-dock (or_node (remove_view l.root view) l.root) view target w side,
            kept w,
            kept target,
            v.distinct w,
            v.distinct target,
            contains_iff_count (layout_views l.root) view,
            contains_iff_count (layout_views l.root) target,
            view_beq_iff view w,
          ))
  ]
    where
      refused : Bool
      refused = view == target || not (has_view l view) || not (has_view l target)
