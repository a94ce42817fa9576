-- ===== src/PaneLayout/Edit/Counting.antt =====
-- The views that a tree shows, and its ratios, after each operation on layouts.
use outright.Base.{
  ◌≤◌, ◌<◌, ◌≡◌, refl, ap, ◌∙◌, inl, inr, true, false, Option, none, some, List, [], ◌∷◌,
  if◌then◌else◌, arith, ◌==◌, count, count-append, get_elem?, Bool-cases,
}
use outright.PaneLayout.Tree.{
  View, view_eq, view_beq_iff, Node, pane, split, Ratios, layout_views, is_pane_of, replace_node,
  remove_view, find_successor,
}
use outright.PaneLayout.Tree.Counts.{remaining, count-remove_view}
use outright.PaneLayout.Tree.Ratio.{InRange, RatiosInRange, RemainingInRange}
use outright.PaneLayout.Edit.{or_node, swapped, swap_nodes, Step, first, second, set_ratio}

head_counts : (xs : List View) (s : View) → get_elem? xs 0 ≡ some s → 0 < count s xs
head_counts [] s e = cc
head_counts (x ∷ xs) s e = ground (arith, view_beq_iff x s)

head_other :
    (xs : List View) (v s : View)
    → count v xs ≡ 0
    → get_elem? xs 0 ≡ some s
    → 0 < (if v == s then 0 else count s xs)
head_other xs v s h e = ground (arith, view_beq_iff v s, head_counts xs s)

module _ {R : Type 0} where
  abbrev pub Distinct : Node R → Type 0
  Distinct n = (v : View) → count v (layout_views n) ≤ 1

  is_pane_of-count : (n : Node R) (v : View) → is_pane_of v n ≡ true → count v (layout_views n) ≡ 1
  unfolding is_pane_of layout_views
  is_pane_of-count (pane u) v e = ground arith
  is_pane_of-count (split axis ratio a b) v e = cc

  -- The view that takes the place of a closed pane is another view of the tree.
  pub find_successor_other :
      (n : Node R) (v s : View)
      → count v (layout_views n) ≤ 1
      → find_successor n v ≡ some s
      → 0 < (if v == s then 0 else count s (layout_views n))
  unfolding find_successor layout_views
  find_successor_other (pane u) v s h e = cc
  find_successor_other (split axis ratio a b) v s h e =
      let sv = count-append v (layout_views a) (layout_views b) in
      let ss = count-append s (layout_views a) (layout_views b) in
      elim (Bool-cases (is_pane_of v a)) [
        | inl p ↦ ground (arith, sv, ss, p, is_pane_of-count a v p, head_other (layout_views b) v s)
        | inr p ↦ elim (Bool-cases (is_pane_of v b)) [
          | inl q ↦
              ground (arith, sv, ss, p, q, is_pane_of-count b v q, head_other (layout_views a) v s)
          | inr q ↦
              ground (arith, sv, ss, p, q, find_successor_other a v s, find_successor_other b v s)
        ]
      ]

  pub views-or_node :
      (o : Option (Node R)) (n : Node R) (w : View)
      → 0 < count w (remaining o)
      → layout_views (or_node o n) ≡ remaining o
  views-or_node none n w h = absurd (omega arith)
  views-or_node (some m) n w h = refl

  -- Removing a view other than one shown leaves a tree, in which only that view is missing.
  pub count-removed :
      (n : Node R) (v w u : View)
      → (v == w) ≡ false
      → 0 < count w (layout_views n)
      → count u (layout_views (or_node (remove_view n v) n))
        ≡ (if v == u then 0 else count u (layout_views n))
  count-removed n v w u ne h =
      ap (count u) (views-or_node (remove_view n v) n w (ground (arith, count-remove_view n v w)))
      ∙ count-remove_view n v u

  -- Exchanging two views exchanges their counts.
  pub count-swap_nodes :
      (n : Node R) (a b w : View)
      → (a == b) ≡ false
      → count w (layout_views (swap_nodes n a b)) ≡ (
          if w == a
          then count b (layout_views n)
          else (if w == b then count a (layout_views n) else count w (layout_views n)))
  unfolding swap_nodes replace_node is_pane_of swapped layout_views
  count-swap_nodes (pane u) a b w ne = ground (
    arith,
    view_beq_iff a b,
    view_beq_iff u a,
    view_beq_iff u b,
    view_beq_iff u w,
    view_beq_iff w a,
    view_beq_iff w b,
    view_beq_iff a w,
    view_beq_iff b w,
  )
  count-swap_nodes (split axis ratio c d) a b w ne = ground (
    arith,
    count-swap_nodes c a b w ne,
    count-swap_nodes d a b w ne,
    count-append w (layout_views (swap_nodes c a b)) (layout_views (swap_nodes d a b)),
    count-append w (layout_views c) (layout_views d),
    count-append a (layout_views c) (layout_views d),
    count-append b (layout_views c) (layout_views d),
  )

  pub views-set_ratio :
      (n : Node R) (path : List Step) (value : R)
      → layout_views (set_ratio n path value) ≡ layout_views n
  unfolding set_ratio layout_views
  views-set_ratio (pane u) path value = refl
  views-set_ratio (split axis ratio a b) [] value = refl
  views-set_ratio (split axis ratio a b) (first ∷ path) value = rw (views-set_ratio a path value)
  views-set_ratio (split axis ratio a b) (second ∷ path) value = rw (views-set_ratio b path value)

module _ {R : Type 0} ⦃r : Ratios R⦄ where
  pub swap_nodes-InRange :
      (n : Node R) (a b : View) → RatiosInRange n → RatiosInRange (swap_nodes n a b)
  unfolding swap_nodes replace_node is_pane_of swapped
  swap_nodes-InRange (pane u) a b h = ground arith
  swap_nodes-InRange (split axis ratio c d) a b h =
      (h.0, swap_nodes-InRange c a b h.1, swap_nodes-InRange d a b h.2)

  pub set_ratio-InRange :
      (n : Node R) (path : List Step) (value : R)
      → RatiosInRange n
      → InRange value
      → RatiosInRange (set_ratio n path value)
  unfolding set_ratio
  set_ratio-InRange (pane u) path value h k = tt
  set_ratio-InRange (split axis ratio a b) [] value h k = (k, h.1, h.2)
  set_ratio-InRange (split axis ratio a b) (first ∷ path) value h k =
      (h.0, set_ratio-InRange a path value h.1 k, h.2)
  set_ratio-InRange (split axis ratio a b) (second ∷ path) value h k =
      (h.0, h.1, set_ratio-InRange b path value h.2 k)

  pub removed-InRange :
      (o : Option (Node R)) (n : Node R)
      → RemainingInRange o
      → RatiosInRange n
      → RatiosInRange (or_node o n)
  removed-InRange none n h k = k
  removed-InRange (some m) n h k = h
