-- ===== src/PaneLayout/Tree/Ratio.antt =====
-- Every ratio of a tree lies between MIN_RATIO and MAX_RATIO.
use outright.Base.{◌≤◌, ℕ, ◌≡◌, refl, true, Option, none, some, leb, arith}
use outright.PaneLayout.Tree.{
  View, view_eq, Node, pane, split, Side, left, right, up, down, Axis, Ratios, min_ratio, max_ratio,
  clamp_ratio, replace_node, is_pane_of, join, remove_view, beside, dock,
}

module _ {R : Type 0} ⦃r : Ratios R⦄ where
  abbrev pub InRange : R → Type 0
  InRange value = (r.le min_ratio value ≡ true) × (r.le value max_ratio ≡ true)

  abbrev pub RatiosInRange : Node R → Type 0
  RatiosInRange (pane v) = Unit {0}
  RatiosInRange (split axis ratio a b) = InRange ratio × RatiosInRange a × RatiosInRange b

  abbrev pub RemainingInRange : Option (Node R) → Type 0
  RemainingInRange none = Unit {0}
  RemainingInRange (some n) = RatiosInRange n

  -- `clampRatio` gives a ratio in range, whatever it is given.
  pub clamp_ratio-InRange : (value : R) → InRange (clamp_ratio value)
  unfolding clamp_ratio
  clamp_ratio-InRange value = ground (
    arith,
    r.le_total min_ratio value,
    r.le_total max_ratio value,
    r.le_total max_ratio max_ratio,
    r.le_total min_ratio min_ratio,
    r.le-hundredths 5 95 (omega arith) (omega arith),
    r.le-hundredths 95 5 (omega arith) (omega arith),
    r.le_total max_ratio min_ratio,
  )

  -- It leaves a ratio in range alone.
  pub clamp_ratio_id : (value : R) → InRange value → clamp_ratio value ≡ value
  unfolding clamp_ratio
  clamp_ratio_id value h = ground (arith, r.le_antisymm max_ratio value)

  join-InRange :
      (axis : Axis) (ratio : R) (a b : Option (Node R))
      → InRange ratio
      → RemainingInRange a
      → RemainingInRange b
      → RemainingInRange (join axis ratio a b)
  unfolding join
  join-InRange axis ratio none b h k l = l
  join-InRange axis ratio (some a) none h k l = k
  join-InRange axis ratio (some a) (some b) h k l = (h, k, l)

  pub remove_view-InRange :
      (n : Node R) (v : View) → RatiosInRange n → RemainingInRange (remove_view n v)
  unfolding remove_view
  remove_view-InRange (pane u) v h = ground arith
  remove_view-InRange (split axis ratio a b) v h =
      join-InRange axis ratio (remove_view a v) (remove_view b v) h.0 (remove_view-InRange a v h.1)
        (remove_view-InRange b v h.2)

module _ (R : Type 0) ⦃r : Ratios R⦄ where
  pub hundredths-InRange : (n : ℕ) → leb 5 n ≡ true → leb n 95 ≡ true → InRange (r.hundredths n)
  hundredths-InRange n low high =
      let small : n ≤ 100 = ground (arith, high) in
      ground
        (arith, r.le-hundredths 5 n (omega arith) small, r.le-hundredths n 95 small (omega arith))

  even : InRange (r.hundredths 50)
  even = hundredths-InRange 50 refl refl

module _ {R : Type 0} ⦃r : Ratios R⦄ where
  beside-InRange :
      (v : View) (side : Side) (n : Node R) → RatiosInRange n → RatiosInRange (beside v side n)
  unfolding beside
  beside-InRange v left n h = (even R, tt, h)
  beside-InRange v right n h = (even R, h, tt)
  beside-InRange v up n h = (even R, tt, h)
  beside-InRange v down n h = (even R, h, tt)

  pub dock-InRange :
      (n : Node R) (v t : View) (side : Side) → RatiosInRange n → RatiosInRange (dock n v t side)
  unfolding dock replace_node is_pane_of
  dock-InRange (pane u) v t side h = ground (arith, beside-InRange v side (pane u) tt)
  dock-InRange (split axis ratio a b) v t side h =
      (h.0, dock-InRange a v t side h.1, dock-InRange b v t side h.2)
