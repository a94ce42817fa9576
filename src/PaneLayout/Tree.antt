-- ===== src/PaneLayout/Tree.antt =====
-- src/lib/pane-layout.js: views, the split tree, and the functions on nodes alone. A ratio is a
-- floating point number there; here its type is a parameter with the operations that the file
-- uses. An update that returns the same object where nothing changed returns an equal value here.
pub mod Counts
pub mod Ratio
use outright.Base.{
  ◌≤◌, ℕ, zero, suc, ◌≡◌, ◌↔◌, Bool, true, false, ◌&&◌, ◌||◌, Option, none, some, List, [], ◌∷◌,
  ◌++◌, if◌then◌else◌, leb, nat_beq, arith, StrictEq, ◌==◌, get_elem?,
}

pub data View : Type 0 where
  conversation changes terminal context : View

abbrev rank : View → ℕ
rank conversation = 0
rank changes = 1
rank terminal = 2
rank context = 3

unfoldable pub view_beq : View → View → Bool
view_beq a b = nat_beq (rank a) (rank b)

pub view_beq_iff : (a b : View) → (view_beq a b ≡ true) ↔ (a ≡ b)
unfolding view_beq
view_beq_iff a b = ground arith

instance abbrev pub view_eq : StrictEq View
view_eq = record { same = view_beq; same_iff = view_beq_iff }

-- PANE_VIEWS
abbrev pub pane_views : List View
pane_views = conversation ∷ changes ∷ terminal ∷ context ∷ []

pub data Side : Type 0 where
  left right up down : Side

pub data Axis : Type 0 where
  row column : Axis

-- What the file does with ratios: decimal literals, comparison, and `Math.round(ratio * extent)`.
pub record Ratios (R : Type 0) : Type 0 where
  pub hundredths : ℕ → R
  pub le : R → R → Bool
  pub share : R → ℕ → ℕ
  pub le_total : (a b : R) → (le a b || le b a) ≡ true
  pub le_antisymm : (a b : R) → le a b ≡ true → le b a ≡ true → a ≡ b
  pub le-hundredths : (m n : ℕ) → m ≤ 100 → n ≤ 100 → le (hundredths m) (hundredths n) ≡ leb m n

pub data Node (R : Type 0) : Type 0 where
  pane : View → Node R
  split : Axis → R → Node R → Node R → Node R

abbrev pub or_else : Option View → Option View → Option View
or_else none other = other
or_else (some found) other = some found

pub record Layout (R : Type 0) : Type 0 where
  pub root : Node R
  pub focused : View

module _ {R : Type 0} where
  unfoldable pub layout_views : Node R → List View
  layout_views (pane v) = v ∷ []
  layout_views (split axis ratio first second) = layout_views first ++ layout_views second

  -- `item.type === "pane" && item.view === view`
  unfoldable pub is_pane_of : View → Node R → Bool
  is_pane_of view (pane v) = v == view
  is_pane_of view (split axis ratio first second) = false

  unfoldable pub replace_node : Node R → (Node R → Bool) → (Node R → Node R) → Node R
  replace_node (pane v) test replace = if test (pane v) then replace (pane v) else pane v
  replace_node (split axis ratio first second) test replace =
      let inner =
        split axis ratio (replace_node first test replace) (replace_node second test replace) in
      if test (split axis ratio first second)
      then replace (split axis ratio first second)
      else inner

  -- A split that lost one child is replaced by the other child.
  unfoldable pub join : Axis → R → Option (Node R) → Option (Node R) → Option (Node R)
  join axis ratio none second = second
  join axis ratio (some first) none = some first
  join axis ratio (some first) (some second) = some (split axis ratio first second)

  unfoldable pub remove_view : Node R → View → Option (Node R)
  remove_view (pane v) view = if v == view then none else some (pane v)
  remove_view (split axis ratio first second) view =
      join axis ratio (remove_view first view) (remove_view second view)

  -- The first view of the sibling of the pane that shows `view`.
  unfoldable pub find_successor : Node R → View → Option View
  find_successor (pane v) view = none
  find_successor (split axis ratio first second) view =
      let deeper = or_else (find_successor first view) (find_successor second view) in
      if is_pane_of view first
      then get_elem? (layout_views second) 0
      else if is_pane_of view second
      then get_elem? (layout_views first) 0
      else deeper

module _ {R : Type 0} ⦃r : Ratios R⦄ where
  -- `split(axis, first, second)` with the default ratio 0.5
  abbrev pub even_split : Axis → Node R → Node R → Node R
  even_split axis first second = split axis (r.hundredths 50) first second

  abbrev pub min_ratio : R
  min_ratio = r.hundredths 5

  abbrev pub max_ratio : R
  max_ratio = r.hundredths 95

  unfoldable pub clamp_ratio : R → R
  clamp_ratio value =
      let raised = if r.le min_ratio value then value else min_ratio in
      if r.le max_ratio raised then max_ratio else raised

  -- The new pane beside `item`, before it for the sides left and up.
  unfoldable pub beside : View → Side → Node R → Node R
  beside view left item = even_split row (pane view) item
  beside view right item = even_split row item (pane view)
  beside view up item = even_split column (pane view) item
  beside view down item = even_split column item (pane view)

  unfoldable pub dock : Node R → View → View → Side → Node R
  dock node view target side = replace_node node (is_pane_of target) (beside view side)
