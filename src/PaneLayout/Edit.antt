-- ===== src/PaneLayout/Edit.antt =====
-- src/lib/pane-layout.js: the operations on a layout. An argument `Option View` or `Option Side`
-- is a JavaScript value of which `none` stands for any that PANE_VIEWS or PANE_SIDES lacks.
pub mod Counting
pub mod Invariant
pub mod Effects
use outright.Base.{
  ℕ, ◌≡◌, Bool, true, false, ◌&&◌, ◌||◌, not, Option, none, some, List, [], ◌∷◌, if◌then◌else◌,
  ◌==◌, contains, is_some,
}
use outright.PaneLayout.Tree.{
  View, conversation, changes, terminal, view_eq, Node, pane, split, Side, Axis, row, column,
  Ratios, Layout, layout_views, is_pane_of, replace_node, remove_view, find_successor, clamp_ratio,
  dock, even_split,
}

abbrev pub or_view : Option View → View → View
or_view none view = view
or_view (some found) view = found

module _ {R : Type 0} where
  abbrev pub has_view : Layout R → View → Bool
  has_view l view = contains (layout_views l.root) view

  abbrev pub refocus : Layout R → View → Layout R
  refocus l view = record l { focused = view }

  unfoldable pub focus_view : Layout R → View → Layout R
  focus_view l view = if l.focused == view || not (has_view l view) then l else refocus l view

  -- `removeView` gives null only for a tree of that view alone, so in a layout without conversation.
  abbrev pub or_node : Option (Node R) → Node R → Node R
  or_node none node = node
  or_node (some found) node = found

  unfoldable pub close_view : Layout R → View → Layout R
  close_view l view = if view == conversation || not (has_view l view) then l else record {
    root = or_node (remove_view l.root view) l.root;
    focused =
        if l.focused == view then or_view (find_successor l.root view) conversation else l.focused;
  }

  unfoldable pub swapped : View → View → Node R → Node R
  swapped first second (pane v) = pane (if v == first then second else first)
  swapped first second (split axis ratio a b) = pane first

  unfoldable pub swap_nodes : Node R → View → View → Node R
  swap_nodes root first second =
      replace_node root (λ n. is_pane_of first n || is_pane_of second n) (swapped first second)

  unfoldable pub swap_views : Layout R → View → View → Layout R
  swap_views l first second =
      if first == second || not (has_view l first) || not (has_view l second)
      then l
      else record { root = swap_nodes l.root first second; focused = first }

-- A step of a path to a split.
pub data Step : Type 0 where
  first second : Step

module _ {R : Type 0} where
  unfoldable pub split_at : Node R → List Step → Option (Node R)
  split_at (pane v) path = none
  split_at (split axis ratio a b) [] = some (split axis ratio a b)
  split_at (split axis ratio a b) (first ∷ path) = split_at a path
  split_at (split axis ratio a b) (second ∷ path) = split_at b path

  -- `replaceNode` on the object that `splitAt` found, which stands in the tree once.
  unfoldable pub set_ratio : Node R → List Step → R → Node R
  set_ratio (pane v) path value = pane v
  set_ratio (split axis ratio a b) [] value = split axis value a b
  set_ratio (split axis ratio a b) (first ∷ path) value =
      split axis ratio (set_ratio a path value) b
  set_ratio (split axis ratio a b) (second ∷ path) value =
      split axis ratio a (set_ratio b path value)

module _ {R : Type 0} ⦃r : Ratios R⦄ where
  unfoldable pub resize_split : Layout R → List Step → Option R → Layout R
  resize_split l path none = l
  resize_split l path (some value) =
      if is_some (split_at l.root path)
      then record l { root = set_ratio l.root path (clamp_ratio value) }
      else l

  -- The pane to open beside: the target if the layout shows it.
  abbrev pub anchor_of : Layout R → Option View → View
  anchor_of l none = conversation
  anchor_of l (some target) = if has_view l target then target else conversation

  unfoldable pub open_view : Layout R → Option View → Option View → Option Side → Layout R
  open_view l none target side = l
  open_view l (some view) target none = l
  open_view l (some view) target (some side) =
      if has_view l view
      then refocus l view
      else record { root = dock l.root view (anchor_of l target) side; focused = view }

  unfoldable pub move_view : Layout R → View → View → Option Side → Layout R
  move_view l view target none = l
  move_view l view target (some side) =
      if view == target || not (has_view l view) || not (has_view l target) then l else record {
        root = dock (or_node (remove_view l.root view) l.root) view target side;
        focused = view;
      }

-- PANE_LAYOUT_PRESETS, by their `id`.
pub data Preset : Type 0 where
  conversation_only with_terminal review : Preset

module _ {R : Type 0} ⦃r : Ratios R⦄ where
  unfoldable pub preset_root : Preset → Node R
  preset_root conversation_only = pane conversation
  preset_root with_terminal = split row (r.hundredths 60) (pane conversation) (pane terminal)
  preset_root review =
      split row (r.hundredths 55) (pane conversation)
        (even_split column (pane terminal) (pane changes))

  unfoldable pub apply_preset : Layout R → Option Preset → Layout R
  unfolding preset_root
  apply_preset l none = l
  apply_preset l (some preset) = record {
    root = preset_root preset;
    focused =
        if contains (layout_views {R = R} (preset_root preset)) l.focused
        then l.focused
        else conversation;
  }

  -- `defaultPaneLayout()`
  unfoldable pub default_layout : Layout R
  default_layout = record { root = pane conversation; focused = conversation }
