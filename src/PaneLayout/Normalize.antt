-- ===== src/PaneLayout/Normalize.antt =====
-- src/lib/pane-layout.js: `normalizePaneLayout`, which repairs a saved layout and names what it
-- repaired. A saved value is what `JSON.parse` gave; of it only what the function tells apart is
-- kept.
pub mod Repair
pub mod Restore
use outright.Base.{
  ℕ, suc, ◌+◌, Bool, true, false, not, Option, none, some, List, [], ◌∷◌, ◌++◌, if◌then◌else◌, ltb,
  ◌==◌, contains, ◌&&◌, length,
}
use outright.PaneLayout.Tree.{
  View, conversation, view_eq, pane_views, Node, pane, split, Axis, row, Ratios, Layout,
  layout_views, clamp_ratio, join, even_split,
}
use outright.PaneLayout.Edit.{default_layout}

-- A saved node. An axis, a view or a ratio is `none` where it is not one of the valid values; a
-- ratio is valid if it is a finite number.
pub data RawNode (R : Type 0) : Type 0 where
  no_object : RawNode R
  raw_pane : Option View → RawNode R
  raw_split : Option Axis → Option R → RawNode R → RawNode R → RawNode R
  other_type : RawNode R

pub data RawLayout (R : Type 0) : Type 0 where
  no_version : RawLayout R
  other_version : RawLayout R
  current : RawNode R → Option View → RawLayout R

pub data Problem : Type 0 where
  unreadable version node view duplicate ratio no_conversation storage store : Problem

-- The variables that `visit` writes.
pub record Visit : Type 0 where
  pub seen : List View
  pub problems : List Problem

abbrev pub report : Problem → Visit → Visit
report p s = record s { problems = s.problems ++ p ∷ [] }

module _ {R : Type 0} where
  unfoldable pub visit_pane : Option View → Visit → Option (Node R) × Visit
  visit_pane none s = (none, report view s)
  visit_pane (some v) s =
      if contains s.seen v
      then (none, report duplicate s)
      else (some (pane v), record s { seen = s.seen ++ v ∷ [] })

module _ {R : Type 0} ⦃r : Ratios R⦄ where
  -- `ratio === node.ratio`
  abbrev pub same_ratio : R → R → Bool
  same_ratio a b = r.le a b && r.le b a

  -- The ratio to restore, and whether the saved one was another.
  unfoldable pub restored_ratio : Option R → R × Bool
  restored_ratio none = (r.hundredths 50, true)
  restored_ratio (some value) = (clamp_ratio value, not (same_ratio (clamp_ratio value) value))

  -- The end of `visit` on a split, after both children.
  unfoldable pub visit_split :
      Axis → Option R → Option (Node R) → Option (Node R) → Visit → Option (Node R) × Visit
  visit_split axis raw none second s = (second, s)
  visit_split axis raw (some first) none s = (some first, s)
  visit_split axis raw (some first) (some second) s =
      let (value, changed) = restored_ratio raw in
      (some (split axis value first second), if changed then report ratio s else s)

  -- No node may stand deeper than the number of views.
  unfoldable pub visit : RawNode R → ℕ → Visit → Option (Node R) × Visit
  visit no_object depth s = (none, report node s)
  visit (raw_pane v) depth s =
      if ltb (length pane_views) depth then (none, report node s) else visit_pane v s
  visit other_type depth s = (none, report node s)
  visit (raw_split none raw first second) depth s = (none, report node s)
  visit (raw_split (some axis) raw first second) depth s =
      let a = visit first (suc depth) s in
      let b = visit second (suc depth) a.1 in
      if ltb (length pane_views) depth
      then (none, report node s)
      else visit_split axis raw a.0 b.0 b.1

  -- The conversation is always shown.
  unfoldable pub with_conversation : Option (Node R) → Visit → Node R × List Problem
  with_conversation none s = (pane conversation, s.problems)
  with_conversation (some root) s =
      if contains s.seen conversation
      then (root, s.problems)
      else (even_split row (pane conversation) root, s.problems ++ no_conversation ∷ [])

  abbrev pub restored_focus : Node R → Option View → View
  restored_focus root none = conversation
  restored_focus root (some v) = if contains (layout_views root) v then v else conversation

  unfoldable pub normalize : RawLayout R → Layout R × List Problem
  normalize no_version = (default_layout, unreadable ∷ [])
  normalize other_version = (default_layout, version ∷ [])
  normalize (current raw focused) =
      let visited = visit raw 0 (record { seen = []; problems = [] }) in
      let (root, problems) = with_conversation visited.0 visited.1 in
      (record { root = root; focused = restored_focus root focused }, problems)
