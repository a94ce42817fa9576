-- ===== src/PaneLayout/Tests.antt =====
-- Runs of the pane layout functions, and the theorems about them at concrete layouts. Ratios are
-- whole numbers of hundredths here.
use outright.Base.{ℕ, ◌+◌, ◌*◌, ◌/◌, ◌≡◌, refl, true, ◌||◌, none, some, List, [], ◌∷◌, leb, arith}
use outright.PaneLayout.Tree.{
  conversation, changes, terminal, context, view_eq, view_beq, Node, pane, split, left, right, up,
  down, row, column, Ratios, Layout, layout_views, is_pane_of, replace_node, join, remove_view,
  clamp_ratio, beside, dock,
}
use outright.PaneLayout.Edit.{close_view, open_view, move_view, default_layout, refocus}
use outright.PaneLayout.Edit.Invariant.{IsValid, Action, run, act, run-default-IsValid}
use outright.PaneLayout.Edit.Effects.{close_view-open_view}
use outright.PaneLayout.Normalize.{
  RawNode, RawLayout, current, raw_pane, raw_split, normalize, visit, visit_pane, visit_split,
  restored_ratio, with_conversation, Problem,
}
use outright.PaneLayout.Normalize.Repair.{normalize-IsValid}
use outright.PaneLayout.Normalize.Restore.{
  encode, encode_layout, normalize-encode_layout, normalize_reports,
}
use outright.PaneLayout.Geometry.{min_pane_size, minimum_size, compute_pane_rects}
use outright.PaneLayout.Geometry.Fits.{compute_pane_rects-fits}
use outright.PaneLayout.Geometry.Tiling.{covers, covers-compute_pane_rects}

leb_total : (a b : ℕ) → (leb a b || leb b a) ≡ true
leb_total a b = ground arith

leb_antisymm : (a b : ℕ) → leb a b ≡ true → leb b a ≡ true → a ≡ b
leb_antisymm a b h k = ground arith

instance abbrev percent : Ratios ℕ
percent = record {
  hundredths = λ n. n;
  le = leb;
  share = λ r extent. (r * extent + 50) / 100;
  le_total = leb_total;
  le_antisymm = leb_antisymm;
  le-hundredths = λ m n low high. refl;
}

-- Three calls: the terminal opened on the right, the changes below it, and the terminal moved left.
abbrev calls : List (Action ℕ)
calls =
    Action.open_beside (some terminal) none (some right)
    ∷ Action.open_beside (some changes) (some terminal) (some down)
    ∷ Action.move terminal conversation (some left)
    ∷ []

abbrev three : Layout ℕ
three = run default_layout calls

abbrev three_root : Node ℕ
three_root = split row 50 (split row 50 (pane terminal) (pane conversation)) (pane changes)

three_lem : three ≡ record { root = three_root; focused = terminal }
unfolding run act open_view default_layout dock replace_node is_pane_of beside move_view remove_view
    join layout_views view_beq
three_lem = refl

abbrev three_layout : Layout ℕ
three_layout = record { root = three_root; focused = terminal }

three_layout-IsValid : IsValid three_layout
three_layout-IsValid = rw (← three_lem) (run-default-IsValid calls)

run-default-IsValid_example : IsValid three
run-default-IsValid_example = run-default-IsValid calls

close_view-open_view_example :
    close_view (open_view three_layout (some context) (some changes) (some up)) context
    ≡ refocus three_layout changes
unfolding layout_views view_beq
close_view-open_view_example =
    close_view-open_view three_layout three_layout-IsValid context (some changes) up refl

-- A saved split of which one view is unknown and one ratio is too large.
abbrev damaged : RawLayout ℕ
damaged =
    current
      (raw_split (some row) (some 99) (raw_pane (some terminal))
        (raw_split (some column) (some 40) (raw_pane none) (raw_pane (some changes))))
      (some context)

normalize-damaged : normalize damaged ≡ (
  record {
    root = split row 50 (pane conversation) (split row 95 (pane terminal) (pane changes));
    focused = conversation;
  },
  Problem.view ∷ Problem.ratio ∷ Problem.no_conversation ∷ [],
)
unfolding normalize visit visit_pane visit_split restored_ratio with_conversation layout_views
    view_beq clamp_ratio
normalize-damaged = refl

normalize-IsValid_example : IsValid (normalize damaged).0
normalize-IsValid_example = normalize-IsValid damaged

normalize-encode_layout_example : normalize (encode_layout three_layout) ≡ (three_layout, [])
normalize-encode_layout_example = normalize-encode_layout three_layout three_layout-IsValid

abbrev saved : RawNode ℕ
saved = raw_split (some row) (some 40) (raw_pane (some conversation)) (raw_pane (some context))

normalize-saved : (normalize (current saved (some context))).1 ≡ []
unfolding normalize visit visit_pane visit_split restored_ratio with_conversation view_beq
    clamp_ratio
normalize-saved = refl

normalize_reports_example : saved ≡ encode (normalize (current saved (some context))).0.root
normalize_reports_example = normalize_reports saved (some context) normalize-saved

compute_pane_rects-fits_example : (compute_pane_rects three_root 900 500).fits ≡ true
unfolding minimum_size min_pane_size
compute_pane_rects-fits_example = compute_pane_rects-fits three_root 900 500

covers-compute_pane_rects_example : covers (compute_pane_rects three_root 900 500) 450 100 ≡ 1
unfolding minimum_size min_pane_size
covers-compute_pane_rects_example =
    covers-compute_pane_rects three_root 900 500 450 100 three_layout-IsValid.distinct (omega arith)
      (omega arith)
