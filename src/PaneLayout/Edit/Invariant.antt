-- ===== src/PaneLayout/Edit/Invariant.antt =====
-- What every layout keeps: no view twice, the conversation always there, a focus that is shown,
-- and ratios in range.
use outright.Base.{
  ◌<◌, ◌≡◌, refl, inl, inr, false, ◌||◌, not, Option, none, some, List, [], ◌∷◌, if◌then◌else◌,
  arith, ◌==◌, contains_iff_count, count_of_contains, count, is_some, Bool-cases,
}
use outright.PaneLayout.Tree.{
  View, conversation, view_eq, view_beq, view_beq_iff, Node, Side, Ratios, Layout, layout_views,
  remove_view, find_successor, clamp_ratio, dock,
}
use outright.PaneLayout.Tree.Counts.{count-dock}
use outright.PaneLayout.Tree.Ratio.{
  RatiosInRange, clamp_ratio-InRange, hundredths-InRange, remove_view-InRange, dock-InRange,
}
use outright.PaneLayout.Edit.{
  has_view, focus_view, or_node, or_view, close_view, swap_views, Step, split_at, resize_split,
  anchor_of, open_view, move_view, Preset, conversation_only, with_terminal, review, preset_root,
  apply_preset, default_layout,
}
use outright.PaneLayout.Edit.Counting.{
  Distinct, find_successor_other, count-removed, count-swap_nodes, views-set_ratio,
  swap_nodes-InRange, set_ratio-InRange, removed-InRange,
}

module _ {R : Type 0} ⦃r : Ratios R⦄ where
  pub record IsValid (l : Layout R) : Type 0 where
    pub distinct : Distinct l.root
    pub conversation_shown : 0 < count conversation (layout_views l.root)
    pub focus_shown : 0 < count l.focused (layout_views l.root)
    pub ratios : RatiosInRange l.root

module _ {R : Type 0} ⦃r : Ratios R⦄ where
  docked :
      (n : Node R) (view target : View) (side : Side)
      → RatiosInRange n
      → Distinct n
      → 0 < count conversation (view ∷ layout_views n)
      → 0 < count target (layout_views n)
      → count view (layout_views n) ≡ 0
      → IsValid (record { root = dock n view target side; focused = view })
  docked n view target side range distinct shown there fresh =
      let docks = λ (u : View). count-dock n view target u side in
      record {
        distinct = λ u. ground (arith, docks u, distinct u, distinct target, view_beq_iff view u);
        conversation_shown = ground (arith, docks conversation, view_beq_iff view conversation);
        focus_shown = ground (arith, docks view, view_beq_iff view view);
        ratios = dock-InRange n view target side range;
      }

module _ {R : Type 0} ⦃r : Ratios R⦄ {l : Layout R} where
  -- Focusing, whatever the view, keeps the invariant.
  pub focus_view-IsValid : (view : View) → IsValid l → IsValid (focus_view l view)
  unfolding focus_view
  focus_view-IsValid view v = elim (Bool-cases (l.focused == view || not (has_view l view))) [
    | inl e ↦ rw e v
    | inr e ↦ rw e (record {
      distinct = v.distinct;
      conversation_shown = v.conversation_shown;
      focus_shown = ground (arith, contains_iff_count (layout_views l.root) view);
      ratios = v.ratios;
    })
  ]

  successor_shown :
      (view : View) (s : Option View)
      → find_successor l.root view ≡ s
      → IsValid l
      → (view == conversation) ≡ false
      → 0
        < count
            (if l.focused == view then or_view s conversation else l.focused)
            (layout_views (or_node (remove_view l.root view) l.root))
  successor_shown view none e v ne =
      let kept = λ (u : View). count-removed l.root view conversation u ne v.conversation_shown in
      ground (
        arith,
        kept l.focused,
        kept conversation,
        view_beq_iff view l.focused,
        view_beq_iff l.focused view,
      )
  successor_shown view (some s) e v ne =
      let kept = λ (u : View). count-removed l.root view conversation u ne v.conversation_shown in
      ground (
        arith,
        kept l.focused,
        kept s,
        view_beq_iff view l.focused,
        view_beq_iff l.focused view,
        find_successor_other l.root view s (v.distinct view) e,
      )

  closed :
      (view : View)
      → IsValid l
      → (view == conversation) ≡ false
      → IsValid (record {
        root = or_node (remove_view l.root view) l.root;
        focused =
            if l.focused == view
            then or_view (find_successor l.root view) conversation
            else l.focused;
      })
  closed view v ne =
      let kept = λ (u : View). count-removed l.root view conversation u ne v.conversation_shown in
      record {
        distinct = λ u. ground (arith, kept u, v.distinct u);
        conversation_shown = ground (arith, kept conversation, v.conversation_shown);
        focus_shown = successor_shown view (find_successor l.root view) refl v ne;
        ratios =
            removed-InRange (remove_view l.root view) l.root
              (remove_view-InRange l.root view v.ratios) v.ratios;
      }

  pub close_view-IsValid : (view : View) → IsValid l → IsValid (close_view l view)
  unfolding close_view
  close_view-IsValid view v = elim (Bool-cases (view == conversation || not (has_view l view))) [
    | inl e ↦ rw e v
    | inr e ↦ rw e (closed view v (ground arith))
  ]

  pub swap_views-IsValid : (a b : View) → IsValid l → IsValid (swap_views l a b)
  unfolding swap_views
  swap_views-IsValid a b v =
      elim (Bool-cases (a == b || not (has_view l a) || not (has_view l b))) [
        | inl e ↦ rw e v
        | inr e ↦
            let swapped = λ (u : View). count-swap_nodes l.root a b u (ground arith) in
            let shown = λ (u : View). contains_iff_count (layout_views l.root) u in
            rw e (record {
              distinct = λ u. ground (arith, swapped u, v.distinct u, v.distinct a, v.distinct b);
              conversation_shown = ground (arith, swapped conversation, shown a, shown b);
              focus_shown = ground (arith, swapped a, shown b, view_beq_iff a a);
              ratios = swap_nodes-InRange l.root a b v.ratios;
            })
      ]

  pub resize_split-IsValid :
      (path : List Step) (value : Option R) → IsValid l → IsValid (resize_split l path value)
  unfolding resize_split
  resize_split-IsValid path none v = v
  resize_split-IsValid path (some value) v = elim (Bool-cases (is_some (split_at l.root path))) [
    | inl e ↦
        let same = views-set_ratio l.root path (clamp_ratio value) in
        rw e (record {
          distinct = λ u. rw same (v.distinct u);
          conversation_shown = rw same v.conversation_shown;
          focus_shown = rw same v.focus_shown;
          ratios =
              set_ratio-InRange l.root path (clamp_ratio value) v.ratios
                (clamp_ratio-InRange value);
        })
    | inr e ↦ rw e v
  ]

  pub anchor_shown :
      (target : Option View) → IsValid l → 0 < count (anchor_of l target) (layout_views l.root)
  anchor_shown none v = v.conversation_shown
  anchor_shown (some target) v =
      ground (arith, contains_iff_count (layout_views l.root) target, v.conversation_shown)

  pub open_view-IsValid :
      (view target : Option View) (side : Option Side)
      → IsValid l
      → IsValid (open_view l view target side)
  unfolding open_view
  open_view-IsValid none target side v = v
  open_view-IsValid (some view) target none v = v
  open_view-IsValid (some view) target (some side) v =
      let shown = contains_iff_count (layout_views l.root) view in
      elim (Bool-cases (has_view l view)) [
        | inl e ↦ rw e (record {
          distinct = v.distinct;
          conversation_shown = v.conversation_shown;
          focus_shown = ground arith;
          ratios = v.ratios;
        })
        | inr e ↦ rw e (
            docked l.root view (anchor_of l target) side v.ratios v.distinct
              (ground (arith, v.conversation_shown)) (anchor_shown target v) (ground arith))
      ]

  pub move_view-IsValid :
      (view target : View) (side : Option Side) → IsValid l → IsValid (move_view l view target side)
  unfolding move_view
  move_view-IsValid view target none v = v
  move_view-IsValid view target (some side) v =
      elim (Bool-cases (view == target || not (has_view l view) || not (has_view l target))) [
        | inl e ↦ rw e v
        | inr e ↦
            let kept = λ (u : View).
              count-removed l.root view target u (ground arith)
                (count_of_contains (layout_views l.root) target (ground arith)) in
            rw e (
              docked (or_node (remove_view l.root view) l.root) view target side
                (removed-InRange (remove_view l.root view) l.root
                  (remove_view-InRange l.root view v.ratios) v.ratios)
                (λ u. ground (arith, kept u, v.distinct u))
                (ground (arith, kept conversation, v.conversation_shown))
                (ground (arith, kept target, count_of_contains (layout_views l.root) target))
                (ground (arith, kept view, view_beq_iff view view)))
      ]

-- The calls that the interface makes.
pub data Action (R : Type 0) : Type 0 where
  focus : View → Action R
  close : View → Action R
  swap : View → View → Action R
  resize : List Step → Option R → Action R
  open_beside : Option View → Option View → Option Side → Action R
  move : View → View → Option Side → Action R
  choose : Option Preset → Action R

module _ (R : Type 0) ⦃r : Ratios R⦄ where
  preset_root-valid :
      (p : Preset)
      → Distinct {R = R} (preset_root p)
        × (0 < count conversation (layout_views {R = R} (preset_root p)))
        × RatiosInRange {R = R} (preset_root p)
  unfolding preset_root layout_views view_beq
  preset_root-valid conversation_only = (λ v. ground arith, ground arith, tt)
  preset_root-valid with_terminal =
      (λ v. ground arith, ground arith, (hundredths-InRange R 60 refl refl, tt, tt))
  preset_root-valid review = (
    λ v. ground arith,
    ground arith,
    (hundredths-InRange R 55 refl refl, tt, (hundredths-InRange R 50 refl refl, tt, tt)),
  )

module _ {R : Type 0} ⦃r : Ratios R⦄ where
  apply_preset-IsValid : (l : Layout R) (p : Option Preset) → IsValid l → IsValid (apply_preset l p)
  unfolding apply_preset
  apply_preset-IsValid l none v = v
  apply_preset-IsValid l (some p) v = record {
    distinct = (preset_root-valid R p).0;
    conversation_shown = (preset_root-valid R p).1;
    focus_shown = ground (
      arith,
      contains_iff_count (layout_views {R = R} (preset_root p)) l.focused,
      preset_root-valid R p,
    );
    ratios = (preset_root-valid R p).2;
  }

  pub default_layout-IsValid : IsValid {R = R} default_layout
  unfolding default_layout layout_views view_beq
  default_layout-IsValid = record {
    distinct = λ v. ground arith;
    conversation_shown = ground arith;
    focus_shown = ground arith;
    ratios = tt;
  }

  unfoldable pub act : Layout R → Action R → Layout R
  act l (focus v) = focus_view l v
  act l (close v) = close_view l v
  act l (swap a b) = swap_views l a b
  act l (resize path value) = resize_split l path value
  act l (open_beside view target side) = open_view l view target side
  act l (move view target side) = move_view l view target side
  act l (choose p) = apply_preset l p

  unfoldable pub run : Layout R → List (Action R) → Layout R
  run l [] = l
  run l (a ∷ rest) = run (act l a) rest

  act-IsValid : (l : Layout R) (a : Action R) → IsValid l → IsValid (act l a)
  unfolding act
  act-IsValid l (focus view) v = focus_view-IsValid view v
  act-IsValid l (close view) v = close_view-IsValid view v
  act-IsValid l (swap a b) v = swap_views-IsValid a b v
  act-IsValid l (resize path value) v = resize_split-IsValid path value v
  act-IsValid l (open_beside view target side) v = open_view-IsValid view target side v
  act-IsValid l (move view target side) v = move_view-IsValid view target side v
  act-IsValid l (choose p) v = apply_preset-IsValid l p v

  pub run-IsValid : (l : Layout R) (actions : List (Action R)) → IsValid l → IsValid (run l actions)
  unfolding run
  run-IsValid l [] v = v
  run-IsValid l (a ∷ rest) v = run-IsValid (act l a) rest (act-IsValid l a v)

  -- After any calls on the default layout no view stands twice, the conversation and the focused
  -- view are shown, and every ratio lies between the bounds.
  pub run-default-IsValid : (actions : List (Action R)) → IsValid (run default_layout actions)
  run-default-IsValid actions = run-IsValid default_layout actions default_layout-IsValid
