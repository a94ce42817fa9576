-- ===== src/PaneLayout/Normalize/Repair.antt =====
-- The restored layout is valid whatever was saved.
use outright.Base.{
  inl, inr, ℕ, suc, ◌+◌, ◌≤◌, ◌<◌, ◌≡◌, refl, ◌||◌, Option, none, some, List, [], ◌∷◌, ◌++◌,
  if◌then◌else◌, ltb, arith, ◌==◌, contains, contains_iff_count, count, count-append, Bool-cases,
}
use outright.PaneLayout.Tree.{
  View, conversation, view_eq, view_beq, view_beq_iff, Node, Axis, Ratios, layout_views,
}
use outright.PaneLayout.Tree.Counts.{remaining}
use outright.PaneLayout.Tree.Ratio.{
  InRange, RatiosInRange, RemainingInRange, clamp_ratio-InRange, hundredths-InRange,
}
use outright.PaneLayout.Edit.Invariant.{IsValid, default_layout-IsValid}
use outright.PaneLayout.Normalize.{
  RawNode, no_object, raw_pane, raw_split, other_type, RawLayout, no_version, other_version,
  current, Visit, visit_pane, visit_split, restored_ratio, visit, with_conversation, restored_focus,
  normalize,
}

-- 1 for a view that was seen, 0 for another.
abbrev mark : Visit → View → ℕ
mark s v = if contains s.seen v then 1 else 0

contains-snoc :
    (xs : List View) (u v : View) → contains (xs ++ u ∷ []) v ≡ (contains xs v || u == v)
contains-snoc [] u v = ground arith
contains-snoc (x ∷ xs) u v = ground (arith, contains-snoc xs u v)

module _ (R : Type 0) where
  visit_pane_counts :
      (o : Option View) (s : Visit) (v : View)
      → mark s v + count v (remaining {R = R} (visit_pane o s).0)
        ≡ mark (visit_pane {R = R} o s).1 v
  unfolding visit_pane layout_views
  visit_pane_counts none s v = omega arith
  visit_pane_counts (some u) s v = ground (arith, contains-snoc s.seen u v, view_beq_iff u v)

module _ (R : Type 0) ⦃r : Ratios R⦄ where
  visit_pane-InRange : (o : Option View) (s : Visit) → RemainingInRange {R = R} (visit_pane o s).0
  unfolding visit_pane
  visit_pane-InRange none s = tt
  visit_pane-InRange (some v) s = elim (Bool-cases (contains s.seen v)) [
    | inl e ↦ rw e tt
    | inr e ↦ rw e tt
  ]

module _ {R : Type 0} ⦃r : Ratios R⦄ where
  visit_split_counts :
      (axis : Axis) (raw : Option R) (a b : Option (Node R)) (s : Visit) (v : View)
      → (count v (remaining (visit_split axis raw a b s).0)
          ≡ count v (remaining a) + count v (remaining b))
        × ((visit_split axis raw a b s).1.seen ≡ s.seen)
  unfolding visit_split layout_views
  visit_split_counts axis raw none b s v = (omega arith, refl)
  visit_split_counts axis raw (some a) none s v = (omega arith, refl)
  visit_split_counts axis raw (some a) (some b) s v =
      (count-append v (layout_views a) (layout_views b), ground arith)

  -- The restored tree shows a view once if it was newly seen, and otherwise not.
  visit_counts :
      (raw : RawNode R) (depth : ℕ) (s : Visit) (v : View)
      → mark s v + count v (remaining (visit raw depth s).0) ≡ mark (visit raw depth s).1 v
  unfolding visit
  visit_counts no_object depth s v = omega arith
  visit_counts (raw_pane o) depth s v = elim (Bool-cases (ltb 4 depth)) [
    | inl e ↦ rw e (omega arith)
    | inr e ↦ rw e (visit_pane_counts R o s v)
  ]
  visit_counts other_type depth s v = omega arith
  visit_counts (raw_split none ratio a b) depth s v = omega arith
  visit_counts (raw_split (some axis) ratio a b) depth s v = elim (Bool-cases (ltb 4 depth)) [
    | inl e ↦ rw e (omega arith)
    | inr e ↦
        let first = visit a (suc depth) s in
        let second = visit b (suc depth) first.1 in
        let both = visit_split_counts axis ratio first.0 second.0 second.1 v in
        rw (e, both.1)
          (omega
            (arith, both.0, visit_counts a (suc depth) s v, visit_counts b (suc depth) first.1 v))
  ]

  restored_ratio-InRange : (raw : Option R) → InRange (restored_ratio raw).0
  unfolding restored_ratio
  restored_ratio-InRange none = hundredths-InRange R 50 refl refl
  restored_ratio-InRange (some value) = clamp_ratio-InRange value

  visit_split-InRange :
      (axis : Axis) (raw : Option R) (a b : Option (Node R)) (s : Visit)
      → RemainingInRange a
      → RemainingInRange b
      → RemainingInRange (visit_split axis raw a b s).0
  unfolding visit_split
  visit_split-InRange axis raw none b s h k = k
  visit_split-InRange axis raw (some a) none s h k = h
  visit_split-InRange axis raw (some a) (some b) s h k = (restored_ratio-InRange raw, h, k)

  visit-InRange : (raw : RawNode R) (depth : ℕ) (s : Visit) → RemainingInRange (visit raw depth s).0
  unfolding visit
  visit-InRange no_object depth s = tt
  visit-InRange (raw_pane o) depth s = elim (Bool-cases (ltb 4 depth)) [
    | inl e ↦ rw e tt
    | inr e ↦ rw e (visit_pane-InRange R o s)
  ]
  visit-InRange other_type depth s = tt
  visit-InRange (raw_split none ratio a b) depth s = tt
  visit-InRange (raw_split (some axis) ratio a b) depth s = elim (Bool-cases (ltb 4 depth)) [
    | inl e ↦ rw e tt
    | inr e ↦ rw e (
        visit_split-InRange axis ratio _ _ _ (visit-InRange a (suc depth) s)
          (visit-InRange b (suc depth) (visit a (suc depth) s).1))
  ]

  -- What `visit` and the conversation check hand on.
  record IsRestored (root : Node R) : Type 0 where
    distinct : (v : View) → count v (layout_views root) ≤ 1
    shown : 0 < count conversation (layout_views root)
    ratios : RatiosInRange root

  with_conversation-IsRestored :
      (o : Option (Node R)) (s : Visit)
      → ((v : View) → count v (remaining o) ≡ mark s v)
      → RemainingInRange o
      → IsRestored (with_conversation o s).0
  unfolding with_conversation layout_views view_beq
  with_conversation-IsRestored none s h k = record {
    distinct = λ v. ground arith;
    shown = ground arith;
    ratios = tt;
  }
  with_conversation-IsRestored (some n) s h k = elim (Bool-cases (contains s.seen conversation)) [
    | inl e ↦ rw e (record {
      distinct = λ v. ground (arith, h v);
      shown = ground (arith, h conversation);
      ratios = k;
    })
    | inr e ↦ rw e (record {
      distinct = λ v. ground (arith, h v, view_beq_iff conversation v);
      shown = ground arith;
      ratios = (hundredths-InRange R 50 refl refl, tt, k);
    })
  ]

  focus_shown :
      (root : Node R) (o : Option View)
      → 0 < count conversation (layout_views root)
      → 0 < count (restored_focus root o) (layout_views root)
  focus_shown root none h = h
  focus_shown root (some v) h = ground (arith, contains_iff_count (layout_views root) v)

  -- Whatever was saved, the restored layout is valid.
  pub normalize-IsValid : (raw : RawLayout R) → IsValid (normalize raw).0
  unfolding normalize
  normalize-IsValid no_version = default_layout-IsValid
  normalize-IsValid other_version = default_layout-IsValid
  normalize-IsValid (current raw focused) =
      let start : Visit = record { seen = []; problems = [] } in
      let out = visit raw 0 start in
      let good =
        with_conversation-IsRestored out.0 out.1 (λ v. omega (arith, visit_counts raw 0 start v))
          (visit-InRange raw 0 start) in
      record {
        distinct = good.distinct;
        conversation_shown = good.shown;
        focus_shown = focus_shown (with_conversation out.0 out.1).0 focused good.shown;
        ratios = good.ratios;
      }
