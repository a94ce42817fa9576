-- ===== src/PaneLayout/Normalize/Restore.antt =====
-- What is saved is restored, and a restored tree that differs from the saved one is reported.
use outright.Base.{
  inl, inr, ℕ, suc, ◌+◌, ◌≤◌, ◌<◌, ◌≡◌, refl, ap, true, false, ◌||◌, Option, none, some, List, [],
  ◌∷◌, ◌++◌, ltb, arith, contains, contains_iff_count, count, count-append, length, length-append,
  Bool-cases, max,
}
use mathlib.Core.List.{append_assoc}
use outright.PaneLayout.Tree.{
  View, conversation, changes, terminal, context, view_eq, view_beq, view_beq_iff, Node, pane,
  split, Axis, Ratios, Layout, layout_views, clamp_ratio,
}
use outright.PaneLayout.Tree.Ratio.{InRange, RatiosInRange, clamp_ratio_id}
use outright.PaneLayout.Edit.Invariant.{IsValid}
use outright.PaneLayout.Normalize.{
  RawNode, no_object, raw_pane, raw_split, other_type, RawLayout, current, Problem, Visit,
  visit_pane, visit_split, restored_ratio, visit, with_conversation, normalize,
}

-- The tree and the layout as they are saved.
pub encode : {R : Type 0} → Node R → RawNode R
encode (pane v) = raw_pane (some v)
encode (split axis ratio a b) = raw_split (some axis) (some ratio) (encode a) (encode b)

pub encode_layout : {R : Type 0} → Layout R → RawLayout R
unfolding encode
encode_layout l = current (encode l.root) (some l.focused)

-- The four views bound the size, and so the depth, of a tree that shows none twice.
length_by_views :
    (xs : List View)
    → length xs ≡ count conversation xs + count changes xs + count terminal xs + count context xs
unfolding view_beq
length_by_views [] = omega arith
length_by_views (conversation ∷ xs) = omega (arith, length_by_views xs)
length_by_views (_ ∷ xs) = omega (arith, length_by_views xs)

height : {R : Type 0} → Node R → ℕ
height (pane v) = 0
height (split axis ratio a b) = suc (max (height a) (height b))

height-lt-views : {R : Type 0} (n : Node R) → height n < length (layout_views n)
unfolding height layout_views
height-lt-views (pane v) = omega arith
height-lt-views (split axis ratio a b) =
    omega
      (arith, height-lt-views a, height-lt-views b, length-append (layout_views a) (layout_views b))

abbrev seeing : Visit → List View → Visit
seeing s views = record s { seen = s.seen ++ views }

contains-append :
    (xs ys : List View) (v : View) → contains (xs ++ ys) v ≡ (contains xs v || contains ys v)
contains-append [] ys v = refl
contains-append (x ∷ xs) ys v = ground (arith, contains-append xs ys v)

module _ (R : Type 0) where
  visit_pane_reports :
      (o : Option View) (s : Visit) → length s.problems ≤ length (visit_pane {R = R} o s).1.problems
  unfolding visit_pane
  visit_pane_reports none s = omega (arith, length-append s.problems (Problem.view ∷ []))
  visit_pane_reports (some v) s = ground (arith, length-append s.problems (Problem.duplicate ∷ []))

  visit_pane_exact :
      (o : Option View) (s : Visit)
      → length (visit_pane {R = R} o s).1.problems ≤ length s.problems
      → (n : Node R) × (visit_pane {R = R} o s).0 ≡ some n × (raw_pane o ≡ encode n)
  unfolding visit_pane encode
  visit_pane_exact none s h = absurd (omega (arith, length-append s.problems (Problem.view ∷ [])))
  visit_pane_exact (some v) s h = elim (Bool-cases (contains s.seen v)) [
    | inl e ↦
        absurd (
          omega (arith, rw (e, visit_pane) at h, length-append s.problems (Problem.duplicate ∷ [])))
    | inr e ↦ (pane v, rw e, refl)
  ]

module _ {R : Type 0} ⦃r : Ratios R⦄ where
  restored_ratio_id : (value : R) → InRange value → restored_ratio (some value) ≡ (value, false)
  unfolding restored_ratio
  restored_ratio_id value h = ground (arith, r.le_total value value, clamp_ratio_id value h)

  visit_split-encoded :
      (axis : Axis) (ratio : R) (a b : Node R) (s : Visit)
      → InRange ratio
      → visit_split axis (some ratio) (some a) (some b) s ≡ (some (split axis ratio a b), s)
  unfolding visit_split
  visit_split-encoded axis ratio a b s h = rw (restored_ratio_id ratio h)

  -- A tree of new views, each once, is visited without a report.
  visit-encode :
      (n : Node R) (depth : ℕ) (s : Visit)
      → depth + height n ≤ 4
      → RatiosInRange n
      → ((v : View) → count v s.seen + count v (layout_views n) ≤ 1)
      → visit (encode n) depth s ≡ (some n, seeing s (layout_views n))
  unfolding visit visit_pane encode height layout_views
  visit-encode (pane u) depth s d h fresh =
      ground (arith, fresh u, contains_iff_count s.seen u, view_beq_iff u u)
  visit-encode (split axis ratio a b) depth s d h fresh =
      let both = λ (v : View). count-append v (layout_views a) (layout_views b) in
      let shallow : ltb 4 depth ≡ false = ground arith in
      rw (
        shallow,
        visit-encode a (suc depth) s (omega arith) h.1 (λ v. omega (arith, fresh v, both v)),
        visit-encode b (suc depth) (seeing s (layout_views a)) (omega arith) h.2
            (λ v. omega (arith, fresh v, both v, count-append v s.seen (layout_views a))),
        visit_split-encoded axis ratio a b _ h.0,
        append_assoc,
      )

  -- A valid layout that was saved is restored as it was, and nothing is reported.
  pub normalize-encode_layout : (l : Layout R) → IsValid l → normalize (encode_layout l) ≡ (l, [])
  unfolding normalize encode_layout with_conversation
  normalize-encode_layout l v =
      let size : 0 + height l.root ≤ 4 = omega (
        arith,
        height-lt-views l.root,
        length_by_views (layout_views l.root),
        v.distinct conversation,
        v.distinct changes,
        v.distinct terminal,
        v.distinct context,
      ) in
      rw (
        visit-encode l.root 0 (record { seen = []; problems = [] }) size v.ratios
            (λ u. omega (arith, v.distinct u)),
        contained conversation v.conversation_shown,
        contained l.focused v.focus_shown,
      )
    where
      contained :
          (u : View) → 0 < count u (layout_views l.root) → contains (layout_views l.root) u ≡ true
      contained u = (contains_iff_count (layout_views l.root) u).1

  visit_split_reports :
      (axis : Axis) (raw : Option R) (a b : Option (Node R)) (s : Visit)
      → length s.problems ≤ length (visit_split axis raw a b s).1.problems
  unfolding visit_split
  visit_split_reports axis raw none b s = omega arith
  visit_split_reports axis raw (some a) none s = omega arith
  visit_split_reports axis raw (some a) (some b) s =
      ground (arith, length-append s.problems (Problem.ratio ∷ []))

  visit_reports :
      (raw : RawNode R) (depth : ℕ) (s : Visit)
      → length s.problems ≤ length (visit raw depth s).1.problems
  unfolding visit
  visit_reports no_object depth s = omega (arith, length-append s.problems (Problem.node ∷ []))
  visit_reports (raw_pane o) depth s =
      ground (arith, length-append s.problems (Problem.node ∷ []), visit_pane_reports R o s)
  visit_reports other_type depth s = omega (arith, length-append s.problems (Problem.node ∷ []))
  visit_reports (raw_split none value a b) depth s =
      omega (arith, length-append s.problems (Problem.node ∷ []))
  visit_reports (raw_split (some axis) value a b) depth s =
      let first = visit a (suc depth) s in
      let second = visit b (suc depth) first.1 in
      ground (
        arith,
        length-append s.problems (Problem.node ∷ []),
        visit_reports a (suc depth) s,
        visit_reports b (suc depth) first.1,
        visit_split_reports axis value first.0 second.0 second.1,
      )

  same_ratio_eq : (value : R) → (restored_ratio (some value)).1 ≡ false → clamp_ratio value ≡ value
  unfolding restored_ratio
  same_ratio_eq value h = ground (arith, r.le_antisymm (clamp_ratio value) value)

  visit_split_exact :
      (axis : Axis) (raw : Option R) (a b : Node R) (s : Visit)
      → length (visit_split axis raw (some a) (some b) s).1.problems ≤ length s.problems
      → (value : R) × (raw ≡ some value)
        × ((visit_split axis raw (some a) (some b) s).0 ≡ some (split axis value a b))
  unfolding visit_split restored_ratio
  visit_split_exact axis none a b s h =
      absurd (omega (arith, length-append s.problems (Problem.ratio ∷ [])))
  visit_split_exact axis (some value) a b s h = (
    value,
    refl,
    ground (arith, same_ratio_eq value, length-append s.problems (Problem.ratio ∷ [])),
  )

  joined_exact :
      (axis : Axis) (raw : Option R) (first second : Option (Node R)) (s : Visit) (a b : RawNode R)
      (n m : Node R)
      → first ≡ some n
      → second ≡ some m
      → a ≡ encode n
      → b ≡ encode m
      → length (visit_split axis raw first second s).1.problems ≤ length s.problems
      → (k : Node R) × ((visit_split axis raw first second s).0 ≡ some k)
        × (raw_split (some axis) raw a b ≡ encode k)
  unfolding encode
  joined_exact axis raw first second s a b n m p p' q q' h =
      let (value, e, f) = visit_split_exact axis raw n m s (rw (p, p') at h) in
      (split axis value n m, rw (p, p') f, rw (e, q, q'))

  -- Where nothing was reported the saved tree was the restored one.
  visit_exact :
      (raw : RawNode R) (depth : ℕ) (s : Visit)
      → length (visit raw depth s).1.problems ≤ length s.problems
      → (n : Node R) × ((visit raw depth s).0 ≡ some n) × (raw ≡ encode n)
  unfolding visit encode
  visit_exact no_object depth s h =
      absurd (omega (arith, length-append s.problems (Problem.node ∷ [])))
  visit_exact (raw_pane o) depth s h = elim (Bool-cases (ltb 4 depth)) [
    | inl e ↦ absurd (ground (arith, length-append s.problems (Problem.node ∷ [])))
    | inr e ↦ rw e (visit_pane_exact R o s (rw (e, visit) at h))
  ]
  visit_exact other_type depth s h =
      absurd (omega (arith, length-append s.problems (Problem.node ∷ [])))
  visit_exact (raw_split none value a b) depth s h =
      absurd (omega (arith, length-append s.problems (Problem.node ∷ [])))
  visit_exact (raw_split (some axis) value a b) depth s h = elim (Bool-cases (ltb 4 depth)) [
    | inl e ↦ absurd (ground (arith, length-append s.problems (Problem.node ∷ [])))
    | inr e ↦
        let first = visit a (suc depth) s in
        let second = visit b (suc depth) first.1 in
        let grew = visit_split_reports axis value first.0 second.0 second.1 in
        let quiet : length (visit_split axis value first.0 second.0 second.1).1.problems
            ≤ length s.problems =
          rw (e, visit) at h in
        let (n, p, q) =
          visit_exact a (suc depth) s (omega (arith, grew, visit_reports b (suc depth) first.1)) in
        let (m, p', q') =
          visit_exact b (suc depth) first.1 (omega (arith, grew, visit_reports a (suc depth) s)) in
        rw e (
          joined_exact axis value first.0 second.0 second.1 a b n m p p' q q' (
            omega
              (arith, quiet, visit_reports a (suc depth) s, visit_reports b (suc depth) first.1)))
  ]

  with_conversation_exact :
      (o : Option (Node R)) (s : Visit) (n : Node R)
      → o ≡ some n
      → (with_conversation o s).1 ≡ []
      → (with_conversation o s).0 ≡ n
  unfolding with_conversation
  with_conversation_exact none s n e h = cc
  with_conversation_exact (some m) s n e h =
      ground (arith, length-append s.problems (Problem.no_conversation ∷ []))

  with_conversation_reports :
      (o : Option (Node R)) (s : Visit) → (with_conversation o s).1 ≡ [] → s.problems ≡ []
  unfolding with_conversation
  with_conversation_reports none s h = h
  with_conversation_reports (some m) s h =
      ground (arith, length-append s.problems (Problem.no_conversation ∷ []))

  -- Every repair of the tree is reported: where `normalizePaneLayout` names no problem, the saved
  -- tree was the restored one.
  pub normalize_reports :
      (raw : RawNode R) (focused : Option View)
      → (normalize (current raw focused)).1 ≡ []
      → raw ≡ encode (normalize (current raw focused)).0.root
  unfolding normalize
  normalize_reports raw focused h =
      let start : Visit = record { seen = []; problems = [] } in
      let out = visit raw 0 start in
      let quiet = ap length (with_conversation_reports out.0 out.1 h) in
      let (n, e, f) = visit_exact raw 0 start (omega (arith, quiet)) in
      rw (with_conversation_exact out.0 out.1 n e h) f
