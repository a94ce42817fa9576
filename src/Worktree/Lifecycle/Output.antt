-- ===== src/Worktree/Lifecycle/Output.antt =====
-- The output a client shows is the end of what the run has written.
use outright.Base.{
  ℕ, ◌+◌, ◌-◌, ◌≤◌, ◌<◌, ◌≡◌, true, some, string_eq, ltb, leb, List, ◌++◌, length, take, drop,
  length-drop, length-append, arith, Bool-cases, inl, inr, refl, beq_refl, ap, ◌∙◌,
}
use outright.Base.Slices.{drop-drop, drop-take-append}
use outright.Worktree.Lifecycle.{
  LifecycleState, OutputEvent, Update, nothing, reload, next, output_characters, or_length,
  add_text, text_update, lifecycle_output_update, run_beq,
}

-- A state shows the end of what was written up to its position, no more than the limit.
abbrev pub Shows : List ℕ → List ℕ → ℕ → Type 0
Shows written output end =
    (end ≤ length written)
    × (length output ≤ end)
    × (output ≡ drop (end - length output) (take end written))

-- A state of the program, at its position.
abbrev pub IsShown : List ℕ → LifecycleState → Type 0
IsShown written state = Shows written state.output (or_length state.output_end state.output)

-- An event that carries what the run wrote from `start`.
abbrev pub Carries : List ℕ → ℕ → List ℕ → Type 0
Carries written start text =
    (start + length text ≤ length written)
    × (text ≡ drop start (take (start + length text) written))

joined :
    (written output text : List ℕ) (start end : ℕ)
    → Shows written output end
    → Carries written start text
    → start ≤ end
    → end < start + length text
    → Shows written (output ++ drop (end - start) text) (start + length text)
joined written output text start end (inside, fits, shown) (within, carried) before more = (
  within,
  omega (arith, length-append output (drop (end - start) text), length-drop (end - start) text),
  ap (λ xs. xs ++ drop (end - start) text) shown
      ∙ ap (λ xs. drop (end - length output) (take end written) ++ drop (end - start) xs) carried
      ∙ ap (λ xs. drop (end - length output) (take end written) ++ xs)
          (drop-drop (end - start) start end (take (start + length text) written)
            (omega (arith, before)))
      ∙ drop-take-append (end - length output) end (start + length text) written (omega arith)
          (omega (arith, more)) inside
      ∙ ap (λ i. drop i (take (start + length text) written))
          (omega (
            arith,
            fits,
            before,
            more,
            length-append output (drop (end - start) text),
            length-drop (end - start) text,
          )),
)

trimmed :
    (written output : List ℕ) (end limit : ℕ)
    → Shows written output end
    → limit < length output
    → Shows written (drop (length output - limit) output) end
trimmed written output end limit (inside, fits, shown) over = (
  inside,
  omega (arith, length-drop (length output - limit) output),
  ap (drop (length output - limit)) shown
      ∙ drop-drop (length output - limit) (end - length output) (end - limit) (take end written)
          (omega (arith, fits, over))
      ∙ ap (λ i. drop i (take end written))
          (omega (arith, fits, over, length-drop (length output - limit) output)),
)

add_text-IsShown :
    (written : List ℕ) (state : LifecycleState) (start : ℕ) (text : List ℕ)
    → let end = or_length state.output_end state.output in
      Shows written state.output end
      → Carries written start text
      → start ≤ end
      → end < start + length text
      → IsShown written (add_text state start text end)
        × ((add_text state start text end).output_end ≡ some (start + length text))
        × (length (add_text state start text end).output ≤ output_characters)
add_text-IsShown written state start text shown carried before more =
    let end = or_length state.output_end state.output in
    let output = state.output ++ drop (end - start) text in
    let all = joined written state.output text start end shown carried before more in
    elim (Bool-cases (ltb output_characters (length output))) [
      | inl e ↦ rw e (
        trimmed written output (start + length text) output_characters all (ground (arith, e)),
        refl,
        omega (arith, length-drop (length output - output_characters) output),
      )
      | inr e ↦ rw e (all, refl, ground (arith, e))
    ]

-- What an event of the state's own run and worktree does: it adds nothing that is shown, asks for
-- the whole state after a gap, or makes the state show the end of what was written so far.
abbrev pub Outcome : List ℕ → LifecycleState → ℕ → ℕ → Update → Type 0
Outcome written state start stop nothing = stop ≤ or_length state.output_end state.output
Outcome written state start stop reload = or_length state.output_end state.output < start
Outcome written state start stop (next after) =
    IsShown written after
    × (after.output_end ≡ some stop)
    × (length after.output ≤ output_characters)

text_update-Outcome :
    (written : List ℕ) (state : LifecycleState) (start : ℕ) (text : List ℕ)
    → IsShown written state
    → Carries written start text
    → Outcome written state start (start + length text) (text_update state start text)
unfolding text_update
text_update-Outcome written state start text shown carried =
    let end = or_length state.output_end state.output in
    elim (Bool-cases (leb (start + length text) end)) [
      | inl e ↦ rw e (ground (arith, e))
      | inr e ↦ elim (Bool-cases (ltb end start)) [
        | inl f ↦ rw (e, f) (ground (arith, f))
        | inr f ↦
            rw (e, f)
              (add_text-IsShown written state start text shown carried (ground (arith, f))
                (ground (arith, e)))
      ]
    ]

-- For a state that shows the end of what its run has written, an event of the run with a text adds
-- nothing that is not shown already, asks for the state after a gap, or gives a state that shows
-- the end of what was written up to the event's end, within the limit of characters.
pub lifecycle_output_update-IsShown :
    (written : List ℕ) (state : LifecycleState) (payload : OutputEvent) (text : List ℕ)
    → IsShown written state
    → payload.worktree_path ≡ state.worktree_path
    → run_beq payload.run_id state.run_id ≡ true
    → payload.text ≡ some text
    → Carries written payload.start text
    → Outcome written state payload.start
        (payload.start + length text)
        (lifecycle_output_update state payload)
unfolding lifecycle_output_update
lifecycle_output_update-IsShown written state payload text shown here same has carried =
    rw (has, here, beq_refl state.worktree_path, same)
      (text_update-Outcome written state payload.start text shown carried)
