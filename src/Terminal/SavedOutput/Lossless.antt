-- ===== src/Terminal/SavedOutput/Lossless.antt =====
-- Output with nothing to shorten, erase or reset is written as it is.
use outright.Base.{
  ℕ, zero, suc, ◌+◌, ◌*◌, ◌/◌, ◌≤◌, ◌<◌, ◌≡◌, Bool, true, false, ◌&&◌, not, none, some,
  if◌then◌else◌, ltb, List, [], ◌∷◌, ◌++◌, length, take, drop, arith, refl, ap, sym, ◌∙◌,
  Bool-cases, inl, inr, length-drop, take-append-drop, min,
}
use mathlib.Core.List.{append_assoc, append-nil}
use outright.Base.Slices.{slice, take-drop-take}
use outright.Terminal.Scanner.{Token, control_scanner}
use outright.Terminal.Scanner.Spans.{IsOrdered, control_scanner-IsOrdered}
use outright.Terminal.SavedOutput.{
  View, Writer, new_writer, emit, emit_pieces, emit_text, emit_token, piece_length, release,
  release_held, close_segment, emit_count, visit_token, visit_tokens, saved_segments, Role,
  repeating, resetting, erasing, counting, other_role, role_of, text_of, limit_of, count_of,
  is_empty, work_slice, is_repeating, newlines, counts_rows,
}

abbrev pub joined : List (List ℕ) → List ℕ
joined [] = []
joined (text ∷ texts) = text ++ joined texts

abbrev pub joined_all : List (List (List ℕ)) → List ℕ
joined_all [] = []
joined_all (segment ∷ segments) = joined segment ++ joined_all segments

joined-snoc :
    (texts : List (List ℕ)) (text : List ℕ) → joined (texts ++ text ∷ []) ≡ joined texts ++ text
joined-snoc [] text = append-nil text
joined-snoc (first ∷ texts) text =
    ap (first ++◌) (joined-snoc texts text) ∙ sym (append_assoc first (joined texts) text)

-- What was written of the open segment.
abbrev pub written : Writer → List ℕ
written w = joined w.writes ++ w.pending

written-emit :
    (text : List ℕ) (weight : ℕ) (w : Writer) → written (emit text weight w) ≡ written w ++ text
unfolding emit
written-emit text weight w = elim (Bool-cases (ltb (w.work + weight) work_slice)) [
  | inl e ↦ rw e (sym (append_assoc (joined w.writes) w.pending text))
  | inr e ↦ rw e (
      append-nil _
      ∙ joined-snoc w.writes (w.pending ++ text)
      ∙ sym (append_assoc (joined w.writes) w.pending text))
]

piece_length_pos : (text : List ℕ) → 0 < piece_length text
unfolding piece_length
piece_length_pos text = ground arith

written-emit_pieces :
    (fuel : ℕ) (view : View) (text : List ℕ) (w : Writer)
    → length text ≤ fuel
    → written (emit_pieces fuel view text w) ≡ written w ++ text
unfolding emit_pieces
written-emit_pieces zero view [] w h = sym (append-nil (written w))
written-emit_pieces zero view (unit ∷ units) w h = ground (arith, h)
written-emit_pieces (suc fuel) view [] w h = sym (append-nil (written w))
written-emit_pieces (suc fuel) view (unit ∷ units) w h =
    let text = unit ∷ units in
    let n = piece_length text in
    written-emit_pieces fuel view (drop n text) _
      (omega (arith, length-drop n text, piece_length_pos text))
    ∙ ap (◌++ drop n text) (written-emit (take n text) _ w)
    ∙ append_assoc (written w) (take n text) (drop n text)
    ∙ ap (written w ++◌) (take-append-drop n text)

-- What emitting leaves alone.
abbrev Alike : Writer → Writer → Type 0
Alike w v = (v.segments ≡ w.segments) × (v.from ≡ w.from) × (v.held ≡ w.held)

emit-Alike : (text : List ℕ) (weight : ℕ) (w : Writer) → Alike w (emit text weight w)
unfolding emit
emit-Alike text weight w = ground arith

emit_pieces-Alike :
    (fuel : ℕ) (view : View) (text : List ℕ) (w : Writer) → Alike w (emit_pieces fuel view text w)
unfolding emit_pieces
emit_pieces-Alike zero view text w = (refl, refl, refl)
emit_pieces-Alike (suc fuel) view [] w = (refl, refl, refl)
emit_pieces-Alike (suc fuel) view (unit ∷ units) w =
    let text = unit ∷ units in
    let n = piece_length text in
    let weight = length (take n text) + newlines (take n text) * (view.cols / 8) in
    let once = emit-Alike (take n text) weight w in
    let rest = emit_pieces-Alike fuel view (drop n text) (emit (take n text) weight w) in
    (rest.0 ∙ once.0, rest.1 ∙ once.1, rest.2 ∙ once.2)

-- A sequence that is written as it stands.
abbrev pub is_kept : View → Token → Role → Bool
is_kept view token counting = not (ltb (limit_of view token) (count_of token.params))
is_kept view token other_role = true
is_kept view token _ = false

emit_token-kept :
    (view : View) (buffer : List ℕ) (token : Token) (role : Role) (w : Writer)
    → is_kept view token role ≡ true
    → (weight : ℕ) × (emit_token view buffer token role w ≡ emit (text_of buffer token) weight w)
unfolding emit_token emit_count
emit_token-kept view buffer token counting w h = (
  min (count_of token.params) (limit_of view token)
      * (if counts_rows token.final then view.cols / 4 else 1),
  elim (Bool-cases (ltb (limit_of view token) (count_of token.params))) [
    | inl e ↦ ground (arith, h, e)
    | inr e ↦ rw e refl
  ],
)
emit_token-kept view buffer token other_role w h = (_, refl)
emit_token-kept view buffer token repeating w h = ground (arith, h)
emit_token-kept view buffer token resetting w h = ground (arith, h)
emit_token-kept view buffer token erasing w h = ground (arith, h)

not_repeating :
    (view : View) (token : Token) (role : Role)
    → is_kept view token role ≡ true
    → is_repeating role ≡ false
not_repeating view token counting h = refl
not_repeating view token other_role h = refl
not_repeating view token repeating h = ground (arith, h)
not_repeating view token resetting h = refl
not_repeating view token erasing h = refl

-- So far everything was written as it stands.
abbrev pub Kept : List ℕ → Writer → Type 0
Kept buffer w = (w.segments ≡ []) × (w.held ≡ none) × (written w ≡ take w.from buffer)

release-none : (view : View) (w : Writer) → w.held ≡ none → release view w ≡ w
unfolding release_held
release-none view w h = rw h

-- A kept sequence, after the text before it.
abbrev emit_kept : View → List ℕ → Token → ℕ → Writer → Writer
emit_kept view buffer token weight w =
    emit (text_of buffer token) weight
      (emit_text view (slice w.from token.start buffer) (record w { from = token.end }))

visit_token-kept :
    (view : View) (buffer : List ℕ) (token : Token) (w : Writer)
    → is_kept view token (role_of token) ≡ true
    → w.held ≡ none
    → (weight : ℕ) × (visit_token view buffer token w
        ≡ record (emit_kept view buffer token weight w) { previous = some token })
unfolding visit_token
visit_token-kept view buffer token w kept free =
    let gap = slice w.from token.start buffer in
    let moved : Writer = record w { from = token.end } in
    let (weight, e) =
      emit_token-kept view buffer token (role_of token) (emit_text view gap moved) kept in
    (
      weight,
      rw (not_repeating view token (role_of token) kept, release-none view moved free, e) refl,
    )

emit_kept-Kept :
    (view : View) (buffer : List ℕ) (token : Token) (weight : ℕ) (w : Writer)
    → Kept buffer w
    → w.from ≤ token.start
    → token.start < token.end
    → token.start ≤ length buffer
    → Kept buffer (emit_kept view buffer token weight w)
      × ((emit_kept view buffer token weight w).from ≡ token.end)
emit_kept-Kept view buffer token weight w (closed, free, text) from long inside =
    let gap = slice w.from token.start buffer in
    let moved : Writer = record w { from = token.end } in
    let after = emit_text view gap moved in
    let one = emit_pieces-Alike (length gap) view gap moved in
    let two = emit-Alike (text_of buffer token) weight after in
    (
      (
        two.0 ∙ one.0 ∙ closed,
        two.2 ∙ one.2 ∙ free,
        written-emit (text_of buffer token) weight after
            ∙ ap (◌++ text_of buffer token) (
                written-emit_pieces (length gap) view gap moved (omega arith)
                ∙ ap (◌++ gap) text
                ∙ take-drop-take w.from token.start buffer from)
            ∙ take-drop-take token.start token.end buffer (omega (arith, long))
            ∙ ap (λ n. take n buffer) (sym (two.1 ∙ one.1)),
      ),
      two.1 ∙ one.1,
    )

-- Every sequence is written as it stands.
abbrev pub all_kept : View → List Token → Bool
all_kept view [] = true
all_kept view (token ∷ tokens) = is_kept view token (role_of token) && all_kept view tokens

IsOrdered-le : (low limit : ℕ) (tokens : List Token) → IsOrdered low limit tokens → low ≤ limit
IsOrdered-le low limit [] h = h
IsOrdered-le low limit (token ∷ tokens) (from, long, rest) =
    omega (arith, from, long, IsOrdered-le token.end limit tokens rest)

visit_tokens-Kept :
    (view : View) (buffer : List ℕ) (tokens : List Token) (w : Writer)
    → all_kept view tokens ≡ true
    → IsOrdered w.from (suc (length buffer)) tokens
    → Kept buffer w
    → Kept buffer (visit_tokens view buffer tokens w)
unfolding visit_tokens
visit_tokens-Kept view buffer [] w all ordered kept = kept
visit_tokens-Kept view buffer (token ∷ tokens) w all (from, long, rest) kept =
    let limit = IsOrdered-le token.end (suc (length buffer)) tokens rest in
    let (weight, e) = visit_token-kept view buffer token w (ground (arith, all)) kept.1 in
    let next = record (emit_kept view buffer token weight w) { previous = some token } in
    let (after, at) =
      emit_kept-Kept view buffer token weight w kept from long (omega (arith, long, limit)) in
    rw (visit_tokens, e)
      (visit_tokens-Kept view buffer tokens next (ground (arith, all)) (rw at rest) after)

end_of :
    (writes : List (List ℕ)) (text : List ℕ)
    → joined (if is_empty text then writes else writes ++ text ∷ []) ≡ joined writes ++ text
end_of writes [] = sym (append-nil (joined writes))
end_of writes (unit ∷ units) = joined-snoc writes (unit ∷ units)

close_segment-written :
    (view : View) (w : Writer)
    → w.segments ≡ []
    → w.held ≡ none
    → joined_all (close_segment view w).segments ≡ written w
unfolding close_segment
close_segment-written view w none_yet free =
    let last = if is_empty w.pending then w.writes else w.writes ++ w.pending ∷ [] in
    ap
      (λ v.
        joined_all (
          v.segments ++ (if is_empty v.pending then v.writes else v.writes ++ v.pending ∷ []) ∷ []))
      (release-none view w free)
    ∙ ap (λ s. joined_all (s ++ last ∷ [])) none_yet
    ∙ append-nil (joined last)
    ∙ end_of w.writes w.pending

-- Output in which every control sequence is written as it stands is written whole: the writes of its
-- one segment make the buffer.
pub joined-saved_segments :
    (view : View) (buffer : List ℕ)
    → all_kept view (control_scanner buffer) ≡ true
    → joined_all (saved_segments view buffer) ≡ buffer
unfolding saved_segments
joined-saved_segments view buffer all =
    let w = visit_tokens view buffer (control_scanner buffer) new_writer in
    let kept =
      visit_tokens-Kept view buffer (control_scanner buffer) new_writer all
        (control_scanner-IsOrdered buffer) (refl, refl, refl) in
    let rest = drop w.from buffer in
    let last = emit_text view rest w in
    let alike = emit_pieces-Alike (length rest) view rest w in
    ap (λ v. joined_all (close_segment view (emit_text view rest v)).segments)
      (release-none view w kept.1)
    ∙ close_segment-written view last (alike.0 ∙ kept.0) (alike.2 ∙ kept.1)
    ∙ written-emit_pieces (length rest) view rest w (omega arith)
    ∙ ap (◌++ rest) kept.2
    ∙ take-append-drop w.from buffer
