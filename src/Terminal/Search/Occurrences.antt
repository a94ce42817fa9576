-- ===== src/Terminal/Search/Occurrences.antt =====
-- The loop over a line against the list of all its matches.
use mathlib.Core.List.{append_assoc, append-nil}
use outright.Base.{
  is_some, ℕ, zero, suc, ◌-◌, ◌≤◌, ◌<◌, ◌≡◌, ◌⊎◌, inl, inr, false, if◌then◌else◌, ltb, leb, Option,
  none, some, List, [], ◌∷◌, ◌++◌, length, take, length-append, arith, refl, sym, ap, ◌∙◌,
  Bool-cases,
}
use outright.Base.Slices.{take_all}
use outright.Terminal.Search.{Match, occurs, last_index_of, add_found, add_match, visit_index}

-- The rightmost occurrences of a query before a position that do not overlap, from the right; the
-- first `skip` positions are passed over.
unfoldable pub occurrences : List ℕ → List ℕ → ℕ → ℕ → List ℕ
occurrences query text zero skip = []
occurrences query text (suc from) (suc skip) = occurrences query text from skip
occurrences query text (suc from) zero =
    let apart = occurrences query text from (length query - 1) in
    let rest = occurrences query text from 0 in
    if occurs query text from then from ∷ apart else rest

-- The matches of the indices, without those that have the cells of the one before.
abbrev pub collect : (ℕ → Option Match) → List Match → List ℕ → List Match
collect at found [] = found
collect at found (index ∷ indices) = collect at (add_found (at index) found) indices

add_match_cases :
    (new : Match) (found : List Match)
    → (add_match new found ≡ found) ⊎ (add_match new found ≡ found ++ new ∷ [])
add_match_cases new [] = inr refl
add_match_cases new (last ∷ []) = ground arith
add_match_cases new (first ∷ next ∷ found) = elim (add_match_cases new (next ∷ found)) [
  | inl e ↦ inl (ap (first ∷◌) e)
  | inr e ↦ inr (ap (first ∷◌) e)
]

add_found_cases :
    (new : Option Match) (found : List Match)
    → (more : List Match) × (add_found new found ≡ found ++ more) × (length more ≤ 1)
add_found_cases none found = ([], sym (append-nil found), omega arith)
add_found_cases (some new) found = elim (add_match_cases new found) [
  | inl e ↦ ([], e ∙ sym (append-nil found), omega arith)
  | inr e ↦ (new ∷ [], e, omega arith)
]

collect_grows :
    (at : ℕ → Option Match) (found : List Match) (indices : List ℕ)
    → (more : List Match) × (collect at found indices ≡ found ++ more)
collect_grows at found [] = ([], sym (append-nil found))
collect_grows at found (index ∷ indices) =
    let (new, e, short) = add_found_cases (at index) found in
    let (more, grown) = collect_grows at (add_found (at index) found) indices in
    (new ++ more, grown ∙ ap (λ l. l ++ more) e ∙ append_assoc found new more)

occurrences_skip :
    (query text : List ℕ) (from skip left : ℕ)
    → left ≡ from - skip
    → occurrences query text from skip ≡ occurrences query text left 0
unfolding occurrences
occurrences_skip query text zero skip left e =
    let same : left ≡ 0 = omega (arith, e) in rw same refl
occurrences_skip query text (suc from) zero left e =
    let same : left ≡ suc from = omega (arith, e) in rw same refl
occurrences_skip query text (suc from) (suc skip) left e =
    occurrences_skip query text from skip left (omega (arith, e))

none_left : (query text : List ℕ) → occurrences query text 0 0 ≡ []
unfolding occurrences
none_left query text = refl

occurrences-last_index_of :
    (query text : List ℕ) (from : ℕ)
    → ((last_index_of query text from ≡ none) × (occurrences query text (suc from) 0 ≡ []))
      ⊎ ((index : ℕ) × (index ≤ from)
          × (last_index_of query text from ≡ some index)
          × (occurrences query text (suc from) 0
              ≡ index ∷ occurrences query text index (length query - 1)))
unfolding occurrences last_index_of
occurrences-last_index_of query text zero = elim (Bool-cases (occurs query text 0)) [
  | inl here ↦ inr (0, omega arith, rw here refl, rw here refl)
  | inr not_here ↦ inl (rw not_here refl, rw not_here refl)
]
occurrences-last_index_of query text (suc from) = elim (Bool-cases (occurs query text (suc from))) [
  | inl here ↦ inr (suc from, omega arith, rw here refl, rw here refl)
  | inr not_here ↦ elim (occurrences-last_index_of query text from) [
    | inl (gone, empty) ↦ inl (rw not_here gone, rw not_here empty)
    | inr (index, low, found, rest) ↦
        inr (index, omega (arith, low), rw not_here found, rw not_here rest)
  ]
]

take_prefix : (n : ℕ) (front back : List Match) → length front ≡ n → take n (front ++ back) ≡ front
take_prefix zero [] back h = refl
take_prefix zero (first ∷ front) back h = ground (arith, h)
take_prefix (suc n) [] back h = ground (arith, h)
take_prefix (suc n) (first ∷ front) back h =
    ap (first ∷◌) (take_prefix n front back (omega (arith, h)))

module _ (at : ℕ → Option Match) (query text : List ℕ) (budget : ℕ)
    (some_query : 0 < length query) where
  visit_stop :
      (fuel : ℕ) (found : List Match) → visit_index at query text budget fuel none found ≡ found
  unfolding visit_index
  visit_stop zero found = refl
  visit_stop (suc fuel) found = refl

  pub visit_index_lem :
      (fuel from : ℕ) (found : List Match)
      → from < fuel
      → length found ≤ suc budget
      → visit_index at query text budget fuel (last_index_of query text from) found
        ≡ take (suc budget) (collect at found (occurrences query text (suc from) 0))
  unfolding visit_index
  visit_index_lem zero from found less short = ground (arith, less)
  visit_index_lem (suc fuel) from found less short =
      elim (occurrences-last_index_of query text from) [
        | inl (gone, empty) ↦ rw (gone, empty) (sym (take_all (suc budget) found short))
        | inr (index, low, e, rest) ↦ elim (Bool-cases (leb (length found) budget)) [
          | inr full ↦
              let (more, grown) =
                collect_grows at found (index ∷ occurrences query text index (length query - 1)) in
              rw (e, rest, full)
                (sym (
                  ap (take (suc budget)) grown
                  ∙ take_prefix (suc budget) found more (ground (arith, full, short))))
          | inl free ↦
              let next = add_found (at index) found in
              let (new, added, one) = add_found_cases (at index) found in
              let fits : length next ≤ suc budget =
                ground (arith, free, ap length added, length-append found new, one) in
              elim (Bool-cases (ltb index (length query))) [
                | inl first ↦
                    let empty : occurrences query text index (length query - 1) ≡ [] =
                      occurrences_skip query text index (length query - 1) 0 (ground (arith, first))
                      ∙ none_left query text in
                    rw (e, rest, free, first, empty)
                      (visit_stop fuel next ∙ sym (take_all (suc budget) next fits))
                | inr later ↦
                    let onward : occurrences query text index (length query - 1)
                        ≡ occurrences query text (suc (index - length query)) 0 =
                      occurrences_skip query text index (length query - 1)
                        (suc (index - length query)) (ground (arith, later, some_query)) in
                    rw (e, rest, free, later, onward)
                      (visit_index_lem fuel (index - length query) next
                        (ground (arith, less, low, later, some_query)) fits)
              ]
        ]
      ]

  -- The loop of `lineMatches` on a whole line: one more match than the budget at most.
  pub visit_line :
      visit_index at query text budget
        (suc (length text))
        (last_index_of query text (length text))
        []
      ≡ take (suc budget) (collect at [] (occurrences query text (suc (length text)) 0))
  visit_line = visit_index_lem (suc (length text)) (length text) [] (omega arith) (omega arith)

pub no_occurrences :
    (query text : List ℕ) (from : ℕ)
    → is_some (last_index_of query text from) ≡ false
    → occurrences query text (suc from) 0 ≡ []
no_occurrences query text from gone = elim (occurrences-last_index_of query text from) [
  | inl (found, empty) ↦ empty
  | inr (index, low, found, rest) ↦ ground (arith, gone, found)
]
