-- ===== src/Terminal/Search/Capped.antt =====
-- A search with a limit against the list of all matches.
use mathlib.Core.List.{reverse, append_assoc, append-nil}
use outright.Base.{
  ℕ, zero, suc, ◌+◌, ◌-◌, ◌≤◌, ◌<◌, ◌≡◌, inl, inr, true, false, if◌then◌else◌, ltb, nat_beq, ◌||◌,
  Option, some, List, [], ◌∷◌, ◌++◌, length, take, length-append, length-take, arith, refl, sym, ap,
  ◌∙◌, Bool-cases,
}
use outright.Base.Slices.{take_all}
use outright.Terminal.Search.{
  Match, Buffer, Found, logical_line_rows, join_rows, match_at, line_matches, line_start,
  is_wrapped_at, has_query, find_from, find_terminal_matches,
}
use outright.Terminal.Search.Occurrences.{occurrences, collect, visit_line, no_occurrences}

take-append :
    (n m : ℕ) (front back : List Match)
    → length front ≡ n
    → take (n + m) (front ++ back) ≡ front ++ take m back
take-append zero m [] back h = ap (λ k. take k back) (omega arith)
take-append zero m (first ∷ front) back h = ground (arith, h)
take-append (suc n) m [] back h = ground (arith, h)
take-append (suc n) m (first ∷ front) back h =
    let inner : suc n + m ≡ suc (n + m) = omega arith in
    rw inner (ap (first ∷◌) (take-append n m front back (omega (arith, h))))

take_before :
    (n : ℕ) (front back : List Match) → n ≤ length front → take n (front ++ back) ≡ take n front
take_before zero front back h = refl
take_before (suc n) [] back h = ground (arith, h)
take_before (suc n) (first ∷ front) back h =
    ap (first ∷◌) (take_before n front back (omega (arith, h)))

take-take : (n m : ℕ) (xs : List Match) → n ≤ m → take n (take m xs) ≡ take n xs
take-take zero m xs h = refl
take-take (suc n) zero xs h = ground (arith, h)
take-take (suc n) (suc m) [] h = refl
take-take (suc n) (suc m) (x ∷ xs) h = ap (x ∷◌) (take-take n m xs (omega (arith, h)))

-- The newest matches up to a limit, in the order of the buffer, and whether there are more.
abbrev pub newest_of : ℕ → List Match → Found
newest_of limit all = record { matches = reverse (take limit all); capped = ltb limit (length all) }

newest_of_few :
    (limit : ℕ) (newest : List Match)
    → length newest ≤ limit
    → newest_of limit (newest ++ []) ≡ record { matches = reverse newest; capped = false }
newest_of_few limit newest short =
    let under : ltb limit (length newest) ≡ false = ground (arith, short) in
    rw (append-nil newest, take_all limit newest short, under) refl

-- One line has more matches than are left to the limit.
newest_of_many :
    (limit : ℕ) (newest line above : List Match)
    → length newest ≤ limit
    → limit - length newest < length line
    → newest_of limit (newest ++ (line ++ above)) ≡ record {
      matches =
          reverse
            (newest ++ take (limit - length newest) (take (suc (limit - length newest)) line));
      capped = true;
    }
newest_of_many limit newest line above short many =
    let budget = limit - length newest in
    let over : ltb limit (length (newest ++ (line ++ above))) ≡ true =
      ground (arith, short, many, length-append newest (line ++ above), length-append line above) in
    let whole : limit ≡ length newest + budget = omega (arith, short) in
    let kept : take limit (newest ++ (line ++ above))
        ≡ newest ++ take budget (take (suc budget) line) =
      ap (λ n. take n (newest ++ (line ++ above))) whole
      ∙ take-append (length newest) budget newest (line ++ above) refl
      ∙ ap (λ l. newest ++ l)
          (take_before budget line above (omega (arith, many))
            ∙ sym (take-take budget (suc budget) line (omega arith))) in
    rw (over, kept) refl

module _ (casefold : ℕ → Option (List ℕ)) (buffer : Buffer) (query : List ℕ) (cols : ℕ) where
  -- All matches of the logical line between two rows, from its end.
  unfoldable pub matches_between : ℕ → ℕ → List Match
  matches_between start end =
      let rows = logical_line_rows casefold buffer end (suc end - start) start in
      let text = join_rows rows in
      collect (match_at casefold buffer start rows cols (length query)) []
        (occurrences query text (suc (length text)) 0)

  -- All matches in a number of rows, the newest first; `end` is the last row of the logical line that
  -- is open at the top.
  unfoldable pub matches_above : ℕ → ℕ → List Match
  matches_above zero end = []
  matches_above (suc zero) end = matches_between 0 end
  matches_above (suc (suc row)) end =
      let line = matches_above (suc row) end in
      let above = matches_above (suc row) row in
      if is_wrapped_at buffer (suc row) then line else matches_between (suc row) end ++ above

  matches_above-line_start :
      (row end : ℕ)
      → (line_start buffer row ≤ row)
        × (matches_above (suc row) end
            ≡ matches_between (line_start buffer row) end
              ++ matches_above (line_start buffer row) (line_start buffer row - 1))
  unfolding matches_above line_start
  matches_above-line_start zero end = (omega arith, sym (append-nil (matches_between 0 end)))
  matches_above-line_start (suc row) end = elim (Bool-cases (is_wrapped_at buffer (suc row))) [
    | inl wrapped ↦
        let (low, all) = matches_above-line_start row end in rw wrapped (omega (arith, low), all)
    | inr apart ↦
        let below : suc row - 1 ≡ row = omega arith in rw (apart, below) (omega arith, refl)
  ]

  module _ (some_query : 0 < length query) where
    line_matches_lem :
        (budget start end : ℕ)
        → line_matches casefold buffer query cols budget start end
          ≡ take (suc budget) (matches_between start end)
    unfolding line_matches matches_between
    line_matches_lem budget start end =
        let rows = logical_line_rows casefold buffer end (suc end - start) start in
        visit_line (match_at casefold buffer start rows cols (length query)) query (join_rows rows)
          budget some_query

    matches_between_none :
        (start end : ℕ)
        → has_query casefold buffer query cols start end ≡ false
        → matches_between start end ≡ []
    unfolding matches_between
    matches_between_none start end gone =
        let rows = logical_line_rows casefold buffer end (suc end - start) start in
        let text = join_rows rows in
        ap (collect (match_at casefold buffer start rows cols (length query)) [])
          (no_occurrences query text (length text) gone)

    find_from_lem :
        (limit fuel left : ℕ) (newest : List Match)
        → left ≤ fuel
        → length newest ≤ limit
        → find_from casefold buffer query cols limit fuel left newest
          ≡ some (newest_of limit (newest ++ matches_above left (left - 1)))
    unfolding find_from matches_above
    find_from_lem limit zero zero newest enough short =
        ap some (sym (newest_of_few limit newest short))
    find_from_lem limit zero (suc end) newest enough short = ground (arith, enough)
    find_from_lem limit (suc fuel) zero newest enough short =
        ap some (sym (newest_of_few limit newest short))
    find_from_lem limit (suc fuel) (suc end) newest enough short =
        let start = line_start buffer end in
        let budget = limit - length newest in
        let line = matches_between start end in
        let above = matches_above start (start - 1) in
        let (low, all) = matches_above-line_start end end in
        let below : suc end - 1 ≡ end = omega arith in
        let found = line_matches_lem budget start end in
        elim (Bool-cases (has_query casefold buffer query cols start end)) [
          | inr gone ↦
              rw (gone, below, all, matches_between_none start end gone)
                (find_from_lem limit fuel start newest (omega (arith, low, enough)) short)
          | inl has ↦ elim (Bool-cases (ltb budget (length line))) [
            | inl many ↦
                let over : ltb budget (length (take (suc budget) line)) ≡ true =
                  ground (arith, many, length-take (suc budget) line) in
                rw (has, below, all, found, over)
                  (ap some
                    (sym (newest_of_many limit newest line above short (ground (arith, many)))))
            | inr few ↦
                let under : ltb budget (length line) ≡ false = few in
                let whole = take_all (suc budget) line (ground (arith, few)) in
                rw (has, below, all, found, whole, under, ← append_assoc newest line above)
                  (find_from_lem limit fuel start (newest ++ line) (omega (arith, low, enough))
                    (ground (arith, few, short, length-append newest line)))
          ]
        ]

    -- With a query and at least one column, the search ends. It returns the newest matches of all
    -- lines up to the limit, in the order of the buffer, and says that there are more exactly when
    -- there are.
    pub find_terminal_matches_lem :
        (limit : ℕ)
        → 0 < cols
        → find_terminal_matches casefold buffer query cols limit
          ≡ some (newest_of limit (matches_above buffer.size (buffer.size - 1)))
    unfolding find_terminal_matches
    find_terminal_matches_lem limit wide =
        let asked : (nat_beq (length query) 0 || nat_beq cols 0) ≡ false =
          ground (arith, some_query, wide) in
        rw asked (find_from_lem limit buffer.size buffer.size [] (omega arith) (omega arith))
