-- ===== src/Terminal/Scanner/Slices.antt =====
-- A buffer read in slices.
use outright.Base.{
  ℕ, suc, ◌+◌, ◌≤◌, ◌<◌, ◌≡◌, true, false, Option, none, some, ltb, leb, List, [], ◌∷◌, ◌++◌,
  length, arith, refl, Bool-cases, inl, inr, ap, sym, ◌∙◌, max,
}
use outright.Terminal.Scanner.{
  Token, Position, printing, inside, Reader, read, next_of, visit, scan,
}
use outright.Terminal.Scanner.Spans.{
  Placed, Found-Placed, Placed-later, read-IsForward, scan-Chain, Within,
}

Within-at : (position : Position) (at other : ℕ) → Within position at (max at other)
Within-at printing at other = omega arith
Within-at (inside phase t) at other = omega arith

module _ (unit : ℕ) (units : List ℕ) (index end : ℕ) (r : Reader) where
  scan_skip : ltb index r.at ≡ true → scan (unit ∷ units) index end r ≡ scan units (suc index) end r
  unfolding scan
  scan_skip e = rw e

  scan_stop :
      ltb index r.at ≡ false → leb end index ≡ true → scan (unit ∷ units) index end r ≡ (r, [])
  unfolding scan
  scan_stop e f = rw (e, f)

  scan_turn :
      ltb index r.at ≡ false
      → leb end index ≡ false
      → let turn = read r.position index unit (next_of units) in
        let rest = scan units (suc index) end (record { position = turn.position; at = turn.at }) in
        scan (unit ∷ units) index end r ≡ (rest.0, visit turn.visited rest.1)
  unfolding scan
  scan_turn e f = rw (e, f)

-- A call goes no way back.
scan-at-le :
    (units : List ℕ) (index end : ℕ) (r : Reader)
    → Placed 0 r.position r.at
    → r.at ≤ (scan units index end r).0.at
scan-at-le units index end r placed =
    (scan-Chain units index end r 0 (max r.at (index + length units)) placed (omega arith)
      (Within-at r.position r.at (index + length units))).0

visit-append :
    (visited : Option Token) (front back : List Token)
    → visit visited (front ++ back) ≡ visit visited front ++ back
visit-append none front back = refl
visit-append (some token) front back = refl

-- A call up to `end` and one up to `later` after it.
abbrev pub scan_twice : List ℕ → ℕ → ℕ → ℕ → Reader → Reader × List Token
scan_twice units index end later r =
    let first = scan units index end r in
    let second = scan units index later first.0 in (second.0, first.1 ++ second.1)

abbrev followed : List ℕ → ℕ → ℕ → Reader × List Token → Reader × List Token
followed units index later first =
    let second = scan units index later first.0 in (second.0, first.1 ++ second.1)

abbrev visited_first : Option Token → Reader × List Token → Reader × List Token
visited_first visited rest = (rest.0, visit visited rest.1)

scan_nil :
    (index end later : ℕ) (r : Reader) → scan [] index later r ≡ scan_twice [] index end later r
unfolding scan
scan_nil index end later r = refl

followed_skip :
    (unit : ℕ) (units : List ℕ) (index later : ℕ) (first : Reader × List Token)
    → index < first.0.at
    → followed (unit ∷ units) index later first ≡ followed units (suc index) later first
followed_skip unit units index later first h =
    rw (scan_skip unit units index later first.0 (ground (arith, h)))

-- A call up to `later` reads as a call up to an earlier end, followed by one up to `later`.
pub scan-scan_twice :
    (units : List ℕ) (index end later : ℕ) (r : Reader)
    → Placed 0 r.position r.at
    → end ≤ later
    → scan units index later r ≡ scan_twice units index end later r
scan-scan_twice [] index end later r placed h = scan_nil index end later r
scan-scan_twice (unit ∷ units) index end later r placed h = elim (Bool-cases (ltb index r.at)) [
  | inl e ↦
      let first = scan units (suc index) end r in
      scan_skip unit units index later r e
      ∙ scan-scan_twice units (suc index) end later r placed h
      ∙ sym (
          ap (followed (unit ∷ units) index later) (scan_skip unit units index end r e)
          ∙ followed_skip unit units index later first
              (ground (arith, e, scan-at-le units (suc index) end r placed)))
  | inr e ↦ elim (Bool-cases (leb end index)) [
    | inl f ↦ rw (scan_stop unit units index end r e f) refl
    | inr f ↦
        let turn = read r.position index unit (next_of units) in
        let after : Reader = record { position = turn.position; at = turn.at } in
        let ahead =
          read-IsForward 0 r.position index unit (next_of units)
            (Placed-later 0 r.position r.at index placed (ground (arith, e))) in
        let forward = Found-Placed 0 turn.visited turn.position turn.at ahead.2 in
        let first = scan units (suc index) end after in
        let second = scan units (suc index) later first.0 in
        scan_turn unit units index later r e (ground (arith, f, h))
        ∙ ap (visited_first turn.visited)
            (scan-scan_twice units (suc index) end later after forward h)
        ∙ ap (λ tokens. (second.0, tokens)) (visit-append turn.visited first.1 second.1)
        ∙ sym (
            ap (followed (unit ∷ units) index later) (scan_turn unit units index end r e f)
            ∙ followed_skip unit units index later (visited_first turn.visited first)
                (omega (arith, ahead.0, scan-at-le units (suc index) end after forward)))
  ]
]
