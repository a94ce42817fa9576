-- ===== src/Terminal/Search/Locate.antt =====
-- The row that a unit of a logical line stands in.
use outright.Base.{
  ℕ, zero, suc, ◌+◌, ◌-◌, ◌/◌, ◌≤◌, ◌<◌, ◌≡◌, ◌⊎◌, inl, inr, Bool, true, false, ltb, leb, none,
  some, List, get_elem?, arith, Bool-cases,
}
use outright.Terminal.Search.{row_of}

-- Whether a row starts at a unit or before it.
abbrev pub starts_by : List ℕ → ℕ → ℕ → Bool
starts_by starts unit row = elim (get_elem? starts row) [
  | none ↦ false
  | some start ↦ leb start unit
]

middle_between :
    (low high : ℕ) → low < high → (low < (low + high + 1) / 2) × ((low + high + 1) / 2 ≤ high)
middle_between low high h = grind (arith, h)

-- With a turn for each row and a first row that starts at the unit or before it, the search ends at
-- such a row, and it is the last row or the next one starts after the unit.
pub row_of_lem :
    (fuel : ℕ) (starts : List ℕ) (unit low high : ℕ)
    → low ≤ high
    → high ≤ low + fuel
    → starts_by starts unit low ≡ true
    → let row = row_of fuel starts unit low high in
      (low ≤ row)
      × (row ≤ high)
      × (starts_by starts unit row ≡ true)
      × ((row ≡ high) ⊎ (starts_by starts unit (suc row) ≡ false))
unfolding row_of
row_of_lem zero starts unit low high ordered enough at =
    (omega arith, ordered, at, inl (omega (arith, ordered, enough)))
row_of_lem (suc fuel) starts unit low high ordered enough at = elim (Bool-cases (ltb low high)) [
  | inr done ↦ rw done (omega arith, ordered, at, inl (ground (arith, done, ordered)))
  | inl more ↦
      let middle = (low + high + 1) / 2 in
      let between = middle_between low high (ground (arith, more)) in
      elim (Bool-cases (starts_by starts unit middle)) [
        | inl right ↦
            let (above, below, here, last) =
              row_of_lem fuel starts unit middle high (omega (arith, between))
                (omega (arith, between, enough)) right in
            rw (more, right) (omega (arith, above, between), below, here, last)
        | inr left ↦
            let (above, below, here, last) =
              row_of_lem fuel starts unit low (middle - 1) (omega (arith, between))
                (omega (arith, between, enough)) at in
            let row = row_of fuel starts unit low (middle - 1) in
            rw (more, left)
              (
                above,
                omega (arith, below, between),
                here,
                elim last [
                  | inl e ↦
                      let next : suc row ≡ middle = omega (arith, e, between) in inr (rw next left)
                  | inr apart ↦ inr apart
                ],
              )
      ]
]
