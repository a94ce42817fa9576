-- ===== src/Terminal/Search/Tests.antt =====
-- Two wrapped rows of three columns with three matches, and the theorem at them.
use outright.Base.{
  ℕ, zero, suc, ◌-◌, ◌≡◌, refl, Bool, true, false, Option, none, some, List, [], ◌∷◌, get_elem?,
  arith,
}
use outright.Terminal.Search.{
  Cell, Line, Buffer, find_terminal_matches, find_from, line_matches, line_start, visit_index,
  last_index_of, match_at, locate, cells_from, row_of, row_starts, logical_line_rows,
  fold_find_text,
}
use outright.Terminal.Search.Capped.{find_terminal_matches_lem, newest_of, matches_above}

abbrev no_folding : ℕ → Option (List ℕ)
no_folding unit = none

abbrev letters : List ℕ → ℕ → Option Cell
letters units col = elim (get_elem? units col) [
  | none ↦ none
  | some unit ↦ some (record { chars = unit ∷ []; width = 1 })
]

abbrev line_of : Bool → List ℕ → Line
line_of wrapped units = record {
  is_wrapped = wrapped;
  size = 3;
  cell = letters units;
  text = λ trimmed. units;
}

-- The rows "aba" and "bab", the second a continuation of the first.
abbrev rows : ℕ → Option Line
rows zero = some (line_of false (97 ∷ 98 ∷ 97 ∷ []))
rows (suc zero) = some (line_of true (98 ∷ 97 ∷ 98 ∷ []))
rows (suc (suc row)) = none

abbrev buffer : Buffer
buffer = record { size = 2; line = rows }

abbrev query : List ℕ
query = 97 ∷ 98 ∷ []

capped_run :
    find_terminal_matches no_folding buffer query 3 2
    ≡ some (record {
      matches = record { row = 0; col = 2; size = 2 } ∷ record { row = 1; col = 1; size = 2 } ∷ [];
      capped = true;
    })
unfolding find_terminal_matches find_from line_matches line_start visit_index last_index_of match_at
    locate cells_from row_of row_starts logical_line_rows fold_find_text
capped_run = refl

find_terminal_matches_lem_example :
    find_terminal_matches no_folding buffer query 3 2
    ≡ some (newest_of 2 (matches_above no_folding buffer query 3 2 (2 - 1)))
find_terminal_matches_lem_example =
    find_terminal_matches_lem no_folding buffer query 3 (omega arith) 2 (omega arith)
