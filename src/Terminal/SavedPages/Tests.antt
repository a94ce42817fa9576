-- ===== src/Terminal/SavedPages/Tests.antt =====
-- Five rows in pages of two, and the theorem at them.
use outright.Base.{ℕ, ◌≡◌, refl, some, List, [], ◌∷◌, arith}
use outright.Terminal.SavedPages.{
  saved_row_pages, pages_from, even_size, page_start, open_after, open_before, opens,
}
use outright.Terminal.SavedPages.Pages.{saved_row_pages_total, IsPaged}

abbrev line : List ℕ
line = 0x0d ∷ 0x0a ∷ b'a' ∷ []

-- The third row wraps from the second.
abbrev rows : List (List ℕ)
rows = line ∷ line ∷ (b'b' ∷ []) ∷ line ∷ line ∷ []

pages_run : saved_row_pages rows 2 ≡ some ((0, 1) ∷ (1, 3) ∷ (3, 5) ∷ [])
unfolding saved_row_pages pages_from even_size page_start open_after open_before opens
pages_run = refl

saved_row_pages_total_example :
    (pages : List (ℕ × ℕ)) × (saved_row_pages rows 2 ≡ some pages) × IsPaged 2 0 5 pages
saved_row_pages_total_example = saved_row_pages_total rows 2 (omega arith) (omega arith)
