-- ===== src/Terminal/SavedPages/Pages.antt =====
-- The pages follow one another and hold every row.
use outright.Base.{
  ℕ, zero, suc, ◌+◌, ◌-◌, ◌*◌, ◌/◌, ◌≤◌, ◌<◌, ◌≡◌, max, some, nat_beq, List, [], ◌∷◌, length, arith,
  refl, Bool-cases, inl, inr,
}
use outright.Terminal.SavedPages.{
  even_size, open_after, open_before, page_start, pages_from, saved_row_pages, ceil_div,
}

open_after_bounds :
    (rows : List (List ℕ)) (left row : ℕ)
    → (row ≤ open_after rows left row) × (open_after rows left row ≤ row + left)
unfolding open_after
open_after_bounds rows zero row = omega arith
open_after_bounds rows (suc left) row = ground (arith, open_after_bounds rows left (suc row))

open_before_bounds :
    (rows : List (List ℕ)) (left row : ℕ)
    → left ≤ row
    → (row - left ≤ open_before rows left row) × (open_before rows left row ≤ row)
unfolding open_before
open_before_bounds rows zero row h = omega arith
open_before_bounds rows (suc left) row h = ground (arith, h, open_before_bounds rows left (row - 1))

-- A page is not empty and has at most the rows that fit.
page_start_bounds :
    (rows : List (List ℕ)) (size even end : ℕ)
    → 0 < even
    → even ≤ size
    → 0 < end
    → (page_start rows size even end < end) × (end ≤ page_start rows size even end + size)
unfolding page_start
page_start_bounds rows size even end h k l =
    let start = end - even in
    ground (
      arith,
      h,
      k,
      l,
      open_after_bounds rows (end - start) start,
      open_before_bounds rows (start - (end - size)) start,
    )

-- Pages from the first row on to `end`, each of one to `size` rows.
abbrev pub IsPaged : ℕ → ℕ → ℕ → List (ℕ × ℕ) → Type 0
IsPaged size from end [] = from ≡ end
IsPaged size from end ((start, stop) ∷ pages) =
    (start ≡ from) × (start < stop) × (stop ≤ start + size) × IsPaged size stop end pages

pages_from_total :
    (fuel : ℕ) (rows : List (List ℕ)) (size even end total : ℕ) (pages : List (ℕ × ℕ))
    → 0 < even
    → even ≤ size
    → 0 < end
    → end < fuel
    → IsPaged size end total pages
    → (all : List (ℕ × ℕ)) × (pages_from fuel rows size even end pages ≡ some all)
      × IsPaged size 0 total all
unfolding pages_from
pages_from_total zero rows size even end total pages h k l enough paged = ground (arith, enough)
pages_from_total (suc fuel) rows size even end total pages h k l enough paged =
    let start = page_start rows size even end in
    let bounds = page_start_bounds rows size even end h k l in
    elim (Bool-cases (nat_beq start 0)) [
      | inl e ↦ ((start, end) ∷ pages, rw e refl, (ground (arith, e), bounds.0, bounds.1, paged))
      | inr e ↦ rw e (
          pages_from_total fuel rows size even start total ((start, end) ∷ pages) h k
            (ground (arith, e)) (omega (arith, enough, bounds)) (refl, bounds.0, bounds.1, paged))
    ]

div_pos : (a d : ℕ) → 0 < d → d ≤ a → 0 < a / d
div_pos a d h k = grind (arith, h, k)

div-lt : (a d n : ℕ) → 0 < d → a < n * d → a / d < n
div-lt a d n h k = grind (arith, h, k)

ceil_div_covers : (a d : ℕ) → 0 < d → a ≤ ceil_div a d * d
ceil_div_covers a d h = grind (arith, h)

even_parts :
    (count size parts : ℕ)
    → 0 < count
    → 0 < parts
    → count ≤ parts * size
    → (0 < ceil_div count parts) × (ceil_div count parts ≤ size)
even_parts count size parts h k l = (
  div_pos (count + parts - 1) parts k (omega arith),
  omega (arith, div-lt (count + parts - 1) parts (suc size) k (grind (arith, h, k, l))),
)

even_size_bounds :
    (count size : ℕ)
    → 0 < count
    → 0 < size
    → (0 < even_size count size) × (even_size count size ≤ size)
unfolding even_size
even_size_bounds count size h k =
    let parts = ceil_div count size in
    even_parts count size (max 1 parts) h (omega arith)
      (grind (arith, ceil_div_covers count size k))

-- With at least one row and a page size, the pages are found, and they hold every row once, in order,
-- each from one row to the page size.
pub saved_row_pages_total :
    (rows : List (List ℕ)) (size : ℕ)
    → 0 < length rows
    → 0 < size
    → (pages : List (ℕ × ℕ)) × (saved_row_pages rows size ≡ some pages)
      × IsPaged size 0 (length rows) pages
unfolding saved_row_pages
saved_row_pages_total rows size h k =
    let even = even_size_bounds (length rows) size h k in
    let (pages, e, paged) =
      pages_from_total (suc (length rows)) rows size (even_size (length rows) size) (length rows)
        (length rows) [] even.0 even.1 h (omega arith) refl in
    (pages, e, paged)
