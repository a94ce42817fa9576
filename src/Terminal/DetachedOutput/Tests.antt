-- ===== src/Terminal/DetachedOutput/Tests.antt =====
-- A ring of four bytes that cuts a pair whole, and the theorem at it.
use outright.Base.{
  ℕ, ◌+◌, ◌≤◌, ◌≡◌, ◌⊎◌, min, if◌then◌else◌, ltb, none, some, List, [], ◌∷◌, length, drop, refl,
}
use outright.Terminal.DetachedOutput.{
  new_ring, take_output, max_safe_integer, push, push_pieces, append, extend_last, trim,
  drop_chunks, cut_oldest, cut_text,
}
use outright.Terminal.DetachedOutput.Utf8.{utf8_bytes, is_high, is_low, unit_bytes}
use outright.Terminal.DetachedOutput.Kept.{
  Call, push_output, shed_output, calls, pushed, shed_count, take_output-calls,
}

abbrev made : List Call
made = push_output (97 ∷ 55357 ∷ []) ∷ shed_output 5 ∷ push_output (56832 ∷ 98 ∷ []) ∷ []

cut_run : (take_output (calls 4 new_ring made)).output ≡ 98 ∷ []
unfolding push push_pieces append extend_last trim drop_chunks cut_oldest cut_text utf8_bytes
    is_high is_low unit_bytes
cut_run = refl

notice_run : (take_output (calls 4 new_ring made)).notice ≡ some 8
unfolding push push_pieces append extend_last trim drop_chunks cut_oldest cut_text utf8_bytes
    is_high is_low unit_bytes
notice_run = refl

take_output-calls_example :
    let ring = calls 4 new_ring made in
    let taken = take_output ring in
    (cut : ℕ) × (taken.output ≡ drop cut (pushed made))
    × (cut ≤ length (pushed made))
    × (taken.notice ≡ (
        if ltb 0 (cut + shed_count made)
        then some (min max_safe_integer (cut + shed_count made))
        else none))
    × (utf8_bytes taken.output ≤ ring.bytes)
    × (ring.bytes ≤ 4)
    × ((cut ≡ 0) ⊎ (4 ≤ ring.bytes + 3))
take_output-calls_example = take_output-calls 4 made
