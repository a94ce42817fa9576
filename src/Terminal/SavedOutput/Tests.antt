-- ===== src/Terminal/SavedOutput/Tests.antt =====
-- Saved output at a small view, and the theorems at it.
use outright.Base.{ℕ, ◌+◌, ◌*◌, ◌≤◌, ◌<◌, ◌≡◌, refl, true, List, [], ◌∷◌, arith}
use outright.Terminal.Scanner.{
  control_scanner, scan, read, read_inside, read_within, read_step, escape_first, escape_step,
  csi_step, starts, escape_strings, ending, executed,
}
use outright.Terminal.SavedOutput.{
  View, settled, period, kept_of, left_out, saved_segments, role_of, first_param, number, divisor,
  half_of,
}
use outright.Terminal.SavedOutput.Repeats.{kept_of_lem}
use outright.Terminal.SavedOutput.Lossless.{joined-saved_segments, joined_all, all_kept}

abbrev view : View
view = record { cols = 10; rows = 4; digits = λ n. n ∷ [] }

-- ESC [ 3 1 m x
abbrev coloured : List ℕ
coloured = 0x1b ∷ b'[' ∷ b'3' ∷ b'1' ∷ b'm' ∷ b'x' ∷ []

kept_run : kept_of view 1000 ≡ 100
unfolding kept_of period divisor half_of
kept_run = refl

settled_run : settled view < 1000
unfolding period divisor half_of
settled_run = omega arith

kept_of_lem_example :
    (kept_of view 1000 + left_out view 1000 * period view ≡ 1000)
    × (settled view ≤ kept_of view 1000)
    × (kept_of view 1000 < settled view + period view)
kept_of_lem_example = kept_of_lem view 1000 (omega arith) settled_run

all_run : all_kept view (control_scanner coloured) ≡ true
unfolding control_scanner scan read read_inside read_within read_step escape_first escape_step
    csi_step starts escape_strings ending executed role_of first_param number
all_run = refl

joined-saved_segments_example : joined_all (saved_segments view coloured) ≡ coloured
joined-saved_segments_example = joined-saved_segments view coloured all_run
