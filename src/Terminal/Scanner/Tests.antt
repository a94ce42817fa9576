-- ===== src/Terminal/Scanner/Tests.antt =====
-- A coloured letter read by the scanner, and the theorems at it.
use outright.Base.{ℕ, ◌≡◌, refl, List, [], ◌∷◌, arith}
use outright.Terminal.Scanner.{
  Reader, printing, scan, control_scanner, escape_spans, spans_of, read, read_inside, read_within,
  read_step, escape_first, escape_step, csi_step, starts, escape_strings, ending, executed,
}
use outright.Terminal.Scanner.Spans.{IsOrdered, control_scanner-IsOrdered}
use outright.Terminal.Scanner.Slices.{scan-scan_twice, scan_twice}

-- ESC [ 3 1 m x ESC c
abbrev pub coloured : List ℕ
coloured = 0x1b ∷ b'[' ∷ b'3' ∷ b'1' ∷ b'm' ∷ b'x' ∷ 0x1b ∷ b'c' ∷ []

abbrev begin : Reader
begin = record { position = printing; at = 0 }

spans_run : escape_spans coloured ≡ 0 ∷ 5 ∷ 6 ∷ 8 ∷ []
unfolding control_scanner spans_of scan read read_inside read_within read_step escape_first
    escape_step csi_step starts escape_strings ending executed
spans_run = refl

control_scanner-IsOrdered_example : IsOrdered 0 9 (control_scanner coloured)
control_scanner-IsOrdered_example = control_scanner-IsOrdered coloured

scan-scan_twice_example : scan coloured 0 8 begin ≡ scan_twice coloured 0 3 8 begin
scan-scan_twice_example = scan-scan_twice coloured 0 3 8 begin (omega arith) (omega arith)
