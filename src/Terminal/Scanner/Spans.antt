-- ===== src/Terminal/Scanner/Spans.antt =====
-- Where the control sequences of a buffer lie.
use outright.Base.{
  ℕ, suc, ◌+◌, ◌≤◌, ◌<◌, min, Option, none, some, ltb, leb, List, [], ◌∷◌, ◌++◌, length, arith,
  Bool-cases, inl, inr,
}
use outright.Terminal.Scanner.{
  Phase, escape, escape_intermediate, csi, csi_param, csi_intermediate, csi_ignore, osc, string,
  Opened, Token, Position, printing, inside, Reader, Turn, escape_first, escape_step, csi_step,
  read_step, read_within, read_inside, read, next_of, visit, scan, close, control_scanner,
}

-- A sequence that is being read starts at or after `low` and before `at`.
abbrev pub Placed : ℕ → Position → ℕ → Type 0
Placed low printing at = low ≤ at
Placed low (inside phase t) at = (low ≤ t.start) × (t.start < at)

abbrev pub Found : ℕ → Option Token → Position → ℕ → Type 0
Found low none position at = Placed low position at
Found low (some token) position at =
    (low ≤ token.start)
    × (token.start < token.end)
    × (token.end ≤ at)
    × Placed token.end position at

-- Only the second half of a pair, or the end of a terminator, may lie past a limit.
abbrev pub Within : Position → ℕ → ℕ → Type 0
Within printing at limit = at ≤ suc limit
Within (inside phase t) at limit = at ≤ limit

-- A turn goes forward by one or two code units, and what it visits lies behind.
abbrev pub IsForward : ℕ → ℕ → Turn → Type 0
IsForward low index turn =
    (index < turn.at)
    × Within turn.position turn.at (suc index)
    × Found low turn.visited turn.position turn.at

module _ (low : ℕ) (t : Opened) (index : ℕ) (placed : Placed low (inside escape t) index) where
  escape_step-IsForward :
      (phase : Phase) (code : ℕ) → IsForward low index (escape_step phase t index code)
  unfolding escape_step
  escape_step-IsForward phase code = ground (arith, placed)

  escape_first-IsForward : (code : ℕ) → IsForward low index (escape_first t index code)
  unfolding escape_first
  escape_first-IsForward code = ground (arith, placed, escape_step-IsForward escape code)

  csi_step-IsForward :
      (phase : Phase) (code : ℕ) → IsForward low index (csi_step phase t index code)
  unfolding csi_step
  csi_step-IsForward phase code = ground (arith, placed)

  read_step-IsForward :
      (phase : Phase) (code : ℕ) → IsForward low index (read_step phase t index code)
  unfolding read_step
  read_step-IsForward escape code = escape_first-IsForward code
  read_step-IsForward escape_intermediate code = escape_step-IsForward escape_intermediate code
  read_step-IsForward csi_ignore code = ground (arith, placed)
  read_step-IsForward csi code = csi_step-IsForward csi code
  read_step-IsForward csi_param code = csi_step-IsForward csi_param code
  read_step-IsForward csi_intermediate code = csi_step-IsForward csi_intermediate code
  read_step-IsForward osc code = ground (arith, placed)
  read_step-IsForward string code = ground (arith, placed)

  read_within-IsForward :
      (phase : Phase) (unit : ℕ) → IsForward low index (read_within phase t index unit)
  unfolding read_within
  read_within-IsForward phase unit =
      ground (arith, placed, read_step-IsForward phase (min unit 0xa0))

  read_inside-IsForward :
      (phase : Phase) (unit : ℕ) (next : Option ℕ)
      → IsForward low index (read_inside phase t index unit next)
  unfolding read_inside
  read_inside-IsForward phase unit next = ground (arith, placed, read_within-IsForward phase unit)

pub read-IsForward :
    (low : ℕ) (position : Position) (index unit : ℕ) (next : Option ℕ)
    → Placed low position index
    → IsForward low index (read position index unit next)
unfolding read
read-IsForward low printing index unit next placed = ground (arith, placed)
read-IsForward low (inside phase t) index unit next placed =
    read_inside-IsForward low t index placed phase unit next

pub Found-Placed :
    (low : ℕ) (visited : Option Token) (position : Position) (at : ℕ)
    → Found low visited position at
    → Placed 0 position at
Found-Placed low none printing at h = omega arith
Found-Placed low none (inside phase t) at h = omega arith
Found-Placed low (some token) printing at h = omega arith
Found-Placed low (some token) (inside phase t) at h = omega arith

-- Sequences in the order of the buffer, none within another, the last of which ends before what is
-- being read.
abbrev pub Chain : ℕ → List Token → Position → ℕ → Type 0
Chain low [] position at = Placed low position at
Chain low (token ∷ tokens) position at =
    (low ≤ token.start) × (token.start < token.end) × Chain token.end tokens position at

pub Placed-later :
    (low : ℕ) (position : Position) (at index : ℕ)
    → Placed low position at
    → at ≤ index
    → Placed low position index
Placed-later low printing at index h k = omega arith
Placed-later low (inside phase t) at index h k = omega arith

Within-later :
    (position : Position) (at limit later : ℕ)
    → Within position at limit
    → limit ≤ later
    → Within position at later
Within-later printing at limit later h k = omega arith
Within-later (inside phase t) at limit later h k = omega arith

Chain-visit :
    (low : ℕ) (visited : Option Token) (position : Position) (at : ℕ) (tokens : List Token)
    (last : Position) (end : ℕ)
    → Found low visited position at
    → ((next : ℕ) → Placed next position at → Chain next tokens last end)
    → Chain low (visit visited tokens) last end
Chain-visit low none position at tokens last end found rest = rest low found
Chain-visit low (some token) position at tokens last end (from, long, before, placed) rest =
    (from, long, rest token.end placed)

-- What a call of the reader has visited and where it is.
pub scan-Chain :
    (units : List ℕ) (index end : ℕ) (r : Reader) (low limit : ℕ)
    → Placed low r.position r.at
    → index + length units ≤ limit
    → Within r.position r.at limit
    → let s = scan units index end r in
      (r.at ≤ s.0.at) × Within s.0.position s.0.at limit × Chain low s.1 s.0.position s.0.at
unfolding scan
scan-Chain [] index end r low limit placed inner within = (omega arith, within, placed)
scan-Chain (unit ∷ units) index end r low limit placed inner within =
    elim (Bool-cases (ltb index r.at)) [
      | inl e ↦
          rw e (scan-Chain units (suc index) end r low limit placed (omega (arith, inner)) within)
      | inr e ↦ elim (Bool-cases (leb end index)) [
        | inl f ↦ rw (e, f) (omega arith, within, placed)
        | inr f ↦
            rw (e, f)
              (let turn = read r.position index unit (next_of units) in
                let ahead =
                  read-IsForward low r.position index unit (next_of units)
                    (Placed-later low r.position r.at index placed (ground (arith, e))) in
                let after : Reader = record { position = turn.position; at = turn.at } in
                let near =
                  Within-later turn.position turn.at (suc index) limit ahead.1
                    (omega (arith, inner)) in
                let bounds =
                  scan-Chain units (suc index) end after 0 limit
                    (Found-Placed low turn.visited turn.position turn.at ahead.2)
                    (omega (arith, inner)) near in
                (
                  ground (arith, e, ahead.0, bounds.0),
                  bounds.1,
                  Chain-visit low turn.visited turn.position turn.at _ _ _ ahead.2 (λ next h.
                      (scan-Chain units (suc index) end after next limit h (omega (arith, inner))
                        near).2),
                ))
      ]
    ]

-- Sequences in the order of the buffer, none within another and none empty, up to a limit.
abbrev pub IsOrdered : ℕ → ℕ → List Token → Type 0
IsOrdered low limit [] = low ≤ limit
IsOrdered low limit (token ∷ tokens) =
    (low ≤ token.start) × (token.start < token.end) × IsOrdered token.end limit tokens

close-IsOrdered :
    (low limit : ℕ) (tokens : List Token) (position : Position) (at : ℕ)
    → Chain low tokens position at
    → Within position at limit
    → IsOrdered low (suc limit) (tokens ++ close position limit)
close-IsOrdered low limit [] printing at chain within = omega arith
close-IsOrdered low limit [] (inside phase t) at chain within = omega arith
close-IsOrdered low limit (token ∷ tokens) position at (from, long, chain) within =
    (from, long, close-IsOrdered token.end limit tokens position at chain within)

-- The control sequences of a buffer are not empty, stand in its order and do not overlap; the last
-- may take one code unit past the buffer, the missing half of a pair.
pub control_scanner-IsOrdered :
    (buffer : List ℕ) → IsOrdered 0 (suc (length buffer)) (control_scanner buffer)
unfolding control_scanner
control_scanner-IsOrdered buffer =
    let begin : Reader = record { position = printing; at = 0 } in
    let s = scan buffer 0 (length buffer) begin in
    let all =
      scan-Chain buffer 0 (length buffer) begin 0 (length buffer) (omega arith) (omega arith)
        (omega arith) in
    close-IsOrdered 0 (length buffer) s.1 s.0.position s.0.at all.2 all.1
