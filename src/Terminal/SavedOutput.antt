-- ===== src/Terminal/SavedOutput.antt =====
-- src/lib/terminal-exit-state.js, savedSegments: saved output as the writes that draw it again, split
-- at each full reset. The digits of a number are a parameter. The reader's slices are left out here,
-- and with them the pauses at which an activation may be dropped.
pub mod Repeats
pub mod Lossless
pub mod Tests
use outright.Base.{
  ℕ, zero, suc, ◌+◌, ◌-◌, ◌*◌, ◌/◌, ◌%◌, ◌^◌, min, max, Bool, true, false, ◌&&◌, ◌||◌, not, Option,
  none, some, if◌then◌else◌, ltb, leb, nat_beq, List, [], ◌∷◌, ◌++◌, length, take, drop,
}
use outright.Base.Slices.{slice}
use outright.Terminal.Scanner.{
  Token, Kind, csi_sequence, esc_sequence, control_scanner, executed, in_range, one_of,
}

abbrev pub work_slice : ℕ
work_slice = 2 ^ 19

abbrev pub text_slice : ℕ
text_slice = 32_768

abbrev pub max_param : ℕ
max_param = 0x7fffffff

abbrev pub repeat_hook : ℕ
repeat_hook = 7357

-- `divisor`; the second argument falls in every call, so it is enough fuel.
unfoldable pub divisor : ℕ → ℕ → ℕ → ℕ
divisor zero a b = a
divisor (suc fuel) a b = elim b [ zero ↦ a | suc c ↦ divisor fuel (suc c) (a % suc c) ]

-- The view's size, with what `repeatRule` makes of it, and the digits of a number.
pub record View : Type 0 where
  pub cols : ℕ
  pub rows : ℕ
  pub digits : ℕ → List ℕ

unfoldable pub half_of : ℕ → ℕ
half_of cols = max 1 (cols / 2)

-- `repeatRule`
unfoldable pub period : View → ℕ
period view = let half = half_of view.cols in (view.cols / divisor (suc half) view.cols half) * half

abbrev pub settled : View → ℕ
settled view = (2 * view.rows + 1) * view.cols + period view

pub record Held : Type 0 where
  pub char : ℕ
  pub count : ℕ
  pub verbatim : Option (List ℕ)

-- The variables of `savedSegments`.
pub record Writer : Type 0 where
  pub segments : List (List (List ℕ))
  pub writes : List (List ℕ)
  pub pending : List ℕ
  pub work : ℕ
  pub from : ℕ
  pub previous : Option Token
  pub held : Option Held

abbrev pub new_writer : Writer
new_writer = record {
  segments = [];
  writes = [];
  pending = [];
  work = 0;
  from = 0;
  previous = none;
  held = none;
}

-- `emit`
unfoldable pub emit : List ℕ → ℕ → Writer → Writer
emit text weight w =
    if ltb (w.work + weight) work_slice
    then record w { pending = w.pending ++ text; work = w.work + weight }
    else record w { writes = w.writes ++ (w.pending ++ text) ∷ []; pending = []; work = 0 }

abbrev pub emit_all : List ℕ → Writer → Writer
emit_all text w = emit text (length text) w

abbrev pub is_high : Option ℕ → Bool
is_high none = false
is_high (some unit) = in_range unit 0xd800 0xdbff

abbrev pub last_of : List ℕ → Option ℕ
last_of [] = none
last_of (unit ∷ []) = some unit
last_of (unit ∷ other ∷ units) = last_of (other ∷ units)

abbrev pub newlines : List ℕ → ℕ
newlines [] = 0
newlines (unit ∷ units) = (if nat_beq unit 0x0a then 1 else 0) + newlines units

-- The length of the next piece: a pair of surrogates is not cut.
unfoldable pub piece_length : List ℕ → ℕ
piece_length text = if is_high (last_of (take text_slice text)) then suc text_slice else text_slice

-- `emitText`; a piece has at least one code unit, so the text's length is enough fuel.
unfoldable pub emit_pieces : ℕ → View → List ℕ → Writer → Writer
emit_pieces zero view text w = w
emit_pieces (suc fuel) view [] w = w
emit_pieces (suc fuel) view (unit ∷ units) w =
    let text = unit ∷ units in
    let piece = take (piece_length text) text in
    emit_pieces fuel view (drop (piece_length text) text)
      (emit piece (length piece + newlines piece * (view.cols / 8)) w)

abbrev pub emit_text : View → List ℕ → Writer → Writer
emit_text view text w = emit_pieces (length text) view text w

abbrev pub or_text : Option (List ℕ) → List ℕ → List ℕ
or_text none text = text
or_text (some verbatim) text = verbatim

-- How often a repeat that was shortened is kept, and the periods left out.
unfoldable pub kept_of : View → ℕ → ℕ
kept_of view count = settled view + (count - settled view) % period view

abbrev pub left_out : View → ℕ → ℕ
left_out view count = (count - kept_of view count) / period view

-- `emitRepeat`
unfoldable pub emit_repeat : View → ℕ → Option (List ℕ) → Writer → Writer
emit_repeat view count verbatim w =
    if leb count (settled view)
    then emit (or_text verbatim (0x1b ∷ b'[' ∷ view.digits count ++ b'b' ∷ [])) count w
    else emit
        (0x1b ∷ b'[' ∷ view.digits (kept_of view count)
          ++ b';' ∷ b'1' ∷ b'b' ∷ 0x1b ∷ b']' ∷ view.digits repeat_hook
          ++ b';' ∷ view.digits (left_out view count)
          ++ 0x07 ∷ [])
        (kept_of view count) w

unfoldable pub release_held : View → Option Held → Writer → Writer
release_held view none w = w
release_held view (some held) w = record (emit_repeat view held.count held.verbatim w) {
  held = none;
}

-- `release`
abbrev pub release : View → Writer → Writer
release view w = release_held view w.held w

abbrev pub is_empty : List ℕ → Bool
is_empty [] = true
is_empty (unit ∷ units) = false

-- `close`
unfoldable pub close_segment : View → Writer → Writer
close_segment view w =
    let r = release view w in
    record r {
      segments =
          r.segments ++ (if is_empty r.pending then r.writes else r.writes ++ r.pending ∷ []) ∷ [];
      writes = [];
      pending = [];
      work = 0;
    }

-- `gap === held.char.repeat(gap.length)`
unfoldable pub all_are : ℕ → List ℕ → Bool
all_are char [] = true
all_are char (unit ∷ units) = nat_beq unit char && all_are char units

abbrev pub all_digits : List ℕ → Bool
all_digits [] = true
all_digits (unit ∷ units) = in_range unit b'0' b'9' && all_digits units

abbrev pub is_csi : Option Token → Bool
is_csi none = false
is_csi (some token) = elim token.kind [ csi_sequence ↦ true | _ ↦ false ]

abbrev pub text_of : List ℕ → Token → List ℕ
text_of buffer token = slice token.start token.end buffer

abbrev pub is_executed : Option ℕ → Bool
is_executed none = false
is_executed (some unit) = executed unit

abbrev pub joins : Option Held → Token → List ℕ → Bool
joins none token gap = false
joins (some held) token gap = is_empty token.controls && not (is_empty gap) && all_are held.char gap

abbrev pub join_repeat : Option Held → List ℕ → ℕ → Option Held
join_repeat none gap count = none
join_repeat (some held) gap count =
    some (record held { count = held.count + length gap + count; verbatim = none })

-- The end of `repeat`, by the last code unit of the text before the repeat.
unfoldable pub start_repeat : View → ℕ → Option (List ℕ) → Option ℕ → Writer → Writer
start_repeat view count verbatim none w = emit_repeat view count verbatim w
start_repeat view count verbatim (some last) w =
    if in_range last 0x20 0x7e
    then record w { held = some (record { char = last; count = count; verbatim = verbatim }) }
    else emit_repeat view count verbatim w

-- `repeat`
unfoldable pub repeat : View → List ℕ → Token → List ℕ → ℕ → Writer → Writer
repeat view buffer token gap count w =
    if joins w.held token gap
    then record w { held = join_repeat w.held gap count }
    else let r = emit_text view gap (release view w) in
      let last = last_of gap in
      let verbatim = if all_digits token.params then some (text_of buffer token) else none in
      if not (is_empty token.controls) || (is_empty gap && is_csi w.previous) || is_executed last
      then emit_all token.controls r
      else start_repeat view count verbatim last r

-- `firstParam`: the digits before a `:` or `;`, their number, and the rest.
abbrev pub until_separator : List ℕ → List ℕ
until_separator [] = []
until_separator (unit ∷ units) =
    if in_range unit 0x3a 0x3b then [] else unit ∷ until_separator units

abbrev pub from_separator : List ℕ → List ℕ
from_separator [] = []
from_separator (unit ∷ units) =
    if in_range unit 0x3a 0x3b then unit ∷ units else from_separator units

unfoldable pub number : List ℕ → ℕ → ℕ
number [] n = n
number (unit ∷ units) n = number units (n * 10 + (unit - b'0'))

unfoldable pub first_param : List ℕ → ℕ
first_param params = min (number (until_separator params) 0) max_param

abbrev pub count_of : List ℕ → ℕ
count_of params = if nat_beq (first_param params) 0 then 1 else first_param params

-- What a sequence is to `savedSegments`.
pub data Role : Type 0 where
  repeating resetting erasing counting other_role : Role

abbrev pub is_final : List ℕ → ℕ → Bool
is_final [] code = false
is_final (unit ∷ units) code = nat_beq unit code

abbrev pub is_private : List ℕ → Bool
is_private [] = true
is_private (unit ∷ units) = nat_beq unit b'?'

-- COUNT_LIMITS, by whether the limit is of rows.
abbrev pub counts_rows : List ℕ → Bool
counts_rows [] = false
counts_rows (unit ∷ units) = one_of unit (b'S' ∷ b'T' ∷ b'L' ∷ b'M' ∷ [])

abbrev pub counts_cols : List ℕ → Bool
counts_cols [] = false
counts_cols (unit ∷ units) = one_of unit (b'I' ∷ b'Z' ∷ [])

abbrev pub is_plain : Token → Bool
is_plain token = is_csi (some token) && is_empty token.prefix && is_empty token.intermediates

abbrev pub is_esc : Token → Bool
is_esc token = elim token.kind [ esc_sequence ↦ true | _ ↦ false ]

unfoldable pub role_of : Token → Role
role_of token =
    if is_plain token && is_final token.final b'b'
    then repeating
    else if is_esc token && is_final token.final b'c' && is_empty token.intermediates
    then resetting
    else if is_csi (some token)
        && is_final token.final b'J'
        && is_empty token.intermediates
        && is_private token.prefix
        && nat_beq (first_param token.params) 3
    then erasing
    else if is_plain token && (counts_rows token.final || counts_cols token.final)
    then counting
    else other_role

abbrev pub limit_of : View → Token → ℕ
limit_of view token = if counts_rows token.final then view.rows else view.cols

-- A sequence with a count that may be cut to what the screen can show.
unfoldable pub emit_count : View → List ℕ → Token → Writer → Writer
emit_count view buffer token w =
    let limit = limit_of view token in
    let count = count_of token.params in
    let weight = min count limit * (if counts_rows token.final then view.cols / 4 else 1) in
    emit
      (if ltb limit count
        then token.controls
          ++ 0x1b ∷ b'[' ∷ view.digits limit
          ++ (from_separator token.params ++ token.final)
        else text_of buffer token)
      weight w

unfoldable pub emit_token : View → List ℕ → Token → Role → Writer → Writer
emit_token view buffer token repeating w = w
emit_token view buffer token resetting w = close_segment view (emit_all token.controls w)
emit_token view buffer token erasing w = emit_all token.controls w
emit_token view buffer token counting w = emit_count view buffer token w
emit_token view buffer token other_role w =
    let text = text_of buffer token in
    emit text (if is_final token.final b'J' then (view.rows * view.cols) / 8 else length text) w

abbrev pub is_repeating : Role → Bool
is_repeating repeating = true
is_repeating _ = false

-- The function that visits a sequence.
unfoldable pub visit_token : View → List ℕ → Token → Writer → Writer
visit_token view buffer token w =
    let gap = slice w.from token.start buffer in
    let moved = record w { from = token.end } in
    let next =
      if is_repeating (role_of token)
      then repeat view buffer token gap (count_of token.params) moved
      else emit_token view buffer token (role_of token) (emit_text view gap (release view moved)) in
    record next { previous = some token }

unfoldable pub visit_tokens : View → List ℕ → List Token → Writer → Writer
visit_tokens view buffer [] w = w
visit_tokens view buffer (token ∷ tokens) w =
    visit_tokens view buffer tokens (visit_token view buffer token w)

-- `savedSegments`
unfoldable pub saved_segments : View → List ℕ → List (List (List ℕ))
saved_segments view buffer =
    let w = visit_tokens view buffer (control_scanner buffer) new_writer in
    (close_segment view (emit_text view (drop w.from buffer) (release view w))).segments
