-- ===== src/Terminal/Scanner.antt =====
-- src/lib/terminal-exit-state.js, controlScanner: the control sequences of saved output, read as
-- xterm's parser reads them. A buffer is the list of its UTF-16 code units.
pub mod Slices
pub mod Spans
pub mod Tests
use outright.Base.{
  ℕ, suc, ◌+◌, min, Bool, true, false, ◌&&◌, ◌||◌, not, Option, none, some, if◌then◌else◌, ltb, leb,
  nat_beq, List, [], ◌∷◌, ◌++◌, length, take, drop,
}

-- The states within a sequence.
pub data Phase : Type 0 where
  escape escape_intermediate csi csi_param csi_intermediate csi_ignore osc string : Phase

pub data Kind : Type 0 where
  csi_sequence esc_sequence string_sequence ignored : Kind

-- A sequence that is being read.
pub record Opened : Type 0 where
  pub start : ℕ
  pub prefix : List ℕ
  pub params : List ℕ
  pub intermediates : List ℕ
  pub controls : List ℕ

pub record Token : Type 0 where
  pub start : ℕ
  pub end : ℕ
  pub kind : Kind
  pub prefix : List ℕ
  pub params : List ℕ
  pub intermediates : List ℕ
  pub final : List ℕ
  pub controls : List ℕ

-- `state` and `token`: GROUND, or one and how far it is.
pub data Position : Type 0 where
  printing : Position
  inside : Phase → Opened → Position

pub record Reader : Type 0 where
  pub position : Position
  pub at : ℕ

abbrev pub in_range : ℕ → ℕ → ℕ → Bool
in_range code low high = leb low code && leb code high

abbrev pub one_of : ℕ → List ℕ → Bool
one_of code [] = false
one_of code (other ∷ others) = nat_beq code other || one_of code others

-- STARTS
unfoldable pub starts : ℕ → Option Phase
starts code =
    if nat_beq code 0x1b
    then some escape
    else if nat_beq code 0x9b
    then some csi
    else if nat_beq code 0x9d
    then some osc
    else if one_of code (0x90 ∷ 0x98 ∷ 0x9e ∷ 0x9f ∷ [])
    then some string
    else none

-- ESCAPE_STRINGS
unfoldable pub escape_strings : ℕ → Option Phase
escape_strings code =
    if nat_beq code 0x5b
    then some csi
    else if nat_beq code 0x5d
    then some osc
    else if one_of code (0x50 ∷ 0x58 ∷ 0x5e ∷ 0x5f ∷ [])
    then some string
    else none

unfoldable pub executed : ℕ → Bool
executed code = leb code 0x17 || nat_beq code 0x19 || in_range code 0x1c 0x1f

unfoldable pub ending : ℕ → Bool
ending code =
    nat_beq code 0x18
    || nat_beq code 0x1a
    || in_range code 0x80 0x8f
    || in_range code 0x91 0x97
    || one_of code (0x99 ∷ 0x9a ∷ 0x9c ∷ [])

-- `state >= OSC`
abbrev pub is_string : Phase → Bool
is_string osc = true
is_string string = true
is_string _ = false

abbrev pub default_kind : Phase → Kind
default_kind phase = if is_string phase then string_sequence else ignored

-- What `read` does: where the reader is then, and the sequence it visits, if one ends.
pub record Turn : Type 0 where
  pub position : Position
  pub at : ℕ
  pub visited : Option Token

abbrev pub token_of : Opened → ℕ → Kind → List ℕ → Token
token_of t end kind final = record {
  start = t.start;
  end = end;
  kind = kind;
  prefix = t.prefix;
  params = t.params;
  intermediates = t.intermediates;
  final = final;
  controls = t.controls;
}

-- `finish`, with the end of the sequence, which is where reading goes on.
abbrev pub finish : Opened → ℕ → Kind → List ℕ → Turn
finish t end kind final = record {
  position = printing;
  at = end;
  visited = some (token_of t end kind final);
}

abbrev pub stay : Phase → Opened → ℕ → Turn
stay phase t index = record { position = inside phase t; at = suc index; visited = none }

-- `escapeStep`; a code that opens another kind of sequence is `starts_string`.
unfoldable pub escape_step : Phase → Opened → ℕ → ℕ → Turn
escape_step phase t index code =
    if in_range code 0x20 0x2f
    then stay escape_intermediate (record t { intermediates = t.intermediates ++ code ∷ [] }) index
    else finish t (suc index) esc_sequence (code ∷ [])

unfoldable pub escape_first : Opened → ℕ → ℕ → Turn
escape_first t index code = elim (escape_strings code) [
  | some phase ↦ stay phase t index
  | none ↦ escape_step escape t index code
]

abbrev pub is_param : Phase → Bool
is_param csi_param = true
is_param _ = false

abbrev pub is_after : Phase → Bool
is_after csi_intermediate = true
is_after _ = false

-- `csiStep`
unfoldable pub csi_step : Phase → Opened → ℕ → ℕ → Turn
csi_step phase t index code =
    if in_range code 0x40 0x7e
    then finish t (suc index) csi_sequence (code ∷ [])
    else if in_range code 0x20 0x2f
    then stay csi_intermediate (record t { intermediates = t.intermediates ++ code ∷ [] }) index
    else if is_after phase || (is_param phase && leb 0x3c code)
    then stay csi_ignore t index
    else if leb 0x3c code
    then stay csi_param (record t { prefix = code ∷ [] }) index
    else stay csi_param (record t { params = t.params ++ code ∷ [] }) index

-- The end of the branches of `read`, on a code of xterm's tables.
unfoldable pub read_step : Phase → Opened → ℕ → ℕ → Turn
read_step escape t index code = escape_first t index code
read_step escape_intermediate t index code = escape_step escape_intermediate t index code
read_step csi_ignore t index code =
    if in_range code 0x40 0x7e then finish t (suc index) ignored [] else stay csi_ignore t index
read_step csi t index code = csi_step csi t index code
read_step csi_param t index code = csi_step csi_param t index code
read_step csi_intermediate t index code = csi_step csi_intermediate t index code
read_step osc t index code = stay osc t index
read_step string t index code = stay string t index

abbrev pub is_ignoring : Phase → Bool
is_ignoring csi_ignore = true
is_ignoring _ = false

abbrev pub is_osc : Phase → Bool
is_osc osc = true
is_osc _ = false

-- A code unit from 0xa0 on; the first half of a pair takes the second with it.
abbrev pub pair_of : ℕ → ℕ
pair_of unit = if in_range unit 0xd800 0xdbff then 1 else 0

-- The branches of `read` on a code that neither starts nor ends a sequence.
unfoldable pub read_within : Phase → Opened → ℕ → ℕ → Turn
read_within phase t index unit =
    let code = min unit 0xa0 in
    if is_osc phase
    then (if nat_beq code 0x07 then finish t (suc index) string_sequence [] else stay phase t index)
    else if is_string phase || nat_beq code 0x7f
    then stay phase t index
    else if executed code
    then stay phase (record t { controls = t.controls ++ unit ∷ [] }) index
    else if nat_beq code 0xa0 && not (is_ignoring phase)
    then finish t (suc index + pair_of unit) ignored []
    else read_step phase t index code

abbrev pub is_terminator : ℕ → Option ℕ → Phase → Bool
is_terminator code none phase = false
is_terminator code (some next) phase = nat_beq code 0x1b && is_string phase && nat_beq next 0x5c

abbrev pub opened_at : ℕ → Opened
opened_at index = record {
  start = index;
  prefix = [];
  params = [];
  intermediates = [];
  controls = [];
}

-- `read` within a sequence, with the next code unit.
unfoldable pub read_inside : Phase → Opened → ℕ → ℕ → Option ℕ → Turn
read_inside phase t index unit next =
    let code = min unit 0xa0 in
    if is_terminator code next phase
    then finish t (suc (suc index)) (default_kind phase) []
    else elim (starts code) [
      | some other ↦ record {
        position = inside other (opened_at index);
        at = suc index;
        visited = some (token_of t index (default_kind phase) []);
      }
      | none ↦
          if ending code
          then finish t (suc index) (default_kind phase) []
          else read_within phase t index unit
    ]

-- `read`; outside a sequence only a code that starts one changes anything.
unfoldable pub read : Position → ℕ → ℕ → Option ℕ → Turn
read printing index unit next = elim (starts (min unit 0xa0)) [
  | some phase ↦ record {
    position = inside phase (opened_at index);
    at = suc index;
    visited = none;
  }
  | none ↦ record { position = printing; at = suc index; visited = none }
]
read (inside phase t) index unit next = read_inside phase t index unit next

abbrev pub next_of : List ℕ → Option ℕ
next_of [] = none
next_of (unit ∷ units) = some unit

abbrev pub visit : Option Token → List Token → List Token
visit none tokens = tokens
visit (some token) tokens = token ∷ tokens

-- The loop of a call: the code units from `index` on, of which those before `at` have been read. It
-- gives the reader and the sequences visited.
unfoldable pub scan : List ℕ → ℕ → ℕ → Reader → Reader × List Token
scan [] index end r = (r, [])
scan (unit ∷ units) index end r =
    let skipped = scan units (suc index) end r in
    let turn = read r.position index unit (next_of units) in
    let rest = scan units (suc index) end (record { position = turn.position; at = turn.at }) in
    if ltb index r.at
    then skipped
    else if leb end index
    then (r, [])
    else (rest.0, visit turn.visited rest.1)

abbrev pub close : Position → ℕ → List Token
close printing end = []
close (inside phase t) end = token_of t end (default_kind phase) [] ∷ []

-- The reader on the whole of a buffer.
unfoldable pub control_scanner : List ℕ → List Token
control_scanner buffer =
    let (r, tokens) = scan buffer 0 (length buffer) (record { position = printing; at = 0 }) in
    tokens ++ close r.position (length buffer)

-- `escapeSpans`
unfoldable pub spans_of : List Token → List ℕ
spans_of [] = []
spans_of (token ∷ tokens) = token.start ∷ token.end ∷ spans_of tokens

abbrev pub escape_spans : List ℕ → List ℕ
escape_spans buffer = spans_of (control_scanner buffer)
