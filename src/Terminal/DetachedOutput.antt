-- ===== src/Terminal/DetachedOutput.antt =====
-- server/terminal-detached-output.mjs: the output that a detached broker keeps for its next reattach. A
-- text is the list of its UTF-16 code units; the arrays `chunks` and `sizes`, which change together, are
-- one list of chunks with their sizes, the oldest first.
pub mod Utf8
pub mod Pieces
pub mod Cutting
pub mod Kept
pub mod Tests
use outright.Base.{
  ℕ, zero, suc, ◌+◌, ◌-◌, ◌*◌, ◌≤◌, min, Bool, true, false, ◌&&◌, if◌then◌else◌, ltb, leb, Option,
  none, some, List, [], ◌∷◌, ◌++◌, length, take, drop,
}
use outright.Terminal.DetachedOutput.Utf8.{is_high, is_low, starts_low, ends_high, utf8_bytes}

abbrev pub detached_output_bytes : ℕ
detached_output_bytes = 1024 * 1024

abbrev pub chunk_chars : ℕ
chunk_chars = 16 * 1024

abbrev pub max_safe_integer : ℕ
max_safe_integer = 9_007_199_254_740_991

pub record Chunk : Type 0 where
  pub text : List ℕ
  pub size : ℕ

pub record Ring : Type 0 where
  pub chunks : List Chunk
  pub bytes : ℕ
  pub dropped : ℕ

-- `createDetachedOutput`
abbrev pub new_ring : Ring
new_ring = record { chunks = []; bytes = 0; dropped = 0 }

-- `count`
abbrev pub count_dropped : ℕ → ℕ → ℕ
count_dropped dropped value = min max_safe_integer (dropped + value)

-- `chunks[last]`, the empty text where there is none.
abbrev pub last_text : List Chunk → List ℕ
last_text [] = []
last_text (chunk ∷ []) = chunk.text
last_text (chunk ∷ next ∷ chunks) = last_text (next ∷ chunks)

-- Whether the last chunk takes more characters.
abbrev pub has_room : List Chunk → Bool
has_room [] = false
has_room (chunk ∷ []) = ltb (length chunk.text) chunk_chars
has_room (chunk ∷ next ∷ chunks) = has_room (next ∷ chunks)

-- The last chunk, longer by a piece.
unfoldable pub extend_last : List ℕ → ℕ → List Chunk → List Chunk
extend_last piece size [] = []
extend_last piece size (chunk ∷ []) =
    record { text = chunk.text ++ piece; size = chunk.size + size } ∷ []
extend_last piece size (chunk ∷ next ∷ chunks) = chunk ∷ extend_last piece size (next ∷ chunks)

-- `append`
unfoldable pub append : List ℕ → Ring → Ring
append piece ring =
    let joined =
      utf8_bytes piece - (if ends_high (last_text ring.chunks) && starts_low piece then 2 else 0) in
    if has_room ring.chunks
    then record ring { chunks = extend_last piece joined ring.chunks; bytes = ring.bytes + joined }
    else record ring {
      chunks = ring.chunks ++ record { text = piece; size = utf8_bytes piece } ∷ [];
      bytes = ring.bytes + utf8_bytes piece;
    }

-- The first loop of `trim`: a chunk is dropped while another stands after it and the rest fills the
-- limit.
unfoldable pub drop_chunks : ℕ → Chunk → List Chunk → ℕ → ℕ → Ring
drop_chunks limit oldest [] bytes dropped = record {
  chunks = oldest ∷ [];
  bytes = bytes;
  dropped = dropped;
}
drop_chunks limit oldest (next ∷ chunks) bytes dropped =
    let rest =
      drop_chunks limit next chunks (bytes - oldest.size)
        (count_dropped dropped (length oldest.text)) in
    if leb (limit + oldest.size) bytes
    then rest
    else record { chunks = oldest ∷ next ∷ chunks; bytes = bytes; dropped = dropped }

pub record Cut : Type 0 where
  pub index : ℕ
  pub removed : ℕ

-- The second loop of `trim`: characters are cut until what is over the limit is gone.
unfoldable pub cut_text : ℕ → List ℕ → Cut → Cut
cut_text excess [] cut = cut
cut_text excess (code ∷ []) cut =
    if ltb cut.removed excess
    then record { index = cut.index + 1; removed = cut.removed + utf8_bytes (code ∷ []) }
    else cut
cut_text excess (code ∷ next ∷ text) cut = elim (ltb cut.removed excess) [
  | false ↦ cut
  | true ↦ elim (is_high code && is_low next) [
    | true ↦
        cut_text excess text
          (record { index = cut.index + 2; removed = cut.removed + utf8_bytes (code ∷ next ∷ []) })
    | false ↦
        cut_text excess (next ∷ text)
          (record { index = cut.index + 1; removed = cut.removed + utf8_bytes (code ∷ []) })
  ]
]

-- The end of `trim`: the oldest chunk loses what was cut, or goes.
unfoldable pub cut_oldest : ℕ → Ring → Ring
cut_oldest limit ring = elim ring.chunks [
  | [] ↦ ring
  | oldest ∷ chunks ↦
      let cut = cut_text (ring.bytes - limit) oldest.text (record { index = 0; removed = 0 }) in
      let dropped = count_dropped ring.dropped cut.index in
      let bytes = ring.bytes - cut.removed in
      if leb ring.bytes limit
      then ring
      else if leb (length oldest.text) cut.index
      then record { chunks = chunks; bytes = bytes; dropped = dropped }
      else record {
        chunks =
            record { text = drop cut.index oldest.text; size = oldest.size - cut.removed } ∷ chunks;
        bytes = bytes;
        dropped = dropped;
      }
]

-- `trim`
unfoldable pub trim : ℕ → Ring → Ring
trim limit ring = elim ring.chunks [
  | [] ↦ ring
  | oldest ∷ chunks ↦ cut_oldest limit (drop_chunks limit oldest chunks ring.bytes ring.dropped)
]

abbrev pub room : List Chunk → ℕ
room chunks = if has_room chunks then chunk_chars - length (last_text chunks) else chunk_chars

-- Where the next piece ends: a pair is not split.
abbrev pub piece_end : ℕ → List ℕ → ℕ
piece_end room rest =
    if ends_high (take room rest) && starts_low (drop room rest) then suc room else room

-- The loop of `push`, on the rest that is left.
unfoldable pub push_pieces : ℕ → List ℕ → Ring → Ring
push_pieces zero rest ring = ring
push_pieces (suc fuel) [] ring = ring
push_pieces (suc fuel) (code ∷ rest) ring =
    let end = piece_end (room ring.chunks) (code ∷ rest) in
    push_pieces fuel (drop end (code ∷ rest)) (append (take end (code ∷ rest)) ring)

-- A full last chunk takes the low half of its last pair.
abbrev pub is_completed : List ℕ → Ring → Bool
is_completed rest ring =
    leb chunk_chars (length (last_text ring.chunks))
    && ends_high (last_text ring.chunks)
    && starts_low rest

-- `push`
unfoldable pub push : ℕ → List ℕ → Ring → Ring
push limit [] ring = ring
push limit (code ∷ rest) ring =
    let joined : Ring = record ring {
      chunks = extend_last (code ∷ []) 1 ring.chunks;
      bytes = ring.bytes + 1;
    } in
    if is_completed (code ∷ rest) ring
    then trim limit (push_pieces (length rest) rest joined)
    else trim limit (push_pieces (suc (length rest)) (code ∷ rest) ring)

-- `drop`
abbrev pub drop_output : ℕ → Ring → Ring
drop_output characters ring = record ring { dropped = count_dropped ring.dropped characters }

abbrev pub joined_text : List Chunk → List ℕ
joined_text [] = []
joined_text (chunk ∷ chunks) = chunk.text ++ joined_text chunks

pub record Taken : Type 0 where
  pub notice : Option ℕ
  pub output : List ℕ
  pub ring : Ring

-- `take`, with the number that its notice gives.
abbrev pub take_output : Ring → Taken
take_output ring = record {
  notice = if ltb 0 ring.dropped then some ring.dropped else none;
  output = joined_text ring.chunks;
  ring = new_ring;
}
