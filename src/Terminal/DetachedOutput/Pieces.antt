-- ===== src/Terminal/DetachedOutput/Pieces.antt =====
-- What a ring keeps of the output that it was given, and that taking a piece in keeps it so.
use mathlib.Core.List.{append_assoc, append-nil}
use outright.Base.{
  ℕ, zero, suc, ◌+◌, ◌-◌, ◌≤◌, ◌<◌, ◌≡◌, ◌⊎◌, inl, inr, min, true, ◌&&◌, if◌then◌else◌, List, [],
  ◌∷◌, ◌++◌, length, take, drop, All, All-append, length-append, length-drop, take-append-drop,
  arith, refl, sym, ap, ◌∙◌, Bool-cases,
}
use outright.Base.Slices.{drop-append}
use outright.Terminal.DetachedOutput.{
  Chunk, Ring, append, extend_last, joined_text, last_text, has_room, push_pieces, piece_end, room,
  max_safe_integer, chunk_chars,
}
use outright.Terminal.DetachedOutput.Utf8.{
  starts_low, ends_high, utf8_bytes, utf8_bytes-append, utf8_bytes_of_low, utf8_bytes_nil,
}

abbrev pub IsSized : Chunk → Type 0
IsSized chunk = chunk.size ≡ utf8_bytes chunk.text

abbrev pub total : List Chunk → ℕ
total [] = 0
total (chunk ∷ chunks) = chunk.size + total chunks

-- A text takes at most the bytes of its chunks.
pub utf8_bytes-joined_text :
    (chunks : List Chunk) → All IsSized chunks → utf8_bytes (joined_text chunks) ≤ total chunks
utf8_bytes-joined_text [] sized = omega (arith, utf8_bytes_nil)
utf8_bytes-joined_text (chunk ∷ chunks) sized = omega (
  arith,
  sized.0,
  utf8_bytes-append chunk.text (joined_text chunks),
  utf8_bytes-joined_text chunks sized.1,
)

-- The ring holds what was sent without its first `cut` characters and counts those with the
-- characters that were shed; its sizes are right, and it cuts only what is over the limit.
pub record Keeps (limit : ℕ) (sent : List ℕ) (shed : ℕ) (ring : Ring) : Type 0 where
  pub cut : ℕ
  pub inside : cut ≤ length sent
  pub text : joined_text ring.chunks ≡ drop cut sent
  pub counted : ring.dropped ≡ min max_safe_integer (cut + shed)
  pub sized : All IsSized ring.chunks
  pub summed : ring.bytes ≡ total ring.chunks
  pub needed : (cut ≡ 0) ⊎ (limit ≤ ring.bytes + 3)

joined_text-extend_last :
    (piece : List ℕ) (size : ℕ) (chunk : Chunk) (chunks : List Chunk)
    → joined_text (extend_last piece size (chunk ∷ chunks)) ≡ joined_text (chunk ∷ chunks) ++ piece
unfolding extend_last
joined_text-extend_last piece size chunk [] =
    append-nil (chunk.text ++ piece) ∙ ap (λ t. t ++ piece) (sym (append-nil chunk.text))
joined_text-extend_last piece size chunk (next ∷ chunks) =
    ap (λ t. chunk.text ++ t) (joined_text-extend_last piece size next chunks)
    ∙ sym (append_assoc chunk.text (joined_text (next ∷ chunks)) piece)

total-extend_last :
    (piece : List ℕ) (size : ℕ) (chunk : Chunk) (chunks : List Chunk)
    → total (extend_last piece size (chunk ∷ chunks)) ≡ total (chunk ∷ chunks) + size
unfolding extend_last
total-extend_last piece size chunk [] = omega arith
total-extend_last piece size chunk (next ∷ chunks) =
    omega (arith, total-extend_last piece size next chunks)

extend_last-IsSized :
    (piece : List ℕ) (size : ℕ) (chunk : Chunk) (chunks : List Chunk)
    → size + (if ends_high (last_text (chunk ∷ chunks)) && starts_low piece then 2 else 0)
      ≡ utf8_bytes piece
    → All IsSized (chunk ∷ chunks)
    → All IsSized (extend_last piece size (chunk ∷ chunks))
unfolding extend_last
extend_last-IsSized piece size chunk [] exact sized =
    (omega (arith, sized.0, exact, utf8_bytes-append chunk.text piece), sized.1)
extend_last-IsSized piece size chunk (next ∷ chunks) exact sized =
    (sized.0, extend_last-IsSized piece size next chunks exact sized.1)

-- A piece at the end of the last chunk.
pub extended-Keeps :
    (limit : ℕ) (sent : List ℕ) (shed : ℕ) (ring : Ring) (piece : List ℕ) (size : ℕ) (chunk : Chunk)
    (chunks : List Chunk)
    → ring.chunks ≡ chunk ∷ chunks
    → size + (if ends_high (last_text ring.chunks) && starts_low piece then 2 else 0)
      ≡ utf8_bytes piece
    → Keeps limit sent shed ring
    → Keeps limit
        (sent ++ piece)
        shed
        (record ring { chunks = extend_last piece size ring.chunks; bytes = ring.bytes + size })
extended-Keeps limit sent shed ring piece size chunk chunks e exact keeps =
    let grown : joined_text (extend_last piece size ring.chunks)
        ≡ joined_text ring.chunks ++ piece =
      rw e (joined_text-extend_last piece size chunk chunks) in
    let counted : total (extend_last piece size ring.chunks) ≡ total ring.chunks + size =
      rw e (total-extend_last piece size chunk chunks) in
    record {
      cut = keeps.cut;
      inside = omega (arith, length-append sent piece, keeps.inside);
      text =
          grown
          ∙ ap (λ t. t ++ piece) keeps.text
          ∙ sym (drop-append keeps.cut sent piece keeps.inside);
      counted = keeps.counted;
      sized =
          rw e (extend_last-IsSized piece size chunk chunks (rw e at exact) (rw e at keeps.sized));
      summed = omega (arith, counted, keeps.summed);
      needed = ground (arith, keeps.needed);
    }

joined_text-append :
    (chunks : List Chunk) (chunk : Chunk)
    → joined_text (chunks ++ chunk ∷ []) ≡ joined_text chunks ++ chunk.text
joined_text-append [] chunk = append-nil chunk.text
joined_text-append (first ∷ chunks) chunk =
    ap (λ t. first.text ++ t) (joined_text-append chunks chunk)
    ∙ sym (append_assoc first.text (joined_text chunks) chunk.text)

total-append :
    (chunks : List Chunk) (chunk : Chunk) → total (chunks ++ chunk ∷ []) ≡ total chunks + chunk.size
total-append [] chunk = omega arith
total-append (first ∷ chunks) chunk = omega (arith, total-append chunks chunk)

-- A piece in a chunk of its own.
added-Keeps :
    (limit : ℕ) (sent : List ℕ) (shed : ℕ) (ring : Ring) (piece : List ℕ)
    → Keeps limit sent shed ring
    → Keeps limit (sent ++ piece) shed (record ring {
      chunks = ring.chunks ++ record { text = piece; size = utf8_bytes piece } ∷ [];
      bytes = ring.bytes + utf8_bytes piece;
    })
added-Keeps limit sent shed ring piece keeps =
    let chunk : Chunk = record { text = piece; size = utf8_bytes piece } in
    record {
      cut = keeps.cut;
      inside = omega (arith, length-append sent piece, keeps.inside);
      text =
          joined_text-append ring.chunks chunk
          ∙ ap (λ t. t ++ piece) keeps.text
          ∙ sym (drop-append keeps.cut sent piece keeps.inside);
      counted = keeps.counted;
      sized = All-append IsSized ring.chunks (chunk ∷ []) keeps.sized (refl, tt);
      summed = omega (arith, total-append ring.chunks chunk, keeps.summed);
      needed = ground (arith, keeps.needed);
    }

nonempty :
    (chunks : List Chunk)
    → has_room chunks ≡ true
    → (first : Chunk) × (rest : List Chunk) × (chunks ≡ first ∷ rest)
nonempty [] h = ground (arith, h)
nonempty (first ∷ rest) h = (first, rest, refl)

append-Keeps :
    (limit : ℕ) (sent : List ℕ) (shed : ℕ) (ring : Ring) (piece : List ℕ)
    → Keeps limit sent shed ring
    → Keeps limit (sent ++ piece) shed (append piece ring)
unfolding append
append-Keeps limit sent shed ring piece keeps = elim (Bool-cases (has_room ring.chunks)) [
  | inr full ↦ rw full (added-Keeps limit sent shed ring piece keeps)
  | inl free ↦
      let (first, rest, e) = nonempty ring.chunks free in
      let size =
        utf8_bytes piece
        - (if ends_high (last_text ring.chunks) && starts_low piece then 2 else 0) in
      rw free (
        extended-Keeps limit sent shed ring piece size first rest e
          (ground (arith, utf8_bytes_of_low piece)) keeps)
]

free_room : (chunks : List Chunk) → has_room chunks ≡ true → length (last_text chunks) < chunk_chars
free_room [] h = ground (arith, h)
free_room (chunk ∷ []) h = ground (arith, h)
free_room (chunk ∷ next ∷ chunks) h = free_room (next ∷ chunks) h

0<room : (chunks : List Chunk) → 0 < room chunks
0<room chunks = ground (arith, free_room chunks)

pub push_pieces-Keeps :
    (limit fuel : ℕ) (left sent : List ℕ) (shed : ℕ) (ring : Ring)
    → length left ≤ fuel
    → Keeps limit sent shed ring
    → Keeps limit (sent ++ left) shed (push_pieces fuel left ring)
unfolding push_pieces
push_pieces-Keeps limit zero [] sent shed ring h keeps = rw (append-nil sent) keeps
push_pieces-Keeps limit zero (code ∷ left) sent shed ring h keeps = ground (arith, h)
push_pieces-Keeps limit (suc fuel) [] sent shed ring h keeps = rw (append-nil sent) keeps
push_pieces-Keeps limit (suc fuel) (code ∷ left) sent shed ring h keeps =
    let end = piece_end (room ring.chunks) (code ∷ left) in
    let piece = take end (code ∷ left) in
    let rest = drop end (code ∷ left) in
    let joined : (sent ++ piece) ++ rest ≡ sent ++ code ∷ left =
      append_assoc sent piece rest ∙ ap (λ t. sent ++ t) (take-append-drop end (code ∷ left)) in
    let after =
      push_pieces-Keeps limit fuel rest (sent ++ piece) shed (append piece ring)
        (ground (arith, h, length-drop end (code ∷ left), 0<room ring.chunks))
        (append-Keeps limit sent shed ring piece keeps) in
    rw joined at after
