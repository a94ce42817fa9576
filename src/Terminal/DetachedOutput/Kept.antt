-- ===== src/Terminal/DetachedOutput/Kept.antt =====
-- What a ring holds after any sequence of calls since it was last taken.
use mathlib.Core.List.{append_assoc, append-nil}
use outright.Base.{
  ℕ, suc, ◌+◌, ◌≤◌, ◌≡◌, ◌⊎◌, inl, inr, min, true, if◌then◌else◌, ltb, none, some, List, [], ◌∷◌,
  ◌++◌, length, drop, arith, refl, Bool-cases,
}
use outright.Terminal.DetachedOutput.{
  Chunk, Ring, new_ring, push, push_pieces, drop_output, take_output, last_text, is_completed,
  extend_last, max_safe_integer,
}
use outright.Terminal.DetachedOutput.Pieces.{
  Keeps, utf8_bytes-joined_text, extended-Keeps, push_pieces-Keeps,
}
use outright.Terminal.DetachedOutput.Cutting.{trim-Keeps}
use outright.Terminal.DetachedOutput.Utf8.{ends_high, utf8_bytes, utf8_bytes_low, utf8_bytes_nil}

pub data Call : Type 0 where
  push_output : List ℕ → Call
  shed_output : ℕ → Call

abbrev pub call : ℕ → Ring → Call → Ring
call limit ring (push_output text) = push limit text ring
call limit ring (shed_output characters) = drop_output characters ring

abbrev pub calls : ℕ → Ring → List Call → Ring
calls limit ring [] = ring
calls limit ring (first ∷ rest) = calls limit (call limit ring first) rest

-- All output that was pushed, and the number of characters that were shed.
abbrev pub pushed : List Call → List ℕ
pushed [] = []
pushed (push_output text ∷ rest) = text ++ pushed rest
pushed (shed_output characters ∷ rest) = pushed rest

abbrev pub shed_count : List Call → ℕ
shed_count [] = 0
shed_count (push_output text ∷ rest) = shed_count rest
shed_count (shed_output characters ∷ rest) = characters + shed_count rest

nonempty_of_high :
    (chunks : List Chunk)
    → ends_high (last_text chunks) ≡ true
    → (first : Chunk) × (rest : List Chunk) × (chunks ≡ first ∷ rest)
nonempty_of_high [] h = ground (arith, h)
nonempty_of_high (first ∷ rest) h = (first, rest, refl)

push-Keeps :
    (limit : ℕ) (text sent : List ℕ) (shed : ℕ) (ring : Ring)
    → Keeps limit sent shed ring
    → ring.bytes ≤ limit
    → Keeps limit (sent ++ text) shed (push limit text ring)
      × ((push limit text ring).bytes ≤ limit)
unfolding push
push-Keeps limit [] sent shed ring keeps low = (rw (append-nil sent) keeps, low)
push-Keeps limit (code ∷ text) sent shed ring keeps low =
    elim (Bool-cases (is_completed (code ∷ text) ring)) [
      | inr apart ↦ rw apart (
          trim-Keeps limit (sent ++ code ∷ text) shed
            (push_pieces (suc (length text)) (code ∷ text) ring)
            (push_pieces-Keeps limit (suc (length text)) (code ∷ text) sent shed ring (omega arith)
              keeps))
      | inl completed ↦
          let (first, rest, e) = nonempty_of_high ring.chunks (ground (arith, completed)) in
          let joined : Ring = record ring {
            chunks = extend_last (code ∷ []) 1 ring.chunks;
            bytes = ring.bytes + 1;
          } in
          let extended =
            extended-Keeps limit sent shed ring (code ∷ []) 1 first rest e
              (ground (arith, completed, utf8_bytes_low code [], utf8_bytes_nil)) keeps in
          let all : (sent ++ code ∷ []) ++ text ≡ sent ++ code ∷ text =
            append_assoc sent (code ∷ []) text in
          let after =
            push_pieces-Keeps limit (length text) text (sent ++ code ∷ []) shed joined (omega arith)
              extended in
          rw completed (
            trim-Keeps limit (sent ++ code ∷ text) shed (push_pieces (length text) text joined)
              (rw all at after))
    ]

drop_output-Keeps :
    (limit : ℕ) (sent : List ℕ) (shed characters : ℕ) (ring : Ring)
    → Keeps limit sent shed ring
    → Keeps limit sent (shed + characters) (drop_output characters ring)
drop_output-Keeps limit sent shed characters ring keeps = record {
  cut = keeps.cut;
  inside = keeps.inside;
  text = keeps.text;
  counted = omega (arith, keeps.counted);
  sized = keeps.sized;
  summed = keeps.summed;
  needed = keeps.needed;
}

none_shed : (m : ℕ) → m + 0 ≡ m
none_shed m = omega arith

add_shed : (m n k : ℕ) → m + n + k ≡ m + (n + k)
add_shed m n k = omega arith

calls-Keeps :
    (limit : ℕ) (rest : List Call) (sent : List ℕ) (shed : ℕ) (ring : Ring)
    → Keeps limit sent shed ring
    → ring.bytes ≤ limit
    → Keeps limit (sent ++ pushed rest) (shed + shed_count rest) (calls limit ring rest)
      × ((calls limit ring rest).bytes ≤ limit)
calls-Keeps limit [] sent shed ring keeps low = rw (append-nil sent, none_shed shed) (keeps, low)
calls-Keeps limit (push_output text ∷ rest) sent shed ring keeps low =
    let (kept, bound) = push-Keeps limit text sent shed ring keeps low in
    rw (append_assoc sent text (pushed rest)) at
      (calls-Keeps limit rest (sent ++ text) shed (push limit text ring) kept bound)
calls-Keeps limit (shed_output characters ∷ rest) sent shed ring keeps low =
    rw (add_shed shed characters (shed_count rest)) at (
      calls-Keeps limit rest sent (shed + characters) (drop_output characters ring)
        (drop_output-Keeps limit sent shed characters ring keeps) low)

-- Whatever is pushed and shed, the ring never holds more than its limit of UTF-8 bytes; what it returns
-- is the output without a first part, and it reports the characters of that part and those that were shed,
-- up to the largest safe integer, with no notice where there are none; and where it cut anything of the output, it holds at least the limit less three bytes.
pub take_output-calls :
    (limit : ℕ) (made : List Call)
    → let ring = calls limit new_ring made in
      let taken = take_output ring in
      (cut : ℕ) × (taken.output ≡ drop cut (pushed made))
      × (cut ≤ length (pushed made))
      × (taken.notice ≡ (
          if ltb 0 (cut + shed_count made)
          then some (min max_safe_integer (cut + shed_count made))
          else none))
      × (utf8_bytes taken.output ≤ ring.bytes)
      × (ring.bytes ≤ limit)
      × ((cut ≡ 0) ⊎ (limit ≤ ring.bytes + 3))
take_output-calls limit made =
    let ring = calls limit new_ring made in
    let start : Keeps limit [] 0 new_ring = record {
      cut = 0;
      inside = omega arith;
      text = refl;
      counted = refl;
      sized = tt;
      summed = refl;
      needed = inl refl;
    } in
    let (keeps, low) = calls-Keeps limit made [] 0 new_ring start (omega arith) in
    (
      keeps.cut,
      keeps.text,
      keeps.inside,
      ground (arith, keeps.counted),
      omega (arith, utf8_bytes-joined_text ring.chunks keeps.sized, keeps.summed),
      low,
      keeps.needed,
    )
