-- ===== src/Terminal/DetachedOutput/Cutting.antt =====
-- What `trim` takes away.
use outright.Base.{
  ℕ, ◌+◌, ◌-◌, ◌≤◌, ◌<◌, ◌≡◌, ◌⊎◌, inl, inr, ◌&&◌, ltb, leb, List, [], ◌∷◌, ◌++◌, length, drop,
  length-append, length-drop, arith, refl, sym, ap, ◌∙◌, Bool-cases,
}
use outright.Base.Slices.{drop-append, drop-drop}
use outright.Terminal.DetachedOutput.{
  Chunk, Ring, Cut, cut_text, drop_chunks, cut_oldest, trim, joined_text, count_dropped,
}
use outright.Terminal.DetachedOutput.Pieces.{Keeps, total}
use outright.Terminal.DetachedOutput.Utf8.{
  is_high, is_low, utf8_bytes, utf8_bytes_pair, utf8_bytes_unit, utf8_bytes_one, utf8_bytes_nil,
}

-- The characters cut from a text by the loop: enough for the excess or all there are, at most three bytes too many, and
-- their bytes counted.
abbrev pub IsCut : ℕ → List ℕ → Cut → Cut → ℕ → Type 0
IsCut excess text before after k =
    (k ≤ length text)
    × (after.index ≡ before.index + k)
    × (after.removed + utf8_bytes (drop k text) ≡ before.removed + utf8_bytes text)
    × ((excess ≤ after.removed) ⊎ (k ≡ length text))
    × ((k ≡ 0) ⊎ (after.removed < excess + 4))

pub cut_text_lem :
    (excess : ℕ) (text : List ℕ) (cut : Cut)
    → (k : ℕ) × IsCut excess text cut (cut_text excess text cut) k
unfolding cut_text
cut_text_lem excess [] cut = (0, omega arith)
cut_text_lem excess (code ∷ []) cut = elim (Bool-cases (ltb cut.removed excess)) [
  | inl more ↦ (1, ground (arith, more, utf8_bytes_one code, utf8_bytes_nil))
  | inr done ↦ (0, ground (arith, done))
]
cut_text_lem excess (code ∷ next ∷ text) cut = elim (Bool-cases (ltb cut.removed excess)) [
  | inr done ↦ (0, ground (arith, done))
  | inl more ↦ elim (Bool-cases (is_high code && is_low next)) [
    | inl pair ↦
        let (k, h) = cut_text_lem excess text (record {
          index = cut.index + 2;
          removed = cut.removed + utf8_bytes (code ∷ next ∷ []);
        }) in
        (
          2 + k,
          ground (
            arith,
            more,
            pair,
            h,
            utf8_bytes_pair code next text,
            utf8_bytes_pair code next [],
            utf8_bytes_nil,
          ),
        )
    | inr single ↦
        let (k, h) =
          cut_text_lem excess (next ∷ text)
            (record { index = cut.index + 1; removed = cut.removed + utf8_bytes (code ∷ []) }) in
        (
          1 + k,
          ground (arith, more, single, h, utf8_bytes_unit code next text, utf8_bytes_one code),
        )
  ]
]

-- The loop from its start.
cut_from_start :
    (excess : ℕ) (text : List ℕ)
    → let out = cut_text excess text (record { index = 0; removed = 0 }) in
      (out.index ≤ length text)
      × (out.removed + utf8_bytes (drop out.index text) ≡ utf8_bytes text)
      × ((excess ≤ out.removed) ⊎ (out.index ≡ length text))
      × (out.removed < excess + 4)
cut_from_start excess text =
    let start : Cut = record { index = 0; removed = 0 } in
    let (k, (inside, reached, exact, enough, few)) = cut_text_lem excess text start in
    let at : (cut_text excess text start).index ≡ k = omega (arith, reached) in
    rw at (inside, omega (arith, exact), enough, ground (arith, exact, few))

drop_all : (text : List ℕ) → drop (length text) text ≡ []
drop_all [] = refl
drop_all (code ∷ text) = drop_all text

drop_prefix : (front back : List ℕ) → drop (length front) (front ++ back) ≡ back
drop_prefix [] back = refl
drop_prefix (code ∷ front) back = drop_prefix front back

length_left :
    (cut : ℕ) (sent left : List ℕ) → left ≡ drop cut sent → length left ≡ length sent - cut
length_left cut sent left e = ap length e ∙ length-drop cut sent

-- The ring without its oldest chunk.
shifted-Keeps :
    (limit : ℕ) (sent : List ℕ) (shed : ℕ) (oldest : Chunk) (chunks : List Chunk)
    (bytes dropped : ℕ)
    → limit ≤ (bytes - oldest.size) + 3
    → Keeps limit sent shed (record { chunks = oldest ∷ chunks; bytes = bytes; dropped = dropped })
    → Keeps limit sent shed (record {
      chunks = chunks;
      bytes = bytes - oldest.size;
      dropped = count_dropped dropped (length oldest.text);
    })
shifted-Keeps limit sent shed oldest chunks bytes dropped over keeps = record {
  cut = length oldest.text + keeps.cut;
  inside = omega (
    arith,
    length_left keeps.cut sent (oldest.text ++ joined_text chunks) keeps.text,
    length-append oldest.text (joined_text chunks),
    keeps.inside,
  );
  text =
      sym (drop_prefix oldest.text (joined_text chunks))
      ∙ ap (drop (length oldest.text)) keeps.text
      ∙ drop-drop (length oldest.text) keeps.cut (length oldest.text + keeps.cut) sent refl;
  counted = omega (arith, keeps.counted);
  sized = keeps.sized.1;
  summed = omega (arith, keeps.summed);
  needed = inr over;
}

-- After the whole chunks are dropped, a second chunk stands only where both are needed.
abbrev pub IsSettled : ℕ → Ring → Type 0
IsSettled limit ring = elim ring.chunks [
  | [] ↦ Unit
  | oldest ∷ [] ↦ Unit
  | oldest ∷ next ∷ chunks ↦ ring.bytes < limit + oldest.size
]

drop_chunks-Keeps :
    (limit : ℕ) (sent : List ℕ) (shed : ℕ) (oldest : Chunk) (chunks : List Chunk)
    (bytes dropped : ℕ)
    → Keeps limit sent shed (record { chunks = oldest ∷ chunks; bytes = bytes; dropped = dropped })
    → Keeps limit sent shed (drop_chunks limit oldest chunks bytes dropped)
      × IsSettled limit (drop_chunks limit oldest chunks bytes dropped)
unfolding drop_chunks
drop_chunks-Keeps limit sent shed oldest [] bytes dropped keeps = (keeps, tt)
drop_chunks-Keeps limit sent shed oldest (next ∷ chunks) bytes dropped keeps =
    elim (Bool-cases (leb (limit + oldest.size) bytes)) [
      | inr needed ↦ rw needed (keeps, ground (arith, needed))
      | inl over ↦ rw over (
          drop_chunks-Keeps limit sent shed next chunks (bytes - oldest.size)
            (count_dropped dropped (length oldest.text))
            (shifted-Keeps limit sent shed oldest (next ∷ chunks) bytes dropped
              (ground (arith, over)) keeps))
    ]

-- The ring with its oldest chunk cut.
shortened-Keeps :
    (limit : ℕ) (sent : List ℕ) (shed : ℕ) (oldest : Chunk) (chunks : List Chunk)
    (bytes dropped k removed : ℕ)
    → limit ≤ (bytes - removed) + 3
    → k ≤ length oldest.text
    → removed + utf8_bytes (drop k oldest.text) ≡ utf8_bytes oldest.text
    → Keeps limit sent shed (record { chunks = oldest ∷ chunks; bytes = bytes; dropped = dropped })
    → Keeps limit sent shed (record {
      chunks = record { text = drop k oldest.text; size = oldest.size - removed } ∷ chunks;
      bytes = bytes - removed;
      dropped = count_dropped dropped k;
    })
shortened-Keeps limit sent shed oldest chunks bytes dropped k removed over short exact keeps =
    record {
      cut = k + keeps.cut;
      inside = omega (
        arith,
        length_left keeps.cut sent (oldest.text ++ joined_text chunks) keeps.text,
        length-append oldest.text (joined_text chunks),
        keeps.inside,
        short,
      );
      text =
          sym (drop-append k oldest.text (joined_text chunks) short)
          ∙ ap (drop k) keeps.text
          ∙ drop-drop k keeps.cut (k + keeps.cut) sent refl;
      counted = omega (arith, keeps.counted);
      sized = (omega (arith, exact, keeps.sized), keeps.sized.1);
      summed = omega (arith, keeps.summed, exact, keeps.sized);
      needed = inr over;
    }

settled_bytes :
    (limit : ℕ) (oldest : Chunk) (chunks : List Chunk) (bytes dropped : ℕ)
    → IsSettled limit (record { chunks = oldest ∷ chunks; bytes = bytes; dropped = dropped })
    → (total chunks ≡ 0) ⊎ (bytes < limit + oldest.size)
settled_bytes limit oldest [] bytes dropped h = inl refl
settled_bytes limit oldest (next ∷ chunks) bytes dropped h = inr h

cut_oldest-Keeps :
    (limit : ℕ) (sent : List ℕ) (shed : ℕ) (chunks : List Chunk) (bytes dropped : ℕ)
    → let ring : Ring = record { chunks = chunks; bytes = bytes; dropped = dropped } in
      IsSettled limit ring
      → Keeps limit sent shed ring
      → Keeps limit sent shed (cut_oldest limit ring) × ((cut_oldest limit ring).bytes ≤ limit)
unfolding cut_oldest
cut_oldest-Keeps limit sent shed [] bytes dropped settled keeps =
    (keeps, omega (arith, keeps.summed))
cut_oldest-Keeps limit sent shed (oldest ∷ chunks) bytes dropped settled keeps =
    let cut = cut_text (bytes - limit) oldest.text (record { index = 0; removed = 0 }) in
    let (inside, exact, enough, few) = cut_from_start (bytes - limit) oldest.text in
    let room = settled_bytes limit oldest chunks bytes dropped settled in
    elim (Bool-cases (leb bytes limit)) [
      | inl fits ↦ rw fits (keeps, ground (arith, fits))
      | inr over ↦ elim (Bool-cases (leb (length oldest.text) cut.index)) [
        | inl all ↦
            let whole : cut.index ≡ length oldest.text = ground (arith, inside, all) in
            let empty : utf8_bytes (drop cut.index oldest.text) ≡ 0 =
              ap (λ i. utf8_bytes (drop i oldest.text)) whole
              ∙ ap utf8_bytes (drop_all oldest.text)
              ∙ utf8_bytes_nil in
            let emptied : cut.removed ≡ oldest.size = omega (arith, exact, empty, keeps.sized) in
            rw (over, all, whole, emptied)
              (
                shifted-Keeps limit sent shed oldest chunks bytes dropped
                    (ground (arith, few, emptied, over)) keeps,
                ground (arith, room, keeps.summed),
              )
        | inr part ↦
            rw (over, part)
              (
                shortened-Keeps limit sent shed oldest chunks bytes dropped cut.index cut.removed
                    (ground (arith, few, over)) inside exact keeps,
                ground (arith, enough, part),
              )
      ]
    ]

trim_chunks-Keeps :
    (limit : ℕ) (sent : List ℕ) (shed : ℕ) (chunks : List Chunk) (bytes dropped : ℕ)
    → let ring : Ring = record { chunks = chunks; bytes = bytes; dropped = dropped } in
      Keeps limit sent shed ring
      → Keeps limit sent shed (trim limit ring) × ((trim limit ring).bytes ≤ limit)
unfolding trim
trim_chunks-Keeps limit sent shed [] bytes dropped keeps = (keeps, omega (arith, keeps.summed))
trim_chunks-Keeps limit sent shed (oldest ∷ chunks) bytes dropped keeps =
    let whole = drop_chunks limit oldest chunks bytes dropped in
    let (kept, settled) = drop_chunks-Keeps limit sent shed oldest chunks bytes dropped keeps in
    cut_oldest-Keeps limit sent shed whole.chunks whole.bytes whole.dropped settled kept

pub trim-Keeps :
    (limit : ℕ) (sent : List ℕ) (shed : ℕ) (ring : Ring)
    → Keeps limit sent shed ring
    → Keeps limit sent shed (trim limit ring) × ((trim limit ring).bytes ≤ limit)
trim-Keeps limit sent shed ring =
    trim_chunks-Keeps limit sent shed ring.chunks ring.bytes ring.dropped
