-- ===== src/Terminal/DetachedOutput/Utf8.antt =====
-- The UTF-8 length of a text that is given by its UTF-16 code units.
use outright.Base.{
  ℕ, ◌+◌, ◌≡◌, ◌≤◌, ◌<◌, Bool, true, false, ◌&&◌, if◌then◌else◌, ltb, leb, List, [], ◌∷◌, ◌++◌,
  arith, refl,
}

-- `isHigh`
unfoldable pub is_high : ℕ → Bool
is_high code = leb 55296 code && leb code 56319

-- `isLow`
unfoldable pub is_low : ℕ → Bool
is_low code = leb 56320 code && leb code 57343

abbrev pub starts_low : List ℕ → Bool
starts_low [] = false
starts_low (code ∷ text) = is_low code

abbrev pub ends_high : List ℕ → Bool
ends_high [] = false
ends_high (code ∷ []) = is_high code
ends_high (code ∷ next ∷ text) = ends_high (next ∷ text)

-- The bytes of a code unit that is not half of a pair.
unfoldable pub unit_bytes : ℕ → ℕ
unit_bytes code = if ltb code 128 then 1 else if ltb code 2048 then 2 else 3

-- `utf8Bytes`
unfoldable pub utf8_bytes : List ℕ → ℕ
utf8_bytes [] = 0
utf8_bytes (code ∷ []) = unit_bytes code
utf8_bytes (code ∷ next ∷ text) = elim (is_high code && is_low next) [
  | true ↦ 4 + utf8_bytes text
  | false ↦ unit_bytes code + utf8_bytes (next ∷ text)
]

pub utf8_bytes_nil : utf8_bytes [] ≡ 0
unfolding utf8_bytes
utf8_bytes_nil = refl

is_high_of_low : (code : ℕ) → is_low code ≡ true → is_high code ≡ false
unfolding is_high is_low
is_high_of_low code low = ground (arith, low)

unit_bytes_low : (code : ℕ) → is_low code ≡ true → unit_bytes code ≡ 3
unfolding is_low unit_bytes
unit_bytes_low code low = ground (arith, low)

unit_bytes_high : (code : ℕ) → is_high code ≡ true → unit_bytes code ≡ 3
unfolding is_high unit_bytes
unit_bytes_high code high = ground (arith, high)

pub utf8_bytes_low :
    (code : ℕ) (text : List ℕ) → is_low code ≡ true → utf8_bytes (code ∷ text) ≡ 3 + utf8_bytes text
unfolding utf8_bytes
utf8_bytes_low code [] low = omega (arith, unit_bytes_low code low)
utf8_bytes_low code (next ∷ text) low =
    ground (arith, unit_bytes_low code low, is_high_of_low code low)

-- A unit adds its bytes, less two where it makes a pair with the unit after it.
pub utf8_bytes_cons :
    (code : ℕ) (text : List ℕ)
    → utf8_bytes (code ∷ text) + (if is_high code && starts_low text then 2 else 0)
      ≡ unit_bytes code + utf8_bytes text
unfolding utf8_bytes
utf8_bytes_cons code [] = ground arith
utf8_bytes_cons code (next ∷ text) = ground (arith, utf8_bytes_low next text, unit_bytes_high code)

-- Two texts joined take the bytes of both, less two where a pair comes together.
pub utf8_bytes-append :
    (front back : List ℕ)
    → utf8_bytes (front ++ back) + (if ends_high front && starts_low back then 2 else 0)
      ≡ utf8_bytes front + utf8_bytes back
utf8_bytes-append [] back = omega (arith, utf8_bytes_nil)
utf8_bytes-append (code ∷ []) back =
    grind (arith, utf8_bytes_cons code back, utf8_bytes_cons code [], utf8_bytes_nil)
utf8_bytes-append (code ∷ next ∷ front) back = omega (
  arith,
  utf8_bytes_cons code (next ∷ front),
  utf8_bytes_cons code ((next ∷ front) ++ back),
  utf8_bytes-append (next ∷ front) back,
)

pub utf8_bytes_of_low : (text : List ℕ) → starts_low text ≡ true → 3 ≤ utf8_bytes text
utf8_bytes_of_low [] low = ground (arith, low)
utf8_bytes_of_low (code ∷ text) low = omega (arith, utf8_bytes_low code text low)

pub utf8_bytes_pair :
    (code next : ℕ) (text : List ℕ)
    → (is_high code && is_low next) ≡ true
    → utf8_bytes (code ∷ next ∷ text) ≡ 4 + utf8_bytes text
unfolding utf8_bytes
utf8_bytes_pair code next text pair = ground (arith, pair)

pub utf8_bytes_unit :
    (code next : ℕ) (text : List ℕ)
    → (is_high code && is_low next) ≡ false
    → utf8_bytes (code ∷ next ∷ text) ≡ utf8_bytes (code ∷ []) + utf8_bytes (next ∷ text)
unfolding utf8_bytes
utf8_bytes_unit code next text single = ground (arith, single)

pub utf8_bytes_one : (code : ℕ) → (0 < utf8_bytes (code ∷ [])) × (utf8_bytes (code ∷ []) ≤ 3)
unfolding utf8_bytes unit_bytes
utf8_bytes_one code = ground arith
