-- ===== src/Terminal/SavedOutput/Repeats.antt =====
-- A long repeat is shortened by whole periods.
use outright.Base.{ℕ, zero, suc, ◌+◌, ◌-◌, ◌*◌, ◌/◌, ◌%◌, ◌≤◌, ◌<◌, ◌≡◌, arith, ap, sym, ◌∙◌}
use outright.Terminal.SavedOutput.{View, divisor, half_of, period, settled, kept_of, left_out}

mod-parts : (a c : ℕ) → a ≡ (a / suc c) * suc c + a % suc c
mod-parts a c = grind arith

combine : (a s m q r d k : ℕ) → a ≡ k * s + m → s ≡ q * d → m ≡ r * d → a ≡ (k * q + r) * d
combine a s m q r d k h e f = h ∙ ap (λ t. k * t + m) e ∙ ap (λ t. k * (q * d) + t) f ∙ grind arith

-- With its fuel the divisor divides both numbers.
divisor_divides :
    (fuel a b : ℕ)
    → b < fuel
    → (q : ℕ) × (r : ℕ) × (a ≡ q * divisor fuel a b) × (b ≡ r * divisor fuel a b)
unfolding divisor
divisor_divides zero a b h = ground (arith, h)
divisor_divides (suc fuel) a zero h = (1, 0, omega arith, omega arith)
divisor_divides (suc fuel) a (suc c) h =
    let (q, r, e, f) = divisor_divides fuel (suc c) (a % suc c) (grind (arith, h)) in
    ((a / suc c) * q + r, q, combine a (suc c) (a % suc c) q r _ (a / suc c) (mod-parts a c) e f, e)

quotient : (q d : ℕ) → 0 < d → (q * d) / d ≡ q
quotient q d h = grind arith

swapped : (q r d : ℕ) → q * (r * d) ≡ r * (q * d)
swapped q r d = grind arith

factors_pos : (q d n : ℕ) → n ≡ q * d → 0 < n → (0 < q) × (0 < d)
factors_pos zero d n e h = grind (arith, h, e)
factors_pos (suc q) zero n e h = grind (arith, h, e)
factors_pos (suc q) (suc d) n e h = omega arith

period_parts :
    (cols half d q r : ℕ)
    → 0 < cols
    → 0 < half
    → cols ≡ q * d
    → half ≡ r * d
    → ((cols / d) * half ≡ r * cols) × ((cols / d) * half ≡ q * half) × (0 < (cols / d) * half)
period_parts cols half d q r h k e f =
    let (some_q, some_d) = factors_pos q d cols e h in
    let whole : cols / d ≡ q = ap (λ t. t / d) e ∙ quotient q d some_d in
    (
      ap (λ t. t * half) whole ∙ ap (λ t. q * t) f ∙ swapped q r d ∙ ap (λ t. r * t) (sym e),
      ap (λ t. t * half) whole,
      rw whole (grind (arith, some_q, k)),
    )

half_of_pos : (cols : ℕ) → 0 < half_of cols
unfolding half_of
half_of_pos cols = omega arith

-- A period fills whole rows, of characters as wide as one column and as wide as two.
pub period_lem :
    (view : View)
    → 0 < view.cols
    → (rows : ℕ) × (wide : ℕ) × (period view ≡ rows * view.cols)
      × (period view ≡ wide * half_of view.cols)
      × (0 < period view)
unfolding period
period_lem view h =
    let half = half_of view.cols in
    let d = divisor (suc half) view.cols half in
    let (q, r, e, f) = divisor_divides (suc half) view.cols half (omega arith) in
    let parts = period_parts view.cols half d q r h (half_of_pos view.cols) e f in
    (r, q, parts.0, parts.1, parts.2)

shortened :
    (base step count : ℕ)
    → 0 < step
    → base < count
    → let kept = base + (count - base) % step in
      (kept + ((count - kept) / step) * step ≡ count) × (base ≤ kept) × (kept < base + step)
shortened base step count positive over =
    let over_by = count - base in
    let parts : over_by ≡ (over_by / step) * step + over_by % step = grind (arith, positive) in
    let rest : count - (base + over_by % step) ≡ (over_by / step) * step =
      omega (arith, parts, over) in
    let whole : (count - (base + over_by % step)) / step ≡ over_by / step =
      ap (λ t. t / step) rest ∙ quotient (over_by / step) step positive in
    (rw whole (omega (arith, parts, over)), omega arith, grind (arith, positive))

-- What is kept of a long repeat and the periods left out make its count, and what is kept still
-- settles the screen, by less than a period more.
pub kept_of_lem :
    (view : View) (count : ℕ)
    → 0 < view.cols
    → settled view < count
    → (kept_of view count + left_out view count * period view ≡ count)
      × (settled view ≤ kept_of view count)
      × (kept_of view count < settled view + period view)
unfolding kept_of
kept_of_lem view count wide over =
    let (rows, chars, e, f, positive) = period_lem view wide in
    shortened (settled view) (period view) count positive over
