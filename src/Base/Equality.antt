-- ===== src/Base/Equality.antt =====
-- `===` on the values that the program compares, as an interface, with counting and membership.
use Prim.Native.Nat.{ℕ, ◌+◌, ◌<◌, compare, Ordering}
use Prim.Native.String.{String}
use mathlib.Core.Path.{◌≡◌, refl}
use mathlib.Core.Logic.{◌↔◌, ◌≢◌}
use mathlib.Core.Bool.{Bool, true, false, ◌||◌}
use mathlib.Core.List.{List, [], ◌∷◌, ◌++◌}
use native.Mathlib.Omega.{arith}
use text.Mathlib.Text.{◌==◌ as str_eq}
use text.Mathlib.TextEquality.{eq_iff}
use outright.Base.Tests.{if◌then◌else◌}

-- `===` at a type, and what it decides.
pub record StrictEq {ℓ} (Value : Type ℓ) : Type ℓ where
  pub same : Value → Value → Bool
  pub same_iff : (left right : Value) → (same left right ≡ true) ↔ (left ≡ right)

abbrev pub nat_beq : ℕ → ℕ → Bool
nat_beq m n = elim (compare m n) [ Ordering.eq ↦ true | _ ↦ false ]

pub nat_beq_iff : (m n : ℕ) → (nat_beq m n ≡ true) ↔ (m ≡ n)
nat_beq_iff m n = ground arith

infix 50 ◌==◌
abbrev pub ◌==◌ {ℓ} : {Value : Type ℓ} ⦃e : StrictEq Value⦄ → Value → Value → Bool
◌==◌ ⦃e⦄ left right = e.same left right

instance abbrev pub string_eq : StrictEq String
string_eq = record { same = str_eq; same_iff = eq_iff }

instance abbrev pub nat_eq : StrictEq ℕ
nat_eq = record { same = nat_beq; same_iff = nat_beq_iff }

module _ {ℓ} {A : Type ℓ} ⦃e : StrictEq A⦄ where
  pub beq_refl : (a : A) → (a == a) ≡ true
  beq_refl a = (e.same_iff a a).1 refl

  pub different : (a b : A) → (a == b) ≡ false → a ≢ b
  different a b apart h = ground (arith, apart, h, e.same_iff a b)

  -- How often an array holds a value.
  abbrev pub count : A → List A → ℕ
  count needle [] = 0
  count needle (item ∷ items) = (if item == needle then 1 else 0) + count needle items

  pub count-append :
      (needle : A) (front back : List A)
      → count needle (front ++ back) ≡ count needle front + count needle back
  count-append needle [] back = omega arith
  count-append needle (item ∷ front) back = omega (arith, count-append needle front back)

  -- `array.includes(needle)`
  abbrev pub contains : List A → A → Bool
  contains [] needle = false
  contains (item ∷ items) needle = item == needle || contains items needle

  -- Membership is a positive count.
  pub contains_iff_count : (xs : List A) (a : A) → (contains xs a ≡ true) ↔ (0 < count a xs)
  contains_iff_count [] a = ground arith
  contains_iff_count (x ∷ xs) a = ground (arith, contains_iff_count xs a)

  pub count_of_contains : (xs : List A) (a : A) → contains xs a ≡ true → 0 < count a xs
  count_of_contains xs a = (contains_iff_count xs a).0

  pub count_of_not_contains : (xs : List A) (a : A) → contains xs a ≡ false → count a xs ≡ 0
  count_of_not_contains xs a h = ground (arith, contains_iff_count xs a)
