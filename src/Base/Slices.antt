-- ===== src/Base/Slices.antt =====
-- Slices of arrays.
use Prim.Native.Nat.{ℕ, zero, suc, ◌+◌, ◌≤◌}
use mathlib.Core.Path.{◌≡◌, refl, ap, sym, ◌∙◌}
use mathlib.Core.List.{List, [], ◌∷◌, ◌++◌}
use native.Mathlib.Omega.{arith}
use outright.Base.Lists.{length, take, drop, length-take}

module _ {ℓ} {A : Type ℓ} where
  pub drop-nil : (m : ℕ) → drop {A = A} m [] ≡ []
  drop-nil zero = refl
  drop-nil (suc m) = refl

  pub drop-drop : (m n k : ℕ) (xs : List A) → k ≡ m + n → drop m (drop n xs) ≡ drop k xs
  drop-drop m zero k xs e = ap (λ i. drop i xs) (omega (arith, e))
  drop-drop m (suc n) zero xs e = ground (arith, e)
  drop-drop m (suc n) (suc k) [] e = drop-nil m
  drop-drop m (suc n) (suc k) (x ∷ xs) e = drop-drop m n k xs (omega (arith, e))

  pub take-drop-take : (m n : ℕ) (xs : List A) → m ≤ n → take m xs ++ drop m (take n xs) ≡ take n xs
  take-drop-take zero n xs h = refl
  take-drop-take (suc m) zero xs h = ground (arith, h)
  take-drop-take (suc m) (suc n) [] h = refl
  take-drop-take (suc m) (suc n) (x ∷ xs) h = ap (x ∷◌) (take-drop-take m n xs (omega arith))

  pub drop-append : (m : ℕ) (xs ys : List A) → m ≤ length xs → drop m (xs ++ ys) ≡ drop m xs ++ ys
  drop-append zero xs ys h = refl
  drop-append (suc m) [] ys h = ground (arith, h)
  drop-append (suc m) (x ∷ xs) ys h = drop-append m xs ys (omega arith)

  -- Two neighbouring ranges joined.
  pub drop-take-append :
      (from m n : ℕ) (xs : List A)
      → from ≤ m
      → m ≤ n
      → m ≤ length xs
      → drop from (take m xs) ++ drop m (take n xs) ≡ drop from (take n xs)
  drop-take-append from m n xs h k l =
      sym (drop-append from (take m xs) (drop m (take n xs)) (omega (arith, length-take m xs)))
      ∙ ap (drop from) (take-drop-take m n xs k)

  -- `array.slice(from, to)` of what stands in the array or past it.
  abbrev pub slice : ℕ → ℕ → List A → List A
  slice from to xs = drop from (take to xs)

  pub take_all : (n : ℕ) (xs : List A) → length xs ≤ n → take n xs ≡ xs
  take_all zero [] h = refl
  take_all zero (x ∷ xs) h = ground (arith, h)
  take_all (suc n) [] h = refl
  take_all (suc n) (x ∷ xs) h = ap (x ∷◌) (take_all n xs (omega arith))
