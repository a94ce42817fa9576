-- ===== src/Base/JsMap.antt =====
-- A JavaScript `Map` with keys compared by `===`: its entries in insertion order. Writing a key
-- that is there already keeps its place.
use Prim.Native.Nat.{◌+◌, ◌≤◌}
use mathlib.Core.Path.{◌≡◌, refl}
use mathlib.Core.Bool.{Bool}
use mathlib.Core.Option.{Option, none, some}
use mathlib.Core.List.{List, [], ◌∷◌}
use native.Mathlib.Omega.{arith}
use outright.Base.Tests.{if◌then◌else◌, is_some}
use outright.Base.Lists.{length}
use outright.Base.Equality.{StrictEq, ◌==◌}

module _ {ℓ κ} {K : Type ℓ} {V : Type κ} ⦃e : StrictEq K⦄ where
  -- `map.delete(key)`
  unfoldable pub erase : K → List (K × V) → List (K × V)
  erase key [] = []
  erase key ((at, value) ∷ others) =
      if at == key then erase key others else (at, value) ∷ erase key others

  -- `map.set(key, value)`
  unfoldable pub insert : K → V → List (K × V) → List (K × V)
  insert key new [] = (key, new) ∷ []
  insert key new ((at, old) ∷ others) =
      if at == key then (at, new) ∷ others else (at, old) ∷ insert key new others

  -- `map.get(key)`
  unfoldable pub lookup : K → List (K × V) → Option V
  lookup key [] = none
  lookup key ((at, value) ∷ others) = if at == key then some value else lookup key others

  -- `map.has(key)`
  abbrev pub has : K → List (K × V) → Bool
  has key entries = is_some (lookup key entries)

  pub lookup-erase :
      (gone key : K) (entries : List (K × V))
      → lookup key (erase gone entries) ≡ (if gone == key then none else lookup key entries)
  unfolding erase lookup
  lookup-erase gone key [] = ground arith
  lookup-erase gone key ((at, value) ∷ others) = ground (
    arith,
    lookup-erase gone key others,
    e.same_iff at gone,
    e.same_iff at key,
    e.same_iff gone key,
  )

  pub lookup-insert :
      (set key : K) (new : V) (entries : List (K × V))
      → lookup key (insert set new entries) ≡ (if set == key then some new else lookup key entries)
  unfolding insert lookup
  lookup-insert set key new [] = refl
  lookup-insert set key new ((at, old) ∷ others) = ground (
    arith,
    lookup-insert set key new others,
    e.same_iff at set,
    e.same_iff at key,
    e.same_iff set key,
  )

  pub length-erase-le : (k : K) (m : List (K × V)) → length (erase k m) ≤ length m
  unfolding erase
  length-erase-le k [] = omega arith
  length-erase-le k ((j, v) ∷ m) = ground (arith, length-erase-le k m)

  pub length-insert-le : (k : K) (v : V) (m : List (K × V)) → length (insert k v m) ≤ length m + 1
  unfolding insert
  length-insert-le k v [] = omega arith
  length-insert-le k v ((j, w) ∷ m) = ground (arith, length-insert-le k v m)
