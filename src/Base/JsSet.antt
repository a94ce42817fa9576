-- ===== src/Base/JsSet.antt =====
-- A JavaScript `Set` of values compared by `===`: its members in insertion order.
use Prim.Native.Nat.{◌+◌, ◌≤◌}
use mathlib.Core.Path.{◌≡◌}
use mathlib.Core.Bool.{not, ◌&&◌, ◌||◌}
use mathlib.Core.List.{List, [], ◌∷◌, ◌++◌}
use native.Mathlib.Omega.{arith}
use outright.Base.Tests.{if◌then◌else◌}
use outright.Base.Lists.{length, length-append}
use outright.Base.Equality.{StrictEq, ◌==◌, contains, count, count-append, contains_iff_count}

module _ {ℓ} {A : Type ℓ} ⦃e : StrictEq A⦄ where
  -- `set.add(value)`
  unfoldable pub add : A → List A → List A
  add value members = if contains members value then members else members ++ (value ∷ [])

  -- `set.delete(value)`
  unfoldable pub remove : A → List A → List A
  remove value [] = []
  remove value (member ∷ members) =
      if member == value then remove value members else member ∷ remove value members

  contains-snoc :
      (value other : A) (members : List A)
      → contains (members ++ (value ∷ [])) other ≡ (value == other || contains members other)
  contains-snoc value other [] = ground arith
  contains-snoc value other (member ∷ members) = ground (arith, contains-snoc value other members)

  pub contains-add :
      (value other : A) (members : List A)
      → contains (add value members) other ≡ (value == other || contains members other)
  unfolding add
  contains-add value other members =
      ground (arith, contains-snoc value other members, e.same_iff value other)

  pub contains-remove :
      (value other : A) (members : List A)
      → contains (remove value members) other ≡ (not (value == other) && contains members other)
  unfolding remove
  contains-remove value other [] = ground arith
  contains-remove value other (member ∷ members) = ground (
    arith,
    contains-remove value other members,
    e.same_iff member value,
    e.same_iff member other,
    e.same_iff value other,
  )

  pub count-add :
      (value other : A) (members : List A)
      → count other members ≤ 1
      → count other (add value members) ≤ 1
  unfolding add
  count-add value other members once = ground (
    arith,
    count-append other members (value ∷ []),
    contains_iff_count members value,
    e.same_iff value other,
  )

  pub count-remove-le :
      (value other : A) (members : List A)
      → count other (remove value members) ≤ count other members
  unfolding remove
  count-remove-le value other [] = omega arith
  count-remove-le value other (member ∷ members) =
      ground (arith, count-remove-le value other members, e.same_iff member other)

  pub length-add :
      (value : A) (members : List A)
      → length (add value members) ≡ (if contains members value then 0 else 1) + length members
  unfolding add
  length-add value members = ground (arith, length-append members (value ∷ []))

  pub length-remove :
      (value : A) (members : List A)
      → length (remove value members) + count value members ≡ length members
  unfolding remove
  length-remove value [] = omega arith
  length-remove value (member ∷ members) = ground (arith, length-remove value members)
