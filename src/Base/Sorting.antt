-- ===== src/Base/Sorting.antt =====
-- `sort_by` of the Rust standard library: stable.
use Prim.Native.Nat.{Ordering}
use Prim.Native.Nat.Ordering.{gt}
use mathlib.Core.Path.{◌≡◌, refl, ◌∙◌}
use mathlib.Core.Bool.{Bool}
use mathlib.Core.List.{List, [], ◌∷◌}
use native.Mathlib.Omega.{arith}
use ko_ls.Base.Lists.{any, count_if}

module _ {A : Type 0} (cmp : A → A → Ordering) where
  -- Before the first element that is not smaller.
  unfoldable pub place : A → List A → List A
  place x [] = x ∷ []
  place x (y ∷ ys) = let rest = place x ys in elim (cmp x y) [ gt ↦ y ∷ rest | _ ↦ x ∷ y ∷ ys ]

  unfoldable pub sort_by : List A → List A
  unfolding place
  sort_by [] = []
  sort_by (x ∷ xs) = place x (sort_by xs)

  count_if-place :
      (f : A → Bool) (x : A) (xs : List A) → count_if f (place x xs) ≡ count_if f (x ∷ xs)
  unfolding place
  count_if-place f x [] = refl
  count_if-place f x (y ∷ ys) = ground (arith, count_if-place f x ys)

  -- Sorting keeps how many elements pass a test.
  pub count_if-sort_by : (f : A → Bool) (xs : List A) → count_if f (sort_by xs) ≡ count_if f xs
  unfolding sort_by
  count_if-sort_by f [] = refl
  count_if-sort_by f (x ∷ xs) =
      count_if-place f x (sort_by xs) ∙ ground (arith, count_if-sort_by f xs)

  any-place : (f : A → Bool) (x : A) (xs : List A) → any f (place x xs) ≡ any f (x ∷ xs)
  unfolding place
  any-place f x [] = refl
  any-place f x (y ∷ ys) = ground (arith, any-place f x ys)

  pub any-sort_by : (f : A → Bool) (xs : List A) → any f (sort_by xs) ≡ any f xs
  unfolding sort_by
  any-sort_by f [] = refl
  any-sort_by f (x ∷ xs) = any-place f x (sort_by xs) ∙ ground (arith, any-sort_by f xs)
