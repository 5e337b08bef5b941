-- ===== src/Base/Lists.antt =====
-- Lists measured by the native numbers, membership and quantifiers by recursion.
use Prim.Native.Nat.{ℕ, suc, ◌+◌}
use mathlib.Core.Path.{◌≡◌, refl, ap, sym, ◌∙◌}
use mathlib.Core.Logic.{◌⊎◌, inl, inr}
use mathlib.Core.List.{List, [], ◌∷◌, ◌++◌, map}
use mathlib.Core.Bool.{Bool, true, false}
use native.Mathlib.Omega.{arith}
use ko_ls.Base.Tests.{if◌then◌else◌, Bool-cases}

module _ {ℓ} {A : Type ℓ} where
  abbrev pub length : List A → ℕ
  length [] = 0
  length (x ∷ xs) = suc (length xs)

  abbrev pub All {κ} : (A → Type κ) → List A → Type κ
  All P [] = Unit
  All P (x ∷ xs) = P x × All P xs

  -- The elements that pass the test, in their order.
  abbrev pub filter : (A → Bool) → List A → List A
  filter p [] = []
  filter p (x ∷ xs) = let rest = filter p xs in if p x then x ∷ rest else rest

  -- How many elements pass the test.
  abbrev pub count_if : (A → Bool) → List A → ℕ
  count_if p [] = 0
  count_if p (x ∷ xs) = let rest = count_if p xs in if p x then suc rest else rest

  abbrev pub any : (A → Bool) → List A → Bool
  any p [] = false
  any p (x ∷ xs) = let rest = any p xs in if p x then true else rest

  abbrev pub all : (A → Bool) → List A → Bool
  all p [] = true
  all p (x ∷ xs) = let rest = all p xs in if p x then rest else false

module _ {ℓ} {A : Type ℓ} where
  pub length-append : (xs ys : List A) → length (xs ++ ys) ≡ length xs + length ys
  length-append [] ys = omega arith
  length-append (x ∷ xs) ys = omega (arith, length-append xs ys)

  pub filter-append :
      (p : A → Bool) (xs ys : List A) → filter p (xs ++ ys) ≡ filter p xs ++ filter p ys
  filter-append p [] ys = refl
  filter-append p (x ∷ xs) ys = ground (arith, filter-append p xs ys)

-- `a` stands in the list.
abbrev pub In : {A : Type 0} → A → List A → Type 0
In a [] = ⊥
In a (x ∷ xs) = (a ≡ x) ⊎ In a xs

module _ {A : Type 0} where
  pub All-In {κ} : (P : A → Type κ) (a : A) (xs : List A) → All P xs → In a xs → P a
  All-In P a [] h i = absurd i
  All-In P a (x ∷ xs) h (inl e) = rw e h.0
  All-In P a (x ∷ xs) h (inr i) = All-In P a xs h.1 i

  pub All-of_In {κ} : (P : A → Type κ) (xs : List A) → ((a : A) → In a xs → P a) → All P xs
  All-of_In P [] f = tt
  All-of_In P (x ∷ xs) f = (f x (inl refl), All-of_In P xs (λ a i. f a (inr i)))

  pub In-append_left : (a : A) (xs ys : List A) → In a xs → In a (xs ++ ys)
  In-append_left a [] ys i = absurd i
  In-append_left a (x ∷ xs) ys (inl e) = inl e
  In-append_left a (x ∷ xs) ys (inr i) = inr (In-append_left a xs ys i)

  pub In-append_right : (a : A) (xs ys : List A) → In a ys → In a (xs ++ ys)
  In-append_right a [] ys i = i
  In-append_right a (x ∷ xs) ys i = inr (In-append_right a xs ys i)

  pub In-of_append : (a : A) (xs ys : List A) → In a (xs ++ ys) → In a xs ⊎ In a ys
  In-of_append a [] ys i = inr i
  In-of_append a (x ∷ xs) ys (inl e) = inl (inl e)
  In-of_append a (x ∷ xs) ys (inr i) = elim (In-of_append a xs ys i) [
    | inl j ↦ inl (inr j)
    | inr j ↦ inr j
  ]

module _ {A B : Type 0} where
  pub In-map : (f : A → B) (a : A) (xs : List A) → In a xs → In (f a) (map f xs)
  In-map f a [] i = absurd i
  In-map f a (x ∷ xs) (inl e) = inl (ap f e)
  In-map f a (x ∷ xs) (inr i) = inr (In-map f a xs i)

module _ {A : Type 0} (f : A → Bool) where
  pub In-filter : (x : A) (xs : List A) → In x xs → f x ≡ true → In x (filter f xs)
  In-filter x [] i h = absurd i
  In-filter x (y ∷ ys) (inl e) h = let t : f y ≡ true = ap f (sym e) ∙ h in rw t (inl e)
  In-filter x (y ∷ ys) (inr i) h = elim (Bool-cases (f y)) [
    | inl t ↦ rw t (inr (In-filter x ys i h))
    | inr t ↦ rw t (In-filter x ys i h)
  ]

  -- The first element was kept.
  In-of_kept :
      (x y : A) (ys : List A)
      → f y ≡ true
      → (In x (filter f ys) → In x ys × (f x ≡ true))
      → (x ≡ y) ⊎ In x (filter f ys)
      → In x (y ∷ ys) × (f x ≡ true)
  In-of_kept x y ys t rest (inl e) = (inl e, ap f e ∙ t)
  In-of_kept x y ys t rest (inr i) = (inr (rest i).0, (rest i).1)

  pub In-of_filter : (x : A) (xs : List A) → In x (filter f xs) → In x xs × (f x ≡ true)
  In-of_filter x [] i = absurd i
  In-of_filter x (y ∷ ys) i = elim (Bool-cases (f y)) [
    | inl t ↦ In-of_kept x y ys t (In-of_filter x ys) (rw t at i)
    | inr t ↦ let (j, e) = In-of_filter x ys (rw t at i) in (inr j, e)
  ]

-- A list's quantifier at an element, and over what stands before one.
pub All-before : {A : Type 0} (P : A → Type 0) (xs ys : List A) → All P (xs ++ ys) → All P xs
All-before P [] ys h = tt
All-before P (x ∷ xs) ys h = (h.0, All-before P xs ys h.1)

pub All-at : {A : Type 0} (P : A → Type 0) (xs ys : List A) (y : A) → All P (xs ++ y ∷ ys) → P y
All-at P [] ys y h = h.0
All-at P (x ∷ xs) ys y h = All-at P xs ys y h.1

pub All-map :
    {A : Type 0} (P Q : A → Type 0) (xs : List A) → ((x : A) → P x → Q x) → All P xs → All Q xs
All-map P Q [] f h = tt
All-map P Q (x ∷ xs) f h = (f x h.0, All-map P Q xs f h.1)
