-- ===== src/Base/Order.antt =====
-- Rust's `Ord`: a comparison with its laws, and the instances that the program derives.
use Prim.Native.Nat.{ℕ, compare, Ordering}
use Prim.Native.Nat.Ordering.{lt, eq, gt}
use mathlib.Core.Path.{◌≡◌, refl}
use mathlib.Core.Bool.{Bool, true, false}
use mathlib.Core.List.{List, [], ◌∷◌}
use mathlib.Core.Logic.{◌↔◌}
use native.Mathlib.Omega.{arith}

abbrev pub flip : Ordering → Ordering
flip lt = gt
flip eq = eq
flip gt = lt

-- `Ordering::then_with`
abbrev pub then_with : Ordering → Ordering → Ordering
then_with lt next = lt
then_with eq next = next
then_with gt next = gt

pub record IsTotal {ℓ} {A : Type ℓ} (cmp : A → A → Ordering) : Type ℓ where
  pub flipped : (a b : A) → cmp b a ≡ flip (cmp a b)
  pub same_eq : (a b : A) → cmp a b ≡ eq → a ≡ b
  pub chained : (a b c : A) → cmp a b ≡ lt → cmp b c ≡ lt → cmp a c ≡ lt

pub record Ord {ℓ} (A : Type ℓ) : Type ℓ where
  pub cmp : A → A → Ordering
  pub total : IsTotal cmp
  pub open total use *

module _ {ℓ} {A : Type ℓ} ⦃o : Ord A⦄ where
  infix 50 ◌==◌ ◌≺◌
  abbrev pub ◌==◌ : A → A → Bool
  a == b = elim (o.cmp a b) [ eq ↦ true | _ ↦ false ]

  -- `a < b` as a test
  abbrev pub ◌≺◌ : A → A → Bool
  a ≺ b = elim (o.cmp a b) [ lt ↦ true | _ ↦ false ]

  pub cmp_refl : (a : A) → o.cmp a a ≡ eq
  cmp_refl a = ground (arith, o.flipped a a)

  pub ==_refl : (a : A) → (a == a) ≡ true
  ==_refl a = ground (arith, cmp_refl a)

  pub ==_comm : (a b : A) → (a == b) ≡ (b == a)
  ==_comm a b = ground (arith, o.flipped a b)

  pub ==_iff : (a b : A) → ((a == b) ≡ true) ↔ (a ≡ b)
  ==_iff a b = (λ h. o.same_eq a b (ground arith), λ e. rw e (==_refl b))

pub compare-IsTotal : IsTotal compare
compare-IsTotal = record {
  flipped = λ a b. ground arith;
  same_eq = λ a b h. ground arith;
  chained = λ a b c h k. ground arith;
}

instance abbrev pub nat_ord : Ord ℕ
nat_ord = record { cmp = compare; total = compare-IsTotal }

-- Byte strings, as `[u8]` and `String` compare: byte by byte, a prefix before what it starts.
abbrev pub Bytes : Type 0
Bytes = List ℕ

unfoldable pub cmp_bytes : Bytes → Bytes → Ordering
cmp_bytes [] [] = eq
cmp_bytes [] (y ∷ ys) = lt
cmp_bytes (x ∷ xs) [] = gt
cmp_bytes (x ∷ xs) (y ∷ ys) = then_with (compare x y) (cmp_bytes xs ys)

cmp_bytes-flipped : (a b : Bytes) → cmp_bytes b a ≡ flip (cmp_bytes a b)
unfolding cmp_bytes
cmp_bytes-flipped [] [] = refl
cmp_bytes-flipped [] (y ∷ ys) = refl
cmp_bytes-flipped (x ∷ xs) [] = refl
cmp_bytes-flipped (x ∷ xs) (y ∷ ys) = ground (arith, cmp_bytes-flipped xs ys)

cmp_bytes-same_eq : (a b : Bytes) → cmp_bytes a b ≡ eq → a ≡ b
unfolding cmp_bytes
cmp_bytes-same_eq [] [] h = refl
cmp_bytes-same_eq [] (y ∷ ys) h = cc
cmp_bytes-same_eq (x ∷ xs) [] h = cc
cmp_bytes-same_eq (x ∷ xs) (y ∷ ys) h = ground (arith, cmp_bytes-same_eq xs ys)

cmp_bytes-chained : (a b c : Bytes) → cmp_bytes a b ≡ lt → cmp_bytes b c ≡ lt → cmp_bytes a c ≡ lt
unfolding cmp_bytes
cmp_bytes-chained [] [] c h k = cc
cmp_bytes-chained [] (y ∷ ys) [] h k = cc
cmp_bytes-chained [] (y ∷ ys) (z ∷ zs) h k = refl
cmp_bytes-chained (x ∷ xs) [] c h k = cc
cmp_bytes-chained (x ∷ xs) (y ∷ ys) [] h k = cc
cmp_bytes-chained (x ∷ xs) (y ∷ ys) (z ∷ zs) h k = ground (arith, cmp_bytes-chained xs ys zs)

pub cmp_bytes-IsTotal : IsTotal cmp_bytes
cmp_bytes-IsTotal = record {
  flipped = cmp_bytes-flipped;
  same_eq = cmp_bytes-same_eq;
  chained = cmp_bytes-chained;
}

instance abbrev pub bytes_ord : Ord Bytes
bytes_ord = record { cmp = cmp_bytes; total = cmp_bytes-IsTotal }

-- A derived `Ord` compares the fields in their order.
module _ {ℓ κ} {A : Type ℓ} {B : Type κ} ⦃a : Ord A⦄ ⦃b : Ord B⦄ where
  unfoldable pub cmp_pair : A × B → A × B → Ordering
  cmp_pair x y = then_with (a.cmp x.0 y.0) (b.cmp x.1 y.1)

  cmp_pair-chained : (x y z : A × B) → cmp_pair x y ≡ lt → cmp_pair y z ≡ lt → cmp_pair x z ≡ lt
  unfolding cmp_pair
  cmp_pair-chained x y z h k =
      ground
        (arith, a.same_eq x.0 y.0, a.same_eq y.0 z.0, a.chained x.0 y.0 z.0, b.chained x.1 y.1 z.1)

  pub cmp_pair-IsTotal : IsTotal cmp_pair
  unfolding cmp_pair
  cmp_pair-IsTotal = record {
    flipped = λ x y. ground (arith, a.flipped x.0 y.0, b.flipped x.1 y.1);
    same_eq = λ x y h. ground (arith, a.same_eq x.0 y.0, b.same_eq x.1 y.1);
    chained = cmp_pair-chained;
  }

  instance abbrev pub pair_ord : Ord (A × B)
  pair_ord = record { cmp = cmp_pair; total = cmp_pair-IsTotal }

-- Values that a one-to-one key orders, such as the pair of a struct's fields.
module _ {ℓ κ} {A : Type ℓ} {K : Type κ} ⦃o : Ord K⦄ (key : A → K) where
  unfoldable pub cmp_on : A → A → Ordering
  cmp_on a b = o.cmp (key a) (key b)

  pub cmp_on-IsTotal : ((a b : A) → key a ≡ key b → a ≡ b) → IsTotal cmp_on
  unfolding cmp_on
  cmp_on-IsTotal one = record {
    flipped = λ a b. o.flipped (key a) (key b);
    same_eq = λ a b h. one a b (o.same_eq (key a) (key b) h);
    chained = λ a b c h k. o.chained (key a) (key b) (key c) h k;
  }
