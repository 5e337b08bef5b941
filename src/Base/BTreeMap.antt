-- ===== src/Base/BTreeMap.antt =====
-- `BTreeMap` of the Rust standard library, as the list of its entries in key order.
pub mod Laws
use mathlib.Core.List.{List, [], ◌∷◌, map}
use mathlib.Core.Option.{Option, none, some}
use mathlib.Core.Bool.{Bool}
use Prim.Native.Nat.Ordering.{lt, eq, gt}
use ko_ls.Base.Tests.{is_some, if◌then◌else◌}
use ko_ls.Base.Order.{Ord, ◌==◌}

abbrev pub BTreeMap {ℓ κ} : Type ℓ → Type κ → Type (ℓ ⊔ κ)
BTreeMap K V = List (K × V)

module _ {ℓ κ} {K : Type ℓ} {V : Type κ} ⦃o : Ord K⦄ where
  unfoldable pub get : K → BTreeMap K V → Option V
  get q [] = none
  get q ((k, v) ∷ m) = if q == k then some v else get q m

  -- An equal key keeps its place and takes the new value.
  unfoldable pub insert : K → V → BTreeMap K V → BTreeMap K V
  insert q w [] = (q, w) ∷ []
  insert q w ((k, v) ∷ m) = elim (o.cmp q k) [
    | lt ↦ (q, w) ∷ (k, v) ∷ m
    | eq ↦ (q, w) ∷ m
    | gt ↦ (k, v) ∷ insert q w m
  ]

  unfoldable pub remove : K → BTreeMap K V → BTreeMap K V
  remove q [] = []
  remove q ((k, v) ∷ m) = let rest = remove q m in if q == k then rest else (k, v) ∷ rest

  abbrev pub contains_key : K → BTreeMap K V → Bool
  contains_key q m = is_some (get q m)

module _ {ℓ κ} {K : Type ℓ} {V : Type κ} where
  unfoldable pub keys : BTreeMap K V → List K
  keys = map (λ e. e.0)

  unfoldable pub values : BTreeMap K V → List V
  values = map (λ e. e.1)
