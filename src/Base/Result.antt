-- ===== src/Base/Result.antt =====
-- The standard library's `Result`, its `map_err` and `?`, and the early return of an error.
use mathlib.Core.Path.{◌≡◌, refl}
use mathlib.Core.Logic.{◌⊎◌, inl, inr}
use mathlib.Core.Bool.{Bool, true, false}
use mathlib.Core.Option.{Option, none, some}
use ko_ls.Base.Tests.{if◌then◌else◌}

pub data Result {ℓ κ} (E : Type ℓ) (A : Type κ) : Type (ℓ ⊔ κ) where
  ok : A → Result E A
  err : E → Result E A

-- `if !b { return Err(e) }`
abbrev pub guard {ℓ} : {E : Type ℓ} → Bool → E → Result E (Unit {0})
guard b e = if b then ok tt else err e

module _ {ℓ κ} {E : Type ℓ} {A : Type κ} where
  abbrev pub is_ok : Result E A → Bool
  is_ok (err e) = false
  is_ok (ok a) = true

  abbrev pub map_err {μ} : {F : Type μ} → (E → F) → Result E A → Result F A
  map_err change (err e) = err (change e)
  map_err change (ok a) = ok a

  -- `Option::ok_or`
  abbrev pub ok_or : Option A → E → Result E A
  ok_or found missing = elim found [ some a ↦ ok a | none ↦ err missing ]

  pub Result-cases : (m : Result E A) → ((e : E) × (m ≡ err e)) ⊎ ((a : A) × (m ≡ ok a))
  Result-cases (err e) = inl (e, refl)
  Result-cases (ok a) = inr (a, refl)

  infixl 5 ◌>>=◌
  abbrev pub ◌>>=◌ {μ} : {B : Type μ} → Result E A → (A → Result E B) → Result E B
  m >>= next = elim m [ err e ↦ err e | ok a ↦ next a ]

-- What follows a statement.
infixl 5 ◌>>◌
abbrev pub ◌>>◌ {ℓ κ} : {E : Type ℓ} {B : Type κ} → Result E (Unit {0}) → Result E B → Result E B
check >> rest = elim check [ err e ↦ err e | ok done ↦ rest ]
