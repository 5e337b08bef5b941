-- ===== src/Core/Limits/Greedy.antt =====
-- The greedy rule of design/01 §10 that `withheld` is measured by, over the readings let through so
-- far, and the lemmas that its proof walks on.
use ko_ls.Base.{
  Bool, false, ◌&&◌, not, Option, none, some, List, [], ◌∷◌, ◌++◌, map, filter, count_if, All,
  if◌then◌else◌, ◌≡◌, refl, arith, ltb, ◌∙◌,
}
use ko_ls.Base.Order.{◌==◌, ==_comm, ◌≺◌, bytes_ord}
use ko_ls.Base.Int.{ℤ, pos, leb_ℤ, int_ord, saturating_sub, seconds_to_millis}
use ko_ls.Base.BTreeMap.{BTreeMap, get, contains_key}
use ko_ls.Platform.{Platform}
use ko_ls.Core.Hlc.{Hlc}
use ko_ls.Core.Record.{IdentityId, MessageId, Record, RecordClass, class, id}
use ko_ls.Core.Limits.{
  ReaderLimits, Walk, walk_start, Rejection, step, walk, withheld, class_ord, too_fast, slowmode,
  rate_window_millis,
}
use ko_ls.Core.Limits.Steps.{refused-step_ne}

unfoldable pub last_of {ℓ} : {A : Type ℓ} → List A → Option A
last_of [] = none
last_of (x ∷ xs) = elim (last_of xs) [ none ↦ some x | some y ↦ some y ]

pub last_of-append {ℓ} : {A : Type ℓ} (xs : List A) (x : A) → last_of (xs ++ x ∷ []) ≡ some x
unfolding last_of
last_of-append [] x = refl
last_of-append (y ∷ xs) x = ground (arith, last_of-append xs x)

-- `design/01` §10: what the readings already admitted say of a record.
unfoldable pub greedy : ReaderLimits → ℤ → Record → List Hlc → Option Rejection
greedy l ceiling r admitted =
    if paced
    then some slowmode
    else if leb_ℤ ceiling (pos (count_if in_window admitted))
    then some too_fast
    else none
  where
    in_window : Hlc → Bool
    in_window h = saturating_sub r.hlc.wall_millis rate_window_millis ≺ h.wall_millis

    close_to : Option Hlc → Bool
    close_to none = false
    close_to (some previous) =
        saturating_sub r.hlc.wall_millis previous.wall_millis ≺ seconds_to_millis l.slowmode_seconds

    paced : Bool
    paced =
        (RecordClass.message == class r.body)
        && (ltb 0 l.slowmode_seconds && close_to (last_of admitted))

module _ (p : Platform) where
  -- No record of the list has the identifier.
  abbrev pub IsFresh : MessageId → List Record → Type 0
  IsFresh i = All (λ s. (i == id p s) ≡ false)

  -- No two records of the list share an identifier.
  abbrev pub IsDistinct : List Record → Type 0
  IsDistinct [] = Unit
  IsDistinct (r ∷ rs) = IsFresh (id p r) rs × IsDistinct rs

  admits : BTreeMap MessageId Rejection → IdentityId → RecordClass → Record → Bool
  admits refused a c s =
      (a == s.author) && ((c == class s.body) && not (contains_key (id p s) refused))

  -- The readings of an author's records of a class that are not refused.
  unfoldable pub admitted :
      BTreeMap MessageId Rejection → IdentityId → RecordClass → List Record → List Hlc
  unfolding admits
  admitted refused a c rs = map (λ s. s.hlc) (filter (admits refused a c) rs)

module _ (p : Platform) where
  pub IsFresh-append :
      (i : MessageId) (xs ys : List Record)
      → IsFresh p i (xs ++ ys)
      → IsFresh p i xs × IsFresh p i ys
  IsFresh-append i [] ys f = (tt, f)
  IsFresh-append i (x ∷ xs) ys f = let (g, h) = IsFresh-append i xs ys f.1 in ((f.0, g), h)

  pub IsDistinct-append :
      (xs ys : List Record) → IsDistinct p (xs ++ ys) → IsDistinct p xs × IsDistinct p ys
  IsDistinct-append [] ys d = (tt, d)
  IsDistinct-append (x ∷ xs) ys d =
      let (g, h) = IsDistinct-append xs ys d.1 in (((IsFresh-append (id p x) xs ys d.0).0, g), h)

  -- A record behind others is new to them.
  pub IsFresh-before :
      (xs ys : List Record) (r : Record) → IsDistinct p (xs ++ r ∷ ys) → IsFresh p (id p r) xs
  IsFresh-before [] ys r d = tt
  IsFresh-before (x ∷ xs) ys r d = (
    ==_comm (id p r) (id p x) ∙ (IsFresh-append (id p x) xs (r ∷ ys) d.0).1.0,
    IsFresh-before xs ys r d.1,
  )

  -- What lies behind changes no verdict.
  pub refused-walk :
      (l : ReaderLimits) (now : ℤ) (w : Walk) (i : MessageId) (rs : List Record)
      → IsFresh p i rs
      → get i (walk p l now w rs).out.refused ≡ get i w.out.refused
  unfolding walk
  refused-walk l now w i [] f = refl
  refused-walk l now w i (r ∷ rs) f =
      refused-walk l now (step p l now w r) i rs f.1 ∙ refused-step_ne p l now w r i f.0

  pub walk-append :
      (l : ReaderLimits) (now : ℤ) (w : Walk) (xs ys : List Record)
      → walk p l now w (xs ++ ys) ≡ walk p l now (walk p l now w xs) ys
  unfolding walk
  walk-append l now w [] ys = refl
  walk-append l now w (x ∷ xs) ys = walk-append l now (step p l now w x) xs ys

  -- The readings depend on the verdicts of the listed records alone.
  pub admitted-agree :
      (a : IdentityId) (c : RecordClass) (m n : BTreeMap MessageId Rejection) (rs : List Record)
      → All (λ s. get (id p s) m ≡ get (id p s) n) rs
      → admitted p m a c rs ≡ admitted p n a c rs
  unfolding admitted
  admitted-agree a c m n [] h = refl
  admitted-agree a c m n (r ∷ rs) h = ground (arith, h.0, admitted-agree a c m n rs h.1)

  pub admitted-append :
      (a : IdentityId) (c : RecordClass) (m : BTreeMap MessageId Rejection) (rs : List Record)
      (r : Record)
      → admitted p m a c (rs ++ r ∷ []) ≡ (
          if (a == r.author) && ((c == class r.body) && not (contains_key (id p r) m))
          then admitted p m a c rs ++ r.hlc ∷ []
          else admitted p m a c rs)
  unfolding admitted
  admitted-append a c m [] r = ground arith
  admitted-append a c m (s ∷ rs) r = ground (arith, admitted-append a c m rs r)

  pub IsFresh-behind :
      (xs ys : List Record) → IsDistinct p (xs ++ ys) → All (λ s. IsFresh p (id p s) ys) xs
  IsFresh-behind [] ys d = tt
  IsFresh-behind (x ∷ xs) ys d = ((IsFresh-append (id p x) xs ys d.0).1, IsFresh-behind xs ys d.1)

  pub withheld-eq-walk :
      (l : ReaderLimits) (now : ℤ) (rs : List Record)
      → withheld p l now rs ≡ (walk p l now walk_start rs).out
  unfolding withheld
  withheld-eq-walk l now rs = refl

  pub walk-cons :
      (l : ReaderLimits) (now : ℤ) (w : Walk) (r : Record) (rs : List Record)
      → walk p l now w (r ∷ rs) ≡ walk p l now (step p l now w r) rs
  unfolding walk
  walk-cons l now w r rs = refl
