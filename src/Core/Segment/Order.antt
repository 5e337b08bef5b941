-- ===== src/Core/Segment/Order.antt =====
-- What a segment's order gives its readers and its author.
use mathlib.Core.List.{append-nil, append_assoc}
use Prim.Native.Nat.Ordering.{lt}
use ko_ls.Base.{
  All, Bool, true, ◌&&◌, Option, none, some, List, [], ◌∷◌, ◌++◌, ◌≡◌, refl, ap, ◌∙◌, arith, map,
}
use ko_ls.Base.Order.{Bytes, bytes_ord, pair_ord, ◌≺◌, cmp_on}
use ko_ls.Base.BTreeMap.{BTreeMap, get, insert, values}
use ko_ls.Platform.{Platform}
use ko_ls.Core.Hlc.{Hlc, hlc_ord}
use ko_ls.Core.Record.{Record}
use ko_ls.Core.Cursor.{Cursor, cursor, cursor_ord}
use ko_ls.Core.Segment.{ascending, per_device_strict}
use ko_ls.Core.View.Admission.{insert_all}

module _ (p : Platform) where
  -- The entry of each record in a view.
  abbrev pub entries : List Record → BTreeMap Cursor Record
  entries = map (λ r. (cursor p r, r))

  -- The record's place is before the other's.
  abbrev IsBefore : Record → Record → Type 0
  IsBefore r x = cursor_ord.cmp (cursor p x) (cursor p r) ≡ lt

  ascending-IsBefore :
      (xs : List Record) (r : Record) → ascending p (xs ++ r ∷ []) ≡ true → All (IsBefore r) xs
  unfolding ascending cursor cmp_on
  ascending-IsBefore [] r h = tt
  ascending-IsBefore (x ∷ []) r h = (ground arith, tt)
  ascending-IsBefore (x ∷ y ∷ xs) r h =
      let later : All (IsBefore r) (y ∷ xs) = ascending-IsBefore (y ∷ xs) r (ground arith) in
      (cursor_ord.chained (cursor p x) (cursor p y) (cursor p r) (ground arith) later.0, later)

  insert-entries :
      (xs : List Record) (r : Record)
      → All (IsBefore r) xs
      → insert (cursor p r) r (entries xs) ≡ entries (xs ++ r ∷ [])
  unfolding insert
  insert-entries [] r h = refl
  insert-entries (x ∷ xs) r h =
      ground (arith, cursor_ord.flipped (cursor p x) (cursor p r), insert-entries xs r h.1)

  ascending-prefix : (xs ys : List Record) → ascending p (xs ++ ys) ≡ true → ascending p xs ≡ true
  unfolding ascending
  ascending-prefix [] ys h = refl
  ascending-prefix (x ∷ []) ys h = refl
  ascending-prefix (x ∷ y ∷ xs) ys h = ground (arith, ascending-prefix (y ∷ xs) ys)

  insert_all-entries :
      (xs rs : List Record)
      → ascending p (xs ++ rs) ≡ true
      → insert_all p rs (entries xs) ≡ entries (xs ++ rs)
  unfolding insert_all
  insert_all-entries xs [] h = rw append-nil refl
  insert_all-entries xs (r ∷ rs) h =
      let grouped : (xs ++ r ∷ []) ++ rs ≡ xs ++ r ∷ rs = append_assoc xs (r ∷ []) rs in
      let ordered : ascending p ((xs ++ r ∷ []) ++ rs) ≡ true = rw grouped h in
      ap (insert_all p rs)
        (insert-entries xs r (ascending-IsBefore xs r (ascending-prefix (xs ++ r ∷ []) rs ordered)))
      ∙ insert_all-entries (xs ++ r ∷ []) rs ordered
      ∙ ap entries grouped

  values-entries : (xs : List Record) → values (entries xs) ≡ xs
  unfolding values
  values-entries [] = refl
  values-entries (x ∷ xs) = ap (λ l. x ∷ l) (values-entries xs)

  -- A segment in ascending order is already in merge order: a reader that merges its records finds
  -- them in the order of the segment.
  pub values-insert_all :
      (rs : List Record) → ascending p rs ≡ true → values (insert_all p rs []) ≡ rs
  values-insert_all rs h = ap values (insert_all-entries [] rs h) ∙ values-entries rs

-- The latest readings by device, after these records.
unfoldable pub noted : BTreeMap Bytes Hlc → List Record → BTreeMap Bytes Hlc
noted seen [] = seen
noted seen (r ∷ rs) = noted (insert r.device r.hlc seen) rs

-- The test of `per_device_strict` on one record.
abbrev pub passes_last : Option Hlc → Hlc → Bool
passes_last none at = true
passes_last (some previous) at = previous ≺ at

pub per_device_strict-append :
    (seen : BTreeMap Bytes Hlc) (rs : List Record) (r : Record)
    → per_device_strict seen (rs ++ r ∷ [])
      ≡ (per_device_strict seen rs && passes_last (get r.device (noted seen rs)) r.hlc)
unfolding per_device_strict noted
per_device_strict-append seen [] r = ground arith
per_device_strict-append seen (x ∷ rs) r =
    ground (arith, per_device_strict-append (insert x.device x.hlc seen) rs r)
