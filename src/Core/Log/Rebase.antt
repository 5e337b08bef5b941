-- ===== src/Core/Log/Rebase.antt =====
-- Recovering from a lost version collision loses no record, and both sides come to one record list.
use ko_ls.Base.{
  Ordering-cases, less, same, more, true, some, List, [], ◌∷◌, ◌++◌, All, In, ◌≡◌, ◌↔◌, ◌⊎◌, refl,
  ap, arith, Bool-cases, inl, inr, In-append_left, In-append_right, In-of_append,
}
use ko_ls.Base.Order.{◌==◌, cmp_on, pair_ord, bytes_ord}
use ko_ls.Base.BTreeMap.{BTreeMap, get, insert, values}
use ko_ls.Base.BTreeMap.Laws.{IsSorted}
use ko_ls.Platform.{Platform, Storage}
use ko_ls.Core.Hlc.{hlc_ord}
use ko_ls.Core.Record.{Record}
use ko_ls.Core.Cursor.{Cursor, cursor, cursor_ord}
use ko_ls.Core.Segment.{ascending}
use ko_ls.Core.Log.{AuthorLog, union, rebased}
use ko_ls.Core.View.Admission.{insert_all, insert_all-IsSorted, IsCollisionFree}
use ko_ls.Core.View.Convergence.{SameRecords, insert_all-same, held_self}

module _ (p : Platform) where
  -- Each record stands at its own place.
  abbrev IsPlaced : BTreeMap Cursor Record → Type 0
  IsPlaced = All (λ e. e.0 ≡ cursor p e.1)

  insert-IsPlaced :
      (r : Record) (m : BTreeMap Cursor Record) → IsPlaced m → IsPlaced (insert (cursor p r) r m)
  unfolding insert
  insert-IsPlaced r [] h = (refl, tt)
  insert-IsPlaced r ((c, x) ∷ m) h = ground (arith, insert-IsPlaced r m h.1, h.0)

  insert_all-IsPlaced :
      (rs : List Record) (m : BTreeMap Cursor Record) → IsPlaced m → IsPlaced (insert_all p rs m)
  unfolding insert_all
  insert_all-IsPlaced [] m h = h
  insert_all-IsPlaced (r ∷ rs) m h =
      insert_all-IsPlaced rs (insert (cursor p r) r m) (insert-IsPlaced r m h)

  ascending-values :
      (m : BTreeMap Cursor Record) → IsSorted m → IsPlaced m → ascending p (values m) ≡ true
  unfolding values ascending cursor cmp_on
  ascending-values [] s h = refl
  ascending-values ((c, x) ∷ []) s h = refl
  ascending-values ((c, x) ∷ (d, y) ∷ m) s h =
      ground (arith, ascending-values ((d, y) ∷ m) s.1 h.1, h.0, h.1.0, s.0.0)

  In-values-get :
      (c : Cursor) (r : Record) (m : BTreeMap Cursor Record) → get c m ≡ some r → In r (values m)
  unfolding values get
  In-values-get c r [] h = cc h
  In-values-get c r ((d, x) ∷ m) h = elim (Bool-cases (c == d)) [
    | inl e ↦ inl (ground arith)
    | inr e ↦ inr (In-values-get c r m (ground arith))
  ]

  In-of_values-insert :
      (c : Cursor) (x r : Record) (m : BTreeMap Cursor Record)
      → In r (values (insert c x m))
      → (r ≡ x) ⊎ In r (values m)
  unfolding values insert
  In-of_values-insert c x r [] (inl e) = inl e
  In-of_values-insert c x r [] (inr j) = absurd j
  In-of_values-insert c x r ((d, y) ∷ m) i = elim (Ordering-cases (cursor_ord.cmp c d)) [
    | less e ↦ rw (e, insert) at i
    | same e ↦ elim (rw (e, insert) at i) [ inl f ↦ inl f | inr j ↦ inr (inr j) ]
    | more e ↦ elim (rw (e, insert) at i) [
      | inl f ↦ inr (inl f)
      | inr j ↦ elim (In-of_values-insert c x r m j) [ inl f ↦ inl f | inr k ↦ inr (inr k) ]
    ]
  ]

  In-of_values-insert_all :
      (r : Record) (rs : List Record) (m : BTreeMap Cursor Record)
      → In r (values (insert_all p rs m))
      → In r rs ⊎ In r (values m)
  unfolding insert_all
  In-of_values-insert_all r [] m i = inr i
  In-of_values-insert_all r (x ∷ rs) m i =
      elim (In-of_values-insert_all r rs (insert (cursor p x) x m) i) [
        | inl j ↦ inl (inr j)
        | inr j ↦ elim (In-of_values-insert (cursor p x) x r m j) [
          | inl e ↦ inl (inl e)
          | inr k ↦ inr k
        ]
      ]

  -- Where no two of the records share an identifier, the union holds each record of the two lists
  -- and no other, and ascends as `ordering_is_valid` asks.
  pub In-union :
      (s : Storage) (theirs ours : List Record) (r : Record)
      → IsCollisionFree p (theirs ++ ours)
      → (In r (union p s theirs ours) ↔ In r (theirs ++ ours))
        × (ascending p (union p s theirs ours) ≡ true)
  unfolding union values
  In-union s theirs ours r free = (
    (
      λ i. elim (In-of_values-insert_all r (theirs ++ ours) [] i) [ inl j ↦ j | inr j ↦ absurd j ],
      λ i.
          In-values-get (cursor p r) r (insert_all p (theirs ++ ours) [])
            (held_self p (theirs ++ ours) r free i),
    ),
    ascending-values (insert_all p (theirs ++ ours) [])
        (insert_all-IsSorted p (theirs ++ ours) [] tt) (insert_all-IsPlaced (theirs ++ ours) [] tt),
  )

append-same : (xs ys : List Record) → SameRecords (xs ++ ys) (ys ++ xs)
append-same xs ys r = (swapped xs ys r, swapped ys xs r)
  where
    swapped : (us bs : List Record) (x : Record) → In x (us ++ bs) → In x (bs ++ us)
    swapped [] bs x i = In-append_left x bs [] i
    swapped (a ∷ us) bs x (inl e) = In-append_right x bs (a ∷ us) (inl e)
    swapped (a ∷ us) bs x (inr i) = elim (In-of_append x us bs i) [
      | inl j ↦ In-append_right x bs (a ∷ us) (inr j)
      | inr j ↦ In-append_left x bs (a ∷ us) j
    ]

-- Where no two of their records share an identifier, a log rebased on another's segment keeps every
-- record of both and no other, in ascending order; and the other log, rebased on its segment, comes
-- to the same list.
pub rebased-records :
    (p : Platform) (s : Storage) (canonical canonical' : s.Pointer) (log log' : AuthorLog p s)
    → IsCollisionFree p (log'.segment.records ++ log.segment.records)
    → ((r : Record)
        → In r (rebased p s canonical log'.segment log).segment.records
          ↔ In r (log'.segment.records ++ log.segment.records))
      × (ascending p (rebased p s canonical log'.segment log).segment.records ≡ true)
      × ((rebased p s canonical log'.segment log).segment.records
          ≡ (rebased p s canonical' log.segment log').segment.records)
unfolding rebased union
rebased-records p s canonical canonical' log log' free =
    let theirs = log'.segment.records in
    let ours = log.segment.records in
    (
      λ r. (In-union p s theirs ours r free).0,
      ascending-values p (insert_all p (theirs ++ ours) [])
          (insert_all-IsSorted p (theirs ++ ours) [] tt)
          (insert_all-IsPlaced p (theirs ++ ours) [] tt),
      ap values
          (insert_all-same p (theirs ++ ours) (ours ++ theirs) (append-same theirs ours) free),
    )
