-- ===== src/Core/View/Admission.antt =====
-- What `admit` keeps: the records that pass the check, in merge order, each under its own position.
use mathlib.Core.List.{append-nil, append_assoc}
use ko_ls.Base.{
  Bool, true, some, List, [], ◌∷◌, ◌++◌, In, filter, In-filter, In-of_filter, ◌≡◌, ◌≢◌, ◌⊎◌, ◌↔◌,
  inl, inr, refl, arith, if◌then◌else◌, sym, ap, ◌∙◌, Bool-cases,
}
use ko_ls.Base.Order.{bytes_ord, ◌==◌, ==_refl, ==_iff}
use ko_ls.Base.Result.{ok, err, is_ok}
use ko_ls.Base.BTreeMap.{BTreeMap, get, insert}
use ko_ls.Base.BTreeMap.Laws.{IsSorted, insert-IsSorted, get-insert}
use ko_ls.Platform.{Platform}
use ko_ls.Core.Record.{MessageId, Record, id}
use ko_ls.Core.Cursor.{Cursor, cursor_ord, cursor}
use ko_ls.Core.Permissions.{Authority, Placement}
use ko_ls.Core.Limits.{ReaderLimits, Rejection}
use ko_ls.Core.View.{ChannelView, new, check, admit_one, admit}

-- Several insertions, in the order of delivery.
unfoldable pub insert_all : Platform → List Record → BTreeMap Cursor Record → BTreeMap Cursor Record
insert_all p [] m = m
insert_all p (r ∷ rs) m = insert_all p rs (insert (cursor p r) r m)

module _ (p : Platform) (a : Authority) (l : ReaderLimits) where
  -- The record passes the check of a view of this channel.
  unfoldable pub passes : Placement → Record → Bool
  passes place r = is_ok (check p a l (new place) r)

  -- The refusals of a delivery, with their reasons, in its order.
  unfoldable pub refusals : Placement → List Record → List (MessageId × Rejection)
  refusals place [] = []
  refusals place (r ∷ rs) = elim (check p a l (new place) r) [
    | ok _ ↦ refusals place rs
    | err reason ↦ (id p r, reason) ∷ refusals place rs
  ]

  -- The view is one of this place.
  abbrev pub IsOf : Placement → ChannelView → Type 0
  IsOf place v = (v.channel ≡ place.channel) × (v.placement ≡ place)

  pub new-IsOf : (place : Placement) → IsOf place (new place)
  unfolding new
  new-IsOf place = (refl, refl)

  check-new :
      (place : Placement) (v : ChannelView) (r : Record)
      → IsOf place v
      → check p a l v r ≡ check p a l (new place) r
  unfolding check new
  check-new place v r o = rw (o.0, o.1) refl

  admit_one-IsOf :
      (place : Placement) (v : ChannelView) (r : Record)
      → IsOf place v
      → IsOf place (admit_one p a l v r)
  unfolding admit_one
  admit_one-IsOf place v r o = ground arith

  records-admit_one :
      (place : Placement) (v : ChannelView) (r : Record)
      → IsOf place v
      → (admit_one p a l v r).records
        ≡ (if passes place r then insert (cursor p r) r v.records else v.records)
  unfolding admit_one passes
  records-admit_one place v r o = ground (arith, check-new place v r o)

  rejected-admit_one :
      (place : Placement) (v : ChannelView) (r : Record)
      → IsOf place v
      → (admit_one p a l v r).rejected ≡ v.rejected ++ refusals place (r ∷ [])
  unfolding admit_one refusals
  rejected-admit_one place v r o = ground (arith, check-new place v r o, append-nil v.rejected)

  refusals-cons :
      (place : Placement) (r : Record) (rs : List Record)
      → refusals place (r ∷ rs) ≡ refusals place (r ∷ []) ++ refusals place rs
  unfolding refusals
  refusals-cons place r rs = ground arith

  pub records-admit :
      (place : Placement) (v : ChannelView) (rs : List Record)
      → IsOf place v
      → (admit p a l v rs).records ≡ insert_all p (filter (passes place) rs) v.records
  unfolding admit insert_all
  records-admit place v [] o = refl
  records-admit place v (r ∷ rs) o = ground (
    arith,
    records-admit place (admit_one p a l v r) rs (admit_one-IsOf place v r o),
    records-admit_one place v r o,
  )

  pub rejected-admit :
      (place : Placement) (v : ChannelView) (rs : List Record)
      → IsOf place v
      → (admit p a l v rs).rejected ≡ v.rejected ++ refusals place rs
  unfolding admit
  rejected-admit place v [] o = unfold refusals in sym (append-nil v.rejected)
  rejected-admit place v (r ∷ rs) o =
      rejected-admit place (admit_one p a l v r) rs (admit_one-IsOf place v r o)
      ∙ ap (λ x. x ++ refusals place rs) (rejected-admit_one place v r o)
      ∙ append_assoc v.rejected (refusals place (r ∷ [])) (refusals place rs)
      ∙ ap (λ x. v.rejected ++ x) (sym (refusals-cons place r rs))

-- No two of the records share an identifier unless they are one record.
abbrev pub IsCollisionFree : Platform → List Record → Type 0
IsCollisionFree p rs = (r s : Record) → In r rs → In s rs → id p r ≡ id p s → r ≡ s

module _ (p : Platform) where
  pub insert_all-IsSorted :
      (rs : List Record) (m : BTreeMap Cursor Record) → IsSorted m → IsSorted (insert_all p rs m)
  unfolding insert_all
  insert_all-IsSorted [] m s = s
  insert_all-IsSorted (r ∷ rs) m s =
      insert_all-IsSorted rs (insert (cursor p r) r m) (insert-IsSorted (cursor p r) r m s)

  -- What the map holds under a position stood in it before, or is an inserted record at its own.
  pub get-insert_all :
      (rs : List Record) (m : BTreeMap Cursor Record) (c : Cursor) (r : Record)
      → get c (insert_all p rs m) ≡ some r
      → (get c m ≡ some r) ⊎ (In r rs × (c ≡ cursor p r))
  unfolding insert_all
  get-insert_all [] m c r h = inl h
  get-insert_all (x ∷ rs) m c r h = elim (get-insert_all rs (insert (cursor p x) x m) c r h) [
    | inl e ↦ elim (Bool-cases (c == cursor p x)) [
      | inl same ↦
          let found : r ≡ x = ground (arith, get-insert c (cursor p x) x m) in
          inr (inl found, (==_iff c (cursor p x)).0 same ∙ ap (cursor p) (sym found))
      | inr other ↦ inl (ground (arith, get-insert c (cursor p x) x m))
    ]
    | inr (i, e) ↦ inr (inr i, e)
  ]

  pub id_of_cursor : (r s : Record) → cursor p r ≡ cursor p s → id p r ≡ id p s
  unfolding cursor
  id_of_cursor r s e = ap (λ c. c.id) e

  get-insert_all_kept :
      (rs : List Record) (m : BTreeMap Cursor Record) (r : Record)
      → ((s : Record) → In s rs → cursor p s ≡ cursor p r → s ≡ r)
      → get (cursor p r) m ≡ some r
      → get (cursor p r) (insert_all p rs m) ≡ some r
  unfolding insert_all
  get-insert_all_kept [] m r alone h = h
  get-insert_all_kept (x ∷ rs) m r alone h =
      get-insert_all_kept rs (insert (cursor p x) x m) r (λ s i. alone s (inr i))
        (elim (Bool-cases (cursor p r == cursor p x)) [
          | inl same ↦
              let found : x ≡ r =
                alone x (inl refl) (sym ((==_iff (cursor p r) (cursor p x)).0 same)) in
              ground (arith, get-insert (cursor p r) (cursor p x) x m, found)
          | inr other ↦ ground (arith, get-insert (cursor p r) (cursor p x) x m)
        ])

  pub get-insert_all_self :
      (rs : List Record) (m : BTreeMap Cursor Record) (r : Record)
      → ((s : Record) → In s rs → cursor p s ≡ cursor p r → s ≡ r)
      → In r rs
      → get (cursor p r) (insert_all p rs m) ≡ some r
  unfolding insert_all
  get-insert_all_self [] m r alone i = absurd i
  get-insert_all_self (x ∷ rs) m r alone (inl e) =
      get-insert_all_kept rs (insert (cursor p x) x m) r (λ s i. alone s (inr i))
        (ground (arith, get-insert (cursor p r) (cursor p x) x m, e, ==_refl (cursor p x)))
  get-insert_all_self (x ∷ rs) m r alone (inr i) =
      get-insert_all_self rs (insert (cursor p x) x m) r (λ s j. alone s (inr j)) i

module _ (p : Platform) (a : Authority) (l : ReaderLimits) (place : Placement) where
  no_entry : (c : Cursor) (r : Record) → get c (new place).records ≢ some r
  unfolding new get
  no_entry c r e = cc e

  -- Where no two delivered records share an identifier, a view that starts empty holds a record
  -- under a position exactly if it was delivered, passes the check, and has that position.
  pub get-admit :
      (rs : List Record) (c : Cursor) (r : Record)
      → IsCollisionFree p rs
      → (get c (admit p a l (new place) rs).records ≡ some r)
        ↔ (In r rs × (passes p a l place r ≡ true) × (c ≡ cursor p r))
  get-admit rs c r free =
      let sent = filter (passes p a l place) rs in
      let alone =
        λ (x : Record) (y : Record) (i : In x sent) (j : In y sent) (e : cursor p x ≡ cursor p y).
          free x y (In-of_filter (passes p a l place) x rs i).0
            (In-of_filter (passes p a l place) y rs j).0 (id_of_cursor p x y e) in
      rw (records-admit p a l place (new place) rs (new-IsOf p a l place)) (
        λ h. elim (get-insert_all p sent (new place).records c r h) [
          | inl e ↦ absurd (no_entry c r e)
          | inr (i, e) ↦ (
            (In-of_filter (passes p a l place) r rs i).0,
            (In-of_filter (passes p a l place) r rs i).1,
            e,
          )
        ],
        λ h.
            let i = In-filter (passes p a l place) r rs h.0 h.1 in
            rw h.2 (get-insert_all_self p sent (new place).records r (λ x j. alone x r j i) i),
      )
