-- ===== src/Core/View/Convergence.antt =====
-- The claim of the whole design: the same records, however they arrive, give one history.
use ko_ls.Base.{
  ◌≢◌, filter, In-filter, In-of_filter, some, List, [], In, ◌≡◌, ◌↔◌, sym, ap, ◌∙◌, Option-cases,
  inl, inr,
}
use ko_ls.Base.Int.{ℤ}
use ko_ls.Base.BTreeMap.{get}
use ko_ls.Base.BTreeMap.Laws.{eq_of_get}
use ko_ls.Platform.{Platform}
use ko_ls.Core.Record.{Record}
use ko_ls.Core.Cursor.{Cursor, cursor, cursor_ord}
use ko_ls.Core.Permissions.{Authority, Placement}
use ko_ls.Core.Limits.{ReaderLimits}
use ko_ls.Core.View.{ChannelView, new, admit, view_withheld, render_excluding, render}
use ko_ls.Core.View.Admission.{
  passes, records-admit, new-IsOf, insert_all, insert_all-IsSorted, IsCollisionFree, get-insert_all,
  get-insert_all_self, id_of_cursor,
}

-- The two deliveries hold the same records, each perhaps several times.
abbrev pub SameRecords : List Record → List Record → Type 0
SameRecords rs ss = (r : Record) → In r rs ↔ In r ss

get_nothing : (c : Cursor) (r : Record) → get c [] ≢ some r
unfolding get
get_nothing c r e = cc e

module _ (p : Platform) where
  pub held_self :
      (rs : List Record) (r : Record)
      → IsCollisionFree p rs
      → In r rs
      → get (cursor p r) (insert_all p rs []) ≡ some r
  held_self rs r free i =
      get-insert_all_self p rs [] r (λ x j e. free x r j i (id_of_cursor p x r e)) i

  held_there :
      (rs ss : List Record) (c : Cursor) (r : Record)
      → SameRecords rs ss
      → IsCollisionFree p ss
      → get c (insert_all p rs []) ≡ some r
      → get c (insert_all p ss []) ≡ some r
  held_there rs ss c r same free h = elim (get-insert_all p rs [] c r h) [
    | inl e ↦ absurd (get_nothing c r e)
    | inr (i, e) ↦ rw e (held_self ss r free ((same r).0 i))
  ]

  IsCollisionFree-same :
      (rs ss : List Record) → SameRecords rs ss → IsCollisionFree p rs → IsCollisionFree p ss
  IsCollisionFree-same rs ss same f r s i j e = f r s ((same r).1 i) ((same s).1 j) e

  -- The same records, inserted in whatever order and however often, make one map.
  pub insert_all-same :
      (rs ss : List Record)
      → SameRecords rs ss
      → IsCollisionFree p rs
      → insert_all p rs [] ≡ insert_all p ss []
  insert_all-same rs ss same f =
      let g = IsCollisionFree-same rs ss same f in
      eq_of_get (insert_all p rs []) (insert_all p ss []) (insert_all-IsSorted p rs [] tt)
        (insert_all-IsSorted p ss [] tt)
        λ c. elim (Option-cases (get c (insert_all p rs []))) [
          | inl e ↦ elim (Option-cases (get c (insert_all p ss []))) [
            | inl e' ↦ e ∙ sym e'
            | inr (r, e') ↦ cc (held_there ss rs c r (λ x. ((same x).1, (same x).0)) f e')
          ]
          | inr (r, e) ↦ e ∙ sym (held_there rs ss c r same g e)
        ]

module _ (p : Platform) (l : ReaderLimits) (now : ℤ) where
  -- A rendering reads the records of a view alone.
  render-records : (v w : ChannelView) → v.records ≡ w.records → render p l now v ≡ render p l now w
  unfolding render view_withheld render_excluding
  render-records v w e = ap (λ m. render p l now (record v { records = m })) e

  withheld-records :
      (v w : ChannelView)
      → v.records ≡ w.records
      → view_withheld p l now v ≡ view_withheld p l now w
  unfolding view_withheld
  withheld-records v w e = ap (λ m. view_withheld p l now (record v { records = m })) e

module _ (p : Platform) (a : Authority) (l : ReaderLimits) (place : Placement) where
  passed_of :
      (rs ss : List Record) (r : Record)
      → SameRecords rs ss
      → In r (filter (passes p a l place) rs)
      → In r (filter (passes p a l place) ss)
  passed_of rs ss r same i =
      let (sent, passed) = In-of_filter (passes p a l place) r rs i in
      In-filter (passes p a l place) r ss ((same r).0 sent) passed

  -- Where no two delivered records share an identifier, two deliveries of the same records, in any
  -- orders and with any repetitions, leave a new view with the same records.
  pub records-admit_same :
      (rs ss : List Record)
      → SameRecords rs ss
      → IsCollisionFree p rs
      → (admit p a l (new place) rs).records ≡ (admit p a l (new place) ss).records
  unfolding new
  records-admit_same rs ss same free =
      let test = passes p a l place in
      records-admit p a l place (new place) rs (new-IsOf p a l place)
      ∙ insert_all-same p (filter test rs) (filter test ss)
          (λ r. (passed_of rs ss r same, passed_of ss rs r (λ x. ((same x).1, (same x).0))))
          (λ r s i j. free r s (In-of_filter test r rs i).0 (In-of_filter test s rs j).0)
      ∙ sym (records-admit p a l place (new place) ss (new-IsOf p a l place))

  -- Where no two delivered records share an identifier, two deliveries of the same records, in any
  -- orders and with any repetitions, render alike and withhold alike at every clock.
  pub render-admit_same :
      (now : ℤ) (rs ss : List Record)
      → SameRecords rs ss
      → IsCollisionFree p rs
      → (render p l now (admit p a l (new place) rs) ≡ render p l now (admit p a l (new place) ss))
        × (view_withheld p l now (admit p a l (new place) rs)
            ≡ view_withheld p l now (admit p a l (new place) ss))
  render-admit_same now rs ss same f = (
    render-records p l now _ _ (records-admit_same rs ss same f),
    withheld-records p l now _ _ (records-admit_same rs ss same f),
  )
