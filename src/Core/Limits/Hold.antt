-- ===== src/Core/Limits/Hold.antt =====
-- §2.6: which records are held, and that holding is not refusing.
use ko_ls.Base.{
  Bool, true, ◌&&◌, ◌||◌, List, [], ◌∷◌, any, In, inl, inr, ◌≡◌, ◌↔◌, refl, ap, sym, ◌∙◌, arith,
  Bool-cases,
}
use ko_ls.Base.Order.{◌==◌, ==_iff, bytes_ord}
use ko_ls.Base.Int.{ℤ, ◌+ℤ◌, ◌<ℤ◌, cmp_ℤ, fits_i64, checked_add}
use ko_ls.Base.BTreeMap.{get, contains_key}
use ko_ls.Base.BTreeMap.Laws.{get-insert}
use ko_ls.Platform.{Platform}
use ko_ls.Core.Record.{MessageId, Record, id}
use ko_ls.Core.Limits.{ReaderLimits, Walk, walk_start, step, walk, withheld, is_ahead}

module _ (p : Platform) (l : ReaderLimits) (now : ℤ) where
  held-step :
      (w : Walk) (r : Record) (i : MessageId)
      → contains_key i (step p l now w r).out.held
        ≡ (contains_key i w.out.held || ((i == id p r) && is_ahead l now r.hlc.wall_millis))
  unfolding step is_ahead
  held-step w r i = ground (arith, get-insert i (id p r) tt w.out.held)

  -- One of the records has the identifier and is dated ahead.
  abbrev pub dated_ahead : MessageId → List Record → Bool
  dated_ahead i = any (λ r. (i == id p r) && is_ahead l now r.hlc.wall_millis)

  held-walk :
      (w : Walk) (i : MessageId) (rs : List Record)
      → contains_key i (walk p l now w rs).out.held
        ≡ (contains_key i w.out.held || dated_ahead i rs)
  unfolding walk
  held-walk w i [] = ground arith
  held-walk w i (r ∷ rs) = ground (arith, held-walk (step p l now w r) i rs, held-step w r i)

  pub held-eq-dated_ahead :
      (i : MessageId) (rs : List Record)
      → contains_key i (withheld p l now rs).held ≡ dated_ahead i rs
  unfolding withheld get
  held-eq-dated_ahead i rs = held-walk walk_start i rs

  -- The record's wall time lies past the clock's reading and the skew, added as integers, and the
  -- sum is an `i64`.
  abbrev pub IsAhead : Record → Type 0
  IsAhead r =
      (fits_i64 (now +ℤ l.max_future_skew_millis) ≡ true)
      × (now +ℤ l.max_future_skew_millis <ℤ r.hlc.wall_millis)

  is_ahead-IsAhead : (r : Record) → (is_ahead l now r.hlc.wall_millis ≡ true) ↔ IsAhead r
  unfolding is_ahead checked_add cmp_ℤ
  is_ahead-IsAhead r = (λ h. (ground arith, ground arith), λ h. ground (arith, h.0, h.1))

  -- One of the records has the identifier and is ahead.
  abbrev HasAhead : MessageId → List Record → Type 0
  HasAhead i rs = (r : Record) × In r rs × (i ≡ id p r) × IsAhead r

  dated_ahead-HasAhead :
      (i : MessageId) (rs : List Record) → dated_ahead i rs ≡ true → HasAhead i rs
  dated_ahead-HasAhead i [] h = absurd (ground arith)
  dated_ahead-HasAhead i (r ∷ rs) h =
      elim (Bool-cases ((i == id p r) && is_ahead l now r.hlc.wall_millis)) [
        | inl now_ahead ↦ (
          r,
          inl refl,
          (==_iff i (id p r)).0 (ground arith),
          (is_ahead-IsAhead r).0 (ground arith),
        )
        | inr other ↦
            let (x, there, named, ahead) = dated_ahead-HasAhead i rs (ground arith) in
            (x, inr there, named, ahead)
      ]

  dated_ahead-In :
      (i : MessageId) (x : Record) (rs : List Record)
      → In x rs
      → i ≡ id p x
      → IsAhead x
      → dated_ahead i rs ≡ true
  dated_ahead-In i x [] there named ahead = absurd there
  dated_ahead-In i x (r ∷ rs) (inl e) named ahead =
      let same = (==_iff i (id p x)).1 named in
      let later = (is_ahead-IsAhead x).1 ahead in
      let here : ((i == id p r) && is_ahead l now r.hlc.wall_millis) ≡ true =
        ap (λ y. (i == id p y) && is_ahead l now y.hlc.wall_millis) (sym e)
        ∙ ground (arith, same, later) in
      ground (arith, here)
  dated_ahead-In i x (r ∷ rs) (inr there) named ahead =
      let rest = dated_ahead-In i x rs there named ahead in ground (arith, rest)

  -- An identifier is held exactly if one of the records has it and is dated past the clock's reading
  -- by more than the skew, where reading and skew add up to an `i64`: neither the ceilings nor the
  -- other records have a say.
  pub held-IsAhead :
      (i : MessageId) (rs : List Record)
      → (contains_key i (withheld p l now rs).held ≡ true)
        ↔ ((r : Record) × In r rs × (i ≡ id p r) × IsAhead r)
  held-IsAhead i rs =
      rw (held-eq-dated_ahead i rs)
        (dated_ahead-HasAhead i rs, λ h. dated_ahead-In i h.0 rs h.1 h.2 h.3)
