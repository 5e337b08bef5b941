-- ===== src/Core/Limits/Verdicts.antt =====
-- The verdicts of `withheld` are those of the greedy rule of design/01 §10: each record is judged
-- against the records of its author and class before it that are not refused.
use ko_ls.Base.{none, some, List, [], ◌∷◌, ◌++◌, All, ◌≡◌, ◌∙◌, sym, ap}
use ko_ls.Base.Order.{bytes_ord}
use ko_ls.Base.Int.{ℤ, int_ord}
use ko_ls.Base.BTreeMap.{get}
use ko_ls.Platform.{Platform}
use ko_ls.Core.Record.{MessageId, Record, class, id}
use ko_ls.Core.Limits.{ReaderLimits, walk_start, step, walk, withheld, ceiling_for, class_ord}
use ko_ls.Core.Limits.Steps.{refused-step_free}
use ko_ls.Core.Limits.Greedy.{
  greedy, IsFresh, IsDistinct, admitted, IsDistinct-append, IsFresh-before, refused-walk,
  walk-append, admitted-agree, IsFresh-behind, withheld-eq-walk, walk-cons,
}
use ko_ls.Core.Limits.Faithful.{start-IsFaithful, walk-IsFaithful, step-greedy}

module _ (p : Platform) (l : ReaderLimits) (now : ℤ) where
  -- After the records before it, a round settles the record's verdict.
  refused-withheld :
      (pre post : List Record) (r : Record)
      → IsDistinct p (pre ++ r ∷ post)
      → get (id p r) (withheld p l now (pre ++ r ∷ post)).refused
        ≡ get (id p r) (step p l now (walk p l now walk_start pre) r).out.refused
  refused-withheld pre post r d =
      rw (withheld-eq-walk, walk-append, walk-cons)
        (refused-walk p l now (step p l now (walk p l now walk_start pre) r) (id p r) post
          (IsDistinct-append p pre (r ∷ post) d).1.0)

  verdicts_before :
      (pre rest : List Record)
      → IsDistinct p (pre ++ rest)
      → All
          (λ s.
            get (id p s) (walk p l now walk_start pre).out.refused
            ≡ get (id p s) (withheld p l now (pre ++ rest)).refused)
          pre
  verdicts_before pre rest d = settled pre (IsFresh-behind p pre rest d)
    where
      settled :
          (xs : List Record)
          → All (λ s. IsFresh p (id p s) rest) xs
          → All
              (λ s.
                get (id p s) (walk p l now walk_start pre).out.refused
                ≡ get (id p s) (withheld p l now (pre ++ rest)).refused)
              xs
      settled [] f = tt
      settled (x ∷ xs) f = (
        rw (withheld-eq-walk, walk-append)
            (sym (refused-walk p l now (walk p l now walk_start pre) (id p x) rest f.0)),
        settled xs f.1,
      )

  -- Where no two of the records share an identifier, the verdict of each record whose class has a
  -- ceiling is that of the greedy rule, applied to the readings of its author and class before it
  -- that the outcome itself does not refuse.
  pub refused-eq-greedy :
      (pre post : List Record) (r : Record) (ceiling : ℤ)
      → IsDistinct p (pre ++ r ∷ post)
      → ceiling_for l (class r.body) ≡ some ceiling
      → get (id p r) (withheld p l now (pre ++ r ∷ post)).refused
        ≡ greedy l ceiling r
            (admitted p (withheld p l now (pre ++ r ∷ post)).refused r.author (class r.body) pre)
  refused-eq-greedy pre post r ceiling d e =
      let w = walk p l now walk_start pre in
      let before = IsDistinct-append p pre (r ∷ post) d in
      refused-withheld pre post r d
      ∙ step-greedy p l now w r pre ceiling e (IsFresh-before p pre post r d)
          (walk-IsFaithful p l now walk_start [] pre before.0 (start-IsFaithful p l now))
      ∙ ap (greedy l ceiling r) (
          admitted-agree p r.author (class r.body) w.out.refused
            (withheld p l now (pre ++ r ∷ post)).refused pre (verdicts_before pre (r ∷ post) d))

  -- Where no two of the records share an identifier, a record whose class has no ceiling is not
  -- refused, whatever the channel's slowmode.
  pub refused-no_ceiling :
      (pre post : List Record) (r : Record)
      → IsDistinct p (pre ++ r ∷ post)
      → ceiling_for l (class r.body) ≡ none
      → get (id p r) (withheld p l now (pre ++ r ∷ post)).refused ≡ none
  refused-no_ceiling pre post r d e =
      let w = walk p l now walk_start pre in
      let before = IsDistinct-append p pre (r ∷ post) d in
      refused-withheld pre post r d
      ∙ refused-step_free p l now w r (id p r) e
      ∙ (walk-IsFaithful p l now walk_start [] pre before.0 (start-IsFaithful p l now)).fresh
          (id p r) (IsFresh-before p pre post r d)

  -- Records further on, none of which has the identifier, change no verdict about it.
  refused-append :
      (pre rest : List Record) (i : MessageId)
      → IsFresh p i rest
      → get i (withheld p l now (pre ++ rest)).refused ≡ get i (withheld p l now pre).refused
  refused-append pre rest i f =
      rw (withheld-eq-walk p l now (pre ++ rest), withheld-eq-walk p l now pre, walk-append)
        (refused-walk p l now (walk p l now walk_start pre) i rest f)
