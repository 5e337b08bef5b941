-- ===== src/Core/Limits/Steps.antt =====
-- What one round of the loop of `withheld` does to each of its variables.
use ko_ls.Base.{false, ◌&&◌, not, none, some, List, [], ◌∷◌, ◌++◌, if◌then◌else◌, ◌≡◌, arith}
use ko_ls.Base.Order.{◌==◌, ==_refl, cmp_refl, bytes_ord, pair_ord, cmp_pair}
use ko_ls.Base.Int.{ℤ, pos, leb_ℤ, int_ord}
use ko_ls.Base.BTreeMap.{get, contains_key}
use ko_ls.Base.BTreeMap.Laws.{get-insert}
use ko_ls.Platform.{Platform}
use ko_ls.Core.Hlc.{Hlc}
use ko_ls.Core.Record.{IdentityId, MessageId, Record, RecordClass, class, id}
use ko_ls.Core.Limits.{
  ReaderLimits, Walk, step, window, paced_out, inside, ceiling_for, class_ord, too_fast, slowmode,
}

module _ (p : Platform) (l : ReaderLimits) (now : ℤ) (w : Walk) (r : Record) where
  -- A round leaves the verdict of every other record.
  pub refused-step_ne :
      (i : MessageId)
      → (i == id p r) ≡ false
      → get i (step p l now w r).out.refused ≡ get i w.out.refused
  unfolding step
  refused-step_ne i h = ground (
    arith,
    get-insert i (id p r) too_fast w.out.refused,
    get-insert i (id p r) slowmode w.out.refused,
  )

  -- A class with no ceiling refuses nothing.
  pub refused-step_free :
      (i : MessageId)
      → ceiling_for l (class r.body) ≡ none
      → get i (step p l now w r).out.refused ≡ get i w.out.refused
  unfolding step
  refused-step_free i h = ground arith

  -- The verdict of the record itself, under a ceiling: the pacing first, then the window.
  pub refused-step_self :
      (ceiling : ℤ)
      → ceiling_for l (class r.body) ≡ some ceiling
      → get (id p r) w.out.refused ≡ none
      → get (id p r) (step p l now w r).out.refused ≡ (
          if paced_out l r w
          then some slowmode
          else if leb_ℤ ceiling (pos (inside r (window r.author (class r.body) w)))
          then some too_fast
          else none)
  unfolding step paced_out
  refused-step_self c h f = ground (
    arith,
    get-insert (id p r) (id p r) too_fast w.out.refused,
    get-insert (id p r) (id p r) slowmode w.out.refused,
    ==_refl (id p r),
  )

  -- The record's reading joins the window of its author and class if it is admitted.
  pub window-step :
      (a : IdentityId) (c : RecordClass) (ceiling : ℤ)
      → ceiling_for l c ≡ some ceiling
      → get (id p r) w.out.refused ≡ none
      → window a c (step p l now w r) ≡ (
          if (a == r.author)
            && ((c == class r.body) && not (contains_key (id p r) (step p l now w r).out.refused))
          then window a c w ++ r.hlc ∷ []
          else window a c w)
  unfolding step paced_out cmp_pair
  window-step a c ceiling h f = ground (
    arith,
    get-insert {V = List Hlc} (a, c) (r.author, class r.body) (window r.author (class r.body) w)
        w.seen,
    get-insert {V = List Hlc} (a, c) (r.author, class r.body)
        (window r.author (class r.body) w ++ r.hlc ∷ []) w.seen,
    get-insert (id p r) (id p r) too_fast w.out.refused,
    get-insert (id p r) (id p r) slowmode w.out.refused,
    ==_refl (id p r),
    bytes_ord.same_eq a r.author,
    class_ord.same_eq c (class r.body),
  )

  -- The pacing follows the author's last admitted message.
  pub last_message-step :
      (a : IdentityId) (ceiling : ℤ)
      → ceiling_for l RecordClass.message ≡ some ceiling
      → get (id p r) w.out.refused ≡ none
      → get a (step p l now w r).last_message ≡ (
          if (a == r.author)
            && ((RecordClass.message == class r.body)
                && not (contains_key (id p r) (step p l now w r).out.refused))
          then some r.hlc
          else get a w.last_message)
  unfolding step paced_out
  last_message-step a ceiling h f = ground (
    arith,
    get-insert a r.author r.hlc w.last_message,
    get-insert (id p r) (id p r) too_fast w.out.refused,
    get-insert (id p r) (id p r) slowmode w.out.refused,
    ==_refl (id p r),
    class_ord.same_eq RecordClass.message (class r.body),
    cmp_refl RecordClass.message,
    bytes_ord.same_eq a r.author,
  )
