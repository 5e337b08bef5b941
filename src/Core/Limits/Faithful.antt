-- ===== src/Core/Limits/Faithful.antt =====
-- The variables of the walk of `withheld` hold the readings that the greedy rule reads.
use ko_ls.Base.{none, some, List, [], ◌∷◌, ◌++◌, All, ◌≡◌, refl, arith, ◌∙◌}
use mathlib.Core.List.{append-nil, append_assoc}
use ko_ls.Base.Order.{==_comm, cmp_refl, bytes_ord}
use ko_ls.Base.Int.{ℤ, int_ord}
use ko_ls.Base.BTreeMap.{get}
use ko_ls.Platform.{Platform}
use ko_ls.Core.Record.{IdentityId, MessageId, Record, RecordClass, class, id}
use ko_ls.Core.Limits.{
  ReaderLimits, Walk, walk_start, step, walk, window, paced_out, inside, ceiling_for, class_ord,
}
use ko_ls.Core.Limits.Steps.{refused-step_ne, refused-step_self, window-step, last_message-step}
use ko_ls.Core.Limits.Greedy.{
  last_of, last_of-append, greedy, IsFresh, IsDistinct, admitted, IsFresh-append, IsFresh-before,
  admitted-agree, admitted-append,
}

module _ (p : Platform) (l : ReaderLimits) (now : ℤ) where
  -- The walk's variables hold what the greedy rule reads, once `done` has been walked.
  pub record IsFaithful (w : Walk) (done : List Record) : Type 0 where
    pub windows :
        (a : IdentityId) (c : RecordClass) (ceiling : ℤ)
        → ceiling_for l c ≡ some ceiling
        → window a c w ≡ admitted p w.out.refused a c done
    pub last :
        (a : IdentityId) (ceiling : ℤ)
        → ceiling_for l RecordClass.message ≡ some ceiling
        → get a w.last_message ≡ last_of (admitted p w.out.refused a RecordClass.message done)
    pub fresh : (i : MessageId) → IsFresh p i done → get i w.out.refused ≡ none

  pub start-IsFaithful : IsFaithful walk_start []
  unfolding window get admitted last_of
  start-IsFaithful = record {
    windows = λ a c ceiling h. refl;
    last = λ a ceiling h. refl;
    fresh = λ i f. refl;
  }

  admitted-step :
      (w : Walk) (r : Record) (a : IdentityId) (c : RecordClass) (done : List Record)
      → IsFresh p (id p r) done
      → admitted p (step p l now w r).out.refused a c done ≡ admitted p w.out.refused a c done
  admitted-step w r a c done f =
      admitted-agree p a c (step p l now w r).out.refused w.out.refused done (unmoved done f)
    where
      unmoved :
          (rs : List Record)
          → IsFresh p (id p r) rs
          → All (λ s. get (id p s) (step p l now w r).out.refused ≡ get (id p s) w.out.refused) rs
      unmoved [] f = tt
      unmoved (s ∷ rs) f =
          (refused-step_ne p l now w r (id p s) (==_comm (id p s) (id p r) ∙ f.0), unmoved rs f.1)

  pub step-IsFaithful :
      (w : Walk) (r : Record) (done : List Record)
      → IsFresh p (id p r) done
      → IsFaithful w done
      → IsFaithful (step p l now w r) (done ++ r ∷ [])
  step-IsFaithful w r done f h = record {
    windows = λ a c ceiling e. ground (
      arith,
      window-step p l now w r a c ceiling e (h.fresh (id p r) f),
      admitted-append p a c (step p l now w r).out.refused done r,
      admitted-step w r a c done f,
      h.windows a c ceiling e,
    );
    last = λ a ceiling e. ground (
      arith,
      last_message-step p l now w r a ceiling e (h.fresh (id p r) f),
      admitted-append p a RecordClass.message (step p l now w r).out.refused done r,
      admitted-step w r a RecordClass.message done f,
      h.last a ceiling e,
      last_of-append (admitted p w.out.refused a RecordClass.message done) r.hlc,
    );
    fresh = λ i g.
        refused-step_ne p l now w r i (IsFresh-append p i done (r ∷ []) g).1.0
        ∙ h.fresh i (IsFresh-append p i done (r ∷ []) g).0;
  }

  pub walk-IsFaithful :
      (w : Walk) (done rs : List Record)
      → IsDistinct p (done ++ rs)
      → IsFaithful w done
      → IsFaithful (walk p l now w rs) (done ++ rs)
  unfolding walk
  walk-IsFaithful w done [] d h = rw append-nil h
  walk-IsFaithful w done (r ∷ rs) d h =
      let grouped : (done ++ r ∷ []) ++ rs ≡ done ++ r ∷ rs = append_assoc done (r ∷ []) rs in
      rw grouped at (
        walk-IsFaithful (step p l now w r) (done ++ r ∷ []) rs (rw grouped d)
          (step-IsFaithful w r done (IsFresh-before p done rs r d) h))

  -- In a faithful state a round gives the verdict of the greedy rule.
  pub step-greedy :
      (w : Walk) (r : Record) (done : List Record) (ceiling : ℤ)
      → ceiling_for l (class r.body) ≡ some ceiling
      → IsFresh p (id p r) done
      → IsFaithful w done
      → get (id p r) (step p l now w r).out.refused
        ≡ greedy l ceiling r (admitted p w.out.refused r.author (class r.body) done)
  unfolding greedy paced_out inside
  step-greedy w r done ceiling e f h = ground (
    arith,
    refused-step_self p l now w r ceiling e (h.fresh (id p r) f),
    h.windows r.author (class r.body) ceiling e,
    h.last r.author ceiling,
    class_ord.same_eq RecordClass.message (class r.body),
    cmp_refl RecordClass.message,
  )
