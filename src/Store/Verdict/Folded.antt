-- ===== src/Store/Verdict/Folded.antt =====
-- Folding a channel's records into the projection, against `withheld`.
use mathlib.Core.List.{append_assoc, append-nil, map-append}
use ko_ls.Base.{
  true, false, not, none, List, [], ◌∷◌, ◌++◌, map, filter, All, All-before, All-at, All-map, ◌≡◌,
  ◌∙◌, refl, sym, ap, arith, Option-cases, inl, inr,
}
use ko_ls.Base.Order.{bytes_ord, ◌==◌, ==_comm, ==_iff, ◌≺◌}
use ko_ls.Base.Int.{ℤ, pos, int_ord}
use ko_ls.Base.BTreeMap.{BTreeMap, get}
use ko_ls.Platform.{Platform}
use ko_ls.Core.Record.{ChannelId, MessageId, Record, RecordClass, class, id}
use ko_ls.Core.Limits.{ReaderLimits, Rejection, withheld, ceiling_for}
use ko_ls.Core.Limits.Greedy.{IsFresh, IsDistinct, IsFresh-before}
use ko_ls.Core.Limits.Verdicts.{refused-eq-greedy, refused-no_ceiling}
use ko_ls.Store.Verdict.{Verdict, Row, decide, row_of, insert_row, holds_row, fold_records}
use ko_ls.Store.Verdict.Readings.{verdict_of, stored}
use ko_ls.Store.Verdict.Rising.{IsDated, IsRising, IsRising-before, earlier_at}
use ko_ls.Store.Verdict.Agreement.{decide-greedy_at}

module _ (p : Platform) (m : BTreeMap MessageId Rejection) where
  holds_row-fresh :
      (i : MessageId) (rs : List Record)
      → IsFresh p i rs
      → holds_row p i (map (stored p m) rs) ≡ false
  unfolding holds_row
  holds_row-fresh i [] f = refl
  holds_row-fresh i (r ∷ rs) f = rw (==_comm (id p r) i, f.0) (holds_row-fresh i rs f.1)

  others-fresh :
      (i : MessageId) (rs : List Record)
      → IsFresh p i rs
      → filter (λ row. not (row.id == i)) (map (stored p m) rs) ≡ map (stored p m) rs
  others-fresh i [] f = refl
  others-fresh i (r ∷ rs) f =
      rw (==_comm (id p r) i, f.0) (ap (λ l. stored p m r ∷ l) (others-fresh i rs f.1))

  insert_row-fresh :
      (r : Record) (rs : List Record)
      → IsFresh p (id p r) rs
      → insert_row p r (verdict_of (get (id p r) m)) (map (stored p m) rs)
        ≡ map (stored p m) (rs ++ r ∷ [])
  unfolding insert_row
  insert_row-fresh r rs f =
      ap (λ l. l ++ stored p m r ∷ []) (others-fresh (id p r) rs f)
      ∙ sym (map-append (stored p m) rs (r ∷ []))

module _ (p : Platform) (l : ReaderLimits) (now : ℤ) (ch : ChannelId)
    (message_ceiling : (pos 0 ≺ l.message_rate_per_minute) ≡ true)
    (reaction_ceiling : (pos 0 ≺ l.reaction_rate_per_minute) ≡ true) where
  decide-uncounted :
      (rows : List Row) (r : Record) (c : RecordClass)
      → class r.body ≡ c
      → ceiling_for l c ≡ none
      → decide rows r l ≡ Verdict.admitted
  unfolding decide ceiling_for
  decide-uncounted rows r RecordClass.message e h = absurd (ground arith)
  decide-uncounted rows r RecordClass.reaction e h = absurd (ground arith)
  decide-uncounted rows r RecordClass.control e h = rw (decide, e) refl
  decide-uncounted rows r RecordClass.reserved e h = rw (decide, e) refl

  decide-withheld :
      (pre post : List Record) (r : Record)
      → IsDistinct p (pre ++ r ∷ post)
      → All (λ s. s.channel ≡ ch) (pre ++ r ∷ post)
      → IsRising (pre ++ r ∷ post)
      → All (λ s. IsDated s.hlc) (pre ++ r ∷ post)
      → decide (map (stored p (withheld p l now (pre ++ r ∷ post)).refused) pre) r l
        ≡ verdict_of (get (id p r) (withheld p l now (pre ++ r ∷ post)).refused)
  unfolding verdict_of
  decide-withheld pre post r d same rising dated =
      let m = (withheld p l now (pre ++ r ∷ post)).refused in
      let mine : r.channel ≡ ch = All-at (λ s. s.channel ≡ ch) pre post r same in
      elim (Option-cases (ceiling_for l (class r.body))) [
        | inl free ↦
            decide-uncounted (map (stored p m) pre) r (class r.body) refl free
            ∙ ap verdict_of (sym (refused-no_ceiling p l now pre post r d free))
        | inr (ceiling, bounded) ↦
            decide-greedy_at p m l pre r
              (All-map _ _ pre (λ s e. (==_iff s.channel r.channel).1 (e ∙ sym mine))
                (All-before (λ s. s.channel ≡ ch) pre (r ∷ post) same))
              (earlier_at pre post r rising) (IsRising-before pre (r ∷ post) rising)
              (All-before (λ s. IsDated s.hlc) pre (r ∷ post) dated)
              (All-at (λ s. IsDated s.hlc) pre post r dated) (class r.body) ceiling refl bounded
            ∙ ap verdict_of (sym (refused-eq-greedy p l now pre post r ceiling d bounded))
      ]

  fold_records-from :
      (pre post : List Record)
      → IsDistinct p (pre ++ post)
      → All (λ s. s.channel ≡ ch) (pre ++ post)
      → IsRising (pre ++ post)
      → All (λ s. IsDated s.hlc) (pre ++ post)
      → fold_records p l (map (stored p (withheld p l now (pre ++ post)).refused) pre) post
        ≡ map (stored p (withheld p l now (pre ++ post)).refused) (pre ++ post)
  unfolding fold_records
  fold_records-from pre [] d same rising dated =
      ap (map (stored p (withheld p l now (pre ++ [])).refused)) (sym (append-nil pre))
  fold_records-from pre (r ∷ post) d same rising dated =
      let m = (withheld p l now (pre ++ r ∷ post)).refused in
      let fresh : IsFresh p (id p r) pre = IsFresh-before p pre post r d in
      let grouped : (pre ++ r ∷ []) ++ post ≡ pre ++ r ∷ post = append_assoc pre (r ∷ []) post in
      rw
        (
          holds_row-fresh p m (id p r) pre fresh,
          decide-withheld pre post r d same rising dated,
          insert_row-fresh p m r pre fresh,
        )
        (rw grouped at (
          fold_records-from (pre ++ r ∷ []) post (rw grouped d) (rw grouped same)
            (rw grouped rising) (rw grouped dated)))

  -- Where both rates have a ceiling, the records are of one channel and share no identifier, and each
  -- author's readings ascend strictly within what `i64` holds above its least value: folding the
  -- records, in their order, into an empty projection stores each with the verdict that `withheld`
  -- gives it.
  pub fold_records-withheld :
      (rs : List Record)
      → IsDistinct p rs
      → All (λ s. s.channel ≡ ch) rs
      → IsRising rs
      → All (λ s. IsDated s.hlc) rs
      → fold_records p l [] rs
        ≡ map (λ r. row_of p r (verdict_of (get (id p r) (withheld p l now rs).refused))) rs
  fold_records-withheld rs d same rising dated = fold_records-from [] rs d same rising dated
