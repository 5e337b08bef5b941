-- ===== src/Store/Verdict/Agreement.antt =====
-- One stored verdict, against the greedy rule of `withheld`.
use ko_ls.Base.{
  Bool, true, false, ◌&&◌, none, some, List, [], ◌∷◌, map, any, count_if, All, ltb, if◌then◌else◌,
  ◌≡◌, ◌∙◌, refl, sym, ap, subst, arith, Option-cases, Bool-cases, inl, inr,
}
use ko_ls.Base.Order.{bytes_ord, ◌==◌, ◌≺◌, cmp_on}
use ko_ls.Base.Int.{ℤ, pos, int_ord, leb_ℤ, cmp_ℤ, saturating_sub, seconds_to_millis}
use ko_ls.Base.BTreeMap.{BTreeMap}
use ko_ls.Platform.{Platform}
use ko_ls.Core.Hlc.{Hlc, hlc_ord}
use ko_ls.Core.Record.{MessageId, Record, RecordClass, class}
use ko_ls.Core.Limits.{ReaderLimits, Rejection, ceiling_for, class_ord, slowmode, too_fast}
use ko_ls.Core.Limits.Greedy.{admitted, greedy, last_of}
use ko_ls.Store.Verdict.{
  Verdict, decide, decide_rate, is_too_soon, admitted_since, window_millis, over_rate, too_soon,
}
use ko_ls.Store.Verdict.Readings.{
  verdict_of, stored, count-admitted_since, any-admitted_since, All-admitted, is_some_and,
  count-earlier, any-last, last-agree,
}
use ko_ls.Store.Verdict.Rising.{IsDated, IsRising, closer, wall_of_lt, admitted-IsAscending}

module _ (p : Platform) (m : BTreeMap MessageId Rejection) (l : ReaderLimits) (pre : List Record)
    (r : Record) (here : All (λ s. (s.channel == r.channel) ≡ true) pre)
    (earlier : All (λ s. (r.author == s.author) ≡ true → (s.hlc ≺ r.hlc) ≡ true) pre)
    (rising : IsRising pre) (dated : All (λ s. IsDated s.hlc) pre) (dated_now : IsDated r.hlc) where
  abbrev readings : List Hlc
  readings = admitted p m r.author (class r.body) pre

  readings_earlier : All (λ h. (h ≺ r.hlc) ≡ true) readings
  readings_earlier = All-admitted p m (λ h. (h ≺ r.hlc) ≡ true) r.author (class r.body) pre earlier

  -- The rate's count is the greedy rule's.
  decide_rate-count :
      (ceiling : ℤ)
      → (pos 0 ≺ ceiling) ≡ true
      → decide_rate (map (stored p m) pre) r (class r.body) ceiling ≡ (
          if leb_ℤ ceiling (
            pos (
              count_if
                (λ h. saturating_sub r.hlc.wall_millis window_millis ≺ h.wall_millis)
                readings))
          then over_rate
          else Verdict.admitted)
  unfolding decide_rate cmp_ℤ
  decide_rate-count ceiling h = ground (
    arith,
    count-admitted_since p m r.channel r.author (class r.body)
        (saturating_sub r.hlc.wall_millis window_millis) (λ h. h ≺ r.hlc) pre here,
    count-earlier (λ h. saturating_sub r.hlc.wall_millis window_millis ≺ h.wall_millis)
        (λ h. h ≺ r.hlc) readings readings_earlier,
  )

  readings_closer :
      All
        (λ h.
          (saturating_sub r.hlc.wall_millis (seconds_to_millis l.slowmode_seconds) ≺ h.wall_millis)
          ≡ (saturating_sub r.hlc.wall_millis h.wall_millis ≺ seconds_to_millis l.slowmode_seconds))
        readings
  readings_closer = All-admitted p m _ r.author (class r.body) pre (All-both pre earlier dated)
    where
      All-both :
          (rs : List Record)
          → All (λ s. (r.author == s.author) ≡ true → (s.hlc ≺ r.hlc) ≡ true) rs
          → All (λ s. IsDated s.hlc) rs
          → All
              (λ s.
                (r.author == s.author) ≡ true
                → (saturating_sub r.hlc.wall_millis (seconds_to_millis l.slowmode_seconds)
                    ≺ s.hlc.wall_millis)
                  ≡ (saturating_sub r.hlc.wall_millis s.hlc.wall_millis
                      ≺ seconds_to_millis l.slowmode_seconds))
              rs
      All-both [] e d = tt
      All-both (s ∷ rs) e d = (
        λ own.
            closer s.hlc r.hlc l.slowmode_seconds d.0 dated_now (wall_of_lt s.hlc r.hlc (e.0 own)),
        All-both rs e.1 d.1,
      )

  -- Slowmode's search is the greedy rule's look at the last reading.
  is_too_soon-last :
      class r.body ≡ RecordClass.message
      → is_too_soon (map (stored p m) pre) r l ≡ (
          ltb 0 l.slowmode_seconds
          && is_some_and (last_of readings) (λ h.
            saturating_sub r.hlc.wall_millis h.wall_millis ≺ seconds_to_millis l.slowmode_seconds))
  unfolding is_too_soon
  is_too_soon-last e =
      let since = saturating_sub r.hlc.wall_millis (seconds_to_millis l.slowmode_seconds) in
      ap (λ b. ltb 0 l.slowmode_seconds && b)
        (ap
            (λ c.
              any (λ h. h ≺ r.hlc)
                (admitted_since (map (stored p m) pre) r.channel r.author c since))
            (sym e)
          ∙ any-admitted_since p m r.channel r.author (class r.body) since (λ h. h ≺ r.hlc) pre here
          ∙ any-last since (λ h. h ≺ r.hlc) readings readings_earlier
              (admitted-IsAscending p m r.author (class r.body) pre rising)
          ∙ last-agree (λ h. since ≺ h.wall_millis)
              (λ h.
                saturating_sub r.hlc.wall_millis h.wall_millis
                ≺ seconds_to_millis l.slowmode_seconds)
              readings readings_closer)

  verdict_of-if :
      (b d : Bool)
      → verdict_of (if b then some slowmode else if d then some too_fast else none)
        ≡ (if b then too_soon else if d then over_rate else Verdict.admitted)
  unfolding verdict_of
  verdict_of-if b d = ground arith

  ceiling_of :
      (ceiling given : ℤ)
      → (if pos 0 ≺ given then some given else none) ≡ some ceiling
      → (given ≡ ceiling) × ((pos 0 ≺ ceiling) ≡ true)
  ceiling_of ceiling given h = elim (Bool-cases (pos 0 ≺ given)) [
    | inl t ↦
        let same : given ≡ ceiling = ground arith in (same, subst (λ c. (pos 0 ≺ c) ≡ true) same t)
    | inr t ↦ absurd (ground arith)
  ]

  decide-message :
      (ceiling : ℤ)
      → class r.body ≡ RecordClass.message
      → l.message_rate_per_minute ≡ ceiling
      → decide (map (stored p m) pre) r l ≡ (
          if is_too_soon (map (stored p m) pre) r l
          then too_soon
          else decide_rate (map (stored p m) pre) r (class r.body) ceiling)
  unfolding decide
  decide-message ceiling e h = rw (decide, e, h) refl

  decide-reaction :
      (ceiling : ℤ)
      → class r.body ≡ RecordClass.reaction
      → l.reaction_rate_per_minute ≡ ceiling
      → decide (map (stored p m) pre) r l
        ≡ decide_rate (map (stored p m) pre) r (class r.body) ceiling
  unfolding decide
  decide-reaction ceiling e h = rw (decide, e, h) refl

  greedy-message :
      (ceiling : ℤ)
      → class r.body ≡ RecordClass.message
      → verdict_of (greedy l ceiling r readings) ≡ (
          if (ltb 0 l.slowmode_seconds
            && is_some_and (last_of readings) (λ h.
              saturating_sub r.hlc.wall_millis h.wall_millis
              ≺ seconds_to_millis l.slowmode_seconds))
          then too_soon
          else if leb_ℤ ceiling (
              pos (
                count_if
                  (λ h. saturating_sub r.hlc.wall_millis window_millis ≺ h.wall_millis)
                  readings))
          then over_rate
          else Verdict.admitted)
  unfolding greedy verdict_of cmp_on
  greedy-message ceiling e = elim (Option-cases (last_of readings)) [
    | inl nothing ↦ rw (greedy, nothing, e) (verdict_of-if _ _)
    | inr (k, found) ↦ rw (greedy, found, e) (verdict_of-if _ _)
  ]

  greedy-reaction :
      (ceiling : ℤ)
      → class r.body ≡ RecordClass.reaction
      → verdict_of (greedy l ceiling r readings) ≡ (
          if leb_ℤ ceiling (
            pos (
              count_if
                (λ h. saturating_sub r.hlc.wall_millis window_millis ≺ h.wall_millis)
                readings))
          then over_rate
          else Verdict.admitted)
  unfolding greedy verdict_of cmp_on
  greedy-reaction ceiling e = rw (greedy, e) (verdict_of-if false _)

  pub decide-greedy_at :
      (c : RecordClass) (ceiling : ℤ)
      → class r.body ≡ c
      → ceiling_for l c ≡ some ceiling
      → decide (map (stored p m) pre) r l ≡ verdict_of (greedy l ceiling r readings)
  unfolding ceiling_for
  decide-greedy_at RecordClass.message ceiling e h =
      let (given, room) = ceiling_of ceiling l.message_rate_per_minute h in
      decide-message ceiling e given
      ∙ rw (is_too_soon-last e, decide_rate-count ceiling room) (sym (greedy-message ceiling e))
  decide-greedy_at RecordClass.reaction ceiling e h =
      let (given, room) = ceiling_of ceiling l.reaction_rate_per_minute h in
      decide-reaction ceiling e given
      ∙ decide_rate-count ceiling room
      ∙ sym (greedy-reaction ceiling e)
  decide-greedy_at RecordClass.control ceiling e h = cc
  decide-greedy_at RecordClass.reserved ceiling e h = cc
