-- ===== src/Store/Verdict/Readings.antt =====
-- What the projection's query finds, in terms of the readings that the greedy rule counts.
use ko_ls.Base.{
  Bool, true, false, ◌&&◌, not, Option, none, some, List, [], ◌∷◌, map, filter, any, count_if, All,
  ◌≡◌, ◌∙◌, refl, ap, arith, subst, is_some, Bool-cases, Option-cases, inl, inr,
}
use ko_ls.Base.Order.{bytes_ord, ◌==◌, ==_comm, ◌≺◌}
use ko_ls.Base.Int.{ℤ, pos, int_ord, ◌≤ℤ◌, cmp_ℤ}
use ko_ls.Base.BTreeMap.{BTreeMap, get, contains_key}
use ko_ls.Base.Sorting.{count_if-sort_by, any-sort_by}
use ko_ls.Platform.{Platform}
use ko_ls.Core.Hlc.{Hlc, hlc_ord}
use ko_ls.Core.Record.{ChannelId, MessageId, IdentityId, Record, RecordClass, class, id}
use ko_ls.Core.Limits.{Rejection, class_ord, slowmode}
use ko_ls.Core.Limits.Greedy.{admitted as admitted_readings, last_of}
use ko_ls.Store.Verdict.{
  Verdict, Row, selects, admitted_since, row_of, verdict_code, over_rate, too_soon,
}

-- The verdict that stands for a refusal.
unfoldable pub verdict_of : Option Rejection → Verdict
verdict_of none = Verdict.admitted
verdict_of (some slowmode) = too_soon
verdict_of (some _) = over_rate

verdict_code-of : (o : Option Rejection) → (verdict_code (verdict_of o) == pos 0) ≡ not (is_some o)
unfolding verdict_code verdict_of cmp_ℤ
verdict_code-of none = refl
verdict_code-of (some why) = ground arith

shuffle : (x y z w : Bool) → (x && (y && (w && z))) ≡ ((x && (y && z)) && w)
shuffle x y z w = ground arith

module _ (p : Platform) (m : BTreeMap MessageId Rejection) where
  abbrev pub stored : Record → Row
  stored s = row_of p s (verdict_of (get (id p s) m))

  module _ (ch : ChannelId) (a : IdentityId) (c : RecordClass) (since : ℤ) where
    selects-stored :
        (s : Record)
        → (s.channel == ch) ≡ true
        → selects ch a c since (stored s) ≡ (
            ((a == s.author) && ((c == class s.body) && not (contains_key (id p s) m)))
            && (since ≺ s.hlc.wall_millis))
    unfolding selects
    selects-stored s h =
        rw (h, ==_comm s.author a, ==_comm (class s.body) c, verdict_code-of (get (id p s) m))
          (shuffle (a == s.author) (c == class s.body) (not (contains_key (id p s) m))
            (since ≺ s.hlc.wall_millis))

    count-unsorted :
        (f : Hlc → Bool) (rs : List Record)
        → All (λ s. (s.channel == ch) ≡ true) rs
        → count_if f (map (λ row. row.hlc) (filter (selects ch a c since) (map stored rs)))
          ≡ count_if (λ h. (since ≺ h.wall_millis) && f h) (admitted_readings p m a c rs)
    unfolding admitted_readings
    count-unsorted f [] h = refl
    count-unsorted f (r ∷ rs) h = ground (arith, selects-stored r h.0, count-unsorted f rs h.1)

    any-unsorted :
        (f : Hlc → Bool) (rs : List Record)
        → All (λ s. (s.channel == ch) ≡ true) rs
        → any f (map (λ row. row.hlc) (filter (selects ch a c since) (map stored rs)))
          ≡ any (λ h. (since ≺ h.wall_millis) && f h) (admitted_readings p m a c rs)
    unfolding admitted_readings
    any-unsorted f [] h = refl
    any-unsorted f (r ∷ rs) h = ground (arith, selects-stored r h.0, any-unsorted f rs h.1)

    pub count-admitted_since :
        (f : Hlc → Bool) (rs : List Record)
        → All (λ s. (s.channel == ch) ≡ true) rs
        → count_if f (admitted_since (map stored rs) ch a c since)
          ≡ count_if (λ h. (since ≺ h.wall_millis) && f h) (admitted_readings p m a c rs)
    unfolding admitted_since
    count-admitted_since f rs h = count_if-sort_by hlc_ord.cmp f _ ∙ count-unsorted f rs h

    pub any-admitted_since :
        (f : Hlc → Bool) (rs : List Record)
        → All (λ s. (s.channel == ch) ≡ true) rs
        → any f (admitted_since (map stored rs) ch a c since)
          ≡ any (λ h. (since ≺ h.wall_millis) && f h) (admitted_readings p m a c rs)
    unfolding admitted_since
    any-admitted_since f rs h = any-sort_by hlc_ord.cmp f _ ∙ any-unsorted f rs h

  -- A fact of every record of an author is one of the readings let through.
  pub All-admitted :
      (P : Hlc → Type 0) (a : IdentityId) (c : RecordClass) (rs : List Record)
      → All (λ s. (a == s.author) ≡ true → P s.hlc) rs
      → All P (admitted_readings p m a c rs)
  unfolding admitted_readings
  All-admitted P a c [] h = tt
  All-admitted P a c (r ∷ rs) h =
      elim (Bool-cases
        ((a == r.author) && ((c == class r.body) && not (contains_key (id p r) m)))) [
          | inl e ↦ rw e (h.0 (ground arith), All-admitted P a c rs h.1)
          | inr e ↦ rw e (All-admitted P a c rs h.1)
        ]

-- The walls do not descend.
abbrev pub IsAscending : List Hlc → Type 0
IsAscending [] = Unit
IsAscending (h ∷ hs) = All (λ k. h.wall_millis ≤ℤ k.wall_millis) hs × IsAscending hs

abbrev pub is_some_and : Option Hlc → (Hlc → Bool) → Bool
is_some_and none f = false
is_some_and (some h) f = f h

pub count-earlier :
    (f g : Hlc → Bool) (hs : List Hlc)
    → All (λ h. g h ≡ true) hs
    → count_if (λ h. f h && g h) hs ≡ count_if f hs
count-earlier f g [] a = refl
count-earlier f g (h ∷ hs) a = ground (arith, a.0, count-earlier f g hs a.1)

pub last-All : (P : Hlc → Type 0) (hs : List Hlc) (l : Hlc) → last_of hs ≡ some l → All P hs → P l
unfolding last_of
last-All P [] l e a = cc
last-All P (h ∷ hs) l e a = elim (Option-cases (last_of hs)) [
  | inl none_behind ↦ let same : h ≡ l = ground arith in subst P same a.0
  | inr (k, found) ↦ let same : k ≡ l = ground arith in last-All P hs l (found ∙ ap some same) a.1
]

-- Where the walls do not descend, something lies behind a bound exactly if the last reading does.
pub any-last :
    (since : ℤ) (g : Hlc → Bool) (hs : List Hlc)
    → All (λ h. g h ≡ true) hs
    → IsAscending hs
    → any (λ h. (since ≺ h.wall_millis) && g h) hs
      ≡ is_some_and (last_of hs) (λ h. since ≺ h.wall_millis)
unfolding last_of cmp_ℤ
any-last since g [] a s = refl
any-last since g (h ∷ hs) a s = elim (Option-cases (last_of hs)) [
  | inl none_behind ↦ ground (arith, any-last since g hs a.1 s.1, a.0)
  | inr (k, found) ↦ ground (
    arith,
    any-last since g hs a.1 s.1,
    a.0,
    last-All (λ l. h.wall_millis ≤ℤ l.wall_millis) hs k found s.0,
  )
]

pub last-agree :
    (f g : Hlc → Bool) (hs : List Hlc)
    → All (λ h. f h ≡ g h) hs
    → is_some_and (last_of hs) f ≡ is_some_and (last_of hs) g
last-agree f g hs a = elim (Option-cases (last_of hs)) [
  | inl nothing ↦ rw nothing refl
  | inr (k, found) ↦ rw found (last-All (λ h. f h ≡ g h) hs k found a)
]
