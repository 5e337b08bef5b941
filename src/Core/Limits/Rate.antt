-- ===== src/Core/Limits/Rate.antt =====
-- The ceiling of design/01 §10.1 holds in every minute.
use ko_ls.Base.{
  ◌+◌, Bool, true, ◌&&◌, not, none, some, List, [], ◌∷◌, ◌++◌, count_if, if◌then◌else◌, ◌≡◌, refl,
  arith, sym, ap, ◌≤◌, Bool-cases, inl, inr, ◌∙◌,
}
use mathlib.Core.List.{append-nil, append_assoc}
use ko_ls.Base.Order.{◌≺◌, ◌==◌, ==_iff, bytes_ord}
use ko_ls.Base.Int.{ℤ, pos, leb_ℤ, int_ord, saturating_sub, i64_min, ◌+ℤ◌, ◌-ℤ◌, ◌≤ℤ◌, cmp_ℤ}
use ko_ls.Base.BTreeMap.{BTreeMap, get, contains_key}
use ko_ls.Platform.{Platform}
use ko_ls.Core.Hlc.{Hlc}
use ko_ls.Core.Record.{IdentityId, MessageId, Record, RecordClass, class, id}
use ko_ls.Core.Limits.{
  ReaderLimits, Rejection, withheld, ceiling_for, rate_window_millis, class_ord,
}
use ko_ls.Core.Limits.Greedy.{IsDistinct, admitted, greedy, admitted-append}
use ko_ls.Core.Limits.Verdicts.{refused-eq-greedy}

-- The reading lies in the minute that follows `t`.
pub in_minute : ℤ → Hlc → Bool
in_minute t h = (t ≺ h.wall_millis) && leb_ℤ h.wall_millis (t +ℤ pos 60000)

-- What precedes a reading in a minute lies in the window that ends at the reading.
minute_in_window :
    (t : ℤ) (h r : Hlc)
    → i64_min ≤ℤ t
    → in_minute t r ≡ true
    → in_minute t h ≡ true
    → (saturating_sub r.wall_millis rate_window_millis ≺ h.wall_millis) ≡ true
unfolding in_minute saturating_sub ◌+ℤ◌ ◌-ℤ◌ cmp_ℤ
minute_in_window t h r a b c = ground arith

count-le {ℓ} :
    {A : Type ℓ} (f g : A → Bool)
    → ((a : A) → f a ≡ true → g a ≡ true)
    → (xs : List A) → count_if f xs ≤ count_if g xs
count-le f g h [] = omega arith
count-le f g h (x ∷ xs) = ground (arith, h x, count-le f g h xs)

count-append {ℓ} :
    {A : Type ℓ} (f : A → Bool) (xs : List A) (x : A)
    → count_if f (xs ++ x ∷ []) ≡ (if f x then count_if f xs + 1 else count_if f xs)
count-append f [] x = ground arith
count-append f (y ∷ xs) x = ground (arith, count-append f xs x)

-- Under the greedy rule a reading is let through only while the window has room.
greedy_room :
    (l : ReaderLimits) (ceiling : ℤ) (r : Record) (hs : List Hlc)
    → greedy l ceiling r hs ≡ none
    → pos
        (count_if (λ h. saturating_sub r.hlc.wall_millis rate_window_millis ≺ h.wall_millis) hs + 1)
      ≤ℤ ceiling
unfolding greedy cmp_ℤ
greedy_room l ceiling r hs h = ground arith

ceiling_pos :
    (l : ReaderLimits) (c : RecordClass) (ceiling : ℤ)
    → ceiling_for l c ≡ some ceiling
    → pos 0 ≤ℤ ceiling
unfolding ceiling_for cmp_ℤ
ceiling_pos l RecordClass.message ceiling e = ground arith
ceiling_pos l _ ceiling e = ground arith

minute_room :
    (l : ReaderLimits) (ceiling t : ℤ) (r : Record) (hs : List Hlc)
    → i64_min ≤ℤ t
    → greedy l ceiling r hs ≡ none
    → in_minute t r.hlc ≡ true
    → pos (count_if (in_minute t) hs + 1) ≤ℤ ceiling
minute_room l ceiling t r hs low g m = omega (
  arith,
  greedy_room l ceiling r hs g,
  count-le (in_minute t) (λ h. saturating_sub r.hlc.wall_millis rate_window_millis ≺ h.wall_millis)
      (λ h. minute_in_window t h r.hlc low m) hs,
)

module _ (p : Platform) (l : ReaderLimits) (now t ceiling : ℤ) (a : IdentityId)
    (c : RecordClass) where
  abbrev IsInRate : BTreeMap MessageId Rejection → List Record → Type 0
  IsInRate out rs = pos (count_if (in_minute t) (admitted p out a c rs)) ≤ℤ ceiling

  -- One more record that the greedy rule judges keeps the rate.
  IsInRate-append :
      (out : BTreeMap MessageId Rejection) (done : List Record) (r : Record)
      → i64_min ≤ℤ t
      → ((c == class r.body) ≡ true
          → get (id p r) out ≡ greedy l ceiling r (admitted p out r.author (class r.body) done))
      → IsInRate out done
      → IsInRate out (done ++ r ∷ [])
  IsInRate-append out done r low judged h =
      elim (Bool-cases
        ((a == r.author) && ((c == class r.body) && not (contains_key (id p r) out)))) [
          | inl e ↦ elim (Bool-cases (in_minute t r.hlc)) [
            | inl m ↦
                let same_author : a ≡ r.author = bytes_ord.same_eq a r.author (ground arith) in
                let same_class : c ≡ class r.body =
                  class_ord.same_eq c (class r.body) (ground arith) in
                let room : greedy l ceiling r (admitted p out a c done) ≡ none =
                  ground (arith, same_author, same_class, judged) in
                rw (admitted-append, e, count-append, m)
                  (minute_room l ceiling t r (admitted p out a c done) low room m)
            | inr m ↦ rw (admitted-append, e, count-append, m) h
          ]
          | inr e ↦ rw (admitted-append, e) h
        ]

  rate_from :
      (out : BTreeMap MessageId Rejection) (done rs : List Record)
      → i64_min ≤ℤ t
      → ceiling_for l c ≡ some ceiling
      → IsDistinct p (done ++ rs)
      → out ≡ (withheld p l now (done ++ rs)).refused
      → IsInRate out done
      → IsInRate out (done ++ rs)
  rate_from out done [] low e d o h = rw append-nil h
  rate_from out done (r ∷ rs) low e d o h =
      let grouped : (done ++ r ∷ []) ++ rs ≡ done ++ r ∷ rs = append_assoc done (r ∷ []) rs in
      rw grouped at (
        rate_from out (done ++ r ∷ []) rs low e (rw grouped d) (rw grouped o) (
          IsInRate-append out done r low
            (λ s.
              ap (get (id p r)) o
              ∙ refused-eq-greedy p l now done rs r ceiling d
                  (ap (ceiling_for l) (sym ((==_iff c (class r.body)).0 s)) ∙ e)
              ∙ ap (λ m. greedy l ceiling r (admitted p m r.author (class r.body) done)) (sym o))
            h))

  start-IsInRate :
      (out : BTreeMap MessageId Rejection) → ceiling_for l c ≡ some ceiling → IsInRate out []
  unfolding admitted
  start-IsInRate out e = omega (arith, ceiling_pos l c ceiling e)

  -- Where no two of the records share an identifier and a class has a ceiling, in every minute that
  -- begins at an `i64` or later the readings of one author and class that the outcome lets through
  -- number at most the ceiling.
  pub admitted_rate :
      (rs : List Record)
      → i64_min ≤ℤ t
      → ceiling_for l c ≡ some ceiling
      → IsDistinct p rs
      → pos (count_if (in_minute t) (admitted p (withheld p l now rs).refused a c rs)) ≤ℤ ceiling
  admitted_rate rs low e d =
      let out = (withheld p l now rs).refused in
      rate_from out [] rs low e d refl (start-IsInRate out e)
