-- ===== src/Store/Verdict/Rising.antt =====
-- Records whose authors' readings ascend.
use ko_ls.Base.{
  ℕ, true, ◌&&◌, not, List, [], ◌∷◌, ◌++◌, All, All-before, All-at, All-map, ◌≡◌, ◌∙◌, sym, ap,
  arith, Bool-cases, inl, inr,
}
use ko_ls.Base.Order.{bytes_ord, ◌==◌, ==_comm, ◌≺◌, cmp_on, cmp_pair}
use ko_ls.Base.Int.{
  int_ord, ◌≤ℤ◌, ◌<ℤ◌, cmp_ℤ, i64_min, i64_max, saturating_sub, seconds_to_millis, ◌-ℤ◌,
}
use ko_ls.Base.BTreeMap.{BTreeMap, contains_key}
use ko_ls.Platform.{Platform}
use ko_ls.Core.Hlc.{Hlc, hlc_ord}
use ko_ls.Core.Record.{MessageId, IdentityId, Record, RecordClass, class, id}
use ko_ls.Core.Limits.{Rejection, class_ord}
use ko_ls.Core.Limits.Greedy.{admitted}
use ko_ls.Store.Verdict.Readings.{All-admitted, IsAscending}

-- A wall that `i64` holds, and not its least value.
abbrev pub IsDated : Hlc → Type 0
IsDated h = (i64_min <ℤ h.wall_millis) × (h.wall_millis ≤ℤ i64_max)

-- The two ways to ask whether one reading stands closer to a later one than the interval.
pub closer :
    (h r : Hlc) (seconds : ℕ)
    → IsDated h
    → IsDated r
    → h.wall_millis ≤ℤ r.wall_millis
    → (saturating_sub r.wall_millis (seconds_to_millis seconds) ≺ h.wall_millis)
      ≡ (saturating_sub r.wall_millis h.wall_millis ≺ seconds_to_millis seconds)
unfolding saturating_sub seconds_to_millis ◌-ℤ◌ cmp_ℤ
closer h r seconds a b c = ground arith

pub wall_of_lt : (h r : Hlc) → (h ≺ r) ≡ true → h.wall_millis ≤ℤ r.wall_millis
unfolding cmp_ℤ cmp_on cmp_pair
wall_of_lt h r e = ground arith

-- The readings of each author ascend strictly.
abbrev pub IsRising : List Record → Type 0
IsRising [] = Unit
IsRising (r ∷ rs) =
    All (λ s. (r.author == s.author) ≡ true → (r.hlc ≺ s.hlc) ≡ true) rs × IsRising rs

pub IsRising-before : (xs ys : List Record) → IsRising (xs ++ ys) → IsRising xs
IsRising-before [] ys h = tt
IsRising-before (x ∷ xs) ys h = (All-before _ xs ys h.0, IsRising-before xs ys h.1)

pub earlier_at :
    (xs ys : List Record) (r : Record)
    → IsRising (xs ++ r ∷ ys)
    → All (λ s. (r.author == s.author) ≡ true → (s.hlc ≺ r.hlc) ≡ true) xs
earlier_at [] ys r h = tt
earlier_at (x ∷ xs) ys r h = (
  λ e.
      All-at (λ s. (x.author == s.author) ≡ true → (x.hlc ≺ s.hlc) ≡ true) xs ys r h.0
        (==_comm x.author r.author ∙ e),
  earlier_at xs ys r h.1,
)

module _ (p : Platform) (m : BTreeMap MessageId Rejection) (a : IdentityId) (c : RecordClass) where
  pub admitted-IsAscending : (rs : List Record) → IsRising rs → IsAscending (admitted p m a c rs)
  unfolding admitted
  admitted-IsAscending [] h = tt
  admitted-IsAscending (r ∷ rs) h =
      elim (Bool-cases
        ((a == r.author) && ((c == class r.body) && not (contains_key (id p r) m)))) [
          | inr e ↦ rw e (admitted-IsAscending rs h.1)
          | inl e ↦
              let own : a ≡ r.author = bytes_ord.same_eq a r.author (ground arith) in
              rw e (
                All-admitted p m (λ k. r.hlc.wall_millis ≤ℤ k.wall_millis) a c rs
                    (All-map _ _ rs
                      (λ s f b. wall_of_lt r.hlc s.hlc (f (ap (λ x. x == s.author) (sym own) ∙ b)))
                      h.0),
                admitted-IsAscending rs h.1,
              )
        ]
