-- ===== src/Core/Limits.antt =====
-- The bounds that a reader enforces: crates/kols-core/src/limits.rs.
mod Steps
pub mod Greedy
mod Faithful
pub mod Hold
pub mod Verdicts
pub mod Rate
use ko_ls.Base.{
  ℕ, ◌^◌, ◌-◌, Bool, true, false, ◌||◌, ◌&&◌, Option, none, some, List, [], ◌∷◌, ◌++◌, ltb, leb,
  if◌then◌else◌, count_if, is_some, ◌≡◌, refl,
}
use ko_ls.Base.Order.{Ord, nat_ord, pair_ord, bytes_ord, ◌≺◌, cmp_on, cmp_on-IsTotal}
use ko_ls.Base.Int.{ℤ, pos, int_ord, leb_ℤ, i64_max, checked_add, saturating_sub, seconds_to_millis}
use ko_ls.Base.BTreeMap.{BTreeMap, get, insert, contains_key}
use ko_ls.Platform.{Platform}
use ko_ls.Core.Hlc.{Hlc}
use ko_ls.Core.Record.{IdentityId, MessageId, Record, RecordClass, class, id}
use native.Mathlib.Omega.{arith}

-- `Rejection` of crates/kols-core/src/view.rs.
pub data Rejection : Type 0 where
  bad_signature wrong_channel not_a_member not_permitted not_the_author : Rejection
  not_a_moderator unknown_target too_large too_fast slowmode : Rejection

abbrev pub rate_window_millis : ℤ
rate_window_millis = pos 60000

pub record ReaderLimits : Type 0 where
  pub message_rate_per_minute : ℤ
  pub reaction_rate_per_minute : ℤ
  pub message_max_bytes : ℕ
  pub max_future_skew_millis : ℤ
  pub slowmode_seconds : ℕ

-- `ReaderLimits::unbounded`, where `usize` has 64 bits
abbrev pub unbounded : ReaderLimits
unbounded = record {
  message_rate_per_minute = pos 0;
  reaction_rate_per_minute = pos 0;
  message_max_bytes = 2 ^ 64 - 1;
  max_future_skew_millis = i64_max;
  slowmode_seconds = 0;
}

positive : ℤ → Option ℤ
positive ceiling = if pos 0 ≺ ceiling then some ceiling else none

-- `ReaderLimits::ceiling_for`
unfoldable pub ceiling_for : ReaderLimits → RecordClass → Option ℤ
unfolding positive
ceiling_for l RecordClass.message = positive l.message_rate_per_minute
ceiling_for l RecordClass.reaction = positive l.reaction_rate_per_minute
ceiling_for l _ = none

-- A `BTreeSet` is a map to the unit value.
abbrev pub BTreeSet : Type 0 → Type 0
BTreeSet K = BTreeMap K (Unit {0})

pub record Withheld : Type 0 where
  pub refused : BTreeMap MessageId Rejection
  pub held : BTreeSet MessageId

-- `Withheld::excludes`
unfoldable pub excludes : Withheld → MessageId → Bool
excludes w i = contains_key i w.refused || contains_key i w.held

-- The derived order of `RecordClass` is that of its declaration.
abbrev class_index : RecordClass → ℕ
class_index RecordClass.message = 0
class_index RecordClass.reaction = 1
class_index RecordClass.control = 2
class_index RecordClass.reserved = 3

pub class_index-injective : (a b : RecordClass) → class_index a ≡ class_index b → a ≡ b
class_index-injective a b e = ground arith

instance abbrev pub class_ord : Ord RecordClass
class_ord = record {
  cmp = cmp_on class_index;
  total = cmp_on-IsTotal class_index class_index-injective;
}

-- The variables of the loop of `withheld`.
pub record Walk : Type 0 where
  pub out : Withheld
  pub seen : BTreeMap (IdentityId × RecordClass) (List Hlc)
  pub last_message : BTreeMap IdentityId Hlc

abbrev pub walk_start : Walk
walk_start = record { out = record { refused = []; held = [] }; seen = []; last_message = [] }

-- §2.6: dated ahead of `now` by more than the skew, where that horizon is an `i64`.
unfoldable pub is_ahead : ReaderLimits → ℤ → ℤ → Bool
is_ahead l now at = elim (checked_add now l.max_future_skew_millis) [
  | none ↦ false
  | some horizon ↦ horizon ≺ at
]

hold : Platform → ReaderLimits → ℤ → Record → Walk → Walk
unfolding is_ahead
hold p l now r w =
    if is_ahead l now r.hlc.wall_millis
    then record w { out = record w.out { held = insert (id p r) tt w.out.held } }
    else w

refuse : Platform → Record → Rejection → Walk → Walk
refuse p r why w = record w { out = record w.out { refused = insert (id p r) why w.out.refused } }

-- §10.3: the author's last admitted message stands closer than the interval.
unfoldable pub paced_out : ReaderLimits → Record → Walk → Bool
paced_out l r w = elim (class r.body) [
  | RecordClass.message ↦ ltb 0 l.slowmode_seconds && (elim (get r.author w.last_message) [
    | none ↦ false
    | some previous ↦
        saturating_sub r.hlc.wall_millis previous.wall_millis ≺ seconds_to_millis l.slowmode_seconds
  ])
  | _ ↦ false
]

-- `seen.entry(key).or_default()`
pub window : IdentityId → RecordClass → Walk → List Hlc
window author c w = elim (get (author, c) w.seen) [ none ↦ [] | some hlcs ↦ hlcs ]

entered : Record → List Hlc → Walk → Walk
entered r hlcs w = record w { seen = insert (r.author, class r.body) hlcs w.seen }

-- How many admitted readings lie in the window that ends at the record.
pub inside : Record → List Hlc → ℕ
inside r = count_if (λ h. saturating_sub r.hlc.wall_millis rate_window_millis ≺ h.wall_millis)

note_message : Record → Walk → Walk
note_message r w = elim (class r.body) [
  | RecordClass.message ↦ record w { last_message = insert r.author r.hlc w.last_message }
  | _ ↦ w
]

-- The window's push, and the pacing's note of the reading.
admit_reading : Record → Walk → Walk
unfolding window entered note_message
admit_reading r w = note_message r (entered r (window r.author (class r.body) w ++ r.hlc ∷ []) w)

-- One round of the loop.
unfoldable pub step : Platform → ReaderLimits → ℤ → Walk → Record → Walk
unfolding hold refuse window entered inside admit_reading
step p l now w r =
    let held = hold p l now r w in
    elim (ceiling_for l (class r.body)) [
      | none ↦ held
      | some ceiling ↦
          if paced_out l r held
          then refuse p r slowmode held
          else if leb_ℤ ceiling (pos (inside r (window r.author (class r.body) held)))
          then refuse p r too_fast (entered r (window r.author (class r.body) held) held)
          else admit_reading r held
    ]

unfoldable pub walk : Platform → ReaderLimits → ℤ → Walk → List Record → Walk
walk p l now w [] = w
walk p l now w (r ∷ rs) = walk p l now (step p l now w r) rs

-- `withheld`: over records in merge order.
unfoldable pub withheld : Platform → ReaderLimits → ℤ → List Record → Withheld
unfolding walk step
withheld p l now rs = (walk p l now walk_start rs).out
