-- ===== src/Examples/Limits.antt =====
-- Records against the bounds of a reader, and the clock's readings.
use ko_ls.Base.{
  true, ◌&&◌, not, none, some, List, [], ◌∷◌, count_if, In, ◌↔◌, leb, ◌≡◌, refl, arith,
}
use ko_ls.Base.Order.{bytes_ord, ◌≺◌}
use ko_ls.Base.Int.{ℤ, pos, negsuc, int_ord, ◌≤ℤ◌, leb_ℤ, u32_max, cmp_ℤ}
use ko_ls.Base.BTreeMap.{get, contains_key}
use ko_ls.Core.Hlc.{hlc_ord, next}
use ko_ls.Core.Hlc.Advance.{next-advances, stamps, IsRising, stamps-IsRising}
use ko_ls.Core.Record.{Record, RecordClass, class, class_of, id, tag}
use ko_ls.Core.Limits.{ReaderLimits, withheld, ceiling_for}
use ko_ls.Core.Limits.Greedy.{greedy, admitted}
use ko_ls.Core.Limits.Hold.{IsAhead, held-IsAhead}
use ko_ls.Core.Limits.Verdicts.{refused-eq-greedy, refused-no_ceiling}
use ko_ls.Core.Limits.Rate.{in_minute, admitted_rate}
use ko_ls.Examples.Values.{limits, alice, at, hello, answer, revised, script, script-IsDistinct}
use ko_ls.Examples.Tiny.{tiny}

-- A channel whose message ceiling is off and whose slowmode is an hour.
abbrev slow : ReaderLimits
slow = record limits { message_rate_per_minute = pos 0; slowmode_seconds = 3600 }

rate_of_messages : ceiling_for limits RecordClass.message ≡ some (pos 1)
unfolding ceiling_for cmp_ℤ
rate_of_messages = refl

message_ceiling : ceiling_for limits (class revised.body) ≡ some (pos 1)
unfolding ceiling_for class class_of tag cmp_ℤ
message_ceiling = refl

no_ceiling : ceiling_for slow (class revised.body) ≡ none
unfolding ceiling_for class class_of tag cmp_ℤ
no_ceiling = refl

refused-eq-greedy_example :
    get (id tiny revised) (withheld tiny limits (pos 5000) script).refused
    ≡ greedy limits (pos 1) revised (
        admitted tiny
          (withheld tiny limits (pos 5000) script).refused
          alice
          (class revised.body)
          (hello ∷ answer ∷ []))
refused-eq-greedy_example =
    refused-eq-greedy tiny limits (pos 5000) (hello ∷ answer ∷ []) [] revised (pos 1)
      script-IsDistinct message_ceiling

refused-no_ceiling_example :
    get (id tiny revised) (withheld tiny slow (pos 5000) script).refused ≡ none
refused-no_ceiling_example =
    refused-no_ceiling tiny slow (pos 5000) (hello ∷ answer ∷ []) [] revised script-IsDistinct
      no_ceiling

admitted_rate_example :
    pos (
      count_if (in_minute (pos 0)) (
        admitted tiny
          (withheld tiny limits (pos 5000) script).refused
          alice
          RecordClass.message
          script))
    ≤ℤ pos 1
admitted_rate_example =
    admitted_rate tiny limits (pos 5000) (pos 0) (pos 1) alice RecordClass.message script
      (omega arith) rate_of_messages script-IsDistinct

-- By a clock far behind.
held-IsAhead_example :
    (contains_key (id tiny hello) (withheld tiny limits (negsuc 100000) script).held ≡ true) ↔ (
      (r : Record) × In r script
      × (id tiny hello ≡ id tiny r)
      × IsAhead tiny limits (negsuc 100000) r)
held-IsAhead_example = held-IsAhead tiny limits (negsuc 100000) (id tiny hello) script

next-advances_example :
    ((at 1000 ≺ next (pos 900) (some (at 1000)))
      ≡ not (leb_ℤ (pos 900) (pos 1000) && leb u32_max 0))
    × (leb_ℤ (pos 900) (next (pos 900) (some (at 1000))).wall_millis ≡ true)
next-advances_example = next-advances (pos 900) (at 1000)

-- A clock that steps back.
abbrev times : List ℤ
times = pos 900 ∷ pos 2000 ∷ pos 1999 ∷ []

stamps-IsRising_example : IsRising (some (at 1000)) (stamps (some (at 1000)) times)
stamps-IsRising_example = stamps-IsRising (some (at 1000)) times (omega arith)
