-- ===== src/Core/Hlc/Advance.antt =====
-- What an author's readings promise: they pass what was observed, and keep up with the clock.
use ko_ls.Base.{
  ℕ, ◌+◌, ◌≤◌, true, ◌&&◌, not, Option, none, some, List, [], ◌∷◌, leb, length, ◌≡◌, refl, arith,
}
use ko_ls.Base.Order.{◌≺◌, cmp_on, cmp_pair, nat_ord}
use ko_ls.Base.Int.{ℤ, int_ord, leb_ℤ, saturating_add_u32, u32_max, cmp_ℤ}
use ko_ls.Core.Hlc.{Hlc, hlc_ord, next}

-- A reading lies after the one observed exactly unless the clock has not moved past it and its
-- counter is at the top of its range; it is never dated before the clock.
pub next-advances :
    (now : ℤ) (prev : Hlc)
    → ((prev ≺ next now (some prev)) ≡ not (leb_ℤ now prev.wall_millis && leb u32_max prev.counter))
      × (leb_ℤ now (next now (some prev)).wall_millis ≡ true)
unfolding next saturating_add_u32 cmp_ℤ cmp_on cmp_pair
next-advances now prev = (ground arith, ground arith)

-- The readings that an author stamps, one after the other, as its clock shows these times.
unfoldable pub stamps : Option Hlc → List ℤ → List Hlc
stamps observed [] = []
stamps observed (now ∷ times) = next now observed ∷ stamps (some (next now observed)) times

-- Each reading lies after the one before it.
abbrev pub IsRising : Option Hlc → List Hlc → Type 0
IsRising observed [] = Unit
IsRising none (h ∷ hs) = IsRising (some h) hs
IsRising (some prev) (h ∷ hs) = ((prev ≺ h) ≡ true) × IsRising (some h) hs

-- What the counter has left before the next reading.
abbrev pub used : Option Hlc → ℕ
used none = 0
used (some prev) = prev.counter

counter-next : (now : ℤ) (prev : Hlc) → (next now (some prev)).counter ≤ prev.counter + 1
unfolding next saturating_add_u32
counter-next now prev = ground arith

counter-next_first : (now : ℤ) → (next now none).counter ≡ 0
unfolding next
counter-next_first now = refl

-- While the counter has room for as many steps as there are readings, the readings that an author
-- stamps rise strictly, whatever its clock does.
pub stamps-IsRising :
    (observed : Option Hlc) (times : List ℤ)
    → used observed + length times ≤ u32_max
    → IsRising observed (stamps observed times)
unfolding stamps
stamps-IsRising observed [] h = tt
stamps-IsRising none (now ∷ times) h =
    stamps-IsRising (some (next now none)) times (omega (arith, counter-next_first now))
stamps-IsRising (some prev) (now ∷ times) h = (
  ground (arith, (next-advances now prev).0),
  stamps-IsRising (some (next now (some prev))) times (omega (arith, counter-next now prev)),
)
