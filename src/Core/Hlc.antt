-- ===== src/Core/Hlc.antt =====
-- Hybrid logical clocks: crates/kols-core/src/hlc.rs.
pub mod Advance
use ko_ls.Base.{ℕ, ◌≡◌, Option, none, some, if◌then◌else◌, ◌++◌}
use ko_ls.Base.Order.{Ord, Bytes, cmp_on, cmp_on-IsTotal, pair_ord, nat_ord}
use ko_ls.Base.Int.{ℤ, int_ord, leb_ℤ, saturating_add_u32}
use ko_ls.Base.Result.{Result, ok, ◌>>=◌}
use ko_ls.Platform.{Platform, Reader}
use native.Mathlib.Omega.{arith}

-- `Hlc`; the derived order compares the wall time, then the counter.
pub record Hlc : Type 0 where
  pub wall_millis : ℤ
  pub counter : ℕ

abbrev pub hlc_key : Hlc → ℤ × ℕ
hlc_key h = (h.wall_millis, h.counter)

pub hlc_key-injective : (a b : Hlc) → hlc_key a ≡ hlc_key b → a ≡ b
hlc_key-injective a b e = λ i. record { wall_millis = (e i).0; counter = (e i).1 }

instance abbrev pub hlc_ord : Ord Hlc
hlc_ord = record { cmp = cmp_on hlc_key; total = cmp_on-IsTotal hlc_key hlc_key-injective }

-- `Hlc::next`: the reading that an author stamps on its next record.
unfoldable pub next : ℤ → Option Hlc → Hlc
next now none = record { wall_millis = now; counter = 0 }
next now (some prev) =
    if leb_ℤ now prev.wall_millis
    then record { wall_millis = prev.wall_millis; counter = saturating_add_u32 prev.counter 1 }
    else record { wall_millis = now; counter = 0 }

module _ (p : Platform) where
  -- `Hlc::encode`
  unfoldable pub encode_hlc : Hlc → Bytes
  encode_hlc h = p.i64 h.wall_millis ++ p.u32 h.counter

  -- `Hlc::decode`
  unfoldable pub decode_hlc : Reader Hlc
  decode_hlc input = do
    (wall, rest) ← p.read_i64 input
    (counter, rest') ← p.read_u32 rest
    ok (record { wall_millis = wall; counter = counter }, rest')
