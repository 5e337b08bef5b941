-- ===== src/Core/Cursor.antt =====
-- Positions in a channel's merged order: `Cursor` of crates/kols-core/src/cursor.rs.
pub mod Tokens
use ko_ls.Base.{ℕ, Bool, not, Option, none, some, is_some, ◌≡◌}
use ko_ls.Base.Order.{Ord, cmp_on, cmp_on-IsTotal, pair_ord, bytes_ord}
use ko_ls.Platform.{Platform}
use ko_ls.Core.Hlc.{Hlc, hlc_ord}
use ko_ls.Core.Record.{MessageId, Record, id as record_id}

-- The derived order compares the reading, then the identifier.
pub record Cursor : Type 0 where
  pub hlc : Hlc
  pub id : MessageId

abbrev pub cursor_key : Cursor → Hlc × MessageId
cursor_key c = (c.hlc, c.id)

pub cursor_key-injective : (a b : Cursor) → cursor_key a ≡ cursor_key b → a ≡ b
cursor_key-injective a b e = λ i. record { hlc = (e i).0; id = (e i).1 }

instance abbrev pub cursor_ord : Ord Cursor
cursor_ord = record {
  cmp = cmp_on cursor_key;
  total = cmp_on-IsTotal cursor_key cursor_key-injective;
}

-- `Record::cursor`
unfoldable pub cursor : Platform → Record → Cursor
cursor p r = record { hlc = r.hlc; id = record_id p r }

-- `Window` of the same file, with `opening`, `around` and `is_live`
pub record Window : Type 0 where
  pub oldest : Option Cursor
  pub newest : Option Cursor
  pub back : ℕ
  pub forward : ℕ

unfoldable pub opening : ℕ → Window
opening back = record { oldest = none; newest = none; back = back; forward = 0 }

unfoldable pub around : Cursor → ℕ → Window
around anchor reach = record {
  oldest = some anchor;
  newest = some anchor;
  back = reach;
  forward = reach;
}

unfoldable pub is_live : Window → Bool
is_live w = not (is_some w.newest)
