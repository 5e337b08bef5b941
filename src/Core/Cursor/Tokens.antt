-- ===== src/Core/Cursor/Tokens.antt =====
-- The opaque strings that positions are handed out as: `Cursor::to_token` and `Cursor::from_token`.
use mathlib.Core.List.{append_assoc}
use ko_ls.Base.{
  ℕ, ◌≤◌, true, Option, none, some, ◌++◌, length, length-append, if◌then◌else◌, take, drop,
  take-append, drop-append, ◌≡◌, refl, sym, ap, ◌∙◌, arith,
}
use ko_ls.Base.Order.{Bytes, nat_ord, ◌==◌}
use ko_ls.Base.Int.{fits_i64, u32_max}
use ko_ls.Base.BigEndian.{
  to_be_bytes, from_be_bytes, bits_i64, i64_of_bits, i64_of_bits-bits_i64, bits_i64-lt,
  length-to_be_bytes, from_be_bytes-to_be_bytes,
}
use ko_ls.Platform.{Platform}
use ko_ls.Platform.Laws.{IsHexRead}
use ko_ls.Core.Cursor.{Cursor}

unfoldable raw_token : Cursor → Bytes
raw_token c = to_be_bytes 8 (bits_i64 c.hlc.wall_millis) ++ (to_be_bytes 4 c.hlc.counter ++ c.id)

unfoldable raw_cursor : Bytes → Option Cursor
raw_cursor raw =
    if length raw == 44
    then some (record {
      hlc = record {
        wall_millis = i64_of_bits (from_be_bytes 0 (take 8 raw));
        counter = from_be_bytes 0 (take 4 (drop 8 raw));
      };
      id = drop 12 raw;
    })
    else none

module _ (p : Platform) where
  -- `Cursor::to_token`
  unfoldable pub to_token : Cursor → Bytes
  unfolding raw_token
  to_token c = p.to_hex (raw_token c)

  -- `Cursor::from_token`
  unfoldable pub from_token : Bytes → Option Cursor
  unfolding raw_cursor
  from_token token = elim (p.from_hex token) [ none ↦ none | some raw ↦ raw_cursor raw ]

take_at : (n : ℕ) (a b : Bytes) → length a ≡ n → take n (a ++ b) ≡ a
take_at n a b len = ap (λ k. take k (a ++ b)) (sym len) ∙ take-append a b

drop_at : (n : ℕ) (a b : Bytes) → length a ≡ n → drop n (a ++ b) ≡ b
drop_at n a b len = ap (λ k. drop k (a ++ b)) (sym len) ∙ drop-append a b

-- Three fields of these sizes, cut apart as `from_token` cuts them.
fields :
    (a b c : Bytes)
    → length a ≡ 8
    → length b ≡ 4
    → length c ≡ 32
    → (length (a ++ (b ++ c)) ≡ 44)
      × (take 8 (a ++ (b ++ c)) ≡ a)
      × (take 4 (drop 8 (a ++ (b ++ c))) ≡ b)
      × (drop 12 (a ++ (b ++ c)) ≡ c)
fields a b c a_len b_len c_len = (
  omega (arith, length-append a (b ++ c), length-append b c),
  take_at 8 a (b ++ c) a_len,
  ap (take 4) (drop_at 8 a (b ++ c) a_len) ∙ take_at 4 b c b_len,
  ap (drop 12) (sym (append_assoc a b c))
      ∙ drop_at 12 (a ++ b) c (omega (arith, length-append a b)),
)

raw_cursor-raw_token :
    (c : Cursor)
    → fits_i64 c.hlc.wall_millis ≡ true
    → c.hlc.counter ≤ u32_max
    → length c.id ≡ 32
    → raw_cursor (raw_token c) ≡ some c
unfolding raw_cursor raw_token
raw_cursor-raw_token c wall counter len =
    let w = bits_i64 c.hlc.wall_millis in
    let (whole, front, middle, last) =
      fields (to_be_bytes 8 w) (to_be_bytes 4 c.hlc.counter) c.id (length-to_be_bytes 8 w)
        (length-to_be_bytes 4 c.hlc.counter) len in
    let first =
      ap i64_of_bits (from_be_bytes-to_be_bytes 8 w (bits_i64-lt c.hlc.wall_millis))
      ∙ i64_of_bits-bits_i64 c.hlc.wall_millis wall in
    rw (whole, front, middle, last, first, from_be_bytes-to_be_bytes 4 c.hlc.counter (omega arith))
      refl

module _ (p : Platform) where
  -- Where `from_hex` reads back what `to_hex` writes, a position whose fields have the sizes of
  -- their types comes back from its token: a wall time before 1970 too, and the largest counter.
  pub from_token-to_token :
      (c : Cursor)
      → IsHexRead p
      → fits_i64 c.hlc.wall_millis ≡ true
      → c.hlc.counter ≤ u32_max
      → length c.id ≡ 32
      → from_token p (to_token p c) ≡ some c
  unfolding from_token to_token
  from_token-to_token c hex wall counter len =
      rw (from_token, hex.from_hex-to_hex (raw_token c)) (raw_cursor-raw_token c wall counter len)
