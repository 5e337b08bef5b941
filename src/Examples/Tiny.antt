-- ===== src/Examples/Tiny.antt =====
-- A small platform: codec, hash, hexadecimal text and keys.
use ko_ls.Base.{
  ℕ, zero, suc, ◌+◌, true, false, Option, none, some, List, [], ◌∷◌, ◌++◌, All, length,
  if◌then◌else◌, ◌≡◌, refl, arith, ap, ◌∙◌, sym,
}
use ko_ls.Base.Order.{Bytes, bytes_ord, nat_ord, ◌==◌}
use ko_ls.Base.Int.{ℤ, pos, negsuc}
use ko_ls.Base.Result.{ok, err}
use ko_ls.Platform.{Platform, malformed, Reader}
use ko_ls.Platform.Laws.{IsHex, IsHexRead, is_hex_digit}

abbrev pub take_one : Reader ℕ
take_one [] = err malformed
take_one (x ∷ rest) = ok (x, rest)

abbrev pub take_many : ℕ → Reader Bytes
take_many zero input = ok ([], input)
take_many (suc n) [] = err malformed
take_many (suc n) (x ∷ rest) = elim (take_many n rest) [
  | err e ↦ err e
  | ok pair ↦ ok (x ∷ pair.0, pair.1)
]

abbrev pub take_text : Reader Bytes
take_text [] = err malformed
take_text (n ∷ rest) = take_many n rest

abbrev pub take_int : Reader ℤ
take_int (zero ∷ n ∷ rest) = ok (pos n, rest)
take_int (suc zero ∷ n ∷ rest) = ok (negsuc n, rest)
take_int _ = err malformed

abbrev pub put_int : ℤ → Bytes
put_int (pos n) = 0 ∷ n ∷ []
put_int (negsuc n) = 1 ∷ n ∷ []

abbrev pub take_option : {A : Type 0} → Reader A → Reader (Option A)
take_option read (zero ∷ rest) = ok (none, rest)
take_option read (suc zero ∷ rest) = elim (read rest) [
  | err e ↦ err e
  | ok pair ↦ ok (some pair.0, pair.1)
]
take_option read _ = err malformed

abbrev pub put_option : Option Bytes → Bytes
put_option none = 0 ∷ []
put_option (some b) = 1 ∷ b

abbrev pub put_all : List Bytes → Bytes
put_all [] = []
put_all (b ∷ bs) = b ++ put_all bs

abbrev pub take_times : {A : Type 0} → ℕ → Reader A → Reader (List A)
take_times zero read input = ok ([], input)
take_times (suc n) read input = elim (read input) [
  | err e ↦ err e
  | ok first ↦ elim (take_times n read first.1) [
    | err e ↦ err e
    | ok later ↦ ok (first.0 ∷ later.0, later.1)
  ]
]

abbrev pub take_seq : {A : Type 0} → Reader A → Reader (List A)
take_seq read [] = err malformed
take_seq read (n ∷ rest) = take_times n read rest

-- A byte in unary digits, and a digit behind them.
abbrev ones : ℕ → Bytes → Bytes
ones zero rest = b'0' ∷ rest
ones (suc n) rest = b'1' ∷ ones n rest

abbrev digits : Bytes → Bytes
digits [] = []
digits (x ∷ rest) = ones x (digits rest)

abbrev behind : Option Bytes → ℕ → Option Bytes
behind none n = none
behind (some b) n = some (n ∷ b)

-- Those digits read, behind so many of the byte at hand.
abbrev undigits : ℕ → Bytes → Option Bytes
undigits n [] = some []
undigits n (c ∷ rest) = elim (c == b'1') [
  | true ↦ undigits (suc n) rest
  | false ↦ behind (undigits zero rest) n
]

-- Encodings with length prefixes, the identity for a hash, and keys that sign by their own bytes, twice.
abbrev pub tiny : Platform
tiny = record {
  domain = λ d. length d ∷ d;
  u8 = λ n. n ∷ [];
  variant = λ n. n ∷ [];
  u32 = λ n. n ∷ [];
  u64 = λ n. n ∷ [];
  i64 = put_int;
  bool = λ b. (if b then 1 else 0) ∷ [];
  str = λ b. length b ∷ b;
  bytes = λ b. length b ∷ b;
  option = put_option;
  seq = λ bs. length bs ∷ put_all bs;
  read_domain = λ d input. elim (take_text input) [ err e ↦ err e | ok pair ↦ ok pair.1 ];
  read_fixed = take_many;
  read_u8 = take_one;
  read_variant = take_one;
  read_u32 = take_one;
  read_u64 = take_one;
  read_i64 = take_int;
  read_bool = λ input. elim (take_one input) [ err e ↦ err e | ok pair ↦ ok (pair.0 == 1, pair.1) ];
  read_str = take_text;
  read_bytes = take_text;
  read_option = take_option;
  read_seq = take_seq;
  to_hex = digits;
  from_hex = undigits zero;
  hash_bytes = λ b. b;
  is_key = λ b. true;
  verify = λ key payload signature. signature == (key ++ key);
  Identity = Bytes;
  identity_id = λ i. i;
  sign = λ i payload. i ++ i;
}

ones-IsHex :
    (n : ℕ) (rest : Bytes)
    → All (λ c. is_hex_digit c ≡ true) rest
    → All (λ c. is_hex_digit c ≡ true) (ones n rest)
unfolding is_hex_digit
ones-IsHex zero rest h = (refl, h)
ones-IsHex (suc n) rest h = (refl, ones-IsHex n rest h)

digits-IsHex : (a : Bytes) → All (λ c. is_hex_digit c ≡ true) (digits a)
digits-IsHex [] = tt
digits-IsHex (x ∷ a) = ones-IsHex x (digits a) (digits-IsHex a)

abbrev first_or : ℕ → Bytes → ℕ
first_or n [] = n
first_or n (x ∷ rest) = x

ones-injective : (m n : ℕ) (a b : Bytes) → ones m a ≡ ones n b → (m ≡ n) × (a ≡ b)
ones-injective zero zero a b e = (refl, cc)
ones-injective zero (suc n) a b e = absurd (omega (arith, ap (first_or 0) e))
ones-injective (suc m) zero a b e = absurd (omega (arith, ap (first_or 0) e))
ones-injective (suc m) (suc n) a b e =
    let tails : ones m a ≡ ones n b = cc in
    let (x, y) = ones-injective m n a b tails in (ap suc x, y)

ones_cons : (n : ℕ) (a : Bytes) → [] ≡ ones n a → ⊥
ones_cons zero a e = cc
ones_cons (suc n) a e = cc

digits-injective : (a b : Bytes) → digits a ≡ digits b → a ≡ b
digits-injective [] [] e = refl
digits-injective [] (y ∷ b) e = absurd (ones_cons y (digits b) e)
digits-injective (x ∷ a) [] e = absurd (ones_cons x (digits a) (sym e))
digits-injective (x ∷ a) (y ∷ b) e =
    let (heads, tails) = ones-injective x y (digits a) (digits b) e in
    cc (heads, digits-injective a b tails)

pub tiny-IsHex : IsHex tiny
tiny-IsHex = record { digits = digits-IsHex; to_hex-injective = digits-injective }

undigits-ones :
    (n m : ℕ) (rest : Bytes) → undigits n (ones m rest) ≡ behind (undigits zero rest) (n + m)
undigits-ones n zero rest = ap (behind (undigits zero rest)) (omega arith)
undigits-ones n (suc m) rest =
    undigits-ones (suc n) m rest ∙ ap (behind (undigits zero rest)) (omega arith)

undigits-digits : (a : Bytes) → undigits zero (digits a) ≡ some a
undigits-digits [] = refl
undigits-digits (x ∷ a) =
    undigits-ones zero x (digits a)
    ∙ ap (λ q. behind q (0 + x)) (undigits-digits a)
    ∙ ap (λ n. some (n ∷ a)) (omega arith)

pub tiny-IsHexRead : IsHexRead tiny
tiny-IsHexRead = record { from_hex-to_hex = undigits-digits }
