-- ===== src/Examples/Codec.antt =====
-- A record through the small platform's codec.
use mathlib.Core.List.{append_assoc}
use ko_ls.Base.{
  ◌↔◌, ◌≤◌, ◌<◌, ◌≤◌, ◌<◌, ◌≢◌, inl, inr, some, none, ℕ, zero, suc, Bool, true, false, List, [],
  ◌∷◌, ◌++◌, map, length, All, ◌≡◌, refl, sym, ap, arith,
}
use ko_ls.Base.Order.{Bytes, bytes_ord, ==_refl}
use ko_ls.Base.Int.{ℤ, pos, negsuc, cmp_ℤ}
use ko_ls.Base.Result.{Result, ok, err, Result-cases}
use ko_ls.Platform.{Reader, DecodeError}
use ko_ls.Platform.Laws.{IsCodec, IsConsuming}
use ko_ls.Core.Record.{Record, RecordBody, canonical_bytes, class_of}
use ko_ls.Core.Record.Decode.{decode_record}
use ko_ls.Core.Record.Decode.Fields.{IsRecord}
use ko_ls.Core.Record.Decode.RoundTrip.{decode_record-canonical_bytes}
use ko_ls.Core.Segment.{Segment, canonical_bytes as segment_bytes, header_bytes}
use ko_ls.Core.Segment.{verify}
use ko_ls.Core.Segment.Authorship.{IsOwn, verify-All}
use ko_ls.Platform.Laws.{IsSigning}
use ko_ls.Core.Segment.Decode.{decode_segment, decode_header}
use ko_ls.Core.Segment.Decode.Ends.{decode_segment-returns}
use ko_ls.Core.Segment.Decode.RoundTrip.{IsSegment, decode_segment-canonical_bytes}
use ko_ls.Examples.Values.{at}
use ko_ls.Examples.Tiny.{tiny, take_many, take_int, put_int, take_times, put_all}

-- Every text counts as one.
abbrev pub AnyText : Bytes → Type 0
AnyText b = Unit

take_many-append : (b rest : Bytes) → take_many (length b) (b ++ rest) ≡ ok (b, rest)
take_many-append [] rest = refl
take_many-append (x ∷ b) rest = rw (take_many-append b rest) refl

take_times-put_all :
    {A : Type 0} (read : Reader A) (write : A → Bytes) (xs : List A) (rest : Bytes)
    → All (λ a. (more : Bytes) → read (write a ++ more) ≡ ok (a, more)) xs
    → take_times (length (map write xs)) read (put_all (map write xs) ++ rest) ≡ ok (xs, rest)
take_times-put_all read write [] rest h = refl
take_times-put_all read write (x ∷ xs) rest h =
    rw
      (
        append_assoc (write x) (put_all (map write xs)) rest,
        h.0 (put_all (map write xs) ++ rest),
        take_times-put_all read write xs rest h.1,
      )
      refl

-- What `read_domain` keeps of a text read.
abbrev dropped : Result DecodeError (Bytes × Bytes) → Result DecodeError Bytes
dropped m = elim m [ err e ↦ err e | ok pair ↦ ok pair.1 ]

take_int-put_int : (n : ℤ) (rest : Bytes) → take_int (put_int n ++ rest) ≡ ok (n, rest)
take_int-put_int (pos n) rest = refl
take_int-put_int (negsuc n) rest = refl

tiny_bool : (b : Bool) (rest : Bytes) → tiny.read_bool (tiny.bool b ++ rest) ≡ ok (b, rest)
tiny_bool true rest = refl
tiny_bool false rest = refl

pub tiny-IsCodec : IsCodec tiny AnyText
tiny-IsCodec = record {
  read_domain-domain = λ d rest. ap dropped (take_many-append d rest);
  read_fixed-append = λ n b rest h. rw (sym h) (take_many-append b rest);
  u8-byte = λ n h. refl;
  read_u8-u8 = λ n rest h. refl;
  read_variant-variant = λ n rest h. refl;
  read_u32-u32 = λ n rest h. refl;
  read_u64-u64 = λ n rest h. refl;
  read_i64-i64 = λ n rest h. take_int-put_int n rest;
  read_bool-bool = tiny_bool;
  read_str-str = λ b rest h. take_many-append b rest;
  read_bytes-bytes = λ b rest. take_many-append b rest;
  bytes-cons = λ b. (length b, b, refl);
  read_option-none = λ read rest. refl;
  read_option-some = λ read b rest a h. rw (h rest) refl;
  read_seq-seq = λ read write xs rest h. take_times-put_all read write xs rest h;
}

abbrev pub repeat : ℕ → Bytes
repeat zero = []
repeat (suc n) = 7 ∷ repeat n

-- A record of a kind that this build does not know.
abbrev pub foreign : Record
foreign = record {
  channel = repeat 32;
  author = repeat 32;
  device = repeat 32;
  hlc = at 1000;
  body = RecordBody.unknown (record { kind = 0x3F; bytes = 1 ∷ 2 ∷ 3 ∷ [] });
  signature = repeat 64;
}

pub foreign-IsRecord : IsRecord tiny AnyText foreign
unfolding class_of cmp_ℤ
foreign-IsRecord = record {
  channel_len = refl;
  author_len = refl;
  author_key = refl;
  device_len = refl;
  device_key = refl;
  wall = refl;
  counter = omega arith;
  body = (omega arith, refl, (λ e. cc e), omega arith);
  signature_len = refl;
}

abbrev parcel : Segment
parcel = record {
  channel = repeat 32;
  author = repeat 32;
  sequence = 3;
  previous = some (repeat 32);
  records = foreign ∷ foreign ∷ [];
}

parcel-IsSegment : IsSegment tiny AnyText parcel
parcel-IsSegment = record {
  channel_len = refl;
  author_len = refl;
  author_key = refl;
  sequence_lt = omega arith;
  previous_len = refl;
  records = (foreign-IsRecord, (foreign-IsRecord, tt));
  records_le = omega arith;
}

decode_segment-canonical_bytes_example :
    decode_segment tiny 2 (segment_bytes tiny parcel) ≡ some (ok parcel)
decode_segment-canonical_bytes_example =
    decode_segment-canonical_bytes tiny AnyText 2 parcel tiny-IsCodec parcel-IsSegment (omega arith)

decode_record-canonical_bytes_example :
    decode_record tiny (canonical_bytes tiny foreign) ≡ ok foreign
decode_record-canonical_bytes_example =
    decode_record-canonical_bytes tiny AnyText tiny-IsCodec foreign foreign-IsRecord

take_many-shorter :
    (n : ℕ) (input b rest : Bytes) → take_many n input ≡ ok (b, rest) → length rest ≤ length input
take_many-shorter zero input b rest h = ground arith
take_many-shorter (suc n) [] b rest h = ground arith
take_many-shorter (suc n) (x ∷ input) b rest h = elim (Result-cases (take_many n input)) [
  | inl (d, e) ↦ ground arith
  | inr ((c, more), e) ↦ let shorter = take_many-shorter n input c more e in ground (arith, shorter)
]

tiny_shorter :
    (input b rest : Bytes) → tiny.read_bytes input ≡ ok (b, rest) → length rest < length input
tiny_shorter [] b rest h = ground arith
tiny_shorter (n ∷ input) b rest h = omega (arith, take_many-shorter n input b rest h)

tiny-IsConsuming : IsConsuming tiny
tiny-IsConsuming = record { read_bytes-shorter = tiny_shorter }

-- A header and a record that does not decode.
abbrev broken : Bytes
broken = header_bytes tiny parcel ++ (2 ∷ 9 ∷ 9 ∷ [])

broken_rest :
    (header : Segment) (rest : Bytes)
    → decode_header tiny broken ≡ ok (header, rest)
    → length rest ≤ 3
unfolding decode_header header_bytes
broken_rest header rest h = let same : 2 ∷ 9 ∷ 9 ∷ [] ≡ rest = cc h in rw (sym same) (omega arith)

decode_segment-returns_example : decode_segment tiny 3 broken ≢ none
decode_segment-returns_example = decode_segment-returns tiny 3 broken tiny-IsConsuming broken_rest

verify-All_example : (verify tiny parcel ≡ ok tt) ↔ All (IsOwn tiny parcel) parcel.records
verify-All_example = verify-All tiny parcel

pub tiny-IsSigning : IsSigning tiny
tiny-IsSigning = record { verify-sign = λ i payload. ==_refl (i ++ i) }
