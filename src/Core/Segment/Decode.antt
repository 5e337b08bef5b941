-- ===== src/Core/Segment/Decode.antt =====
-- `Segment::decode` of crates/kols-core/src/segment.rs.
pub mod RoundTrip
pub mod Ends
use ko_ls.Base.{ℕ, zero, suc, ◌+◌, Option, none, some, List, [], ◌∷◌, ◌++◌, length, if◌then◌else◌}
use ko_ls.Base.Order.{Bytes, nat_ord, ◌==◌}
use ko_ls.Base.Text.{codes}
use ko_ls.Base.Result.{Result, ok, err, ◌>>=◌}
use ko_ls.Platform.{Platform}
use ko_ls.Core.Errors.{CoreError, too_large}
use ko_ls.Core.Record.{Record, Hash, ChannelId, IdentityId}
use ko_ls.Core.Record.Decode.{lift, read_key, decode_record}
use ko_ls.Core.Segment.{Segment, segment_domain}

abbrev pub max_records_per_segment : ℕ
max_records_per_segment = 4096

module _ (p : Platform) where
  -- The loop over the rest of the input, with the records read so far; `none` is out of fuel.
  unfoldable pub decode_records : ℕ → Bytes → List Record → Option (Result CoreError (List Record))
  decode_records fuel [] records = some (ok records)
  decode_records zero (b ∷ input) records = none
  decode_records (suc fuel) (b ∷ input) records =
      if length records == max_records_per_segment
      then some (
          err
            (too_large (codes "records per segment") (length records + 1) max_records_per_segment))
      else elim (lift (p.read_bytes (b ∷ input))) [
        | err e ↦ some (err e)
        | ok (framed, rest) ↦ elim (decode_record p framed) [
          | err e ↦ some (err e)
          | ok r ↦ decode_records fuel rest (records ++ r ∷ [])
        ]
      ]

  -- The fields before the records: the segment without them, and what remains.
  unfoldable pub decode_header : Bytes → Result CoreError (Segment × Bytes)
  decode_header input = do
    in_domain ← lift (p.read_domain segment_domain input)
    (channel, in_author) ← lift (p.read_fixed 32 in_domain)
    (author, in_sequence) ← read_key p in_author
    (sequence, in_previous) ← lift (p.read_u64 in_sequence)
    (previous, rest) ← lift (p.read_option (p.read_fixed 32) in_previous)
    ok (
      record {
        channel = channel;
        author = author;
        sequence = sequence;
        previous = previous;
        records = [];
      },
      rest,
    )

  -- `Segment::decode`
  unfoldable pub decode_segment : ℕ → Bytes → Option (Result CoreError Segment)
  unfolding decode_header decode_records
  decode_segment fuel input = elim (decode_header input) [
    | err e ↦ some (err e)
    | ok (header, rest) ↦ elim (decode_records fuel rest []) [
      | none ↦ none
      | some (err e) ↦ some (err e)
      | some (ok records) ↦ some (ok (record header { records = records }))
    ]
  ]
