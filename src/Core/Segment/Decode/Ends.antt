-- ===== src/Core/Segment/Decode/Ends.antt =====
-- Decoding a segment ends, on any input.
use ko_ls.Base.{ℕ, zero, suc, ◌≤◌, none, List, [], ◌∷◌, ◌++◌, length, ◌≡◌, ◌≢◌, arith, inl, inr}
use ko_ls.Base.Order.{Bytes, nat_ord}
use ko_ls.Base.Result.{ok, Result-cases}
use ko_ls.Platform.{Platform}
use ko_ls.Platform.Laws.{IsConsuming}
use ko_ls.Core.Record.{Record}
use ko_ls.Core.Record.Decode.{decode_record}
use ko_ls.Core.Segment.{Segment}
use ko_ls.Core.Segment.Decode.{decode_records, decode_header, decode_segment}

module _ (p : Platform) (law : IsConsuming p) where
  decode_records-returns :
      (fuel : ℕ) (input : Bytes) (done : List Record)
      → length input ≤ fuel
      → decode_records p fuel input done ≢ none
  unfolding decode_records
  decode_records-returns fuel [] done f e = cc e
  decode_records-returns zero (b ∷ input) done f e = absurd (omega arith)
  decode_records-returns (suc fuel) (b ∷ input) done f e =
      elim (Result-cases (p.read_bytes (b ∷ input))) [
        | inl (d, h) ↦ ground arith
        | inr ((bytes, rest), h) ↦ elim (Result-cases (decode_record p bytes)) [
          | inl (d, k) ↦ ground arith
          | inr (r, k) ↦
              let shorter = law.read_bytes-shorter (b ∷ input) bytes rest h in
              ground (
                arith,
                decode_records-returns fuel rest (done ++ r ∷ []) (omega (arith, shorter, f)),
              )
        ]
      ]

module _ (p : Platform) where
  -- Where a length-prefixed read takes something off, decoding ends on any input, with a segment or an
  -- error, given a unit of fuel for each byte behind the header.
  pub decode_segment-returns :
      (fuel : ℕ) (input : Bytes)
      → IsConsuming p
      → ((header : Segment) (rest : Bytes)
          → decode_header p input ≡ ok (header, rest)
          → length rest ≤ fuel)
      → decode_segment p fuel input ≢ none
  unfolding decode_segment
  decode_segment-returns fuel input law enough e = elim (Result-cases (decode_header p input)) [
    | inl (d, h) ↦ ground arith
    | inr ((header, rest), h) ↦
        let returned = decode_records-returns p law fuel rest [] (enough header rest h) in
        ground (arith, returned)
  ]
