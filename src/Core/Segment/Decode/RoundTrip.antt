-- ===== src/Core/Segment/Decode/RoundTrip.antt =====
-- A segment decodes from its canonical bytes.
use mathlib.Core.List.{append-nil, append_assoc}
use ko_ls.Base.{
  ℕ, zero, suc, ◌+◌, ◌^◌, ◌≤◌, ◌<◌, true, false, Option, none, some, List, [], ◌∷◌, ◌++◌, All,
  length, length-append, ◌≡◌, refl, sym, ap, ◌∙◌, arith,
}
use ko_ls.Base.Order.{Bytes, nat_ord, ◌==◌}
use ko_ls.Base.Result.{ok}
use ko_ls.Platform.{Platform}
use ko_ls.Platform.Laws.{IsCodec}
use ko_ls.Core.Record.{Record, Hash, canonical_bytes as record_bytes}
use ko_ls.Core.Record.Decode.Fields.{IsRecord}
use ko_ls.Core.Record.Decode.RoundTrip.{decode_record-canonical_bytes}
use ko_ls.Core.Segment.{Segment, segment_domain, framed, header_bytes, extended, canonical_bytes}
use ko_ls.Core.Segment.Decode.{
  max_records_per_segment, decode_records, decode_header, decode_segment,
}

abbrev IsPrevious : Option Hash → Type 0
IsPrevious none = Unit
IsPrevious (some cid) = length cid ≡ 32

-- The fields have the sizes of their types, and the records fit the bound.
pub record IsSegment (p : Platform) (IsText : Bytes → Type 0) (s : Segment) : Type 0 where
  pub channel_len : length s.channel ≡ 32
  pub author_len : length s.author ≡ 32
  pub author_key : p.is_key s.author ≡ true
  pub sequence_lt : s.sequence < 2 ^ 64
  pub previous_len : IsPrevious s.previous
  pub records : All (IsRecord p IsText) s.records
  pub records_le : length s.records ≤ max_records_per_segment

module _ (p : Platform) (IsText : Bytes → Type 0) (c : IsCodec p IsText) where
  unfoldable all_framed : List Record → Bytes
  all_framed [] = []
  all_framed (r ∷ rs) = framed p r ++ all_framed rs

  extended-all_framed :
      (bytes : Bytes) (rs : List Record) → extended p bytes rs ≡ bytes ++ all_framed rs
  unfolding extended all_framed
  extended-all_framed bytes [] = sym (append-nil bytes)
  extended-all_framed bytes (r ∷ rs) =
      extended-all_framed (bytes ++ framed p r) rs ∙ append_assoc bytes (framed p r) (all_framed rs)

  decode_records-all_framed :
      (fuel : ℕ) (rs done : List Record)
      → All (IsRecord p IsText) rs
      → length done + length rs ≤ max_records_per_segment
      → length rs ≤ fuel
      → decode_records p fuel (all_framed rs) done ≡ some (ok (done ++ rs))
  unfolding decode_records all_framed framed
  decode_records-all_framed fuel [] done w n f = rw append-nil refl
  decode_records-all_framed zero (r ∷ rs) done w n f = absurd (omega arith)
  decode_records-all_framed (suc fuel) (r ∷ rs) done w n f =
      let (first, more, e) = c.bytes-cons (record_bytes p r) in
      let input : framed p r ++ all_framed rs ≡ first ∷ (more ++ all_framed rs) =
        ap (λ b. b ++ all_framed rs) e in
      let room : (length done == max_records_per_segment) ≡ false = ground arith in
      let read : p.read_bytes (first ∷ (more ++ all_framed rs))
          ≡ ok (record_bytes p r, all_framed rs) =
        ap p.read_bytes (sym input) ∙ c.read_bytes-bytes (record_bytes p r) (all_framed rs) in
      let later =
        decode_records-all_framed fuel rs (done ++ r ∷ []) w.1
          (omega (arith, n, length-append done (r ∷ []))) (omega arith) in
      rw (input, decode_records, room, read, decode_record-canonical_bytes p IsText c r w.0)
        (later ∙ ap (λ x. some (ok x)) (append_assoc done (r ∷ []) rs))

  read_previous :
      (previous : Option Hash) (rest : Bytes)
      → IsPrevious previous
      → p.read_option (p.read_fixed 32) (p.option previous ++ rest) ≡ ok (previous, rest)
  read_previous none rest h = c.read_option-none (p.read_fixed 32) rest
  read_previous (some cid) rest h =
      c.read_option-some (p.read_fixed 32) cid rest cid (λ more. c.read_fixed-append 32 cid more h)

  decode_header-header_bytes :
      (s : Segment) (rest : Bytes)
      → IsSegment p IsText s
      → decode_header p (header_bytes p s ++ rest) ≡ ok (record s { records = [] }, rest)
  unfolding decode_header header_bytes
  decode_header-header_bytes s rest h =
      let flat : (p.domain segment_domain
              ++ (s.channel ++ (s.author ++ (p.u64 s.sequence ++ p.option s.previous))))
            ++ rest
          ≡ p.domain segment_domain
            ++ (s.channel ++ (s.author ++ (p.u64 s.sequence ++ (p.option s.previous ++ rest)))) =
        simp append_assoc in
      rw
        (
          flat,
          c.read_domain-domain,
          c.read_fixed-append 32 s.channel _ h.channel_len,
          c.read_fixed-append 32 s.author _ h.author_len,
          h.author_key,
          c.read_u64-u64 s.sequence _ h.sequence_lt,
          read_previous s.previous rest h.previous_len,
        )
        refl

module _ (p : Platform) (IsText : Bytes → Type 0) where
  -- Under the laws of the codec, with fuel for its records, a segment whose fields have the sizes of
  -- their types, and whose records do and are no more than a segment may carry, decodes from its
  -- canonical bytes.
  pub decode_segment-canonical_bytes :
      (fuel : ℕ) (s : Segment)
      → IsCodec p IsText
      → IsSegment p IsText s
      → length s.records ≤ fuel
      → decode_segment p fuel (canonical_bytes p s) ≡ some (ok s)
  unfolding canonical_bytes decode_segment
  decode_segment-canonical_bytes fuel s c h f =
      rw
        (
          extended-all_framed p IsText c (header_bytes p s) s.records,
          decode_segment,
          decode_header-header_bytes p IsText c s (all_framed p IsText c s.records) h,
          decode_records-all_framed p IsText c fuel s.records [] h.records
              (omega (arith, h.records_le)) f,
        )
        refl
