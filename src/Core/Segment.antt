-- ===== src/Core/Segment.antt =====
-- Segments, runs of one author's records in one channel: crates/kols-core/src/segment.rs.
pub mod Order
pub mod Decode
pub mod Authorship
use ko_ls.Base.{
  ℕ, Bool, true, false, ◌&&◌, ◌||◌, not, Option, none, some, List, [], ◌∷◌, ◌++◌, if◌then◌else◌,
}
use ko_ls.Base.Order.{Bytes, bytes_ord, pair_ord, ◌==◌, ◌≺◌}
use ko_ls.Base.Text.{codes}
use ko_ls.Base.Result.{Result, ok, err, ◌>>◌}
use ko_ls.Base.BTreeMap.{BTreeMap, get, insert}
use ko_ls.Platform.{Platform}
use ko_ls.Core.Hlc.{Hlc, hlc_ord}
use ko_ls.Core.Errors.{CoreError, bad_signature}
use ko_ls.Core.Record.{
  ChannelId, IdentityId, MessageId, Hash, Record, id, canonical_bytes as record_bytes,
  verify_signature,
}

abbrev pub segment_domain : Bytes
segment_domain = codes "intranet.chat-segment.v1"

pub record Segment : Type 0 where
  pub channel : ChannelId
  pub author : IdentityId
  pub sequence : ℕ
  pub previous : Option Hash
  pub records : List Record

-- `Segment::new`
unfoldable pub new : ChannelId → IdentityId → ℕ → Option Hash → Segment
new channel author sequence previous = record {
  channel = channel;
  author = author;
  sequence = sequence;
  previous = previous;
  records = [];
}

module _ (p : Platform) where
  -- One record as a segment carries it.
  unfoldable pub framed : Record → Bytes
  framed r = p.bytes (record_bytes p r)

  unfoldable pub header_bytes : Segment → Bytes
  header_bytes s =
      p.domain segment_domain
      ++ (s.channel ++ (s.author ++ (p.u64 s.sequence ++ p.option s.previous)))

  -- The loop of `canonical_bytes`.
  unfoldable pub extended : Bytes → List Record → Bytes
  unfolding framed
  extended bytes [] = bytes
  extended bytes (r ∷ rs) = extended (bytes ++ framed r) rs

  -- `Segment::canonical_bytes`
  unfoldable pub canonical_bytes : Segment → Bytes
  unfolding header_bytes extended
  canonical_bytes s = extended (header_bytes s) s.records

  -- The loop of `verify`.
  unfoldable pub verify_records : Segment → List Record → Result CoreError (Unit {0})
  verify_records s [] = ok tt
  verify_records s (r ∷ rs) =
      let rest = verify_records s rs in
      if not (r.channel == s.channel) || not (r.author == s.author)
      then err bad_signature
      else (verify_signature p r >> rest)

  -- `Segment::verify`
  unfoldable pub verify : Segment → Result CoreError (Unit {0})
  unfolding verify_records
  verify s = verify_records s s.records

  -- What `ordering_is_valid` compares: the reading, then the identifier.
  abbrev pub position : Record → Hlc × MessageId
  position r = (r.hlc, id p r)

  -- The test of each of `windows(2)`.
  unfoldable pub ascending : List Record → Bool
  ascending [] = true
  ascending (a ∷ []) = true
  ascending (a ∷ b ∷ rs) = (position a ≺ position b) && ascending (b ∷ rs)

-- `per_device.insert`: each reading against what the map held for its device.
unfoldable pub per_device_strict : BTreeMap Bytes Hlc → List Record → Bool
per_device_strict seen [] = true
per_device_strict seen (r ∷ rs) =
    (elim (get r.device seen) [ none ↦ true | some previous ↦ previous ≺ r.hlc ])
    && per_device_strict (insert r.device r.hlc seen) rs

-- `Segment::ordering_is_valid`
unfoldable pub ordering_is_valid : Platform → Segment → Bool
unfolding ascending per_device_strict
ordering_is_valid p s = ascending p s.records && per_device_strict [] s.records
