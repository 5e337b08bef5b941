-- ===== src/Core/Record/Decode.antt =====
-- `Record::decode` of crates/kols-core/src/record.rs.
pub mod Fields
mod Stages
pub mod RoundTrip
use ko_ls.Base.{
  ℕ, ◌-◌, Bool, Option, none, some, List, [], ◌∷◌, leb, length, take, drop, if◌then◌else◌,
}
use ko_ls.Base.Order.{Bytes, nat_ord, ◌==◌}
use ko_ls.Base.Result.{Result, ok, err, ◌>>=◌, ◌>>◌, guard, map_err}
use ko_ls.Platform.{Platform, Reader, DecodeError, malformed}
use ko_ls.Core.Hlc.{Hlc, decode_hlc}
use ko_ls.Core.Errors.{CoreError, decode, bad_signature, unknown_kind}
use ko_ls.Core.Record.{
  ChannelId, IdentityId, Record, RecordBody, RecordClass, UnknownBody, Attachment, MessageId, Hash,
  class_of, record_domain,
}

-- What the decoder has read before the body.
pub record Head : Type 0 where
  pub channel : ChannelId
  pub author : IdentityId
  pub device : Bytes
  pub hlc : Hlc
  pub kind : ℕ
  pub rest : Bytes

-- A decoder's error, as `?` turns it into one of this crate.
abbrev pub lift : {A : Type 0} → Result DecodeError A → Result CoreError A
lift = map_err CoreError.decode

-- `Dec::finish`
abbrev pub finish : Bytes → Result CoreError (Unit {0})
finish [] = ok tt
finish (b ∷ rest) = err (CoreError.decode malformed)

module _ (p : Platform) where
  abbrev pub read_key : Bytes → Result CoreError (Bytes × Bytes)
  read_key input = do
    (key, rest) ← lift (p.read_fixed 32 input)
    guard (p.is_key key) bad_signature
    ok (key, rest)

  unfoldable pub decode_head : Bytes → Result CoreError Head
  unfolding decode_hlc
  decode_head input = do
    in_domain ← lift (p.read_domain record_domain input)
    (channel, in_author) ← lift (p.read_fixed 32 in_domain)
    (author, in_device) ← read_key in_author
    (device, in_hlc) ← read_key in_device
    (hlc, in_kind) ← lift (decode_hlc p in_hlc)
    (kind, rest) ← lift (p.read_variant in_kind)
    ok (record {
      channel = channel;
      author = author;
      device = device;
      hlc = hlc;
      kind = kind;
      rest = rest;
    })

  unfoldable pub decode_attachment : Reader Attachment
  decode_attachment input = do
    (cid, in_len) ← p.read_fixed 32 input
    (len, in_media) ← p.read_u64 in_len
    (media, in_name) ← p.read_str in_media
    (name, rest) ← p.read_str in_name
    ok (record { manifest_cid = cid; byte_len = len; media_type = media; name = name }, rest)

  -- The arms of the kinds that this build knows; `none` is the others.
  unfoldable pub decode_known : ℕ → Bytes → Option (Result CoreError (RecordBody × Bytes))
  unfolding decode_attachment
  decode_known kind input =
      if kind == 0x01
      then some (do
        (body, in_reply) ← lift (p.read_str input)
        (reply, in_files) ← lift (p.read_option (p.read_fixed 32) in_reply)
        (files, rest) ← lift (p.read_seq decode_attachment in_files)
        ok (RecordBody.message body reply files, rest))
      else if kind == 0x02
      then some (do
        (target, in_body) ← lift (p.read_fixed 32 input)
        (body, rest) ← lift (p.read_str in_body)
        ok (RecordBody.edit target body, rest))
      else if kind == 0x03
      then some
          (do (target, rest) ← lift (p.read_fixed 32 input); ok (RecordBody.tombstone target, rest))
      else if kind == 0x40
      then some (do
        (target, in_key) ← lift (p.read_fixed 32 input)
        (key, in_remove) ← lift (p.read_str in_key)
        (remove, rest) ← lift (p.read_bool in_remove)
        ok (RecordBody.reaction target key remove, rest))
      else if kind == 0x41
      then some (do
        (target, in_remove) ← lift (p.read_fixed 32 input)
        (remove, rest) ← lift (p.read_bool in_remove)
        ok (RecordBody.pin target remove, rest))
      else if kind == 0x80
      then some (do
        (target, in_head) ← lift (p.read_fixed 32 input)
        (head, rest) ← lift (p.read_fixed 32 in_head)
        ok (RecordBody.redaction target head, rest))
      else none

  abbrev pub assembled : Head → RecordBody → Bytes → Record
  assembled h body signature = record {
    channel = h.channel;
    author = h.author;
    device = h.device;
    hlc = h.hlc;
    body = body;
    signature = signature;
  }

  -- The arm of the kinds that it does not know: all up to the last 64 bytes is the body.
  unfoldable pub decode_unread : Bytes → Head → Result CoreError Record
  decode_unread input h =
      let start = length input - length h.rest in
      let end = length input - 64 in
      if leb 64 (length input)
      then if leb start end
        then ok (
            assembled h
              (RecordBody.unknown (record { kind = h.kind; bytes = drop start (take end input) }))
              (drop end input))
        else err (CoreError.decode malformed)
      else err (CoreError.decode malformed)

  -- The end of a known kind's record.
  abbrev pub decode_end : Head → RecordBody → Bytes → Result CoreError Record
  decode_end h body input = do
    (signature, rest) ← lift (p.read_fixed 64 input)
    finish rest
    ok (assembled h body signature)

  -- What follows the discriminant.
  unfoldable pub decode_rest : Bytes → Head → Result CoreError Record
  unfolding decode_known decode_unread class_of
  decode_rest input h = elim (decode_known h.kind h.rest) [
    | some read ↦ read >>= λ found. decode_end h found.0 found.1
    | none ↦ elim (class_of h.kind) [
      | RecordClass.reserved ↦ err (unknown_kind h.kind)
      | _ ↦ decode_unread input h
    ]
  ]

  -- `Record::decode`
  unfoldable pub decode_record : Bytes → Result CoreError Record
  unfolding decode_head decode_rest
  decode_record input = decode_head input >>= decode_rest input
