-- ===== src/Core/Record/Decode/Stages.antt =====
-- What each stage of the decoder makes of the bytes of a record.
use mathlib.Core.List.{append_assoc}
use ko_ls.Base.{ℕ, ◌<◌, true, false, Option, none, some, List, [], ◌∷◌, ◌++◌, All, ◌≡◌, refl, arith}
use ko_ls.Base.Order.{Bytes, nat_ord}
use ko_ls.Base.Result.{ok}
use ko_ls.Platform.{Platform}
use ko_ls.Platform.Laws.{IsCodec}
use ko_ls.Core.Hlc.{encode_hlc, decode_hlc}
use ko_ls.Core.Record.{
  Record, RecordBody, Attachment, MessageId, tag, payload, encode_bytes, encode_body,
  encode_attachment, canonical_bytes, record_domain,
}
use ko_ls.Core.Record.Decode.{Head, decode_head, decode_attachment, decode_known}
use ko_ls.Core.Record.Decode.Fields.{is_known, IsAttachment, IsReply, IsBody, IsRecord}

module _ (p : Platform) (IsText : Bytes → Type 0) (c : IsCodec p IsText) where
  -- What the decoder finds behind the discriminant.
  abbrev pub behind : Record → Bytes
  behind r = encode_body p r.body ++ r.signature

  pub canonical_bytes-parts :
      (r : Record)
      → canonical_bytes p r
        ≡ p.domain record_domain
          ++ (r.channel
              ++ (r.author
                  ++ (r.device
                      ++ (p.i64 r.hlc.wall_millis
                          ++ (p.u32 r.hlc.counter ++ (p.variant (tag r.body) ++ behind r))))))
  unfolding canonical_bytes payload encode_hlc
  canonical_bytes-parts r = simp append_assoc

  tag-lt : (b : RecordBody) → IsBody p IsText b → tag b < 256
  unfolding tag
  tag-lt (RecordBody.unknown u) h = h.0
  tag-lt _ h = omega arith

  abbrev pub head_of : Record → Head
  head_of r = record {
    channel = r.channel;
    author = r.author;
    device = r.device;
    hlc = r.hlc;
    kind = tag r.body;
    rest = behind r;
  }

  pub decode_head-canonical_bytes :
      (r : Record) → IsRecord p IsText r → decode_head p (canonical_bytes p r) ≡ ok (head_of r)
  unfolding decode_head decode_hlc
  decode_head-canonical_bytes r h =
      rw
        (
          canonical_bytes-parts r,
          c.read_domain-domain,
          c.read_fixed-append 32 r.channel _ h.channel_len,
          c.read_fixed-append 32 r.author _ h.author_len,
          h.author_key,
          c.read_fixed-append 32 r.device _ h.device_len,
          h.device_key,
          c.read_i64-i64 r.hlc.wall_millis _ h.wall,
          c.read_u32-u32 r.hlc.counter _ h.counter,
          c.read_variant-variant (tag r.body) _ (tag-lt r.body h.body),
        )
        refl

  decode_attachment-encode_attachment :
      (a : Attachment) (more : Bytes)
      → IsAttachment p IsText a
      → decode_attachment p (encode_attachment p a ++ more) ≡ ok (a, more)
  unfolding decode_attachment encode_attachment
  decode_attachment-encode_attachment a more h =
      rw
        (
          append_assoc a.manifest_cid,
          append_assoc (p.u64 a.byte_len),
          append_assoc (p.str a.media_type),
          c.read_fixed-append 32 a.manifest_cid _ h.0,
          c.read_u64-u64 a.byte_len _ h.1,
          c.read_str-str a.media_type _ h.2,
          c.read_str-str a.name more h.3,
        )
        refl

  attachments-read :
      (files : List Attachment)
      → All (IsAttachment p IsText) files
      → All
          (λ a. (more : Bytes) → decode_attachment p (encode_attachment p a ++ more) ≡ ok (a, more))
          files
  attachments-read [] h = tt
  attachments-read (a ∷ files) h =
      ((λ more. decode_attachment-encode_attachment a more h.0), attachments-read files h.1)

  read_reply :
      (reply : Option MessageId) (rest : Bytes)
      → IsReply p IsText reply
      → p.read_option (p.read_fixed 32) (p.option reply ++ rest) ≡ ok (reply, rest)
  read_reply none rest h = c.read_option-none (p.read_fixed 32) rest
  read_reply (some i) rest h =
      c.read_option-some (p.read_fixed 32) i rest i (λ more. c.read_fixed-append 32 i more h)

  pub decode_known-encode_body :
      (b : RecordBody) (rest : Bytes)
      → IsBody p IsText b
      → is_known (tag b) ≡ true
      → decode_known p (tag b) (encode_body p b ++ rest) ≡ some (ok (b, rest))
  unfolding decode_known encode_body tag
  decode_known-encode_body (RecordBody.message text reply files) rest h k =
      rw
        (
          append_assoc (p.str text),
          append_assoc (p.option reply),
          c.read_str-str text _ h.0,
          read_reply reply _ h.1,
          c.read_seq-seq (decode_attachment p) (encode_attachment p) files rest
              (attachments-read files h.2),
        )
        refl
  decode_known-encode_body (RecordBody.edit target text) rest h k =
      rw (append_assoc target, c.read_fixed-append 32 target _ h.0, c.read_str-str text rest h.1)
        refl
  decode_known-encode_body (RecordBody.tombstone target) rest h k =
      rw (c.read_fixed-append 32 target rest h) refl
  decode_known-encode_body (RecordBody.reaction target key remove) rest h k =
      rw
        (
          append_assoc target,
          append_assoc (p.str key),
          c.read_fixed-append 32 target _ h.0,
          c.read_str-str key _ h.1,
          c.read_bool-bool remove rest,
        )
        refl
  decode_known-encode_body (RecordBody.pin target remove) rest h k =
      rw (append_assoc target, c.read_fixed-append 32 target _ h, c.read_bool-bool remove rest) refl
  decode_known-encode_body (RecordBody.redaction target head) rest h k =
      rw
        (
          append_assoc target,
          c.read_fixed-append 32 target _ h.0,
          c.read_fixed-append 32 head rest h.1,
        )
        refl
  decode_known-encode_body (RecordBody.unknown u) rest h k = cc (h.1, k)

  pub encode_bytes-eq : (bs : Bytes) → All (λ b. b < 256) bs → encode_bytes p bs ≡ bs
  unfolding encode_bytes
  encode_bytes-eq [] h = refl
  encode_bytes-eq (b ∷ bs) h = rw (c.u8-byte b h.0, encode_bytes-eq bs h.1) refl

  pub decode_known-none :
      (k : ℕ) (input : Bytes) → is_known k ≡ false → decode_known p k input ≡ none
  unfolding decode_known
  decode_known-none k input h = ground arith
