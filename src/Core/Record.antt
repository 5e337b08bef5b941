-- ===== src/Core/Record.antt =====
-- Records: crates/kols-core/src/record.rs, and the identifiers of crates/kols-core/src/ids.rs.
pub mod Decode
use ko_ls.Base.{ℕ, Bool, ◌&&◌, Option, List, [], ◌∷◌, ◌++◌, map, length, ltb, leb, if◌then◌else◌}
use ko_ls.Base.Order.{Bytes, nat_ord}
use ko_ls.Base.Text.{codes}
use ko_ls.Base.Result.{Result, ok, err, ◌>>◌, guard}
use ko_ls.Platform.{Platform}
use ko_ls.Core.Hlc.{Hlc, encode_hlc}
use ko_ls.Core.Errors.{CoreError, bad_signature, too_large}

-- Identifiers, keys, hashes and signatures are their raw bytes, and compare as those do.
abbrev pub ChannelId : Type 0
ChannelId = Bytes

abbrev pub MessageId : Type 0
MessageId = Bytes

abbrev pub CategoryId : Type 0
CategoryId = Bytes

abbrev pub IdentityId : Type 0
IdentityId = Bytes

abbrev pub Hash : Type 0
Hash = Bytes

abbrev pub record_domain : Bytes
record_domain = codes "intranet.chat-record.v1"

abbrev pub max_reaction_key_bytes : ℕ
max_reaction_key_bytes = 64

abbrev pub max_attachment_name_bytes : ℕ
max_attachment_name_bytes = 255

pub data RecordClass : Type 0 where
  message reaction control reserved : RecordClass

-- `RecordClass::of`: the class of a discriminant, by its range alone.
unfoldable pub class_of : ℕ → RecordClass
class_of tag =
    if leb 0x01 tag && leb tag 0x3F
    then RecordClass.message
    else if leb 0x40 tag && leb tag 0x7F
    then RecordClass.reaction
    else if leb 0x80 tag && leb tag 0xBF
    then RecordClass.control
    else RecordClass.reserved

pub record Attachment : Type 0 where
  pub manifest_cid : Hash
  pub byte_len : ℕ
  pub media_type : Bytes
  pub name : Bytes

-- A body of a kind that this build does not know, as it arrived.
pub record UnknownBody : Type 0 where
  pub kind : ℕ
  pub bytes : Bytes

-- `message` holds the body, the message replied to, and the attachments; a flag says `remove`.
pub data RecordBody : Type 0 where
  message : Bytes → Option MessageId → List Attachment → RecordBody
  edit : MessageId → Bytes → RecordBody
  tombstone : MessageId → RecordBody
  reaction : MessageId → Bytes → Bool → RecordBody
  pin : MessageId → Bool → RecordBody
  redaction : MessageId → Hash → RecordBody
  unknown : UnknownBody → RecordBody

unfoldable pub tag : RecordBody → ℕ
tag (RecordBody.message b reply files) = 0x01
tag (RecordBody.edit t b) = 0x02
tag (RecordBody.tombstone t) = 0x03
tag (RecordBody.reaction t k r) = 0x40
tag (RecordBody.pin t r) = 0x41
tag (RecordBody.redaction t h) = 0x80
tag (RecordBody.unknown u) = u.kind

unfoldable pub class : RecordBody → RecordClass
unfolding class_of tag
class b = class_of (tag b)

pub record Record : Type 0 where
  pub channel : ChannelId
  pub author : IdentityId
  pub device : Bytes
  pub hlc : Hlc
  pub body : RecordBody
  pub signature : Bytes

module _ (p : Platform) where
  unfoldable pub encode_attachment : Attachment → Bytes
  encode_attachment a = a.manifest_cid ++ (p.u64 a.byte_len ++ (p.str a.media_type ++ p.str a.name))

  -- Bytes written one by one with `u8`.
  unfoldable pub encode_bytes : Bytes → Bytes
  encode_bytes [] = []
  encode_bytes (b ∷ rest) = p.u8 b ++ encode_bytes rest

  -- The part of `payload` behind the discriminant.
  unfoldable pub encode_body : RecordBody → Bytes
  unfolding encode_attachment encode_bytes
  encode_body (RecordBody.message b reply files) =
      p.str b ++ (p.option reply ++ p.seq (map encode_attachment files))
  encode_body (RecordBody.edit t b) = t ++ p.str b
  encode_body (RecordBody.tombstone t) = t
  encode_body (RecordBody.reaction t k r) = t ++ (p.str k ++ p.bool r)
  encode_body (RecordBody.pin t r) = t ++ p.bool r
  encode_body (RecordBody.redaction t h) = t ++ h
  encode_body (RecordBody.unknown u) = encode_bytes u.bytes

  -- `payload`: the bytes that the signature covers.
  unfoldable pub payload : ChannelId → IdentityId → Bytes → Hlc → RecordBody → Bytes
  unfolding encode_body encode_hlc tag
  payload channel author device hlc body =
      p.domain record_domain
      ++ (channel
          ++ (author
              ++ (device ++ (encode_hlc p hlc ++ (p.variant (tag body) ++ encode_body body)))))

  abbrev signed : Record → Bytes
  signed r = payload r.channel r.author r.device r.hlc r.body

  unfoldable pub canonical_bytes : Record → Bytes
  unfolding payload
  canonical_bytes r = signed r ++ r.signature

  -- `Record::create`: the identity's own key signs, and stands as the device.
  unfoldable pub create : p.Identity → ChannelId → Hlc → RecordBody → Record
  unfolding payload
  create author channel hlc body =
      let id = p.identity_id author in
      record {
        channel = channel;
        author = id;
        device = id;
        hlc = hlc;
        body = body;
        signature = p.sign author (payload channel id id hlc body);
      }

  -- `Record::id`
  unfoldable pub id : Record → MessageId
  unfolding canonical_bytes
  id r = p.hash_bytes (canonical_bytes r)

  unfoldable pub verify_signature : Record → Result CoreError (Unit {0})
  unfolding payload
  verify_signature r = guard (p.verify r.device (signed r) r.signature) bad_signature

unfoldable pub check_names : List Attachment → Result CoreError (Unit {0})
check_names [] = ok tt
check_names (a ∷ rest) =
    if ltb max_attachment_name_bytes (length a.name)
    then err (too_large (codes "attachment name") (length a.name) max_attachment_name_bytes)
    else check_names rest

abbrev at_most : Bytes → Bytes → ℕ → Result CoreError (Unit {0})
at_most field text limit =
    if ltb limit (length text) then err (too_large field (length text) limit) else ok tt

unfoldable pub check_body : ℕ → RecordBody → Result CoreError (Unit {0})
unfolding check_names
check_body max_body (RecordBody.message b reply files) = do
  at_most (codes "body") b max_body
  check_names files
check_body max_body (RecordBody.edit t b) = at_most (codes "body") b max_body
check_body max_body (RecordBody.reaction t k r) =
    at_most (codes "reaction key") k max_reaction_key_bytes
check_body max_body _ = ok tt

-- `Record::check_bounds`
unfoldable pub check_bounds : Record → ℕ → Result CoreError (Unit {0})
unfolding check_body
check_bounds r max_body = check_body max_body r.body
