-- ===== src/Core/Record/Decode/Fields.antt =====
-- Records whose fields have the sizes of their types.
use ko_ls.Base.{
  ℕ, ◌^◌, ◌≤◌, ◌<◌, Bool, true, false, ◌||◌, Option, none, some, length, All, ◌≡◌, ◌≢◌,
}
use ko_ls.Base.Order.{Bytes, nat_ord, ◌==◌}
use ko_ls.Base.Int.{fits_i64, u32_max}
use ko_ls.Platform.{Platform}
use ko_ls.Core.Record.{Record, RecordBody, RecordClass, Attachment, MessageId, class_of}

-- This build knows the kind.
abbrev pub is_known : ℕ → Bool
is_known k =
    (k == 0x01) || ((k == 0x02) || ((k == 0x03) || ((k == 0x40) || ((k == 0x41) || (k == 0x80)))))

module _ (p : Platform) (IsText : Bytes → Type 0) where
  abbrev pub IsAttachment : Attachment → Type 0
  IsAttachment a =
      (length a.manifest_cid ≡ 32) × (a.byte_len < 2 ^ 64) × IsText a.media_type × IsText a.name

  abbrev pub IsReply : Option MessageId → Type 0
  IsReply none = Unit
  IsReply (some i) = length i ≡ 32

  -- The fields have the sizes of their types; an unknown body has a kind that this build does not
  -- know and that is not reserved.
  abbrev pub IsBody : RecordBody → Type 0
  IsBody (RecordBody.message text reply files) =
      IsText text × IsReply reply × All IsAttachment files
  IsBody (RecordBody.edit target text) = (length target ≡ 32) × IsText text
  IsBody (RecordBody.tombstone target) = length target ≡ 32
  IsBody (RecordBody.reaction target key remove) = (length target ≡ 32) × IsText key
  IsBody (RecordBody.pin target remove) = length target ≡ 32
  IsBody (RecordBody.redaction target head) = (length target ≡ 32) × (length head ≡ 32)
  IsBody (RecordBody.unknown u) =
      (u.kind < 256)
      × (is_known u.kind ≡ false)
      × (class_of u.kind ≢ RecordClass.reserved)
      × All (λ b. b < 256) u.bytes

  pub record IsRecord (r : Record) : Type 0 where
    pub channel_len : length r.channel ≡ 32
    pub author_len : length r.author ≡ 32
    pub author_key : p.is_key r.author ≡ true
    pub device_len : length r.device ≡ 32
    pub device_key : p.is_key r.device ≡ true
    pub wall : fits_i64 r.hlc.wall_millis ≡ true
    pub counter : r.hlc.counter ≤ u32_max
    pub body : IsBody r.body
    pub signature_len : length r.signature ≡ 64
