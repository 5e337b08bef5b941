-- ===== src/Core/Channel/Codec/RoundTrip.antt =====
-- Encoding a channel entry, and decoding it under its own kind.
use mathlib.Core.List.{append-nil, append_assoc}
use ko_ls.Base.{
  ◌≤◌, ◌<◌, true, ◌||◌, Option, none, some, [], ◌++◌, length, if◌then◌else◌, ◌≡◌, refl, sym, ap,
  ◌∙◌, arith,
}
use ko_ls.Base.Order.{Bytes, bytes_ord, nat_ord, ◌==◌, ==_refl}
use ko_ls.Base.Int.{u32_max}
use ko_ls.Base.Result.{ok}
use ko_ls.Platform.{Platform}
use ko_ls.Platform.Laws.{IsCodec}
use ko_ls.Core.Record.{CategoryId}
use ko_ls.Core.Channel.{
  EntrySubject, of_channel, of_category, subject_bytes, CategoryChange, category_change_tag,
  ChannelKind, Privacy, MembershipAction, ChannelChange, channel_change_tag, ChannelEntryBody,
  definition, update, membership, rotation, category_definition, category_update, entry_tag,
  entry_kind, ChannelEntry, agrees,
}
use ko_ls.Core.Channel.Codec.{
  channel_kind_tag, privacy_tag, membership_tag, encode_channel_change, encode_category_change,
  encode_entry_body, encode_entry, decode_channel_kind, decode_privacy, decode_membership,
  decode_channel_change, decode_category_change, decode_entry_body, decode_payload, decode_entry,
}

abbrev pub IsPlace : Option CategoryId → Type 0
IsPlace none = Unit
IsPlace (some c) = length c ≡ 32

module _ (p : Platform) (IsText : Bytes → Type 0) where
  abbrev pub IsChannelChange : ChannelChange → Type 0
  IsChannelChange (ChannelChange.rename name) = IsText name
  IsChannelChange (ChannelChange.recategorise to) = IsPlace to
  IsChannelChange (ChannelChange.set_topic topic) = IsText topic
  IsChannelChange (ChannelChange.set_slowmode seconds) = seconds ≤ u32_max
  IsChannelChange (ChannelChange.set_position at) = at ≤ u32_max
  IsChannelChange _ = Unit

  abbrev pub IsCategoryChange : CategoryChange → Type 0
  IsCategoryChange (CategoryChange.rename name) = IsText name
  IsCategoryChange (CategoryChange.set_position at) = at ≤ u32_max
  IsCategoryChange CategoryChange.delete = Unit

  -- The fields have the sizes of their types.
  abbrev pub IsEntryBody : ChannelEntryBody → Type 0
  IsEntryBody (definition name within kind access topic slowmode) =
      IsText name × IsPlace within × IsText topic × (slowmode ≤ u32_max)
  IsEntryBody (update change) = IsChannelChange change
  IsEntryBody (membership action who) = (length who ≡ 32) × (p.is_key who ≡ true)
  IsEntryBody (rotation commit reason) = (length commit ≡ 32) × IsText reason
  IsEntryBody (category_definition name at) = IsText name × (at ≤ u32_max)
  IsEntryBody (category_update change) = IsCategoryChange change

  pub record IsEntry (e : ChannelEntry) : Type 0 where
    pub subject_len : length (subject_bytes e.subject) ≡ 32
    pub body : IsEntryBody e.body
    pub agreed : agrees e.subject e.body ≡ true

module _ (p : Platform) (IsText : Bytes → Type 0) (c : IsCodec p IsText) where
  read_place :
      (to : Option CategoryId) (rest : Bytes)
      → IsPlace to
      → p.read_option (p.read_fixed 32) (p.option to ++ rest) ≡ ok (to, rest)
  read_place none rest h = c.read_option-none (p.read_fixed 32) rest
  read_place (some i) rest h =
      c.read_option-some (p.read_fixed 32) i rest i (λ more. c.read_fixed-append 32 i more h)

  decode_channel_kind-tag : (k : ChannelKind) → decode_channel_kind p (channel_kind_tag k) ≡ ok k
  unfolding decode_channel_kind
  decode_channel_kind-tag ChannelKind.text = refl
  decode_channel_kind-tag ChannelKind.voice = refl
  decode_channel_kind-tag ChannelKind.stage = refl

  decode_privacy-tag : (a : Privacy) → decode_privacy p (privacy_tag a) ≡ ok a
  unfolding decode_privacy
  decode_privacy-tag Privacy.public = refl
  decode_privacy-tag Privacy.private = refl

  decode_membership-tag : (a : MembershipAction) → decode_membership p (membership_tag a) ≡ ok a
  unfolding decode_membership
  decode_membership-tag MembershipAction.add = refl
  decode_membership-tag MembershipAction.remove = refl

  tags-lt :
      (k : ChannelKind) (a : Privacy) (m : MembershipAction)
      → (channel_kind_tag k < 256) × (privacy_tag a < 256) × (membership_tag m < 256)
  tags-lt k a m = (ground arith, ground arith, ground arith)

  change_tags-lt :
      (a : ChannelChange) (b : CategoryChange)
      → (channel_change_tag a < 256) × (category_change_tag b < 256)
  unfolding channel_change_tag category_change_tag
  change_tags-lt a b = (ground arith, ground arith)

  decode-channel_change :
      (x : ChannelChange) (rest : Bytes)
      → IsChannelChange p IsText x
      → decode_channel_change p (channel_change_tag x) (encode_channel_change p x ++ rest)
        ≡ ok (x, rest)
  unfolding decode_channel_change encode_channel_change channel_change_tag
  decode-channel_change (ChannelChange.rename name) rest h = rw (c.read_str-str name rest h) refl
  decode-channel_change (ChannelChange.recategorise to) rest h = rw (read_place to rest h) refl
  decode-channel_change (ChannelChange.set_topic topic) rest h =
      rw (c.read_str-str topic rest h) refl
  decode-channel_change (ChannelChange.set_slowmode seconds) rest h =
      rw (c.read_u32-u32 seconds rest h) refl
  decode-channel_change (ChannelChange.set_position at) rest h = rw (c.read_u32-u32 at rest h) refl
  decode-channel_change ChannelChange.archive rest h = refl
  decode-channel_change ChannelChange.delete rest h = refl

  decode-category_change :
      (x : CategoryChange) (rest : Bytes)
      → IsCategoryChange p IsText x
      → decode_category_change p (category_change_tag x) (encode_category_change p x ++ rest)
        ≡ ok (x, rest)
  unfolding decode_category_change encode_category_change category_change_tag
  decode-category_change (CategoryChange.rename name) rest h = rw (c.read_str-str name rest h) refl
  decode-category_change (CategoryChange.set_position at) rest h =
      rw (c.read_u32-u32 at rest h) refl
  decode-category_change CategoryChange.delete rest h = refl

  decode-entry_body :
      (b : ChannelEntryBody) (rest : Bytes)
      → IsEntryBody p IsText b
      → decode_entry_body p (entry_tag b) (encode_entry_body p b ++ rest) ≡ ok (b, rest)
  unfolding decode_entry_body encode_entry_body entry_tag
  decode-entry_body (definition name within kind access topic slowmode) rest h =
      rw
        (
          append_assoc (p.str name),
          append_assoc (p.option within),
          append_assoc (p.variant (channel_kind_tag kind)),
          append_assoc (p.variant (privacy_tag access)),
          append_assoc (p.str topic),
          c.read_str-str name _ h.0,
          read_place within _ h.1,
          c.read_variant-variant (channel_kind_tag kind) _
              (tags-lt kind access MembershipAction.add).0,
          decode_channel_kind-tag kind,
          c.read_variant-variant (privacy_tag access) _
              (tags-lt kind access MembershipAction.add).1,
          decode_privacy-tag access,
          c.read_str-str topic _ h.2,
          c.read_u32-u32 slowmode rest h.3,
        )
        refl
  decode-entry_body (update change) rest h =
      rw
        (
          append_assoc (p.variant (channel_change_tag change)),
          c.read_variant-variant (channel_change_tag change) _
              (change_tags-lt change CategoryChange.delete).0,
          decode-channel_change change rest h,
        )
        refl
  decode-entry_body (membership action who) rest h =
      rw
        (
          append_assoc (p.variant (membership_tag action)),
          c.read_variant-variant (membership_tag action) _
              (tags-lt ChannelKind.text Privacy.public action).2,
          decode_membership-tag action,
          c.read_fixed-append 32 who rest h.0,
          h.1,
        )
        refl
  decode-entry_body (rotation commit reason) rest h =
      rw (append_assoc commit, c.read_fixed-append 32 commit _ h.0, c.read_str-str reason rest h.1)
        refl
  decode-entry_body (category_definition name at) rest h =
      rw (append_assoc (p.str name), c.read_str-str name _ h.0, c.read_u32-u32 at rest h.1) refl
  decode-entry_body (category_update change) rest h =
      rw
        (
          append_assoc (p.variant (category_change_tag change)),
          c.read_variant-variant (category_change_tag change) _
              (change_tags-lt ChannelChange.delete change).1,
          decode-category_change change rest h,
        )
        refl

  entry_tag-lt : (b : ChannelEntryBody) → entry_tag b < 256
  unfolding entry_tag
  entry_tag-lt b = ground arith

  -- The discriminant says what the subject is.
  subject_of_tag :
      (x : EntrySubject) (b : ChannelEntryBody)
      → agrees x b ≡ true
      → (if (entry_tag b == 0x05) || (entry_tag b == 0x06)
          then of_category (subject_bytes x)
          else of_channel (subject_bytes x))
        ≡ x
  unfolding agrees entry_tag
  subject_of_tag x b h = ground arith

  pub decode_entry-encode_entry :
      (e : ChannelEntry)
      → IsEntry p IsText e
      → decode_entry p (entry_kind e.body) (encode_entry p e) ≡ ok e
  unfolding decode_entry decode_payload encode_entry
  decode_entry-encode_entry e h =
      let body_read : decode_entry_body p (entry_tag e.body) (encode_entry_body p e.body)
          ≡ ok (e.body, []) =
        ap (decode_entry_body p (entry_tag e.body)) (sym (append-nil (encode_entry_body p e.body)))
        ∙ decode-entry_body e.body [] h.body in
      rw
        (
          c.read_domain-domain,
          c.read_fixed-append 32 (subject_bytes e.subject) _ h.subject_len,
          c.read_variant-variant (entry_tag e.body) _ (entry_tag-lt e.body),
          body_read,
          subject_of_tag e.subject e.body h.agreed,
          ==_refl (entry_kind e.body),
        )
        refl
