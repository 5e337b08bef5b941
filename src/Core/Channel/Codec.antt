-- ===== src/Core/Channel/Codec.antt =====
-- The encoding of channel entries: `encode`, `decode_payload` and `decode` of
-- crates/kols-core/src/channel.rs.
pub mod RoundTrip
use ko_ls.Base.{ℕ, Bool, Option, List, [], ◌∷◌, ◌++◌, ◌||◌, if◌then◌else◌}
use ko_ls.Base.Order.{Bytes, bytes_ord, nat_ord, ◌==◌}
use ko_ls.Base.Text.{codes}
use ko_ls.Base.Result.{Result, ok, err, ◌>>=◌, ◌>>◌, guard}
use ko_ls.Platform.{Platform}
use ko_ls.Core.Errors.{CoreError, unknown_channel_field, channel_kind_mismatch}
use ko_ls.Core.Record.Decode.{lift, finish}
use ko_ls.Core.Channel.{
  EntrySubject, of_channel, of_category, subject_bytes, CategoryChange, category_change_tag,
  ChannelKind, Privacy, MembershipAction, ChannelChange, channel_change_tag, ChannelEntryBody,
  definition, update, membership, rotation, category_definition, category_update, entry_tag,
  entry_kind, ChannelEntry,
}

abbrev pub channel_entry_domain : Bytes
channel_entry_domain = codes "intranet.chat-channel-entry.v1"

abbrev pub channel_kind_tag : ChannelKind → ℕ
channel_kind_tag ChannelKind.text = 0x01
channel_kind_tag ChannelKind.voice = 0x02
channel_kind_tag ChannelKind.stage = 0x03

abbrev pub privacy_tag : Privacy → ℕ
privacy_tag Privacy.public = 0x01
privacy_tag Privacy.private = 0x02

abbrev pub membership_tag : MembershipAction → ℕ
membership_tag MembershipAction.add = 0x01
membership_tag MembershipAction.remove = 0x02

module _ (p : Platform) where
  unfoldable pub encode_channel_change : ChannelChange → Bytes
  encode_channel_change (ChannelChange.rename name) = p.str name
  encode_channel_change (ChannelChange.recategorise to) = p.option to
  encode_channel_change (ChannelChange.set_topic topic) = p.str topic
  encode_channel_change (ChannelChange.set_slowmode seconds) = p.u32 seconds
  encode_channel_change (ChannelChange.set_position at) = p.u32 at
  encode_channel_change _ = []

  unfoldable pub encode_category_change : CategoryChange → Bytes
  encode_category_change (CategoryChange.rename name) = p.str name
  encode_category_change (CategoryChange.set_position at) = p.u32 at
  encode_category_change CategoryChange.delete = []

  unfoldable pub encode_entry_body : ChannelEntryBody → Bytes
  unfolding encode_channel_change encode_category_change channel_change_tag category_change_tag
  encode_entry_body (definition name within kind access topic slowmode) =
      p.str name
      ++ (p.option within
          ++ (p.variant (channel_kind_tag kind)
              ++ (p.variant (privacy_tag access) ++ (p.str topic ++ p.u32 slowmode))))
  encode_entry_body (update change) =
      p.variant (channel_change_tag change) ++ encode_channel_change change
  encode_entry_body (membership action who) = p.variant (membership_tag action) ++ who
  encode_entry_body (rotation commit reason) = commit ++ p.str reason
  encode_entry_body (category_definition name at) = p.str name ++ p.u32 at
  encode_entry_body (category_update change) =
      p.variant (category_change_tag change) ++ encode_category_change change

  -- `ChannelEntry::encode`
  unfoldable pub encode_entry : ChannelEntry → Bytes
  unfolding encode_entry_body entry_tag
  encode_entry e =
      p.domain channel_entry_domain
      ++ (subject_bytes e.subject ++ (p.variant (entry_tag e.body) ++ encode_entry_body e.body))

  unfoldable pub decode_channel_kind : ℕ → Result CoreError ChannelKind
  decode_channel_kind k =
      if k == 0x01
      then ok ChannelKind.text
      else if k == 0x02
      then ok ChannelKind.voice
      else if k == 0x03
      then ok ChannelKind.stage
      else err (unknown_channel_field (codes "channel kind") k)

  unfoldable pub decode_privacy : ℕ → Result CoreError Privacy
  decode_privacy k =
      if k == 0x01
      then ok Privacy.public
      else if k == 0x02
      then ok Privacy.private
      else err (unknown_channel_field (codes "privacy") k)

  unfoldable pub decode_membership : ℕ → Result CoreError MembershipAction
  decode_membership k =
      if k == 0x01
      then ok MembershipAction.add
      else if k == 0x02
      then ok MembershipAction.remove
      else err (unknown_channel_field (codes "membership action") k)

  unfoldable pub decode_channel_change : ℕ → Bytes → Result CoreError (ChannelChange × Bytes)
  decode_channel_change k input =
      if k == 0x01
      then (do (name, rest) ← lift (p.read_str input); ok (ChannelChange.rename name, rest))
      else if k == 0x02
      then (do
        (to, rest) ← lift (p.read_option (p.read_fixed 32) input)
        ok (ChannelChange.recategorise to, rest))
      else if k == 0x03
      then (do (topic, rest) ← lift (p.read_str input); ok (ChannelChange.set_topic topic, rest))
      else if k == 0x04
      then (do
        (seconds, rest) ← lift (p.read_u32 input)
        ok (ChannelChange.set_slowmode seconds, rest))
      else if k == 0x05
      then ok (ChannelChange.archive, input)
      else if k == 0x06
      then ok (ChannelChange.delete, input)
      else if k == 0x07
      then (do (at, rest) ← lift (p.read_u32 input); ok (ChannelChange.set_position at, rest))
      else err (unknown_channel_field (codes "channel change") k)

  unfoldable pub decode_category_change : ℕ → Bytes → Result CoreError (CategoryChange × Bytes)
  decode_category_change k input =
      if k == 0x01
      then (do (name, rest) ← lift (p.read_str input); ok (CategoryChange.rename name, rest))
      else if k == 0x02
      then (do (at, rest) ← lift (p.read_u32 input); ok (CategoryChange.set_position at, rest))
      else if k == 0x03
      then ok (CategoryChange.delete, input)
      else err (unknown_channel_field (codes "category change") k)

  unfoldable pub decode_entry_body : ℕ → Bytes → Result CoreError (ChannelEntryBody × Bytes)
  unfolding decode_channel_kind decode_privacy decode_membership decode_channel_change
      decode_category_change
  decode_entry_body k input =
      if k == 0x01
      then (do
        (name, in_within) ← lift (p.read_str input)
        (within, in_kind) ← lift (p.read_option (p.read_fixed 32) in_within)
        (kind_tag, in_access) ← lift (p.read_variant in_kind)
        kind ← decode_channel_kind kind_tag
        (access_tag, in_topic) ← lift (p.read_variant in_access)
        access ← decode_privacy access_tag
        (topic, in_slowmode) ← lift (p.read_str in_topic)
        (slowmode, rest) ← lift (p.read_u32 in_slowmode)
        ok (definition name within kind access topic slowmode, rest))
      else if k == 0x02
      then (do
        (change_tag, in_change) ← lift (p.read_variant input)
        (change, rest) ← decode_channel_change change_tag in_change
        ok (update change, rest))
      else if k == 0x03
      then (do
        (action_tag, in_who) ← lift (p.read_variant input)
        action ← decode_membership action_tag
        (who, rest) ← lift (p.read_fixed 32 in_who)
        guard (p.is_key who) (unknown_channel_field (codes "identity") 0)
        ok (membership action who, rest))
      else if k == 0x04
      then (do
        (commit, in_reason) ← lift (p.read_fixed 32 input)
        (reason, rest) ← lift (p.read_str in_reason)
        ok (rotation commit reason, rest))
      else if k == 0x05
      then (do
        (name, in_at) ← lift (p.read_str input)
        (at, rest) ← lift (p.read_u32 in_at)
        ok (category_definition name at, rest))
      else if k == 0x06
      then (do
        (change_tag, in_change) ← lift (p.read_variant input)
        (change, rest) ← decode_category_change change_tag in_change
        ok (category_update change, rest))
      else err (unknown_channel_field (codes "channel entry kind") k)

  -- `ChannelEntry::decode_payload`; the discriminant says what the subject is.
  unfoldable pub decode_payload : Bytes → Result CoreError ChannelEntry
  unfolding decode_entry_body
  decode_payload payload = do
    in_subject ← lift (p.read_domain channel_entry_domain payload)
    (i, in_tag) ← lift (p.read_fixed 32 in_subject)
    (k, in_body) ← lift (p.read_variant in_tag)
    (body, rest) ← decode_entry_body k in_body
    finish rest
    ok (record {
      subject = if (k == 0x05) || (k == 0x06) then of_category i else of_channel i;
      body = body;
    })

  -- `ChannelEntry::decode`
  unfoldable pub decode_entry : Bytes → Bytes → Result CoreError ChannelEntry
  unfolding decode_payload
  decode_entry kind payload = do
    e ← decode_payload payload
    guard (entry_kind e.body == kind) (channel_kind_mismatch kind (entry_kind e.body))
    ok e
