-- ===== src/Core/Channel.antt =====
-- Channel structure as governance log entries: crates/kols-core/src/channel.rs.
pub mod Codec
pub mod Admission
pub mod Sidebar
use ko_ls.Base.{
  ℕ, Bool, true, false, not, Option, none, some, List, [], ◌∷◌, ◌++◌, length, ltb, if◌then◌else◌,
  is_some,
}
use ko_ls.Base.Order.{Bytes}
use ko_ls.Base.Text.{codes}
use ko_ls.Base.Result.{Result, ok, err, ◌>>◌, guard}
use ko_ls.Platform.{Platform, Governance}
use ko_ls.Core.Errors.{CoreError, too_large, subject_mismatch}
use ko_ls.Core.Record.{ChannelId, CategoryId, IdentityId, Hash}
use ko_ls.Core.Permissions.{Scope, capability}

abbrev pub max_category_name_bytes : ℕ
max_category_name_bytes = 256

abbrev pub max_channel_name_bytes : ℕ
max_channel_name_bytes = 256

abbrev pub max_channel_topic_bytes : ℕ
max_channel_topic_bytes = 1024

abbrev pub max_rotation_reason_bytes : ℕ
max_rotation_reason_bytes = 256

-- `Channel` and `Category` of `EntrySubject`
pub data EntrySubject : Type 0 where
  of_channel : ChannelId → EntrySubject
  of_category : CategoryId → EntrySubject

abbrev pub subject_bytes : EntrySubject → Bytes
subject_bytes (of_channel i) = i
subject_bytes (of_category i) = i

abbrev pub subject_channel : EntrySubject → Option ChannelId
subject_channel (of_channel i) = some i
subject_channel (of_category i) = none

abbrev pub subject_category : EntrySubject → Option CategoryId
subject_category (of_category i) = some i
subject_category (of_channel i) = none

pub data CategoryChange : Type 0 where
  rename : Bytes → CategoryChange
  set_position : ℕ → CategoryChange
  delete : CategoryChange

unfoldable pub category_change_tag : CategoryChange → ℕ
category_change_tag (CategoryChange.rename name) = 0x01
category_change_tag (CategoryChange.set_position at) = 0x02
category_change_tag CategoryChange.delete = 0x03

pub data ChannelKind : Type 0 where
  text voice stage : ChannelKind

pub data Privacy : Type 0 where
  public private : Privacy

pub data MembershipAction : Type 0 where
  add remove : MembershipAction

pub data ChannelChange : Type 0 where
  rename : Bytes → ChannelChange
  recategorise : Option CategoryId → ChannelChange
  set_topic : Bytes → ChannelChange
  set_slowmode : ℕ → ChannelChange
  archive : ChannelChange
  delete : ChannelChange
  set_position : ℕ → ChannelChange

unfoldable pub channel_change_tag : ChannelChange → ℕ
channel_change_tag (ChannelChange.rename name) = 0x01
channel_change_tag (ChannelChange.recategorise to) = 0x02
channel_change_tag (ChannelChange.set_topic topic) = 0x03
channel_change_tag (ChannelChange.set_slowmode seconds) = 0x04
channel_change_tag ChannelChange.archive = 0x05
channel_change_tag ChannelChange.delete = 0x06
channel_change_tag (ChannelChange.set_position at) = 0x07

-- `definition` holds the name, category, kind, privacy, topic and slowmode.
pub data ChannelEntryBody : Type 0 where
  definition : Bytes → Option CategoryId → ChannelKind → Privacy → Bytes → ℕ → ChannelEntryBody
  update : ChannelChange → ChannelEntryBody
  membership : MembershipAction → IdentityId → ChannelEntryBody
  rotation : Hash → Bytes → ChannelEntryBody
  category_definition : Bytes → ℕ → ChannelEntryBody
  category_update : CategoryChange → ChannelEntryBody

unfoldable pub entry_tag : ChannelEntryBody → ℕ
entry_tag (definition name within kind access topic slowmode) = 0x01
entry_tag (update change) = 0x02
entry_tag (membership action who) = 0x03
entry_tag (rotation commit reason) = 0x04
entry_tag (category_definition name at) = 0x05
entry_tag (category_update change) = 0x06

unfoldable pub entry_kind : ChannelEntryBody → Bytes
entry_kind (definition name within kind access topic slowmode) = codes "channel-definition"
entry_kind (update change) = codes "channel-update"
entry_kind (membership action who) = codes "channel-membership"
entry_kind (rotation commit reason) = codes "channel-rotation"
entry_kind (category_definition name at) = codes "category-definition"
entry_kind (category_update change) = codes "category-update"

unfoldable pub required_verb : ChannelEntryBody → Bytes
required_verb (definition name within kind access topic slowmode) = codes "create-channel"
required_verb _ = codes "manage-channel"

pub record ChannelEntry : Type 0 where
  pub subject : EntrySubject
  pub body : ChannelEntryBody

module _ (p : Platform) (g : Governance) where
  -- `ChannelEntry::required`; the names that it formats are those of `Scope::name`.
  unfoldable pub required : ChannelEntry → g.Capability
  unfolding required_verb
  required e = elim e.body [
    | definition name (some c) kind access topic slowmode ↦
        capability p g (Scope.category c) (required_verb e.body)
    | category_definition name at ↦ capability p g Scope.network (required_verb e.body)
    | category_update change ↦
        capability p g (Scope.category (subject_bytes e.subject)) (required_verb e.body)
    | _ ↦ capability p g (Scope.channel (subject_bytes e.subject)) (required_verb e.body)
  ]

  -- What `acceptable` offers for a channel that sits in this category.
  abbrev pub within_scopes : Bytes → Bytes → Option CategoryId → List g.Capability
  within_scopes verb i none =
      capability p g (Scope.channel i) verb ∷ capability p g Scope.network verb ∷ []
  within_scopes verb i (some c) =
      capability p g (Scope.channel i) verb
      ∷ capability p g (Scope.category c) verb
      ∷ capability p g Scope.network verb
      ∷ []

  -- `ChannelEntry::acceptable`
  unfoldable pub acceptable : ChannelEntry → Option CategoryId → List g.Capability
  unfolding required_verb
  acceptable e known = elim e.body [
    | category_definition name at ↦ capability p g Scope.network (required_verb e.body) ∷ []
    | category_update change ↦
        capability p g (Scope.category (subject_bytes e.subject)) (required_verb e.body)
        ∷ capability p g Scope.network (required_verb e.body)
        ∷ []
    | definition name within kind access topic slowmode ↦
        within_scopes (required_verb e.body) (subject_bytes e.subject) within
    | _ ↦ within_scopes (required_verb e.body) (subject_bytes e.subject) known
  ]

abbrev fits : Bytes → Bytes → ℕ → Result CoreError (Unit {0})
fits field given limit =
    if ltb limit (length given) then err (too_large field (length given) limit) else ok tt

-- The `match` of `check_bounds`.
unfoldable pub check_fields : ChannelEntryBody → Result CoreError (Unit {0})
check_fields (definition name within kind access topic slowmode) = do
  fits (codes "channel name") name max_channel_name_bytes
  fits (codes "channel topic") topic max_channel_topic_bytes
check_fields (update (ChannelChange.rename name)) =
    fits (codes "channel name") name max_channel_name_bytes
check_fields (update (ChannelChange.set_topic topic)) =
    fits (codes "channel topic") topic max_channel_topic_bytes
check_fields (rotation commit reason) =
    fits (codes "rotation reason") reason max_rotation_reason_bytes
check_fields (category_definition name at) =
    fits (codes "category name") name max_category_name_bytes
check_fields (category_update (CategoryChange.rename name)) =
    fits (codes "category name") name max_category_name_bytes
check_fields _ = ok tt

-- Whether the body is one for this kind of subject.
unfoldable pub agrees : EntrySubject → ChannelEntryBody → Bool
agrees subject (category_definition name at) = is_some (subject_category subject)
agrees subject (category_update change) = is_some (subject_category subject)
agrees subject _ = is_some (subject_channel subject)

-- `ChannelEntry::check_bounds`
unfoldable pub check_entry : ChannelEntry → Result CoreError (Unit {0})
unfolding check_fields agrees entry_kind
check_entry e = do
  check_fields e.body
  guard (agrees e.subject e.body) (subject_mismatch (entry_kind e.body))
