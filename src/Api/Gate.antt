-- ===== src/Api/Gate.antt =====
-- Refusals, actors and the checks that the commands share: crates/kols-api/src/authorize.rs.
use ko_ls.Base.{ℕ, Bool, true, false, ◌&&◌, not, Option, List, [], ◌∷◌, length, any, leb}
use ko_ls.Base.Order.{Bytes, bytes_ord, nat_ord, ◌==◌, ◌≺◌}
use ko_ls.Base.Int.{pos, int_ord, pos_part}
use ko_ls.Base.Text.{codes}
use ko_ls.Base.Result.{Result, ok, ◌>>=◌, ◌>>◌, guard, ok_or}
use ko_ls.Platform.{Platform, Governance, Unicode}
use ko_ls.Core.Record.{ChannelId, IdentityId, Attachment}
use ko_ls.Core.Permissions.{Authority, Placement, governance, verbs}
use ko_ls.Core.Policy.{ChatSetting, setting, non_negative, allows_channel_definitions}
use ko_ls.Core.Channel.{
  ChannelChange, CategoryChange, max_channel_name_bytes, max_channel_topic_bytes,
  max_category_name_bytes,
}
use ko_ls.Core.Names.{Names, NameRefusal, is_blank}
use ko_ls.Api.Command.{Command, command_name}

abbrev pub max_role_name_bytes : ℕ
max_role_name_bytes = 64

pub data Refusal : Type 0 where
  no_such_channel : ChannelId → Refusal
  not_permitted : Bytes → Bytes → Refusal
  empty : Bytes → Refusal
  too_large : Bytes → ℕ → ℕ → Refusal
  too_many : Bytes → ℕ → ℕ → Refusal
  name : NameRefusal → Refusal
  not_a_server : Refusal
  unknown_verb : Bytes → Refusal
  everyone_ceiling : Bytes → Refusal
  unrestricted : Bytes → Refusal
  negative : Bytes → Refusal
  incoherent_admission : Refusal
  no_such_role : Bytes → Refusal
  role_exists : Bytes → Refusal
  unknown_presence : Bytes → Refusal

-- `Actor`; of `Channels` it has the one method, `placement`.
pub record Actor (g : Governance) : Type 0 where
  pub identity : IdentityId
  pub authority : Authority
  pub state : g.State
  pub channels : ChannelId → Option Placement
  pub names : Names

abbrev pub Check : Type 0
Check = Result Refusal (Unit {0})

abbrev pub bound : Bytes → ℕ → ℕ → Check
bound field actual limit = guard (leb actual limit) (too_large field actual limit)

abbrev pub non_blank : Bytes → Bytes → Check
non_blank field text = guard (not (is_blank text)) (empty field)

-- The loop over a message's attachments.
unfoldable pub check_attachments : ℕ → List Attachment → Check
check_attachments limit [] = ok tt
check_attachments limit (a ∷ more) = do
  bound (codes "attachment") a.byte_len limit
  check_attachments limit more

module _ (p : Platform) (g : Governance) (u : Unicode) (actor : Actor g) where
  abbrev pub q : g.Policy
  q = g.policy actor.state

  abbrev pub placement_of : ChannelId → Result Refusal Placement
  placement_of channel = ok_or (actor.channels channel) (no_such_channel channel)

  -- `require`, whose callers name the command
  abbrev pub require : Command g → Bool → Bytes → Check
  require c held needs = guard held (not_permitted (command_name g c) needs)

  -- The right to write into a channel.
  abbrev pub require_post : Command g → ChannelId → Check
  require_post c channel = do
    placement ← placement_of channel
    require c (actor.authority.may_post actor.identity placement)
        (codes "chat:post, and publish:chat-log alongside it")

  abbrev pub check_text : Bytes → Check
  check_text text = do
    non_blank (codes "message") text
    bound (codes "message") (length text) (non_negative g q ChatSetting.message_max_bytes)

  abbrev pub require_server : Check
  require_server = guard (allows_channel_definitions g q) not_a_server

  abbrev pub require_own : Command g → g.Capability → Bytes → Check
  require_own c capability needs =
      require c (g.identity_holds actor.state actor.identity capability) needs

  -- `check_change`
  unfoldable pub check_change : ChannelChange → Check
  check_change (ChannelChange.rename text) = do
    non_blank (codes "channel name") text
    bound (codes "channel name") (length text) max_channel_name_bytes
  check_change (ChannelChange.set_topic topic) =
      bound (codes "channel topic") (length topic) max_channel_topic_bytes
  check_change (ChannelChange.set_slowmode seconds) =
      guard (not (setting g q ChatSetting.slowmode_max_seconds ≺ pos seconds)) (
        too_large (codes "slowmode") seconds
          (pos_part (setting g q ChatSetting.slowmode_max_seconds)))
  check_change _ = ok tt

  unfoldable pub check_category_change : CategoryChange → Check
  check_category_change (CategoryChange.rename text) = do
    non_blank (codes "category name") text
    bound (codes "category name") (length text) max_category_name_bytes
  check_category_change _ = ok tt

  -- The loop over the addresses of relays.
  unfoldable pub check_relays : List Bytes → Check
  check_relays [] = ok tt
  check_relays (relay ∷ more) = do
    non_blank (codes "relay address") relay
    bound (codes "relay address") (length relay) g.max_relay_address_bytes
    check_relays more

  abbrev pub is_governing : Bytes → Bool
  is_governing verb = any (λ v. (v.0 == verb) && (elim v.1 [ governance ↦ true | _ ↦ false ])) verbs
