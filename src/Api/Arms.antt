-- ===== src/Api/Arms.antt =====
-- The arms of `authorize`, for one command each: crates/kols-api/src/authorize.rs.
use ko_ls.Base.{ℕ, Bool, ◌&&◌, ◌||◌, not, Option, none, some, List, [], length, leb, is_some}
use ko_ls.Base.Order.{Bytes, bytes_ord, nat_ord, ◌==◌, ◌≺◌}
use ko_ls.Base.Int.{ℤ, pos, int_ord}
use ko_ls.Base.Text.{codes}
use ko_ls.Base.Result.{◌>>=◌, ◌>>◌, guard, map_err, ok_or}
use ko_ls.Platform.{Platform, Governance, Unicode}
use ko_ls.Core.Record.{ChannelId, CategoryId, Attachment, max_reaction_key_bytes}
use ko_ls.Core.Permissions.{is_verb, holds, holds_in_scope}
use ko_ls.Core.Policy.{ChatSetting, key, non_negative, max_network_name_bytes}
use ko_ls.Core.Channel.{
  ChannelChange, CategoryChange, max_channel_name_bytes, max_channel_topic_bytes,
  max_category_name_bytes,
}
use ko_ls.Core.Names.{claimable}
use ko_ls.Core.Presence.{from_name}
use ko_ls.Api.Command.{Command}
use ko_ls.Api.Gate.{
  empty, too_many, name, unknown_verb, everyone_ceiling, unrestricted, negative,
  incoherent_admission, no_such_role, role_exists, unknown_presence, Actor, Check,
  max_role_name_bytes, bound, non_blank, check_attachments, q, placement_of, require, require_post,
  check_text, require_server, require_own, check_change, check_category_change, check_relays,
  is_governing,
}

module _ (p : Platform) (g : Governance) (u : Unicode) (actor : Actor g) where
  abbrev pub check_read : Command g → ChannelId → Check
  check_read c channel = do
    placement ← placement_of p g u actor channel
    require p g u actor c (holds p g actor.state actor.identity (codes "read") placement)
        (codes "chat:read")

  abbrev pub check_send_message : Command g → ChannelId → Bytes → List Attachment → Check
  check_send_message c channel body attachments = do
    require_post p g u actor c channel
    check_text p g u actor body
    guard
        (leb (length attachments) (non_negative g (q p g u actor) ChatSetting.attachment_max_count))
        (too_many (codes "attachments") (length attachments)
          (non_negative g (q p g u actor) ChatSetting.attachment_max_count))
    check_attachments (non_negative g (q p g u actor) ChatSetting.attachment_max_bytes) attachments

  abbrev pub check_edit_message : Command g → ChannelId → Bytes → Check
  check_edit_message c channel body = do
    require_post p g u actor c channel
    check_text p g u actor body

  abbrev pub check_delete_message : Command g → ChannelId → Check
  check_delete_message c channel = require_post p g u actor c channel

  abbrev pub check_react : Command g → ChannelId → Bytes → Check
  check_react c channel emoji = do
    require_post p g u actor c channel
    guard (not (emoji == [])) (empty (codes "reaction"))
    bound (codes "reaction") (length emoji) max_reaction_key_bytes

  abbrev pub check_pin : Command g → ChannelId → Check
  check_pin c channel = do
    placement ← placement_of p g u actor channel
    require p g u actor c
        (holds p g actor.state actor.identity (codes "moderate") placement
          || g.identity_holds actor.state actor.identity g.moderate_content)
        (codes "chat:moderate")

  abbrev pub check_create_channel : Command g → Bytes → Option CategoryId → Bytes → Check
  check_create_channel c text category topic = do
    require_server p g u actor
    require p g u actor c
        (holds_in_scope p g actor.state actor.identity (codes "create-channel") category)
        (codes "chat:create-channel, at the network or a category")
    non_blank (codes "channel name") text
    bound (codes "channel name") (length text) max_channel_name_bytes
    bound (codes "channel topic") (length topic) max_channel_topic_bytes

  abbrev pub check_update_channel : Command g → ChannelId → ChannelChange → Check
  check_update_channel c channel change = do
    require_server p g u actor
    placement ← placement_of p g u actor channel
    require p g u actor c (holds p g actor.state actor.identity (codes "manage-channel") placement)
        (codes "chat:manage-channel")
    check_change p g u actor change

  abbrev pub check_create_category : Command g → Bytes → Check
  check_create_category c text = do
    require_server p g u actor
    require p g u actor c
        (holds_in_scope p g actor.state actor.identity (codes "manage-channel") none)
        (codes "chat:manage-channel:*, which is the only scope that can create a category")
    non_blank (codes "category name") text
    bound (codes "category name") (length text) max_category_name_bytes

  abbrev pub check_update_category : Command g → CategoryId → CategoryChange → Check
  check_update_category c category change = do
    require_server p g u actor
    require p g u actor c
        (holds_in_scope p g actor.state actor.identity (codes "manage-channel") (some category))
        (codes "chat:manage-channel, at the category or the network")
    check_category_change p g u actor change

  abbrev pub check_set_name : Command g → Bytes → Check
  check_set_name c claimed = do
    require p g u actor c (holds_in_scope p g actor.state actor.identity (codes "set-name") none)
        (codes "chat:set-name, which a network grants to everyone at genesis")
    map_err name (claimable u actor.identity claimed actor.names)

  abbrev pub check_create_invite : Command g → ℕ → Check
  check_create_invite c uses = do
    require_own p g u actor c g.approve_node (codes "approve-node")
    guard (not (uses == 0)) (empty (codes "uses"))

  abbrev pub check_set_bootstrap_relays : Command g → List Bytes → Check
  check_set_bootstrap_relays c relays = do
    require_own p g u actor c g.define_policy (codes "define-policy")
    guard (leb (length relays) g.max_bootstrap_relays)
        (too_many (codes "relays") (length relays) g.max_bootstrap_relays)
    check_relays p g u actor relays

  abbrev pub check_admit_member : Command g → Check
  check_admit_member c = require_own p g u actor c g.approve_node (codes "approve-node")

  abbrev pub check_revoke_member : Command g → Check
  check_revoke_member c = require_own p g u actor c g.revoke_node (codes "revoke-node")

  abbrev pub check_leave_network : Command g → Check
  check_leave_network c =
      require p g u actor c (g.is_member actor.state actor.identity) (codes "membership")

  abbrev pub check_set_presence : Command g → Bytes → Check
  check_set_presence c state = guard (is_some (from_name state)) (unknown_presence state)

  abbrev pub check_set_network_name : Command g → Bytes → Check
  check_set_network_name c text = do
    require_own p g u actor c g.define_policy (codes "define-policy")
    bound (codes "network name") (length text) max_network_name_bytes

  abbrev pub check_set_chat_setting : Command g → ChatSetting → ℤ → Check
  check_set_chat_setting c which value = do
    require_own p g u actor c g.define_policy (codes "define-policy")
    guard (not (value ≺ pos 0)) (negative (key which))

  abbrev pub check_set_admission_mode : Command g → g.AdmissionMode → Check
  check_set_admission_mode c mode = do
    require_own p g u actor c g.define_policy (codes "define-policy")
    guard (not (g.is_auto_admit mode && g.is_member_vote (q p g u actor))) incoherent_admission

  abbrev pub check_create_role : Command g → Bytes → Check
  check_create_role c group = do
    require_own p g u actor c g.define_group (codes "define-group")
    non_blank (codes "role name") group
    bound (codes "role name") (length group) max_role_name_bytes
    guard (not (is_some (g.group_holds_all actor.state group))) (role_exists group)

  abbrev pub check_set_permission : Command g → Bytes → Bytes → Bool → Check
  check_set_permission c group verb grant = do
    require_own p g u actor c g.define_group (codes "define-group")
    guard (is_verb verb) (unknown_verb verb)
    holds_all ← ok_or (g.group_holds_all actor.state group) (no_such_role group)
    guard (not holds_all) (unrestricted group)
    guard (not (grant && (g.is_everyone group && is_governing p g u actor verb)))
        (everyone_ceiling verb)

  abbrev pub check_set_role_member : Command g → Bytes → Check
  check_set_role_member c group = do
    require_own p g u actor c (g.manage_membership group) (codes "manage-membership for that role")
    guard (is_some (g.group_holds_all actor.state group)) (no_such_role group)
