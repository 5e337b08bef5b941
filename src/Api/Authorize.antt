-- ===== src/Api/Authorize.antt =====
-- The gate that every command crosses: crates/kols-api/src/authorize.rs.
pub mod Held
use ko_ls.Base.{
  ℕ, Bool, true, false, ◌&&◌, ◌||◌, not, Option, none, some, List, [], ◌∷◌, length, any, ltb, leb,
  is_some, if◌then◌else◌,
}
use ko_ls.Base.Order.{Bytes, bytes_ord, nat_ord, ◌==◌, ◌≺◌}
use ko_ls.Base.Int.{ℤ, pos, int_ord, pos_part}
use ko_ls.Base.Text.{codes}
use ko_ls.Base.Result.{Result, ok, err, ◌>>=◌, ◌>>◌, guard, map_err, ok_or}
use ko_ls.Platform.{Platform, Governance, Unicode}
use ko_ls.Core.Record.{ChannelId, CategoryId, IdentityId, Attachment, max_reaction_key_bytes}
use ko_ls.Core.Permissions.{
  Authority, Placement, Tier, governance, verbs, is_verb, holds, holds_in_scope,
}
use ko_ls.Core.Policy.{
  ChatSetting, key, setting, non_negative, allows_channel_definitions, max_network_name_bytes,
}
use ko_ls.Core.Channel.{
  ChannelChange, CategoryChange, max_channel_name_bytes, max_channel_topic_bytes,
  max_category_name_bytes,
}
use ko_ls.Core.Names.{Names, NameRefusal, claimable, is_blank}
use ko_ls.Core.Presence.{from_name}
use ko_ls.Api.Command.{Command, command_name}
use ko_ls.Api.Gate.{
  Refusal, Actor, Check, check_attachments, check_change, check_category_change, check_relays,
}
use ko_ls.Api.Arms.{
  check_read, check_send_message, check_edit_message, check_delete_message, check_react, check_pin,
  check_create_channel, check_update_channel, check_create_category, check_update_category,
  check_set_name, check_create_invite, check_set_bootstrap_relays, check_admit_member,
  check_revoke_member, check_leave_network, check_set_presence, check_set_network_name,
  check_set_chat_setting, check_set_admission_mode, check_create_role, check_set_permission,
  check_set_role_member,
}

module _ (p : Platform) (g : Governance) (u : Unicode) (actor : Actor g) where
  -- What `authorize` checks before it gives the command back.
  unfoldable pub check_command : Command g → Check
  unfolding check_change check_category_change check_attachments check_relays
  check_command (Command.open_channel channel reach) =
      check_read p g u actor (Command.open_channel channel reach) channel
  check_command (Command.fetch_history channel before) =
      check_read p g u actor (Command.fetch_history channel before) channel
  check_command (Command.send_message channel body reply_to attachments) =
      check_send_message p g u actor (Command.send_message channel body reply_to attachments)
        channel body attachments
  check_command (Command.edit_message channel target body) =
      check_edit_message p g u actor (Command.edit_message channel target body) channel body
  check_command (Command.delete_message channel target) =
      check_delete_message p g u actor (Command.delete_message channel target) channel
  check_command (Command.react channel target emoji off) =
      check_react p g u actor (Command.react channel target emoji off) channel emoji
  check_command (Command.pin channel target off) =
      check_pin p g u actor (Command.pin channel target off) channel
  check_command (Command.create_channel text category access topic) =
      check_create_channel p g u actor (Command.create_channel text category access topic) text
        category topic
  check_command (Command.update_channel channel change) =
      check_update_channel p g u actor (Command.update_channel channel change) channel change
  check_command (Command.create_category text at) =
      check_create_category p g u actor (Command.create_category text at) text
  check_command (Command.update_category category change) =
      check_update_category p g u actor (Command.update_category category change) category change
  check_command (Command.set_name claimed) =
      check_set_name p g u actor (Command.set_name claimed) claimed
  check_command (Command.create_invite uses hours) =
      check_create_invite p g u actor (Command.create_invite uses hours) uses
  check_command (Command.set_bootstrap_relays relays) =
      check_set_bootstrap_relays p g u actor (Command.set_bootstrap_relays relays) relays
  check_command (Command.admit_member who via_invite) =
      check_admit_member p g u actor (Command.admit_member who via_invite)
  check_command (Command.revoke_member who) =
      check_revoke_member p g u actor (Command.revoke_member who)
  check_command Command.leave_network = check_leave_network p g u actor Command.leave_network
  check_command (Command.set_contribution storage upload download willing) = ok tt
  check_command (Command.set_presence state) =
      check_set_presence p g u actor (Command.set_presence state) state
  check_command (Command.set_network_name text) =
      check_set_network_name p g u actor (Command.set_network_name text) text
  check_command (Command.set_chat_setting which value) =
      check_set_chat_setting p g u actor (Command.set_chat_setting which value) which value
  check_command (Command.set_admission_mode mode) =
      check_set_admission_mode p g u actor (Command.set_admission_mode mode) mode
  check_command (Command.create_role group) =
      check_create_role p g u actor (Command.create_role group) group
  check_command (Command.set_permission group verb at grant) =
      check_set_permission p g u actor (Command.set_permission group verb at grant) group verb grant
  check_command (Command.set_role_member group who member) =
      check_set_role_member p g u actor (Command.set_role_member group who member) group

  -- `authorize`; the `Authorized` that it returns holds the command.
  unfoldable pub authorize : Command g → Result Refusal (Command g)
  unfolding check_command
  authorize c = do check_command c; ok c
