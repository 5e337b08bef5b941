-- ===== src/Api/Command.antt =====
-- Commands of the interface: crates/kols-api/src/command.rs.
pub mod Tiers
use ko_ls.Base.{ℕ, Bool, Option, none, some, List, []}
use ko_ls.Base.Order.{Bytes}
use ko_ls.Base.Int.{ℤ}
use ko_ls.Base.Text.{codes}
use ko_ls.Platform.{Governance}
use ko_ls.Core.Hlc.{Hlc}
use ko_ls.Core.Cursor.{Window}
use ko_ls.Core.Record.{ChannelId, CategoryId, IdentityId, MessageId, Attachment}
use ko_ls.Core.Permissions.{Scope}
use ko_ls.Core.Policy.{ChatSetting}
use ko_ls.Core.Channel.{ChannelChange, CategoryChange, Privacy}

pub data Sensitivity : Type 0 where
  local signs governs : Sensitivity

module _ (g : Governance) where
  -- The fields stand in the source's order.
  pub data Command : Type 0 where
    open_channel : ChannelId → Window → Command
    send_message : ChannelId → Bytes → Option MessageId → List Attachment → Command
    edit_message : ChannelId → MessageId → Bytes → Command
    delete_message : ChannelId → MessageId → Command
    react : ChannelId → MessageId → Bytes → Bool → Command
    pin : ChannelId → MessageId → Bool → Command
    create_channel : Bytes → Option CategoryId → Privacy → Bytes → Command
    update_channel : ChannelId → ChannelChange → Command
    create_category : Bytes → ℕ → Command
    update_category : CategoryId → CategoryChange → Command
    set_name : Bytes → Command
    create_invite : ℕ → ℤ → Command
    set_bootstrap_relays : List Bytes → Command
    admit_member : IdentityId → Option g.InviteProvenance → Command
    revoke_member : IdentityId → Command
    leave_network : Command
    fetch_history : ChannelId → Hlc → Command
    set_contribution : ℕ → ℕ → ℕ → Bool → Command
    set_presence : Bytes → Command
    set_network_name : Bytes → Command
    create_role : Bytes → Command
    set_permission : Bytes → Bytes → Scope → Bool → Command
    set_chat_setting : ChatSetting → ℤ → Command
    set_admission_mode : g.AdmissionMode → Command
    set_role_member : Bytes → IdentityId → Bool → Command

  -- `Command::sensitivity`
  unfoldable pub sensitivity : Command → Sensitivity
  sensitivity (open_channel channel reach) = Sensitivity.local
  sensitivity (fetch_history channel before) = Sensitivity.local
  sensitivity (send_message channel body reply_to attachments) = Sensitivity.signs
  sensitivity (edit_message channel target body) = Sensitivity.signs
  sensitivity (delete_message channel target) = Sensitivity.signs
  sensitivity (react channel target emoji off) = Sensitivity.signs
  sensitivity (create_channel name category access topic) = Sensitivity.signs
  sensitivity (set_name name) = Sensitivity.signs
  sensitivity (set_contribution storage upload download willing) = Sensitivity.signs
  sensitivity (set_presence state) = Sensitivity.signs
  sensitivity _ = Sensitivity.governs

  -- `Command::verb`
  unfoldable pub command_verb : Command → Option Bytes
  command_verb (open_channel channel reach) = some (codes "read")
  command_verb (fetch_history channel before) = some (codes "read")
  command_verb (send_message channel body reply_to attachments) = some (codes "post")
  command_verb (edit_message channel target body) = some (codes "post")
  command_verb (delete_message channel target) = some (codes "post")
  command_verb (react channel target emoji off) = some (codes "post")
  command_verb (pin channel target off) = some (codes "moderate")
  command_verb (create_channel name category access topic) = some (codes "create-channel")
  command_verb (set_name name) = some (codes "set-name")
  command_verb (update_channel channel change) = some (codes "manage-channel")
  command_verb (create_category name at) = some (codes "manage-channel")
  command_verb (update_category category change) = some (codes "manage-channel")
  command_verb _ = none

  -- `Command::name`
  unfoldable pub command_name : Command → Bytes
  command_name (open_channel channel reach) = codes "open-channel"
  command_name (fetch_history channel before) = codes "fetch-history"
  command_name (send_message channel body reply_to attachments) = codes "send-message"
  command_name (edit_message channel target body) = codes "edit-message"
  command_name (delete_message channel target) = codes "delete-message"
  command_name (react channel target emoji off) = codes "react"
  command_name (pin channel target off) = codes "pin"
  command_name (create_channel name category access topic) = codes "create-channel"
  command_name (set_name name) = codes "set-name"
  command_name (update_channel channel change) = codes "update-channel"
  command_name (create_category name at) = codes "create-category"
  command_name (update_category category change) = codes "update-category"
  command_name (create_invite uses hours) = codes "create-invite"
  command_name (set_bootstrap_relays relays) = codes "set-bootstrap-relays"
  command_name (admit_member who via_invite) = codes "admit-member"
  command_name (revoke_member who) = codes "revoke-member"
  command_name (set_network_name name) = codes "set-network-name"
  command_name (set_chat_setting which value) = codes "set-chat-setting"
  command_name (set_admission_mode mode) = codes "set-admission-mode"
  command_name (create_role group) = codes "create-role"
  command_name (set_permission group verb at grant) = codes "set-permission"
  command_name (set_role_member group who member) = codes "set-role-member"
  command_name leave_network = codes "leave-network"
  command_name (set_contribution storage upload download willing) = codes "set-contribution"
  command_name (set_presence state) = codes "set-presence"
