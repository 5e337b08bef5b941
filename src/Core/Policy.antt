-- ===== src/Core/Policy.antt =====
-- The network's chat policy: crates/kols-core/src/policy.rs, and `ReaderLimits::of` of
-- crates/kols-core/src/limits.rs.
use ko_ls.Base.{
  ℕ, ◌*◌, Bool, true, false, ◌&&◌, ◌||◌, not, Option, none, some, [], length, leb, if◌then◌else◌,
}
use ko_ls.Base.Order.{Bytes, bytes_ord, ◌==◌, ◌≺◌}
use ko_ls.Base.Int.{ℤ, pos, int_ord, leb_ℤ, u32_max, pos_part}
use ko_ls.Base.Text.{codes}
use ko_ls.Platform.{Governance}
use ko_ls.Core.Limits.{ReaderLimits}

abbrev pub max_network_name_bytes : ℕ
max_network_name_bytes = 128

pub data NetworkProfile : Type 0 where
  server conversation : NetworkProfile

pub data ChatSetting : Type 0 where
  message_rate reaction_rate message_max_bytes attachment_max_bytes : ChatSetting
  attachment_max_count segment_max_bytes max_future_skew_millis : ChatSetting
  slowmode_max_seconds retain_messages_days retain_attachments_days : ChatSetting

-- `ChatSetting::key`, with the names of `keys`
unfoldable pub key : ChatSetting → Bytes
key ChatSetting.message_rate = codes "chat:message-rate-per-minute"
key ChatSetting.reaction_rate = codes "chat:reaction-rate-per-minute"
key ChatSetting.message_max_bytes = codes "chat:message-max-bytes"
key ChatSetting.attachment_max_bytes = codes "chat:attachment-max-bytes"
key ChatSetting.attachment_max_count = codes "chat:attachment-max-count"
key ChatSetting.segment_max_bytes = codes "chat:segment-max-bytes"
key ChatSetting.max_future_skew_millis = codes "chat:max-future-skew-millis"
key ChatSetting.slowmode_max_seconds = codes "chat:slowmode-max-seconds"
key ChatSetting.retain_messages_days = codes "chat:retain-messages-days"
key ChatSetting.retain_attachments_days = codes "chat:retain-attachments-days"

-- `ChatSetting::default_value`, with the values of `defaults`; none is negative.
unfoldable pub default_value : ChatSetting → ℕ
default_value ChatSetting.message_rate = 30
default_value ChatSetting.reaction_rate = 60
default_value ChatSetting.message_max_bytes = 8 * 1024
default_value ChatSetting.attachment_max_bytes = 25 * 1024 * 1024
default_value ChatSetting.attachment_max_count = 10
default_value ChatSetting.segment_max_bytes = 8 * 1024 * 1024
default_value ChatSetting.max_future_skew_millis = 300000
default_value ChatSetting.slowmode_max_seconds = 21600
default_value ChatSetting.retain_messages_days = 0
default_value ChatSetting.retain_attachments_days = 0

pub data ZeroMeaning : Type 0 where
  no_limit forever zero refuses_everything : ZeroMeaning

unfoldable pub zero_means : ChatSetting → ZeroMeaning
zero_means ChatSetting.message_rate = ZeroMeaning.no_limit
zero_means ChatSetting.reaction_rate = ZeroMeaning.no_limit
zero_means ChatSetting.retain_messages_days = ZeroMeaning.forever
zero_means ChatSetting.retain_attachments_days = ZeroMeaning.forever
zero_means ChatSetting.message_max_bytes = ZeroMeaning.refuses_everything
zero_means _ = ZeroMeaning.zero

pub data Retention : Type 0 where
  forever : Retention
  days : ℕ → Retention

unfoldable pub covers : Retention → ℕ → Bool
covers Retention.forever age = true
covers (Retention.days window) age = leb age window

-- `ChatPolicy::retention`
unfoldable pub retention : ℤ → Retention
retention given =
    if leb_ℤ given (pos 0) || (pos u32_max ≺ given)
    then Retention.forever
    else Retention.days (pos_part given)

module _ (g : Governance) (q : g.Policy) where
  -- The value of a setting, as `app_policy_int` reads it.
  abbrev pub setting : ChatSetting → ℤ
  setting s = g.app_policy_int q (key s) (pos (default_value s))

  unfoldable pub network_name : Option Bytes
  network_name =
      let name = g.app_policy_text q (codes "chat:network-name") [] in
      if not (name == []) && leb (length name) max_network_name_bytes then some name else none

  unfoldable pub profile : NetworkProfile
  profile =
      if g.app_policy_text q (codes "chat:network-profile") (codes "server") == codes "conversation"
      then NetworkProfile.conversation
      else NetworkProfile.server

  unfoldable pub allows_channel_definitions : Bool
  unfolding profile
  allows_channel_definitions = elim profile [
    | NetworkProfile.server ↦ true
    | NetworkProfile.conversation ↦ false
  ]

  -- `ChatPolicy::non_negative`, where `usize` has 64 bits
  unfoldable pub non_negative : ChatSetting → ℕ
  unfolding key default_value
  non_negative s = if leb_ℤ (pos 0) (setting s) then pos_part (setting s) else default_value s

  unfoldable pub retain_messages : Retention
  unfolding retention key default_value
  retain_messages = retention (setting ChatSetting.retain_messages_days)

  unfoldable pub retain_attachments : Retention
  unfolding retention key default_value
  retain_attachments = retention (setting ChatSetting.retain_attachments_days)

  -- `ReaderLimits::of`
  unfoldable pub limits_of : ℕ → ReaderLimits
  unfolding non_negative key default_value
  limits_of slowmode = record {
    message_rate_per_minute = setting ChatSetting.message_rate;
    reaction_rate_per_minute = setting ChatSetting.reaction_rate;
    message_max_bytes = non_negative ChatSetting.message_max_bytes;
    max_future_skew_millis = setting ChatSetting.max_future_skew_millis;
    slowmode_seconds = slowmode;
  }
