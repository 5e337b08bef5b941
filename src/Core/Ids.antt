-- ===== src/Core/Ids.antt =====
-- Derived identifiers: crates/kols-core/src/ids.rs.
use ko_ls.Base.{ℕ, ◌++◌}
use ko_ls.Base.Order.{Bytes}
use ko_ls.Base.Text.{codes}
use ko_ls.Platform.{Platform}
use ko_ls.Core.Record.{ChannelId, CategoryId, IdentityId, MessageId}

module _ (p : Platform) where
  -- `derive`: the hash of a domain's tag and the fields behind it
  unfoldable pub derive : Bytes → Bytes → Bytes
  derive domain fields = p.hash_bytes (p.domain domain ++ fields)

  unfoldable pub server_channel_id : Bytes → Bytes → ChannelId
  unfolding derive
  server_channel_id network nonce = derive (codes "intranet.chat-channel-id.v1") (network ++ nonce)

  unfoldable pub category_id : Bytes → Bytes → CategoryId
  unfolding derive
  category_id network nonce = derive (codes "intranet.chat-category-id.v1") (network ++ nonce)

  unfoldable pub conversation_channel_id : Bytes → ChannelId
  unfolding derive
  conversation_channel_id network = derive (codes "intranet.chat-conversation-id.v1") network

  unfoldable pub thread_channel_id : ChannelId → MessageId → ChannelId
  unfolding derive
  thread_channel_id parent root = derive (codes "intranet.chat-thread-id.v1") (parent ++ root)

  unfoldable pub author_log_pointer : ChannelId → IdentityId → Bytes
  unfolding derive
  author_log_pointer channel author =
      derive (codes "intranet.chat-log-pointer.v1") (channel ++ author)

  unfoldable pub author_segment_pointer : ChannelId → IdentityId → ℕ → Bytes
  unfolding derive
  author_segment_pointer channel author sequence =
      derive (codes "intranet.chat-segment-pointer.v1") (channel ++ (author ++ p.u64 sequence))

  unfoldable pub moderation_log_pointer : ChannelId → IdentityId → Bytes
  unfolding derive
  moderation_log_pointer channel moderator =
      derive (codes "intranet.chat-moderation-pointer.v1") (channel ++ moderator)
