-- ===== src/Node/Entries.antt =====
-- The entries that the commands of channels write: crates/kols-node/src/executor.rs.
use ko_ls.Base.{ℕ, Option, none, some}
use ko_ls.Base.Order.{Bytes, bytes_ord}
use ko_ls.Base.Result.{Result}
use ko_ls.Base.BTreeMap.{get}
use ko_ls.Platform.{Platform, Governance}
use ko_ls.Core.Record.{ChannelId, CategoryId, IdentityId}
use ko_ls.Core.Channel.{
  of_channel, of_category, CategoryChange, ChannelKind, Privacy, ChannelChange, definition, update,
  category_definition, category_update,
}
use ko_ls.Core.Channel.Admission.{ChannelRefusal, to_app_entry}
use ko_ls.Node.Structure.{ChannelMap, and_then}

module _ (p : Platform) (g : Governance) where
  -- The entry of `create_channel` for a channel of this identifier, and what `append_channel_entry`
  -- makes of it; so for the other three.
  unfoldable pub create_channel_entry :
      ChannelId
      → Bytes
      → Option CategoryId
      → Privacy
      → Bytes
      → g.State
      → IdentityId
      → Result (ChannelRefusal p g) g.EntryBody
  create_channel_entry i name within access topic state author =
      to_app_entry p g
        (record {
          subject = of_channel i;
          body = definition name within ChannelKind.text access topic 0;
        })
        state author within

  unfoldable pub create_category_entry :
      CategoryId → Bytes → ℕ → g.State → IdentityId → Result (ChannelRefusal p g) g.EntryBody
  create_category_entry i name at state author =
      to_app_entry p g (record { subject = of_category i; body = category_definition name at })
        state author none

  unfoldable pub update_category_entry :
      CategoryId → CategoryChange → g.State → IdentityId → Result (ChannelRefusal p g) g.EntryBody
  update_category_entry i change state author =
      to_app_entry p g (record { subject = of_category i; body = category_update change }) state
        author (some i)

  unfoldable pub update_channel_entry :
      ChannelId
      → ChannelChange
      → ChannelMap
      → g.State
      → IdentityId
      → Result (ChannelRefusal p g) g.EntryBody
  update_channel_entry i change m state author =
      to_app_entry p g (record { subject = of_channel i; body = update change }) state author
        (and_then (get i m) (λ c. c.category))
