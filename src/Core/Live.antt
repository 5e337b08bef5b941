-- ===== src/Core/Live.antt =====
-- Records delivered live, sealed for their channel: crates/kols-core/src/live.rs.
pub mod Delivery
use ko_ls.Base.{◌++◌}
use ko_ls.Base.Order.{Bytes, bytes_ord, ◌==◌}
use ko_ls.Base.Text.{codes}
use ko_ls.Base.Result.{Result, ok, ◌>>=◌, ◌>>◌, guard, ok_or}
use ko_ls.Platform.{Platform, Sealing}
use ko_ls.Core.Errors.{CoreError, bad_signature}
use ko_ls.Core.Record.{ChannelId, Hash, Record, canonical_bytes, verify_signature}
use ko_ls.Core.Record.Decode.{lift, finish, decode_record}

abbrev pub live_domain : Bytes
live_domain = codes "intranet.wire.chat-live.v1"

abbrev content_key_domain : Bytes
content_key_domain = codes "intranet.chat-channel-key.v1"

pub record LivePayload : Type 0 where
  pub channel : ChannelId
  pub rotation : Hash
  pub sealed : Bytes

module _ (p : Platform) where
  module _ (s : Sealing) where
    unfoldable pub channel_content_key : s.EpochKey → ChannelId → Hash → s.Dek
    channel_content_key epoch channel rotation =
        s.keyed_dek epoch (p.domain content_key_domain ++ (channel ++ rotation))

    -- `LivePayload::seal`
    unfoldable pub seal_live : Record → s.EpochKey → Hash → LivePayload
    unfolding channel_content_key
    seal_live r epoch rotation = record {
      channel = r.channel;
      rotation = rotation;
      sealed = s.seal_chunk (channel_content_key epoch r.channel rotation) (canonical_bytes p r);
    }

    -- The part of `LivePayload::open` behind the decryption.
    unfoldable pub read_live : ChannelId → Bytes → Result CoreError Record
    unfolding verify_signature decode_record
    read_live channel text = do
      r ← decode_record p text
      guard (r.channel == channel) bad_signature
      verify_signature p r
      ok r

    -- `LivePayload::open`
    unfoldable pub open_live : LivePayload → s.EpochKey → Result CoreError Record
    unfolding channel_content_key read_live
    open_live b epoch =
        ok_or (s.open_chunk (channel_content_key epoch b.channel b.rotation) b.sealed) bad_signature
        >>= read_live b.channel

  -- `LivePayload::encode`
  unfoldable pub encode_live : LivePayload → Bytes
  encode_live b = p.domain live_domain ++ (b.channel ++ (b.rotation ++ p.bytes b.sealed))

  -- `LivePayload::decode`
  unfoldable pub decode_live : Bytes → Result CoreError LivePayload
  decode_live input = do
    in_channel ← lift (p.read_domain live_domain input)
    (channel, in_rotation) ← lift (p.read_fixed 32 in_channel)
    (rotation, in_sealed) ← lift (p.read_fixed 32 in_rotation)
    (sealed, rest) ← lift (p.read_bytes in_sealed)
    finish rest
    ok (record { channel = channel; rotation = rotation; sealed = sealed })
