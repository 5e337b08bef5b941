-- ===== src/Core/Dm.antt =====
-- Invitations to a conversation, sent by direct message: crates/kols-core/src/dm.rs.
pub mod Linked
use ko_ls.Base.{Bool, Option, ◌&&◌, ◌||◌, not, ◌++◌}
use ko_ls.Base.Order.{Bytes, bytes_ord, pair_ord, ◌==◌}
use ko_ls.Base.Text.{codes}
use ko_ls.Base.Result.{Result, ok, ◌>>=◌, ◌>>◌, guard, ok_or}
use ko_ls.Platform.{Platform, Invites}
use ko_ls.Core.Errors.{CoreError, bad_signature, unlinked_invite}
use ko_ls.Core.Record.{IdentityId}
use ko_ls.Core.Record.Decode.{lift, finish}

abbrev pub dm_invite_domain : Bytes
dm_invite_domain = codes "intranet.wire.chat-dm-invite.v1"

abbrev pub dm_knock_domain : Bytes
dm_knock_domain = codes "intranet.wire.chat-dm-knock.v1"

module _ (v : Invites) where
  pub record DmInvite : Type 0 where
    pub invite : v.Invite
    pub link : v.Link

  -- The two ends of the link are these, in either order: the `matched` of `verify_from`.
  abbrev pub matched : DmInvite → IdentityId → Bytes → Bool
  matched m sender shared =
      let here : Bytes × IdentityId = (shared, sender) in
      let there : Bytes × IdentityId = (v.network m.invite, v.issuer m.invite) in
      ((v.linked m.link).0 == here && (v.linked m.link).1 == there)
      || ((v.linked m.link).0 == there && (v.linked m.link).1 == here)

  -- `DmInvite::verify_from`
  unfoldable pub verify_from : DmInvite → IdentityId → Bytes → Result CoreError (Unit {0})
  verify_from m sender shared = do
    guard (v.verify_link m.link) bad_signature
    guard (matched m sender shared) unlinked_invite
    guard (not (v.network m.invite == shared)) unlinked_invite
    ok tt

  module _ (p : Platform) where
    -- `DmInvite::encode`
    unfoldable pub encode_dm_invite : DmInvite → Bytes
    encode_dm_invite m =
        p.domain dm_invite_domain
        ++ (p.bytes (v.encode_invite m.invite) ++ p.bytes (v.encode_link m.link))

    -- `DmInvite::decode`
    unfoldable pub decode_dm_invite : Bytes → Result CoreError DmInvite
    decode_dm_invite input = do
      in_invite ← lift (p.read_domain dm_invite_domain input)
      (invite_bytes, in_link) ← lift (p.read_bytes in_invite)
      (link_bytes, rest) ← lift (p.read_bytes in_link)
      finish rest
      invite ← ok_or (v.decode_invite invite_bytes) bad_signature
      link ← ok_or (v.decode_link link_bytes) bad_signature
      ok (record { invite = invite; link = link })

pub record DmKnock : Type 0 where
  pub conversation : Bytes

-- `DmKnock::encode` and `DmKnock::decode`
unfoldable pub encode_knock : Platform → DmKnock → Bytes
encode_knock p k = p.domain dm_knock_domain ++ k.conversation

unfoldable pub decode_knock : Platform → Bytes → Result CoreError DmKnock
decode_knock p input = do
  in_conversation ← lift (p.read_domain dm_knock_domain input)
  (conversation, rest) ← lift (p.read_fixed 32 in_conversation)
  finish rest
  ok (record { conversation = conversation })
