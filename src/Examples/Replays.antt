-- ===== src/Examples/Replays.antt =====
-- Names, channels and commands on the small platform.
use ko_ls.Base.{◌+◌, false, none, some, List, [], ◌∷◌, ◌++◌, length, ◌≡◌, refl, map}
use ko_ls.Base.Order.{Bytes, bytes_ord, cmp_bytes}
use ko_ls.Base.Text.{codes}
use ko_ls.Base.Result.{ok, is_ok}
use ko_ls.Base.BTreeMap.{get, insert}
use ko_ls.Platform.{Governance, Unicode}
use ko_ls.Core.Permissions.{state_authority, scope_name, capability, holds, holds_in_scope}
use ko_ls.Core.Policy.{NetworkProfile, profile, allows_channel_definitions}
use ko_ls.Core.Channel.{ChannelChange, ChannelKind, Privacy}
use ko_ls.Core.Names.{
  no_names, name_key, name_of, claimable, apply, replay_names, chars, first_invisible, collapse,
}
use ko_ls.Core.Names.Holders.{claimable-apply, replay_names_unique}
use ko_ls.Api.Command.{Command, command_verb}
use ko_ls.Api.Gate.{Actor}
use ko_ls.Api.Authorize.{authorize, check_command}
use ko_ls.Api.Authorize.Held.{IsHolding, authorize-IsHolding}
use ko_ls.Node.Structure.{Channel, ChannelMap, Folded, fold_channel, channels, categories, seeded}
use ko_ls.Node.Entries.{update_channel_entry}
use ko_ls.Node.Structure.Written.{update_channel-replayed}
use ko_ls.Node.Structure.Conversation.{channels-conversation}
use ko_ls.Examples.Values.{grants, alice, bob}
use ko_ls.Examples.Tiny.{tiny}
use ko_ls.Examples.Codec.{AnyText, tiny-IsCodec, repeat}
use ko_ls.Examples.Channels.{grants-IsEntryLog, manager}

-- Upper case for lower, and a grapheme for each code point.
abbrev plain : Unicode
plain = record { nfkc = λ cs. cs; to_lowercase = map (λ c. c + 32); grapheme_count = length }

claimable-apply_example :
    is_ok (claimable plain bob (codes "ANN") no_names)
    ≡ (apply plain bob (record { name = codes "ANN" }) no_names).0
claimable-apply_example = claimable-apply plain bob (codes "ANN") no_names

abbrev claim_payload : Bytes
claim_payload = tiny.domain (codes "intranet.chat-name-claim.v1") ++ tiny.str (codes "ANN")

-- Alice claims a name; Bob claims it after her.
abbrev claims : List grants.LogEntry
claims = (none, (alice, claim_payload)) ∷ (none, (bob, claim_payload)) ∷ []

abbrev namers : grants.State
namers = (alice, 1 ∷ codes "chat:set-name:*") ∷ (bob, 1 ∷ codes "chat:set-name:*") ∷ []

shown : name_of alice (replay_names tiny grants plain namers no_names claims) ≡ some (codes "ANN")
unfolding name_of replay_names name_key chars first_invisible collapse get insert cmp_bytes
shown = refl

replay_names_unique_example : alice ≡ alice
replay_names_unique_example =
    replay_names_unique tiny grants plain namers claims alice alice (codes "ANN") (codes "ANN")
      shown shown refl

abbrev den : Channel
den = record {
  id = repeat 32;
  name = codes "hall";
  category = none;
  kind = ChannelKind.text;
  access = Privacy.public;
  topic = [];
  slowmode = 0;
  archived = false;
  position = none;
}

abbrev before : Folded tiny grants ChannelMap
before = record { found = (repeat 32, den) ∷ []; refused = [] }

abbrev chair : Actor grants
chair = record {
  identity = alice;
  authority = state_authority tiny grants manager;
  state = manager;
  channels = λ channel. some (record { channel = channel; category = none });
  names = no_names;
}

abbrev retitle : Command grants
retitle = Command.update_channel (repeat 32) (ChannelChange.set_topic (codes "tea"))

retitle_authorised : authorize tiny grants plain chair retitle ≡ ok retitle
unfolding authorize check_command allows_channel_definitions profile holds holds_in_scope scope_name
    capability cmp_bytes
retitle_authorised = refl

den_found : get (repeat 32) before.found ≡ some den
unfolding get cmp_bytes
den_found = refl

update_channel-replayed_example :
    (body : grants.EntryBody) × (update_channel_entry tiny grants
        (repeat 32)
        (ChannelChange.set_topic (codes "tea"))
        before.found
        manager
        alice
      ≡ ok body)
    × (get
          (repeat 32)
          (fold_channel tiny grants (profile grants (grants.policy manager)) before body).found
        ≡ some (record den { topic = codes "tea" }))
    × ((fold_channel tiny grants (profile grants (grants.policy manager)) before body).refused ≡ [])
unfolding cmp_bytes
update_channel-replayed_example =
    update_channel-replayed tiny grants plain chair AnyText (repeat 32) (repeat 32)
      (ChannelChange.set_topic (codes "tea")) retitle before den tiny-IsCodec grants-IsEntryLog refl
      refl tt den_found refl retitle_authorised

retitle_verb : command_verb grants retitle ≡ some (codes "manage-channel")
unfolding command_verb
retitle_verb = refl

authorize-IsHolding_example :
    (retitle ≡ retitle) × IsHolding tiny grants plain chair retitle (some (codes "manage-channel"))
authorize-IsHolding_example =
    authorize-IsHolding tiny grants plain chair retitle retitle (codes "manage-channel") refl
      retitle_authorised retitle_verb

-- The same governance, for a conversation.
abbrev chats : Governance
chats = record grants { app_policy_text = λ q key default. codes "conversation" }

chats-profile : profile chats tt ≡ NetworkProfile.conversation
unfolding profile cmp_bytes
chats-profile = refl

channels-conversation_example :
    ((channels tiny chats (repeat 32) ((1 ∷ [], (none, (alice, []))) ∷ []) manager).found
      ≡ seeded tiny chats (repeat 32) NetworkProfile.conversation)
    × ((categories tiny chats ((1 ∷ [], (none, (alice, []))) ∷ []) manager).found ≡ [])
channels-conversation_example =
    channels-conversation tiny chats (repeat 32) ((1 ∷ [], (none, (alice, []))) ∷ []) manager
      chats-profile
