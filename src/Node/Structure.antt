-- ===== src/Node/Structure.antt =====
-- Channels and categories as the log replays them: crates/kols-node/src/network.rs.
pub mod Conversation
pub mod Written
use ko_ls.Base.{ℕ, Bool, true, false, Option, none, some, List, [], ◌∷◌, ◌++◌, if◌then◌else◌}
use ko_ls.Base.Order.{Bytes, bytes_ord, ◌==◌}
use ko_ls.Base.Text.{codes}
use ko_ls.Base.Result.{Result, ok, err, ◌>>=◌, ◌>>◌}
use ko_ls.Base.BTreeMap.{BTreeMap, get, insert, remove}
use ko_ls.Platform.{Platform, Governance}
use ko_ls.Core.Record.{ChannelId, CategoryId, IdentityId}
use ko_ls.Core.Errors.{CoreError}
use ko_ls.Core.Ids.{conversation_channel_id}
use ko_ls.Core.Policy.{NetworkProfile, profile}
use ko_ls.Core.Channel.{
  of_channel, of_category, subject_channel, subject_category, CategoryChange, ChannelKind, Privacy,
  ChannelChange, ChannelEntryBody, definition, update, category_definition, category_update,
  ChannelEntry,
}
use ko_ls.Core.Channel.Codec.{decode_payload}
use ko_ls.Core.Channel.Admission.{ChannelRefusal, chat_namespace, read, to_app_entry}

pub record Channel : Type 0 where
  pub id : ChannelId
  pub name : Bytes
  pub category : Option CategoryId
  pub kind : ChannelKind
  pub access : Privacy
  pub topic : Bytes
  pub slowmode : ℕ
  pub archived : Bool
  pub position : Option ℕ

abbrev pub ChannelMap : Type 0
ChannelMap = BTreeMap ChannelId Channel

pub record Category : Type 0 where
  pub id : CategoryId
  pub name : Bytes
  pub position : Option ℕ

abbrev pub CategoryMap : Type 0
CategoryMap = BTreeMap CategoryId Category

-- The `match change` of `channels`, at the channel that it found.
unfoldable pub change_channel : ChannelChange → ChannelId → Channel → ChannelMap → ChannelMap
change_channel (ChannelChange.rename name) i c m = insert i (record c { name = name }) m
change_channel (ChannelChange.recategorise to) i c m = insert i (record c { category = to }) m
change_channel (ChannelChange.set_topic topic) i c m = insert i (record c { topic = topic }) m
change_channel (ChannelChange.set_slowmode seconds) i c m =
    insert i (record c { slowmode = seconds }) m
change_channel (ChannelChange.set_position at) i c m = insert i (record c { position = some at }) m
change_channel ChannelChange.archive i c m = insert i (record c { archived = true }) m
change_channel ChannelChange.delete i c m = remove i m

unfoldable pub change_category : CategoryChange → CategoryId → Category → CategoryMap → CategoryMap
change_category (CategoryChange.rename name) i c m = insert i (record c { name = name }) m
change_category (CategoryChange.set_position at) i c m =
    insert i (record c { position = some at }) m
change_category CategoryChange.delete i c m = remove i m

abbrev pub and_then : {A B : Type 0} → Option A → (A → Option B) → Option B
and_then none next = none
and_then (some a) next = next a

-- `subject.and_then(|id| channels.get_mut(&id))`, with the subject
abbrev pub located : Option ChannelId → ChannelMap → Option (ChannelId × Channel)
located none m = none
located (some i) m = and_then (get i m) (λ c. some (i, c))

module _ (p : Platform) (g : Governance) where
  -- Why an entry was passed over.
  pub data Skipped : Type 0 where
    refusal : ChannelRefusal p g → Skipped
    definition_of_category : Skipped
    never_defined : Skipped

  pub record Folded (A : Type 0) : Type 0 where
    pub found : A
    pub refused : List Skipped

  abbrev pub skip : {A : Type 0} → Skipped → Folded A → Folded A
  skip why f = record f { refused = f.refused ++ why ∷ [] }

  abbrev pub channel_read : Result CoreError ChannelEntry → Option ChannelId
  channel_read (err why) = none
  channel_read (ok e) = subject_channel e.subject

  unfoldable pub channel_of : g.EntryBody → Option ChannelId
  channel_of body =
      and_then (g.as_app_entry body) (λ parts. channel_read (decode_payload p parts.3))

  -- What `channels` passes to `read` as the category.
  unfoldable pub known_category : g.EntryBody → ChannelMap → Option CategoryId
  unfolding channel_of
  known_category body m = and_then (and_then (channel_of body) (λ i. get i m)) (λ c. c.category)

  -- The arms of the `match` of `channels` on an entry read.
  unfoldable pub apply_channel_entry : ChannelEntry → Folded ChannelMap → Folded ChannelMap
  unfolding change_channel
  apply_channel_entry e f = elim e.body [
    | definition name within kind access topic slowmode ↦ elim (subject_channel e.subject) [
      | none ↦ skip definition_of_category f
      | some i ↦ record f {
        found =
            insert i
              (record {
                id = i;
                name = name;
                category = within;
                kind = kind;
                access = access;
                topic = topic;
                slowmode = slowmode;
                archived = false;
                position = none;
              })
              f.found;
      }
    ]
    | update change ↦ elim (located (subject_channel e.subject) f.found) [
      | none ↦ skip never_defined f
      | some (i, c) ↦ record f { found = change_channel change i c f.found }
    ]
    | _ ↦ f
  ]

  abbrev pub is_chat : g.EntryBody → Bool
  is_chat body = elim (g.as_app_entry body) [
    | none ↦ false
    | some parts ↦ parts.0 == chat_namespace
  ]

  -- One round of the loop of `channels`.
  unfoldable pub fold_channel : NetworkProfile → Folded ChannelMap → g.EntryBody → Folded ChannelMap
  unfolding known_category apply_channel_entry
  fold_channel profile f body =
      if is_chat body
      then (elim (read p g body profile (known_category body f.found)) [
        | err why ↦ skip (refusal why) f
        | ok e ↦ apply_channel_entry e f
      ])
      else f

  -- The arms of the `match` of `categories` on an entry read.
  unfoldable pub apply_category_entry : ChannelEntry → Folded CategoryMap → Folded CategoryMap
  unfolding change_category
  apply_category_entry e f = elim (subject_category e.subject) [
    | none ↦ f
    | some i ↦ elim e.body [
      | category_definition name at ↦ record f {
        found = insert i (record { id = i; name = name; position = some at }) f.found;
      }
      | category_update change ↦ elim (get i f.found) [
        | none ↦ skip never_defined f
        | some c ↦ record f { found = change_category change i c f.found }
      ]
      | _ ↦ f
    ]
  ]

  -- One round of the loop of `categories`.
  unfoldable pub fold_category :
      NetworkProfile → Folded CategoryMap → g.EntryBody → Folded CategoryMap
  unfolding apply_category_entry
  fold_category profile f body =
      if is_chat body
      then (elim (read p g body profile none) [
        | err why ↦ skip (refusal why) f
        | ok e ↦ apply_category_entry e f
      ])
      else f

  -- The loop, over the hashes of the canonical chain.
  unfoldable pub fold_chain {ℓ} : {A : Type ℓ} → (A → g.EntryBody → A) → g.Log → List Bytes → A → A
  fold_chain step log [] f = f
  fold_chain step log (h ∷ hs) f = elim (g.entry_at log h) [
    | none ↦ fold_chain step log hs f
    | some e ↦ fold_chain step log hs (step f (g.body e))
  ]

  -- What `channels` starts from: the one channel of a conversation.
  unfoldable pub seeded : Bytes → NetworkProfile → ChannelMap
  seeded network NetworkProfile.server = []
  seeded network NetworkProfile.conversation =
      insert (conversation_channel_id p network)
        (record {
          id = conversation_channel_id p network;
          name = codes "conversation";
          category = none;
          kind = ChannelKind.text;
          access = Privacy.public;
          topic = [];
          slowmode = 0;
          archived = false;
          position = some 0;
        })
        []

  -- `channels`, without the cache of its result
  unfoldable pub channels : Bytes → g.Log → g.State → Folded ChannelMap
  unfolding fold_chain fold_channel seeded
  channels network log state =
      let kind_of_network = profile g (g.policy state) in
      fold_chain (fold_channel kind_of_network) log (g.canonical_chain log)
        (record { found = seeded network kind_of_network; refused = [] })

  -- `categories`, likewise
  unfoldable pub categories : g.Log → g.State → Folded CategoryMap
  unfolding fold_chain fold_category
  categories log state =
      fold_chain (fold_category (profile g (g.policy state))) log (g.canonical_chain log)
        (record { found = []; refused = [] })
