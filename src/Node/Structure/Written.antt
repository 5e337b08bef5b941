-- ===== src/Node/Structure/Written.antt =====
-- Authorised changes of channels, written and replayed.
use ko_ls.Base.{
  true, Option, none, some, length, if◌then◌else◌, ◌≡◌, ◌∙◌, refl, ap, inl, inr, arith, Bool-cases,
  Option-cases,
}
use ko_ls.Base.Order.{Bytes, bytes_ord, ◌==◌, ==_refl}
use ko_ls.Base.Text.{codes}
use ko_ls.Base.Result.{ok, Result-cases}
use ko_ls.Base.BTreeMap.{get}
use ko_ls.Base.BTreeMap.Laws.{get-insert, get-remove}
use ko_ls.Platform.{Platform, Governance, Unicode}
use ko_ls.Platform.Laws.{IsCodec, IsEntryLog}
use ko_ls.Core.Record.{ChannelId}
use ko_ls.Core.Permissions.{Placement, holds}
use ko_ls.Core.Policy.{NetworkProfile, profile, allows_channel_definitions}
use ko_ls.Core.Channel.{
  of_channel, ChannelChange, ChannelEntry, entry_kind, update, check_entry, subject_channel, agrees,
  required_verb,
}
use ko_ls.Core.Channel.Codec.{encode_entry, decode_payload}
use ko_ls.Core.Channel.Codec.RoundTrip.{IsEntry, IsChannelChange, decode_entry-encode_entry}
use ko_ls.Core.Channel.Admission.{chat_namespace, read}
use ko_ls.Core.Channel.Admission.Scopes.{permitted, place_of}
use ko_ls.Core.Channel.Admission.Published.{decode_payload-ok, read-to_app_entry}
use ko_ls.Api.Command.{Command}
use ko_ls.Api.Gate.{Actor, check_change}
use ko_ls.Api.Authorize.{authorize, check_command}
use ko_ls.Node.Structure.{
  Channel, ChannelMap, Folded, change_channel, fold_channel, apply_channel_entry, channel_of,
  channel_read, and_then, known_category, is_chat,
}
use ko_ls.Node.Entries.{update_channel_entry}

-- The channel that a change asks for; none is left of a deleted one.
abbrev pub asked : ChannelChange → Channel → Option Channel
asked (ChannelChange.rename new) c = some (record c { name = new })
asked (ChannelChange.recategorise to) c = some (record c { category = to })
asked (ChannelChange.set_topic new) c = some (record c { topic = new })
asked (ChannelChange.set_slowmode seconds) c = some (record c { slowmode = seconds })
asked (ChannelChange.set_position at) c = some (record c { position = some at })
asked ChannelChange.archive c = some (record c { archived = true })
asked ChannelChange.delete c = none

get-change_channel :
    (q i : ChannelId) (change : ChannelChange) (c : Channel) (m : ChannelMap)
    → get q (change_channel change i c m) ≡ (if q == i then asked change c else get q m)
unfolding change_channel
get-change_channel q i (ChannelChange.rename new) c m = get-insert q i _ m
get-change_channel q i (ChannelChange.recategorise to) c m = get-insert q i _ m
get-change_channel q i (ChannelChange.set_topic new) c m = get-insert q i _ m
get-change_channel q i (ChannelChange.set_slowmode seconds) c m = get-insert q i _ m
get-change_channel q i (ChannelChange.set_position at) c m = get-insert q i _ m
get-change_channel q i ChannelChange.archive c m = get-insert q i _ m
get-change_channel q i ChannelChange.delete c m = get-remove q i m

module _ (p : Platform) (g : Governance) where
  server_of :
      (q : g.Policy) → allows_channel_definitions g q ≡ true → profile g q ≡ NetworkProfile.server
  unfolding allows_channel_definitions
  server_of q h = ground arith

  -- A round on an entry that is read.
  fold_channel-read :
      (sort : NetworkProfile) (f : Folded p g ChannelMap) (body : g.EntryBody) (kind : Bytes)
      (c : g.Capability) (payload : Bytes) (e : ChannelEntry)
      → g.as_app_entry body ≡ some (chat_namespace, kind, c, payload)
      → read p g body sort (known_category p g body f.found) ≡ ok e
      → fold_channel p g sort f body ≡ apply_channel_entry p g e f
  unfolding fold_channel
  fold_channel-read sort f body kind c payload e opened h =
      let ours : is_chat p g body ≡ true = rw (opened, is_chat) (==_refl chat_namespace) in
      rw (ours, h) refl

  channel_of-entry :
      (body : g.EntryBody) (kind : Bytes) (c : g.Capability) (payload : Bytes) (e : ChannelEntry)
      → g.as_app_entry body ≡ some (chat_namespace, kind, c, payload)
      → decode_payload p payload ≡ ok e
      → channel_of p g body ≡ subject_channel e.subject
  unfolding channel_of
  channel_of-entry body kind c payload e opened h =
      ap (λ o. and_then o (λ parts. channel_read p g (decode_payload p parts.3))) opened
      ∙ ap (channel_read p g) h

  -- A round on the entry of a change to a channel that the replay has.
  fold_channel-update :
      (sort : NetworkProfile) (f : Folded p g ChannelMap) (body : g.EntryBody) (kind : Bytes)
      (declared : g.Capability) (payload : Bytes) (channel : ChannelId) (change : ChannelChange)
      (c : Channel)
      → g.as_app_entry body ≡ some (chat_namespace, kind, declared, payload)
      → decode_payload p payload
        ≡ ok (record { subject = of_channel channel; body = update change })
      → read p g body sort c.category
        ≡ ok (record { subject = of_channel channel; body = update change })
      → get channel f.found ≡ some c
      → fold_channel p g sort f body ≡ record f { found = change_channel change channel c f.found }
  unfolding known_category apply_channel_entry
  fold_channel-update sort f body kind declared payload channel change c opened decoded readable
        there =
      let e : ChannelEntry = record { subject = of_channel channel; body = update change } in
      let its : channel_of p g body ≡ some channel =
        channel_of-entry body kind declared payload e opened decoded in
      let known : known_category p g body f.found ≡ c.category =
        rw (its, there, known_category) refl in
      fold_channel-read sort f body kind declared payload e opened (rw known readable)
      ∙ rw (there, apply_channel_entry) refl

module _ (p : Platform) (g : Governance) (u : Unicode) (actor : Actor g) where
  authorised_change :
      (channel : ChannelId) (change : ChannelChange) (d : Command g)
      → authorize p g u actor (Command.update_channel channel change) ≡ ok d
      → (allows_channel_definitions g (g.policy actor.state) ≡ true)
        × (place : Placement) × (actor.channels channel ≡ some place)
        × (holds p g actor.state actor.identity (codes "manage-channel") place ≡ true)
        × (check_change p g u actor change ≡ ok tt)
  unfolding authorize check_command
  authorised_change channel change d h =
      elim (Bool-cases (allows_channel_definitions g (g.policy actor.state))) [
        | inr closed ↦ absurd (ground arith)
        | inl open_server ↦ elim (Option-cases (actor.channels channel)) [
          | inl missing ↦ absurd (ground arith)
          | inr (place, found) ↦
              elim (Bool-cases
                (holds p g actor.state actor.identity (codes "manage-channel") place)) [
                  | inr free ↦ absurd (ground arith)
                  | inl held ↦ elim (Result-cases (check_change p g u actor change)) [
                    | inl (why, bad) ↦ absurd (ground arith)
                    | inr (done, fine) ↦ (open_server, place, found, held, fine)
                  ]
                ]
        ]
      ]

  check_change-check_entry :
      (channel : ChannelId) (change : ChannelChange)
      → check_change p g u actor change ≡ ok tt
      → check_entry (record { subject = of_channel channel; body = update change }) ≡ ok tt
  unfolding check_change check_entry
  check_change-check_entry channel (ChannelChange.rename text) h = ground arith
  check_change-check_entry channel (ChannelChange.set_topic topic) h = ground arith
  check_change-check_entry channel _ h = refl

  -- Where the codec and the governance read back what they write, and the kind's name is well formed: an authorised
  -- change, of fields that have the sizes of their types, to a channel that the replay has and that the actor sees in
  -- its category, is written as an entry that every node's replay accepts, and by which that channel
  -- becomes what the change asks for, or is gone where it asks to delete it, every other channel stays, and nothing is refused.
  pub update_channel-replayed :
      (IsText : Bytes → Type 0) (q channel : ChannelId) (change : ChannelChange) (d : Command g)
      (f : Folded p g ChannelMap) (c : Channel)
      → IsCodec p IsText
      → IsEntryLog g
      → g.is_valid_app_entry_name chat_namespace (codes "channel-update") ≡ true
      → length channel ≡ 32
      → IsChannelChange p IsText change
      → get channel f.found ≡ some c
      → actor.channels channel ≡ some (record { channel = channel; category = c.category })
      → authorize p g u actor (Command.update_channel channel change) ≡ ok d
      → (body : g.EntryBody) × (update_channel_entry p g channel change f.found actor.state
            actor.identity
          ≡ ok body)
        × (get q (fold_channel p g (profile g (g.policy actor.state)) f body).found
            ≡ (if q == channel then asked change c else get q f.found))
        × ((fold_channel p g (profile g (g.policy actor.state)) f body).refused ≡ f.refused)
  unfolding update_channel_entry permitted place_of required_verb agrees entry_kind
  update_channel-replayed IsText q channel change d f c k y n len sized there seen h =
      let e : ChannelEntry = record { subject = of_channel channel; body = update change } in
      let (server, place, found, held, fine) = authorised_change channel change d h in
      let at : place ≡ record { channel = channel; category = c.category } = cc in
      let may : permitted p g actor.state actor.identity e c.category ≡ true = rw at at held in
      let sizes : IsEntry p IsText e = record { subject_len = len; body = sized; agreed = refl } in
      let (declared, body, holding, opened, published, readable) =
        read-to_app_entry p g e actor.state actor.identity c.category IsText k y sizes
          (check_change-check_entry channel change fine) n may in
      let folded : fold_channel p g (profile g (g.policy actor.state)) f body
          ≡ record f { found = change_channel change channel c f.found } =
        rw (server_of p g (g.policy actor.state) server) (
          fold_channel-update p g NetworkProfile.server f body (codes "channel-update") declared
            (encode_entry p e) channel change c opened
            (decode_payload-ok p g (codes "channel-update") (encode_entry p e) e
              (decode_entry-encode_entry p IsText k e sizes))
            readable there) in
      (
        body,
        rw (there, update_channel_entry) published,
        ap (λ after. get q after.found) folded ∙ get-change_channel q channel change c f.found,
        ap (λ after. after.refused) folded,
      )
