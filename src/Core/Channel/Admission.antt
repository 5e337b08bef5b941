-- ===== src/Core/Channel/Admission.antt =====
-- Which channel entries count: `admit`, `declaration`, `to_app_entry` and `read` of
-- crates/kols-core/src/channel.rs.
pub mod Scopes
pub mod Published
use ko_ls.Base.{Bool, true, false, not, Option, none, some, List, [], ◌∷◌, any, if◌then◌else◌}
use ko_ls.Base.Order.{Bytes, bytes_ord, ◌==◌}
use ko_ls.Base.Text.{codes}
use ko_ls.Base.Result.{Result, ok, err, ◌>>=◌, ◌>>◌, guard, map_err}
use ko_ls.Platform.{Platform, Governance}
use ko_ls.Core.Errors.{CoreError}
use ko_ls.Core.Record.{CategoryId, IdentityId}
use ko_ls.Core.Policy.{NetworkProfile}
use ko_ls.Core.Channel.{ChannelEntry, entry_kind, required, acceptable, check_entry}
use ko_ls.Core.Channel.Codec.{encode_entry, decode_entry}

abbrev pub chat_namespace : Bytes
chat_namespace = codes "chat"

-- What `Malformed` says, before it is rendered as text.
pub data Complaint : Type 0 where
  ill_formed_name : Complaint
  of_error : CoreError → Complaint

abbrev pub is_server : NetworkProfile → Bool
is_server NetworkProfile.server = true
is_server NetworkProfile.conversation = false

module _ (p : Platform) (g : Governance) where
  -- `wrong_capability` holds the capability declared and the one required.
  pub data ChannelRefusal : Type 0 where
    not_an_app_entry : ChannelRefusal
    malformed : Complaint → ChannelRefusal
    not_a_server : ChannelRefusal
    wrong_capability : g.Capability → g.Capability → ChannelRefusal
    foreign_namespace : Bytes → ChannelRefusal

  -- `admit`
  unfoldable pub admit_entry :
      ChannelEntry
      → Bytes
      → g.Capability
      → NetworkProfile
      → Option CategoryId
      → Result ChannelRefusal (Unit {0})
  unfolding acceptable required
  admit_entry e namespace declared profile known = do
    guard (namespace == chat_namespace) (foreign_namespace namespace)
    guard (is_server profile) not_a_server
    guard (any (g.same_capability declared) (acceptable p g e known))
        (wrong_capability declared (required p g e))

  -- `into_iter().find(|capability| state.identity_holds(author, capability))`
  unfoldable pub first_held : g.State → IdentityId → List g.Capability → Option g.Capability
  first_held state author [] = none
  first_held state author (c ∷ cs) =
      let later = first_held state author cs in
      if g.identity_holds state author c then some c else later

  -- `ChannelEntry::declaration`
  unfoldable pub declaration :
      ChannelEntry → g.State → IdentityId → Option CategoryId → Option g.Capability
  unfolding first_held acceptable
  declaration e state author known = first_held state author (acceptable p g e known)

  -- `ChannelEntry::to_app_entry`
  unfoldable pub to_app_entry :
      ChannelEntry → g.State → IdentityId → Option CategoryId → Result ChannelRefusal g.EntryBody
  unfolding declaration required
  to_app_entry e state author known = elim (declaration e state author known) [
    | none ↦ err (wrong_capability (g.extension []) (required p g e))
    | some declared ↦
        ok (g.app_entry chat_namespace (entry_kind e.body) declared (encode_entry p e))
  ]

  abbrev pub complain : {A : Type 0} → Result CoreError A → Result ChannelRefusal A
  complain = map_err (λ e. malformed (of_error e))

  -- What `read` does with the parts of an application entry.
  unfoldable pub read_parts :
      Bytes
      → Bytes
      → g.Capability
      → Bytes
      → NetworkProfile
      → Option CategoryId
      → Result ChannelRefusal ChannelEntry
  unfolding admit_entry
  read_parts namespace kind declared payload profile known = do
    guard (g.is_valid_app_entry_name namespace kind) (malformed ill_formed_name)
    guard (namespace == chat_namespace) (foreign_namespace namespace)
    e ← complain (decode_entry p kind payload)
    complain (check_entry e)
    admit_entry e namespace declared profile known
    ok e

  -- `ChannelEntry::read`
  unfoldable pub read :
      g.EntryBody → NetworkProfile → Option CategoryId → Result ChannelRefusal ChannelEntry
  unfolding read_parts
  read body profile known = elim (g.as_app_entry body) [
    | none ↦ err not_an_app_entry
    | some (namespace, kind, declared, payload) ↦
        read_parts namespace kind declared payload profile known
  ]
