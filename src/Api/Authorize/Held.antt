-- ===== src/Api/Authorize/Held.antt =====
-- What the actor of an authorised command holds.
use ko_ls.Base.{
  Bool, true, Option, none, some, ◌≡◌, ◌⊎◌, refl, sym, ap, ◌∙◌, subst, inl, inr, arith,
  Option-cases, Bool-cases,
}
use ko_ls.Base.Order.{Bytes, bytes_ord}
use ko_ls.Base.Text.{codes}
use ko_ls.Base.Result.{Result, ok, err, Result-cases, guard, ok_or, ◌>>=◌, ◌>>◌}
use ko_ls.Platform.{Platform, Governance, Unicode}
use ko_ls.Core.Record.{ChannelId, CategoryId}
use ko_ls.Core.Permissions.{
  Scope, Placement, capability, holds, holds_in_scope, posts, state_authority,
}
use ko_ls.Core.Permissions.Grants.{Covers, holds-cases}
use ko_ls.Api.Command.{Command, command_verb}
use ko_ls.Api.Gate.{Actor, Refusal, no_such_channel}
use ko_ls.Api.Authorize.{authorize, check_command}

module _ (p : Platform) (g : Governance) (u : Unicode) (actor : Actor g) where
  CoversChannel : ChannelId → Scope → Type 0
  CoversChannel channel s =
      (place : Placement) × (actor.channels channel ≡ some place) × Covers s place

  Encloses : Option CategoryId → Scope → Type 0
  Encloses category Scope.network = Unit
  Encloses category (Scope.category c) = category ≡ some c
  Encloses category (Scope.channel c) = ⊥

  -- A grant at this scope reaches what the command is about.
  unfoldable pub ReachesCommand : Command g → Scope → Type 0
  unfolding CoversChannel Encloses
  ReachesCommand (Command.open_channel channel reach) = CoversChannel channel
  ReachesCommand (Command.fetch_history channel before) = CoversChannel channel
  ReachesCommand (Command.send_message channel body reply_to attachments) = CoversChannel channel
  ReachesCommand (Command.edit_message channel target body) = CoversChannel channel
  ReachesCommand (Command.delete_message channel target) = CoversChannel channel
  ReachesCommand (Command.react channel target emoji off) = CoversChannel channel
  ReachesCommand (Command.pin channel target off) = CoversChannel channel
  ReachesCommand (Command.create_channel text category access topic) = Encloses category
  ReachesCommand (Command.update_channel channel change) = CoversChannel channel
  ReachesCommand (Command.create_category text at) = Encloses none
  ReachesCommand (Command.update_category category change) = Encloses (some category)
  ReachesCommand (Command.set_name claimed) = Encloses none
  ReachesCommand _ = λ s. ⊥

  channel_scope :
      (channel : ChannelId) (verb : Bytes) (place : Placement)
      → actor.channels channel ≡ some place
      → holds p g actor.state actor.identity verb place ≡ true
      → (s : Scope) × CoversChannel channel s
        × (g.identity_holds actor.state actor.identity (capability p g s verb) ≡ true)
  unfolding CoversChannel
  channel_scope channel verb place e h =
      let (s, c, held) = holds-cases p g actor.state actor.identity verb place h in
      (s, (place, e, c), held)

  posts-holds :
      (place : Placement)
      → posts p g actor.state actor.identity place ≡ true
      → holds p g actor.state actor.identity (codes "post") place ≡ true
  unfolding posts
  posts-holds place h = ground arith

  enclosing_scope :
      (verb : Bytes) (category : Option CategoryId)
      → holds_in_scope p g actor.state actor.identity verb category ≡ true
      → (s : Scope) × Encloses category s
        × (g.identity_holds actor.state actor.identity (capability p g s verb) ≡ true)
  unfolding Encloses holds_in_scope
  enclosing_scope verb none h = (Scope.network, tt, h)
  enclosing_scope verb (some c) h =
      elim (Bool-cases
        (g.identity_holds actor.state actor.identity (capability p g (Scope.category c) verb))) [
          | inl held ↦ (Scope.category c, refl, held)
          | inr free ↦ (Scope.network, tt, ground arith)
        ]

  -- A check that begins by looking its channel up.
  placed :
      (channel : ChannelId) (next : Placement → Result Refusal (Unit {0}))
      → (ok_or (actor.channels channel) (no_such_channel channel) >>= next) ≡ ok tt
      → (place : Placement) × (actor.channels channel ≡ some place) × (next place ≡ ok tt)
  placed channel next h = elim (Option-cases (actor.channels channel)) [
    | inl bad ↦ absurd (ground arith)
    | inr (place, found) ↦ (place, found, ground arith)
  ]

  first_check : (m rest : Result Refusal (Unit {0})) → (m >> rest) ≡ ok tt → m ≡ ok tt
  first_check (err e) rest h = cc
  first_check (ok done) rest h = refl

  second_check : (m rest : Result Refusal (Unit {0})) → (m >> rest) ≡ ok tt → rest ≡ ok tt
  second_check (err e) rest h = cc
  second_check (ok done) rest h = h

  held_of_guard : (b : Bool) (e : Refusal) → guard b e ≡ ok tt → b ≡ true
  held_of_guard b e h = ground arith

  channel_held :
      (channel : ChannelId) (verb : Bytes) (why : Refusal)
      → (ok_or (actor.channels channel) (no_such_channel channel) >>= λ place.
          guard (holds p g actor.state actor.identity verb place) why)
        ≡ ok tt
      → (s : Scope) × CoversChannel channel s
        × (g.identity_holds actor.state actor.identity (capability p g s verb) ≡ true)
  channel_held channel verb why h =
      let (place, found, held) = placed channel _ h in
      channel_scope channel verb place found (held_of_guard _ why held)

  post_held :
      (channel : ChannelId) (why : Refusal)
      → actor.authority ≡ state_authority p g actor.state
      → (ok_or (actor.channels channel) (no_such_channel channel) >>= λ place.
          guard (actor.authority.may_post actor.identity place) why)
        ≡ ok tt
      → (s : Scope) × CoversChannel channel s
        × (g.identity_holds actor.state actor.identity (capability p g s (codes "post")) ≡ true)
  unfolding state_authority
  post_held channel why a h =
      let (place, found, held) = placed channel _ h in
      let may : posts p g actor.state actor.identity place ≡ true =
        ap (λ x. x.may_post actor.identity place) (sym a) ∙ held_of_guard _ why held in
      channel_scope channel (codes "post") place found (posts-holds place may)

  -- The actor holds the verb, if there is one, where it counts for the command, or for the verb `moderate`
  -- the protocol's own right to moderate.
  unfoldable pub IsHolding : Command g → Option Bytes → Type 0
  unfolding ReachesCommand
  IsHolding c none = Unit
  IsHolding c (some verb) =
      ((s : Scope) × ReachesCommand c s
        × (g.identity_holds actor.state actor.identity (capability p g s verb) ≡ true))
      ⊎ (verb ≡ codes "moderate")
        × (g.identity_holds actor.state actor.identity g.moderate_content ≡ true)

  check_command-IsHolding :
      (c : Command g)
      → actor.authority ≡ state_authority p g actor.state
      → check_command p g u actor c ≡ ok tt
      → IsHolding c (command_verb g c)
  unfolding check_command command_verb IsHolding
  check_command-IsHolding (Command.open_channel channel reach) a h =
      inl (channel_held channel (codes "read") _ h)
  check_command-IsHolding (Command.fetch_history channel before) a h =
      inl (channel_held channel (codes "read") _ h)
  check_command-IsHolding (Command.send_message channel body reply_to attachments) a h =
      inl (post_held channel _ a (first_check _ _ h))
  check_command-IsHolding (Command.edit_message channel target body) a h =
      inl (post_held channel _ a (first_check _ _ h))
  check_command-IsHolding (Command.delete_message channel target) a h =
      inl (post_held channel _ a h)
  check_command-IsHolding (Command.react channel target emoji off) a h =
      inl (post_held channel _ a (first_check _ _ h))
  check_command-IsHolding (Command.pin channel target off) a h =
      let (place, found, allowed) = placed channel _ h in
      elim (Bool-cases (holds p g actor.state actor.identity (codes "moderate") place)) [
        | inl held ↦ inl (channel_scope channel (codes "moderate") place found held)
        | inr free ↦ inr (refl, ground arith)
      ]
  check_command-IsHolding (Command.create_channel text category access topic) a h = inl (
      enclosing_scope (codes "create-channel") category
        (held_of_guard _ _ (first_check _ _ (second_check _ _ h))))
  check_command-IsHolding (Command.update_channel channel change) a h =
      let (place, found, allowed) = placed channel _ (second_check _ _ h) in
      inl (
        channel_scope channel (codes "manage-channel") place found
          (held_of_guard _ _ (first_check _ _ allowed)))
  check_command-IsHolding (Command.create_category text at) a h = inl (
      enclosing_scope (codes "manage-channel") none
        (held_of_guard _ _ (first_check _ _ (second_check _ _ h))))
  check_command-IsHolding (Command.update_category category change) a h = inl (
      enclosing_scope (codes "manage-channel") (some category)
        (held_of_guard _ _ (first_check _ _ (second_check _ _ h))))
  check_command-IsHolding (Command.set_name claimed) a h =
      inl (enclosing_scope (codes "set-name") none (held_of_guard _ _ (first_check _ _ h)))
  check_command-IsHolding _ a h = tt

  -- Where the actor's authority is that of its state, an authorised command that has a verb comes of
  -- an actor that holds the verb at a scope that reaches what the command is about: the channel where
  -- it sits, or the category or the network that encloses a new one; a pin may also come of one
  -- that may moderate content. The command is given back unchanged.
  pub authorize-IsHolding :
      (c authorised : Command g) (verb : Bytes)
      → actor.authority ≡ state_authority p g actor.state
      → authorize p g u actor c ≡ ok authorised
      → command_verb g c ≡ some verb
      → (authorised ≡ c) × IsHolding c (some verb)
  unfolding authorize
  authorize-IsHolding c authorised verb a h v = elim (Result-cases (check_command p g u actor c)) [
    | inl (why, bad) ↦ absurd (ground arith)
    | inr (done, good) ↦ (ground arith, subst (IsHolding c) v (check_command-IsHolding c a good))
  ]
