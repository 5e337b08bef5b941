-- ===== src/Core/Channel/Admission/Scopes.antt =====
-- Which scopes authorise a channel entry.
use ko_ls.Base.{
  Bool, true, Option, none, some, List, [], ◌∷◌, any, is_some, ◌≡◌, ◌∙◌, ◌⊎◌, inl, inr, refl, arith,
  Bool-cases,
}
use ko_ls.Base.Order.{Bytes, bytes_ord, ◌==◌, ==_iff}
use ko_ls.Base.Text.{codes}
use ko_ls.Base.Result.{ok}
use ko_ls.Platform.{Platform, Governance}
use ko_ls.Platform.Laws.{IsEntryLog}
use ko_ls.Core.Record.{CategoryId, IdentityId}
use ko_ls.Core.Permissions.{Scope, Placement, capability, holds, holds_in_scope}
use ko_ls.Core.Permissions.Grants.{Covers}
use ko_ls.Core.Policy.{NetworkProfile}
use ko_ls.Core.Channel.{
  ChannelEntry, ChannelEntryBody, definition, update, membership, rotation, category_definition,
  category_update, subject_bytes, required_verb, acceptable, within_scopes, EntrySubject,
}
use ko_ls.Core.Channel.Admission.{chat_namespace, admit_entry, first_held, declaration}

-- Where a channel entry's channel sits: a definition says it itself, for others the state does.
unfoldable pub place_of : ChannelEntry → Option CategoryId → Placement
place_of e known = record {
  channel = subject_bytes e.subject;
  category = elim e.body [ definition name within kind access topic slowmode ↦ within | _ ↦ known ];
}

-- A grant at this scope may authorise the entry: for a category's definition the network alone, for a
-- category's update that or the category, for a channel's entry a scope that covers the channel.
unfoldable pub Reaches : ChannelEntry → Option CategoryId → Scope → Type 0
Reaches e known s = elim e.body [
  | category_definition name at ↦ s ≡ Scope.network
  | category_update change ↦ (s ≡ Scope.network) ⊎ (s ≡ Scope.category (subject_bytes e.subject))
  | _ ↦ Covers s (place_of e known)
]

module _ (p : Platform) (g : Governance) where
  within-Covers :
      (test : g.Capability → Bool) (verb i : Bytes) (o : Option CategoryId)
      → any test (within_scopes p g verb i o) ≡ true
      → (s : Scope) × Covers s (record { channel = i; category = o })
        × (test (capability p g s verb) ≡ true)
  within-Covers test verb i none h =
      elim (Bool-cases (test (capability p g (Scope.channel i) verb))) [
        | inl t ↦ (Scope.channel i, refl, t)
        | inr t ↦ (Scope.network, tt, ground arith)
      ]
  within-Covers test verb i (some c) h =
      elim (Bool-cases (test (capability p g (Scope.channel i) verb))) [
        | inl t ↦ (Scope.channel i, refl, t)
        | inr t ↦ elim (Bool-cases (test (capability p g (Scope.category c) verb))) [
          | inl u ↦ (Scope.category c, refl, u)
          | inr u ↦ (Scope.network, tt, ground arith)
        ]
      ]

  acceptable-Reaches :
      (x : EntrySubject) (b : ChannelEntryBody) (known : Option CategoryId)
      (test : g.Capability → Bool)
      → any test (acceptable p g (record { subject = x; body = b }) known) ≡ true
      → (s : Scope) × Reaches (record { subject = x; body = b }) known s
        × (test (capability p g s (required_verb b)) ≡ true)
  unfolding acceptable Reaches place_of
  acceptable-Reaches x (category_definition name at) known test h =
      (Scope.network, refl, ground arith)
  acceptable-Reaches x (category_update change) known test h =
      let verb = required_verb (category_update change) in
      elim (Bool-cases (test (capability p g (Scope.category (subject_bytes x)) verb))) [
        | inl t ↦ (Scope.category (subject_bytes x), inr refl, t)
        | inr t ↦ (Scope.network, inl refl, ground arith)
      ]
  acceptable-Reaches x (definition name within kind access topic slowmode) known test h =
      within-Covers test (codes "create-channel") (subject_bytes x) within h
  acceptable-Reaches x (update change) known test h =
      within-Covers test (codes "manage-channel") (subject_bytes x) known h
  acceptable-Reaches x (membership action who) known test h =
      within-Covers test (codes "manage-channel") (subject_bytes x) known h
  acceptable-Reaches x (rotation commit reason) known test h =
      within-Covers test (codes "manage-channel") (subject_bytes x) known h

  -- The capability declared is one of the entry's verb at a scope that reaches the entry.
  unfoldable pub IsAuthorised : ChannelEntry → Option CategoryId → g.Capability → Type 0
  unfolding Reaches
  IsAuthorised e known declared =
      (s : Scope) × Reaches e known s × (declared ≡ capability p g s (required_verb e.body))

  -- Where equality of capabilities is equality, an entry that passes `admit` declares a capability of its kind's verb at a scope that reaches it, in the chat namespace of a server.
  pub admit_entry-IsAuthorised :
      (e : ChannelEntry) (namespace : Bytes) (declared : g.Capability) (profile : NetworkProfile)
      (known : Option CategoryId)
      → IsEntryLog g
      → admit_entry p g e namespace declared profile known ≡ ok tt
      → (namespace ≡ chat_namespace)
        × (profile ≡ NetworkProfile.server)
        × IsAuthorised e known declared
  unfolding admit_entry IsAuthorised
  admit_entry-IsAuthorised e namespace declared profile known y h =
      let ours : (namespace == chat_namespace) ≡ true = ground arith in
      let among : any (g.same_capability declared) (acceptable p g e known) ≡ true = ground arith in
      let (s, r, t) =
        acceptable-Reaches e.subject e.body known (g.same_capability declared) among in
      (
        (==_iff namespace chat_namespace).0 ours,
        ground arith,
        (s, r, (y.same_capability-iff declared (capability p g s (required_verb e.body))).0 t),
      )

  is_some-first_held :
      (state : g.State) (author : IdentityId) (cs : List g.Capability)
      → is_some (first_held p g state author cs) ≡ any (g.identity_holds state author) cs
  unfolding first_held
  is_some-first_held state author [] = refl
  is_some-first_held state author (c ∷ cs) = ground (arith, is_some-first_held state author cs)

  -- What the permissions of crates/kols-core/src/permissions.rs say of the entry's author.
  unfoldable pub permitted : g.State → IdentityId → ChannelEntry → Option CategoryId → Bool
  unfolding place_of
  permitted state author e known = elim e.body [
    | category_definition name at ↦ holds_in_scope p g state author (required_verb e.body) none
    | category_update change ↦
        holds_in_scope p g state author (required_verb e.body) (some (subject_bytes e.subject))
    | _ ↦ holds p g state author (required_verb e.body) (place_of e known)
  ]

  any-within :
      (state : g.State) (author : IdentityId) (verb i : Bytes) (o : Option CategoryId)
      → any (g.identity_holds state author) (within_scopes p g verb i o)
        ≡ holds p g state author verb (record { channel = i; category = o })
  unfolding holds holds_in_scope
  any-within state author verb i none = ground arith
  any-within state author verb i (some c) = ground arith

  any-acceptable :
      (state : g.State) (author : IdentityId) (x : EntrySubject) (b : ChannelEntryBody)
      (known : Option CategoryId)
      → any
          (g.identity_holds state author)
          (acceptable p g (record { subject = x; body = b }) known)
        ≡ permitted state author (record { subject = x; body = b }) known
  unfolding acceptable permitted holds_in_scope
  any-acceptable state author x (category_definition name at) known = ground arith
  any-acceptable state author x (category_update change) known = ground arith
  any-acceptable state author x (definition name within kind access topic slowmode) known =
      any-within state author (codes "create-channel") (subject_bytes x) within
  any-acceptable state author x (update change) known =
      any-within state author (codes "manage-channel") (subject_bytes x) known
  any-acceptable state author x (membership action who) known =
      any-within state author (codes "manage-channel") (subject_bytes x) known
  any-acceptable state author x (rotation commit reason) known =
      any-within state author (codes "manage-channel") (subject_bytes x) known

  -- An author finds something to declare for an entry exactly if the permissions let it: a verb held
  -- where the channel sits for a channel's entry, at the category or above for a category's update,
  -- and at the network for a category's definition.
  pub declaration-permitted :
      (state : g.State) (author : IdentityId) (e : ChannelEntry) (known : Option CategoryId)
      → is_some (declaration p g e state author known) ≡ permitted state author e known
  unfolding declaration
  declaration-permitted state author e known =
      is_some-first_held state author (acceptable p g e known)
      ∙ any-acceptable state author e.subject e.body known
