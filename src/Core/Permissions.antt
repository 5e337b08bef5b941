-- ===== src/Core/Permissions.antt =====
-- Permission resolution: crates/kols-core/src/permissions.rs and capabilities.rs.
pub mod Names
pub mod Grants
pub mod Heads
use mathlib.Core.List.{reverse}
use ko_ls.Base.{
  ℕ, zero, suc, Bool, true, false, ◌&&◌, ◌||◌, Option, none, some, List, [], ◌∷◌, ◌++◌, any,
}
use ko_ls.Base.Order.{Bytes, bytes_ord, ◌==◌}
use ko_ls.Base.Text.{codes}
use ko_ls.Base.BTreeMap.{BTreeMap, get, insert}
use ko_ls.Platform.{Platform, Governance}
use ko_ls.Core.Record.{ChannelId, CategoryId, IdentityId, Hash}

pub data Tier : Type 0 where
  ordinary governance : Tier

-- `capabilities::VERBS`
abbrev pub verbs : List (Bytes × Tier)
verbs =
    (codes "create-channel", ordinary)
    ∷ (codes "post", ordinary)
    ∷ (codes "read", ordinary)
    ∷ (codes "set-name", ordinary)
    ∷ (codes "connect-voice", ordinary)
    ∷ (codes "speak-voice", ordinary)
    ∷ (codes "manage-channel", governance)
    ∷ (codes "moderate", governance)
    ∷ []

unfoldable pub is_verb : Bytes → Bool
is_verb verb = any (λ v. v.0 == verb) verbs

pub record Placement : Type 0 where
  pub channel : ChannelId
  pub category : Option CategoryId

pub data Scope : Type 0 where
  network : Scope
  category : CategoryId → Scope
  channel : ChannelId → Scope

abbrev pub chat_log_content_type : Bytes
chat_log_content_type = codes "chat-log"

-- `Scope::name`
unfoldable pub scope_name : Platform → Scope → Bytes → Bytes
scope_name p Scope.network verb = codes "chat:" ++ (verb ++ codes ":*")
scope_name p (Scope.category i) verb = codes "chat:" ++ (verb ++ (codes ":cat:" ++ p.to_hex i))
scope_name p (Scope.channel i) verb = codes "chat:" ++ (verb ++ (codes ":" ++ p.to_hex i))

-- `Authority`: what a reader asks about the identities behind records.
pub record Authority : Type 0 where
  pub is_member : IdentityId → Bool
  pub may_post : IdentityId → Placement → Bool
  pub may_moderate_at : IdentityId → Placement → Hash → Bool
  pub may_moderate_now : IdentityId → Placement → Bool

-- Where a walk along the parents ended: at the first entry, at an entry that the log lacks, or
-- nowhere within its fuel.
pub data Walked (A : Type 0) : Type 0 where
  arrived : A → Walked A
  missing : Walked A
  out_of_fuel : Walked A

module _ (p : Platform) (g : Governance) where
  -- `Scope::capability`
  unfoldable pub capability : Scope → Bytes → g.Capability
  unfolding scope_name
  capability s verb = g.extension (scope_name p s verb)

  unfoldable pub holds_in_scope : g.State → IdentityId → Bytes → Option CategoryId → Bool
  unfolding capability
  holds_in_scope state i verb none = g.identity_holds state i (capability Scope.network verb)
  holds_in_scope state i verb (some c) =
      g.identity_holds state i (capability (Scope.category c) verb)
      || g.identity_holds state i (capability Scope.network verb)

  unfoldable pub holds : g.State → IdentityId → Bytes → Placement → Bool
  unfolding capability holds_in_scope
  holds state i verb place =
      g.identity_holds state i (capability (Scope.channel place.channel) verb)
      || holds_in_scope state i verb place.category

  unfoldable pub posts : g.State → IdentityId → Placement → Bool
  unfolding holds
  posts state i place =
      g.identity_holds state i (g.publish chat_log_content_type)
      && holds state i (codes "post") place

  unfoldable pub moderates : g.State → IdentityId → Placement → Bool
  unfolding holds
  moderates state i place =
      g.identity_holds state i g.moderate_content || holds state i (codes "moderate") place

  -- `StateAuthority`
  unfoldable pub state_authority : g.State → Authority
  unfolding posts moderates
  state_authority state = record {
    is_member = g.is_member state;
    may_post = posts state;
    may_moderate_at = λ i place head. false;
    may_moderate_now = moderates state;
  }

  -- The loop of `chain_to`; `chain` holds what was pushed so far.
  unfoldable pub climb : ℕ → g.Log → Option Hash → List g.LogEntry → Walked (List g.LogEntry)
  climb fuel log none chain = arrived chain
  climb zero log (some h) chain = out_of_fuel
  climb (suc fuel) log (some h) chain = elim (g.entry_at log h) [
    | none ↦ missing
    | some e ↦ climb fuel log (g.parent e) (chain ++ e ∷ [])
  ]

  -- `LogAuthority::chain_to`: oldest first
  unfoldable pub chain_to : ℕ → g.Log → Hash → Walked (List g.LogEntry)
  unfolding climb
  chain_to fuel log head = elim (climb fuel log (some head) []) [
    | arrived chain ↦ arrived (reverse chain)
    | missing ↦ missing
    | out_of_fuel ↦ out_of_fuel
  ]

  -- What the closure of `state_at` computes for a head that the cache lacks.
  unfoldable pub replayed : ℕ → g.Log → Hash → Option g.State
  unfolding chain_to
  replayed fuel log head = elim (chain_to fuel log head) [
    | arrived chain ↦ g.replay chain
    | missing ↦ none
    | out_of_fuel ↦ none
  ]

  abbrev pub is_some_and : Option g.State → (g.State → Bool) → Bool
  is_some_and none ask = false
  is_some_and (some state) ask = ask state

  abbrev pub Cache : Type 0
  Cache = BTreeMap Hash (Option g.State)

  -- `LogAuthority::state_at`: the answer, and the cache after it.
  unfoldable pub state_at : ℕ → g.Log → Cache → Hash → (g.State → Bool) → Bool × Cache
  unfolding replayed
  state_at fuel log cache head ask = elim (get head cache) [
    | some known ↦ (is_some_and known ask, cache)
    | none ↦ (is_some_and (replayed fuel log head) ask, insert head (replayed fuel log head) cache)
  ]

  -- `LogAuthority`, with its cache as it stands when it is asked.
  unfoldable pub log_authority : ℕ → g.State → g.Log → Cache → Authority
  unfolding posts moderates state_at
  log_authority fuel state log cache = record {
    is_member = g.is_member state;
    may_post = posts state;
    may_moderate_at =
        λ i place head. (state_at fuel log cache head (λ past. moderates past i place)).0;
    may_moderate_now = moderates state;
  }
