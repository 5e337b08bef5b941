-- ===== src/Core/Permissions/Grants.antt =====
-- What one grant opens.
use ko_ls.Base.{true, Option, none, some, ◌≡◌, ◌↔◌, refl, arith, inl, inr, Bool-cases, subst}
use ko_ls.Base.Order.{Bytes, bytes_ord}
use ko_ls.Platform.{Platform, Governance}
use ko_ls.Platform.Laws.{IsHex, IsExtending}
use ko_ls.Core.Record.{IdentityId, CategoryId}
use ko_ls.Core.Permissions.{
  Scope, Placement, scope_name, is_verb, capability, holds, holds_in_scope,
}
use ko_ls.Core.Permissions.Names.{scope_name-injective}

-- The scope takes in the channel at this place.
abbrev pub Covers : Scope → Placement → Type 0
Covers Scope.network place = Unit
Covers (Scope.category c) place = place.category ≡ some c
Covers (Scope.channel c) place = place.channel ≡ c

module _ (p : Platform) (g : Governance) where
  capability-injective :
      (s t : Scope) (verb other : Bytes)
      → IsHex p
      → IsExtending g
      → is_verb verb ≡ true
      → is_verb other ≡ true
      → capability p g s verb ≡ capability p g t other
      → (s ≡ t) × (verb ≡ other)
  unfolding capability
  capability-injective s t verb other x y h k e =
      scope_name-injective p s t verb other x h k
        (y.extension-injective (scope_name p s verb) (scope_name p t other) e)

  pub in_scope-cases :
      (state : g.State) (i : IdentityId) (verb : Bytes) (place : Placement) (o : Option CategoryId)
      → place.category ≡ o
      → holds_in_scope p g state i verb o ≡ true
      → (s : Scope) × Covers s place × (g.identity_holds state i (capability p g s verb) ≡ true)
  unfolding holds_in_scope
  in_scope-cases state i verb place none e h = (Scope.network, tt, h)
  in_scope-cases state i verb place (some c) e h =
      elim (Bool-cases (g.identity_holds state i (capability p g (Scope.category c) verb))) [
        | inl held ↦ (Scope.category c, e, held)
        | inr free ↦ (Scope.network, tt, ground arith)
      ]

  -- A holding goes through one of the three scopes that cover the place.
  pub holds-cases :
      (state : g.State) (i : IdentityId) (verb : Bytes) (place : Placement)
      → holds p g state i verb place ≡ true
      → (s : Scope) × Covers s place × (g.identity_holds state i (capability p g s verb) ≡ true)
  unfolding holds
  holds-cases state i verb place h =
      elim (Bool-cases
        (g.identity_holds state i (capability p g (Scope.channel place.channel) verb))) [
          | inl held ↦ (Scope.channel place.channel, refl, held)
          | inr free ↦ in_scope-cases state i verb place place.category refl (ground arith)
        ]

  pub holds-Covers :
      (state : g.State) (i : IdentityId) (verb : Bytes) (place : Placement) (s : Scope)
      → Covers s place
      → g.identity_holds state i (capability p g s verb) ≡ true
      → holds p g state i verb place ≡ true
  unfolding holds
  holds-Covers state i verb place Scope.network c h = ground arith
  holds-Covers state i verb place (Scope.category k) c h = ground arith
  holds-Covers state i verb place (Scope.channel k) c h = rw c (ground arith)

  -- Where hexadecimal text and the capabilities of names are one-to-one, an identity whose only chat
  -- grant is one verb of the vocabulary at one scope holds a verb of the vocabulary at a place exactly
  -- if it is that verb and the scope covers the place.
  pub holds-one_grant :
      (state : g.State) (i : IdentityId) (granted verb : Bytes) (s : Scope) (place : Placement)
      → IsHex p
      → IsExtending g
      → is_verb granted ≡ true
      → is_verb verb ≡ true
      → ((t : Scope) (v : Bytes)
          → (g.identity_holds state i (capability p g t v) ≡ true)
            ↔ (capability p g t v ≡ capability p g s granted))
      → (holds p g state i verb place ≡ true) ↔ ((verb ≡ granted) × Covers s place)
  holds-one_grant state i granted verb s place x y hg hv only = (
    λ h.
        let (t, covered, held) = holds-cases state i verb place h in
        let (scopes_agree, verbs_agree) =
          capability-injective t s verb granted x y hv hg ((only t verb).0 held) in
        (verbs_agree, subst (λ u. Covers u place) scopes_agree covered),
    λ c. holds-Covers state i verb place s c.1 (rw c.0 ((only s granted).1 refl)),
  )
