-- ===== src/Examples/Permissions.antt =====
-- Grants, capability names, and the walk to the first entry of a log.
use mathlib.Core.List.{reverse}
use ko_ls.Base.{Bool, true, Option, none, some, List, [], ◌∷◌, ◌≡◌, ◌↔◌, refl, sym, arith}
use ko_ls.Base.Order.{Bytes, bytes_ord, cmp_bytes, ==_iff, ==_refl}
use ko_ls.Base.Text.{codes}
use ko_ls.Base.BTreeMap.{get}
use ko_ls.Core.Permissions.{
  Scope, arrived, missing, is_verb, capability, holds, chain_to, replayed, is_some_and, state_at,
}
use ko_ls.Core.Permissions.Names.{scope_name-injective}
use ko_ls.Core.Permissions.Grants.{Covers, holds-one_grant}
use ko_ls.Core.Permissions.Heads.{
  Ancestry, origin, link, Broken, lost, further, chain_to-Ancestry, chain_to-Broken, IsCoherent,
  state_at_lem,
}
use ko_ls.Examples.Values.{grants, grants-IsExtending, Grant, room, alice}
use ko_ls.Examples.Tiny.{tiny, tiny-IsHex}

post-is_verb : is_verb (codes "post") ≡ true
unfolding is_verb cmp_bytes
post-is_verb = refl

read-is_verb : is_verb (codes "read") ≡ true
unfolding is_verb cmp_bytes
read-is_verb = refl

scope_name-injective_example :
    (Scope.channel (1 ∷ []) ≡ Scope.channel (1 ∷ [])) × (codes "post" ≡ codes "post")
scope_name-injective_example =
    scope_name-injective tiny (Scope.channel (1 ∷ [])) (Scope.channel (1 ∷ [])) (codes "post")
      (codes "post") tiny-IsHex post-is_verb post-is_verb refl

-- Alice may post everywhere, and nothing else.
abbrev poster : List Grant
poster = (alice, capability tiny grants Scope.network (codes "post")) ∷ []

poster_only :
    (t : Scope) (v : Bytes)
    → (grants.identity_holds poster alice (capability tiny grants t v) ≡ true)
      ↔ (capability tiny grants t v ≡ capability tiny grants Scope.network (codes "post"))
poster_only t v =
    let asked = capability tiny grants t v in
    let given = capability tiny grants Scope.network (codes "post") in
    let same = ==_iff given asked in
    (
      λ h. sym (same.0 (ground (arith, ==_refl alice))),
      λ e. ground (arith, same.1 (sym e), ==_refl alice),
    )

holds-one_grant_example :
    (holds tiny grants poster alice (codes "read") room ≡ true)
    ↔ ((codes "read" ≡ codes "post") × Covers Scope.network room)
holds-one_grant_example =
    holds-one_grant tiny grants poster alice (codes "post") (codes "read") Scope.network room
      tiny-IsHex grants-IsExtending post-is_verb read-is_verb poster_only

abbrev genesis : Option Bytes × Grant
genesis = (none, (alice, codes "a"))

abbrev second : Option Bytes × Grant
second = (some (1 ∷ []), (alice, codes "b"))

-- An entry whose parent the log lacks.
abbrev orphan : Option Bytes × Grant
orphan = (some (9 ∷ []), (alice, codes "c"))

abbrev log : List (Bytes × (Option Bytes × Grant))
log = (1 ∷ [], genesis) ∷ (2 ∷ [], second) ∷ (3 ∷ [], orphan) ∷ []

ancestry : Ancestry tiny grants log (some (2 ∷ [])) (second ∷ genesis ∷ [])
unfolding get cmp_bytes
ancestry = link refl (link refl origin)

chain_to-Ancestry_example :
    chain_to tiny grants 2 log (2 ∷ []) ≡ arrived (reverse (second ∷ genesis ∷ []))
chain_to-Ancestry_example =
    chain_to-Ancestry tiny grants log 2 (2 ∷ []) (second ∷ genesis ∷ []) ancestry (omega arith)

broken : Broken tiny grants log (some (3 ∷ [])) 2
unfolding get cmp_bytes
broken = further {e = orphan} refl (lost refl)

chain_to-Broken_example : chain_to tiny grants 2 log (3 ∷ []) ≡ missing
chain_to-Broken_example = chain_to-Broken tiny grants log 2 2 (3 ∷ []) broken (omega arith)

abbrev asks : List Grant → Bool
asks state = grants.is_member state alice

empty-IsCoherent : IsCoherent tiny grants 2 log []
unfolding get
empty-IsCoherent h known e = cc e

state_at_lem_example :
    ((state_at tiny grants 2 log [] (2 ∷ []) asks).0
      ≡ is_some_and tiny grants (replayed tiny grants 2 log (2 ∷ [])) asks)
    × IsCoherent tiny grants 2 log (state_at tiny grants 2 log [] (2 ∷ []) asks).1
state_at_lem_example = state_at_lem tiny grants 2 log [] (2 ∷ []) asks empty-IsCoherent
