-- ===== src/Core/Permissions/Names.antt =====
-- Capability names: a name says one verb and one scope.
use ko_ls.Base.{
  true, List, [], ◌∷◌, ◌++◌, All, ◌≡◌, ◌≢◌, refl, arith, ap, sym, ◌∙◌, any, subst, Bool-cases, inl,
  inr,
}
use ko_ls.Base.Order.{Bytes, bytes_ord, ◌==◌, ==_iff, nat_ord}
use ko_ls.Base.Text.{codes}
use ko_ls.Platform.{Platform}
use ko_ls.Platform.Laws.{IsHex, is_hex_digit}
use ko_ls.Core.Permissions.{Scope, scope_name, is_verb, verbs, Tier}

-- The text holds no separator.
abbrev pub IsPlain : Bytes → Type 0
IsPlain = All (λ c. c ≢ b':')

split_at_colon :
    (v w r s : Bytes) → IsPlain v → IsPlain w → v ++ b':' ∷ r ≡ w ++ b':' ∷ s → (v ≡ w) × (r ≡ s)
split_at_colon [] [] r s h k e = (refl, cc)
split_at_colon [] (y ∷ w) r s h k e = absurd (k.0 (cc))
split_at_colon (x ∷ v) [] r s h k e = absurd (h.0 (cc))
split_at_colon (x ∷ v) (y ∷ w) r s h k e =
    let heads : x ≡ y = cc in
    let tails : v ++ b':' ∷ r ≡ w ++ b':' ∷ s = cc in
    let (a, b) = split_at_colon v w r s h.1 k.1 tails in (cc, b)

-- What stands behind the verb of a name.
scope_text : Platform → Scope → Bytes
scope_text p Scope.network = codes "*"
scope_text p (Scope.category i) = codes "cat:" ++ p.to_hex i
scope_text p (Scope.channel i) = p.to_hex i

scope_name-parts :
    (p : Platform) (s : Scope) (verb : Bytes)
    → scope_name p s verb ≡ codes "chat:" ++ (verb ++ b':' ∷ scope_text p s)
unfolding scope_name scope_text
scope_name-parts p Scope.network verb = refl
scope_name-parts p (Scope.category i) verb = refl
scope_name-parts p (Scope.channel i) verb = refl

not_star : (t : Bytes) → All (λ c. is_hex_digit c ≡ true) t → codes "*" ≢ t
unfolding is_hex_digit
not_star [] h e = cc
not_star (c ∷ t) h e = ground arith

not_cat : (t r : Bytes) → All (λ c. is_hex_digit c ≡ true) t → codes "cat:" ++ r ≢ t
unfolding is_hex_digit
not_cat (a ∷ b ∷ c ∷ d ∷ t) r h e = ground arith
not_cat [] r h e = cc
not_cat (a ∷ []) r h e = cc
not_cat (a ∷ b ∷ []) r h e = cc
not_cat (a ∷ b ∷ c ∷ []) r h e = cc

-- The text behind the verb decides the scope.
scope_text-injective :
    (p : Platform) → IsHex p → (s t : Scope) → scope_text p s ≡ scope_text p t → s ≡ t
unfolding scope_text
scope_text-injective p x Scope.network Scope.network e = refl
scope_text-injective p x Scope.network (Scope.category j) e = cc
scope_text-injective p x Scope.network (Scope.channel j) e =
    absurd (not_star (p.to_hex j) (x.digits j) e)
scope_text-injective p x (Scope.category i) Scope.network e = cc
scope_text-injective p x (Scope.category i) (Scope.category j) e =
    ap Scope.category (x.to_hex-injective i j (cc))
scope_text-injective p x (Scope.category i) (Scope.channel j) e =
    absurd (not_cat (p.to_hex j) (p.to_hex i) (x.digits j) e)
scope_text-injective p x (Scope.channel i) Scope.network e =
    absurd (not_star (p.to_hex i) (x.digits i) (sym e))
scope_text-injective p x (Scope.channel i) (Scope.category j) e =
    absurd (not_cat (p.to_hex i) (p.to_hex j) (x.digits i) (sym e))
scope_text-injective p x (Scope.channel i) (Scope.channel j) e =
    ap Scope.channel (x.to_hex-injective i j e)

IsPlain-any :
    (vs : List (Bytes × Tier)) (verb : Bytes)
    → All (λ v. IsPlain v.0) vs
    → any (λ v. v.0 == verb) vs ≡ true
    → IsPlain verb
IsPlain-any [] verb h e = cc
IsPlain-any (v ∷ vs) verb h e = elim (Bool-cases (v.0 == verb)) [
  | inl same ↦ subst IsPlain ((==_iff v.0 verb).0 same) h.0
  | inr other ↦ IsPlain-any vs verb h.1 (ground arith)
]

verbs-IsPlain : All (λ v. IsPlain v.0) verbs
verbs-IsPlain = omega arith

-- Verbs of the vocabulary hold no separator.
is_verb-IsPlain : (verb : Bytes) → is_verb verb ≡ true → IsPlain verb
unfolding is_verb
is_verb-IsPlain verb h = IsPlain-any verbs verb verbs-IsPlain h

strip : {a b : Bytes} → codes "chat:" ++ a ≡ codes "chat:" ++ b → a ≡ b
strip e = cc

-- Where hexadecimal text is one-to-one, two verbs of the vocabulary, at whatever scopes, share a
-- capability name only if they are one verb at one scope.
pub scope_name-injective :
    (p : Platform) (s t : Scope) (verb other : Bytes)
    → IsHex p
    → is_verb verb ≡ true
    → is_verb other ≡ true
    → scope_name p s verb ≡ scope_name p t other
    → (s ≡ t) × (verb ≡ other)
scope_name-injective p s t verb other x h k e =
    let tails : verb ++ b':' ∷ scope_text p s ≡ other ++ b':' ∷ scope_text p t =
      strip (sym (scope_name-parts p s verb) ∙ e ∙ scope_name-parts p t other) in
    let (verbs_agree, texts_agree) =
      split_at_colon verb other (scope_text p s) (scope_text p t) (is_verb-IsPlain verb h)
        (is_verb-IsPlain other k) tails in
    (scope_text-injective p x s t texts_agree, verbs_agree)
