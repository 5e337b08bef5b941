-- ===== src/Core/Channel/Sidebar/Grouping.antt =====
-- What the loops of `sidebar_order` leave in their maps.
use ko_ls.Base.{
  ℕ, Bool, true, false, not, Option, none, some, is_some, List, [], ◌∷◌, ◌++◌, filter, In, inl, inr,
  if◌then◌else◌, ◌≡◌, ◌∙◌, refl, sym, ap, arith, Bool-cases,
}
use mathlib.Core.List.{append_assoc, append-nil}
use ko_ls.Base.Order.{bytes_ord, ◌==◌, ==_iff}
use ko_ls.Base.BTreeMap.{BTreeMap, get, insert, keys}
use ko_ls.Base.BTreeMap.Laws.{get-insert, IsSorted, insert-IsSorted}
use ko_ls.Core.Record.{CategoryId}
use ko_ls.Core.Channel.Sidebar.{
  SidebarChannel, SidebarCategory, Grouped, or_empty, push, group, defined, named, positions,
}

abbrev pub is_in : CategoryId → Option CategoryId → Bool
is_in k none = false
is_in k (some j) = k == j

-- The channel names this category, or none.
abbrev pub names : CategoryId → SidebarChannel → Bool
names k c = is_in k c.category

abbrev pub is_loose : SidebarChannel → Bool
is_loose c = not (is_some c.category)

get-push :
    (k : CategoryId) (o : Option CategoryId) (c : SidebarChannel)
    (done : Grouped × List SidebarChannel) (rest : List SidebarChannel)
    → or_empty (get k (push o c done).0) ++ rest
      ≡ or_empty (get k done.0) ++ (if is_in k o then c ∷ rest else rest)
unfolding push
get-push k none c done rest = refl
get-push k (some j) c (grouped, loose) rest = elim (Bool-cases (k == j)) [
  | inl t ↦
      let same : k ≡ j = (==_iff k j).0 t in
      rw (get-insert k j (or_empty (get j grouped) ++ c ∷ []) grouped, t, same)
        (append_assoc (or_empty (get j grouped)) (c ∷ []) rest)
  | inr t ↦ rw (get-insert k j (or_empty (get j grouped) ++ c ∷ []) grouped, t) refl
]

pub get-group :
    (k : CategoryId) (cs : List SidebarChannel) (done : Grouped × List SidebarChannel)
    → or_empty (get k (group cs done).0) ≡ or_empty (get k done.0) ++ filter (names k) cs
unfolding group
get-group k [] done = sym (append-nil (or_empty (get k done.0)))
get-group k (c ∷ cs) done =
    get-group k cs (push c.category c done) ∙ get-push k c.category c done (filter (names k) cs)

loose-push :
    (o : Option CategoryId) (c : SidebarChannel) (done : Grouped × List SidebarChannel)
    (rest : List SidebarChannel)
    → (push o c done).1 ++ rest ≡ done.1 ++ (if not (is_some o) then c ∷ rest else rest)
unfolding push
loose-push none c (grouped, loose) rest = append_assoc loose (c ∷ []) rest
loose-push (some j) c (grouped, loose) rest = refl

pub loose-group :
    (cs : List SidebarChannel) (done : Grouped × List SidebarChannel)
    → (group cs done).1 ≡ done.1 ++ filter is_loose cs
unfolding group
loose-group [] done = sym (append-nil done.1)
loose-group (c ∷ cs) done =
    loose-group cs (push c.category c done) ∙ loose-push c.category c done (filter is_loose cs)

-- A category that a channel names has a place.
kept-named :
    (k : CategoryId) (ks : List CategoryId) (m : BTreeMap CategoryId (Option ℕ))
    → is_some (get k m) ≡ true
    → is_some (get k (named ks m)) ≡ true
unfolding named
kept-named k [] m h = h
kept-named k (j ∷ ks) m h = elim (Bool-cases (is_some (get j m))) [
  | inl t ↦ rw t (kept-named k ks m h)
  | inr t ↦ rw t (kept-named k ks (insert j none m) (ground (arith, get-insert k j none m)))
]

pub named-In :
    (k : CategoryId) (ks : List CategoryId) (m : BTreeMap CategoryId (Option ℕ))
    → In k ks
    → is_some (get k (named ks m)) ≡ true
unfolding named
named-In k [] m i = absurd i
named-In k (j ∷ ks) m (inl e) = elim (Bool-cases (is_some (get j m))) [
  | inl t ↦ rw t (kept-named k ks m (ap (λ x. is_some (get x m)) e ∙ t))
  | inr t ↦
      rw t (kept-named k ks (insert j none m) (ground (arith, get-insert k j none m, ==_iff k j)))
]
named-In k (j ∷ ks) m (inr i) = elim (Bool-cases (is_some (get j m))) [
  | inl t ↦ rw t (named-In k ks m i)
  | inr t ↦ rw t (named-In k ks (insert j none m) i)
]

In-keys :
    (k : CategoryId) (grouped : Grouped) → is_some (get k grouped) ≡ true → In k (keys grouped)
unfolding get keys
In-keys k [] h = cc
In-keys k ((j, v) ∷ grouped) h = elim (Bool-cases (k == j)) [
  | inl t ↦ inl ((==_iff k j).0 t)
  | inr t ↦ inr (In-keys k grouped (rw t at h))
]

defined-IsSorted :
    (cs : List SidebarCategory) (m : BTreeMap CategoryId (Option ℕ))
    → IsSorted m
    → IsSorted (defined cs m)
unfolding defined
defined-IsSorted [] m s = s
defined-IsSorted (c ∷ cs) m s =
    defined-IsSorted cs (insert c.id c.position m) (insert-IsSorted c.id c.position m s)

named-IsSorted :
    (ks : List CategoryId) (m : BTreeMap CategoryId (Option ℕ)) → IsSorted m → IsSorted (named ks m)
unfolding named
named-IsSorted [] m s = s
named-IsSorted (k ∷ ks) m s = elim (Bool-cases (is_some (get k m))) [
  | inl t ↦ rw t (named-IsSorted ks m s)
  | inr t ↦ rw t (named-IsSorted ks (insert k none m) (insert-IsSorted k none m s))
]

pub positions-IsSorted :
    (categories : List SidebarCategory) (grouped : Grouped)
    → IsSorted (positions categories grouped)
unfolding positions
positions-IsSorted categories grouped =
    named-IsSorted (keys grouped) (defined categories []) (defined-IsSorted categories [] tt)

pub positions-names :
    (k : CategoryId) (categories : List SidebarCategory) (grouped : Grouped)
    → is_some (get k grouped) ≡ true
    → is_some (get k (positions categories grouped)) ≡ true
unfolding positions
positions-names k categories grouped h =
    named-In k (keys grouped) (defined categories []) (In-keys k grouped h)
