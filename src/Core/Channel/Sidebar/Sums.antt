-- ===== src/Core/Channel/Sidebar/Sums.antt =====
-- Sums over the entries of a map, and over what it groups.
use Prim.Native.Nat.{Ordering}
use ko_ls.Base.{
  ℕ, ◌+◌, Bool, true, false, ◌&&◌, Option, none, some, is_some, List, [], ◌∷◌, filter, count_if,
  All, if◌then◌else◌, ◌≡◌, ◌∙◌, refl, arith, Bool-cases, inl, inr,
}
use ko_ls.Base.Order.{bytes_ord, ◌==◌, ==_comm, ==_iff}
use ko_ls.Base.BTreeMap.{BTreeMap, get}
use ko_ls.Base.BTreeMap.Laws.{IsSorted, IsAbove}
use ko_ls.Base.Sorting.{sort_by, place}
use ko_ls.Core.Record.{CategoryId}
use ko_ls.Core.Channel.Sidebar.{SidebarChannel}
use ko_ls.Core.Channel.Sidebar.Grouping.{is_in, names}

unfoldable pub sum_by : {A : Type 0} → (A → ℕ) → List A → ℕ
sum_by f [] = 0
sum_by f (x ∷ xs) = f x + sum_by f xs

module _ {A : Type 0} where
  pub sum_by-agree :
      (f g : A → ℕ) (xs : List A) → All (λ x. f x ≡ g x) xs → sum_by f xs ≡ sum_by g xs
  unfolding sum_by
  sum_by-agree f g [] h = refl
  sum_by-agree f g (x ∷ xs) h = omega (arith, h.0, sum_by-agree f g xs h.1)

  sum_by-place :
      (cmp : A → A → Ordering) (f : A → ℕ) (x : A) (xs : List A)
      → sum_by f (place cmp x xs) ≡ f x + sum_by f xs
  unfolding sum_by place
  sum_by-place cmp f x [] = refl
  sum_by-place cmp f x (y ∷ ys) = ground (arith, sum_by-place cmp f x ys)

  pub sum_by-sort_by :
      (cmp : A → A → Ordering) (f : A → ℕ) (xs : List A) → sum_by f (sort_by cmp xs) ≡ sum_by f xs
  unfolding sum_by sort_by
  sum_by-sort_by cmp f [] = refl
  sum_by-sort_by cmp f (x ∷ xs) =
      sum_by-place cmp f x (sort_by cmp xs) ∙ omega (arith, sum_by-sort_by cmp f xs)

  sum_by-add : (f g : A → ℕ) (xs : List A) → sum_by (λ x. f x + g x) xs ≡ sum_by f xs + sum_by g xs
  unfolding sum_by
  sum_by-add f g [] = refl
  sum_by-add f g (x ∷ xs) = omega (arith, sum_by-add f g xs)

  sum_by-zero : (xs : List A) → sum_by (λ x. 0) xs ≡ 0
  unfolding sum_by
  sum_by-zero [] = refl
  sum_by-zero (x ∷ xs) = omega (arith, sum_by-zero xs)

  All-place :
      (cmp : A → A → Ordering) (P : A → Type 0) (x : A) (xs : List A)
      → P x
      → All P xs
      → All P (place cmp x xs)
  unfolding place
  All-place cmp P x [] p h = (p, tt)
  All-place cmp P x (y ∷ ys) p h =
      elim (cmp x y)
        as (λ o. All P (elim o [ Ordering.gt ↦ y ∷ place cmp x ys | _ ↦ x ∷ y ∷ ys ])) [
          | Ordering.gt ↦ (h.0, All-place cmp P x ys p h.1)
          | _ ↦ (p, h)
        ]

count-names :
    (P : SidebarChannel → Bool) (k : CategoryId) (c : SidebarChannel) (cs : List SidebarChannel)
    → count_if P (filter (names k) (c ∷ cs))
      ≡ (if is_in k c.category && P c then 1 else 0) + count_if P (filter (names k) cs)
count-names P k c cs = elim (Bool-cases (is_in k c.category)) [
  | inl t ↦ rw t (ground arith)
  | inr t ↦ rw t (ground arith)
]

module _ {V : Type 0} where
  -- No two entries have one key.
  abbrev pub IsApart : List (CategoryId × V) → Type 0
  IsApart [] = Unit
  IsApart (e ∷ es) = All (λ f. (e.0 == f.0) ≡ false) es × IsApart es

  -- A category that is named has an entry.
  abbrev pub IsPlaced : BTreeMap CategoryId V → Option CategoryId → Type 0
  IsPlaced m none = Unit
  IsPlaced m (some k) = is_some (get k m) ≡ true

  place-IsApart :
      (cmp : CategoryId × V → CategoryId × V → Ordering) (x : CategoryId × V)
      (xs : List (CategoryId × V))
      → All (λ f. (x.0 == f.0) ≡ false) xs
      → IsApart xs
      → IsApart (place cmp x xs)
  unfolding place
  place-IsApart cmp x [] h a = (tt, tt)
  place-IsApart cmp x (y ∷ ys) h a =
      elim (cmp x y)
        as (λ o. IsApart (elim o [ Ordering.gt ↦ y ∷ place cmp x ys | _ ↦ x ∷ y ∷ ys ])) [
          | Ordering.gt ↦ (
            All-place cmp (λ f. (y.0 == f.0) ≡ false) x ys (==_comm y.0 x.0 ∙ h.0) a.0,
            place-IsApart cmp x ys h.1 a.1,
          )
          | _ ↦ (h, a)
        ]

  All-sort_by :
      (cmp : CategoryId × V → CategoryId × V → Ordering) (P : CategoryId × V → Type 0)
      (xs : List (CategoryId × V))
      → All P xs
      → All P (sort_by cmp xs)
  unfolding sort_by
  All-sort_by cmp P [] h = tt
  All-sort_by cmp P (x ∷ xs) h = All-place cmp P x (sort_by cmp xs) h.0 (All-sort_by cmp P xs h.1)

  apart_of_above :
      (k : CategoryId) (m : BTreeMap CategoryId V) → IsAbove k m → All (λ f. (k == f.0) ≡ false) m
  apart_of_above k [] h = tt
  apart_of_above k ((j, v) ∷ m) h = (ground arith, apart_of_above k m h.1)

  pub sort_by-IsApart :
      (cmp : CategoryId × V → CategoryId × V → Ordering) (m : BTreeMap CategoryId V)
      → IsSorted m
      → IsApart (sort_by cmp m)
  unfolding sort_by
  sort_by-IsApart cmp [] s = tt
  sort_by-IsApart cmp ((k, v) ∷ m) s =
      place-IsApart cmp (k, v) (sort_by cmp m)
        (All-sort_by cmp (λ f. (k == f.0) ≡ false) m (apart_of_above k m s.0))
        (sort_by-IsApart cmp m s.1)

  sum_by-other :
      (k : CategoryId) (b : Bool) (m : BTreeMap CategoryId V)
      → All (λ f. (k == f.0) ≡ false) m
      → sum_by (λ e. if (e.0 == k) && b then 1 else 0) m ≡ 0
  unfolding sum_by
  sum_by-other k b [] h = refl
  sum_by-other k b ((j, v) ∷ m) h = ground (arith, ==_comm j k, h.0, sum_by-other k b m h.1)

  -- One entry of the map has the key.
  sum_by-at :
      (k : CategoryId) (b : Bool) (m : BTreeMap CategoryId V)
      → IsSorted m
      → is_some (get k m) ≡ true
      → sum_by (λ e. if (e.0 == k) && b then 1 else 0) m ≡ (if b then 1 else 0)
  unfolding sum_by get
  sum_by-at k b [] s h = cc
  sum_by-at k b ((j, v) ∷ m) s h = elim (Bool-cases (k == j)) [
    | inl t ↦
        let same : k ≡ j = (==_iff k j).0 t in
        let others : All (λ f. (k == f.0) ≡ false) m = rw same (apart_of_above j m s.0) in
        ground (arith, ==_comm j k, t, sum_by-other k b m others)
    | inr t ↦ let behind = sum_by-at k b m s.1 (rw t at h) in ground (arith, ==_comm j k, t, behind)
  ]

  sum_by-is_in :
      (o : Option CategoryId) (b : Bool) (m : BTreeMap CategoryId V)
      → IsSorted m
      → IsPlaced m o
      → sum_by (λ e. if is_in e.0 o && b then 1 else 0) m ≡ (if is_some o && b then 1 else 0)
  sum_by-is_in none b m s h = sum_by-zero m
  sum_by-is_in (some k) b m s h = sum_by-at k b m s h

  pub All-every :
      {Q : CategoryId × V → Type 0} (m : List (CategoryId × V))
      → ((e : CategoryId × V) → Q e)
      → All Q m
  All-every [] f = tt
  All-every (e ∷ m) f = (f e, All-every m f)

  -- Each element that names a key of the map is counted under one key.
  pub sum_by-in_categories :
      (P : SidebarChannel → Bool) (m : BTreeMap CategoryId V) (cs : List SidebarChannel)
      → IsSorted m
      → All (λ c. IsPlaced m c.category) cs
      → sum_by (λ e. count_if P (filter (names e.0) cs)) m
        ≡ count_if (λ c. is_some c.category && P c) cs
  unfolding sum_by
  sum_by-in_categories P m [] s h = sum_by-zero m
  sum_by-in_categories P m (c ∷ cs) s h =
      sum_by-agree _ _ m (All-every m (λ e. count-names P e.0 c cs))
      ∙ sum_by-add (λ e. if is_in e.0 c.category && P c then 1 else 0)
          (λ e. count_if P (filter (names e.0) cs)) m
      ∙ ground (arith, sum_by-is_in c.category (P c) m s h.0, sum_by-in_categories P m cs s h.1)
