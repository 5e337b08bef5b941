-- ===== src/Base/BTreeMap/Laws.antt =====
-- The laws of `BTreeMap`: look-ups after a change, the key order, and that entries decide the map.
use mathlib.Core.Path.{◌≡◌, refl, sym, subst}
use mathlib.Core.List.{[], ◌∷◌}
use mathlib.Core.Option.{none, some}
use Prim.Native.Nat.Ordering.{lt}
use native.Mathlib.Omega.{arith}
use ko_ls.Base.Tests.{if◌then◌else◌, Ordering-cases, less, same, more}
use ko_ls.Base.Order.{Ord, ◌==◌, cmp_refl}
use ko_ls.Base.BTreeMap.{BTreeMap, get, insert, remove}

module _ {ℓ κ} {K : Type ℓ} {V : Type κ} ⦃o : Ord K⦄ where
  pub get-insert :
      (p q : K) (w : V) (m : BTreeMap K V)
      → get p (insert q w m) ≡ (if p == q then some w else get p m)
  unfolding get insert
  get-insert p q w [] = refl
  get-insert p q w ((k, v) ∷ m) =
      ground (arith, get-insert p q w m, o.same_eq p q, o.same_eq q k, o.same_eq p k, cmp_refl q)

  pub get-remove :
      (p q : K) (m : BTreeMap K V) → get p (remove q m) ≡ (if p == q then none else get p m)
  unfolding get remove
  get-remove p q [] = ground arith
  get-remove p q ((k, v) ∷ m) =
      ground (arith, get-remove p q m, o.same_eq p q, o.same_eq q k, o.same_eq p k, cmp_refl q)

  -- Every key stands behind `b`.
  abbrev pub IsAbove : K → BTreeMap K V → Type 0
  IsAbove b [] = Unit
  IsAbove b ((k, v) ∷ m) = (o.cmp b k ≡ lt) × IsAbove b m

  -- The keys ascend strictly.
  abbrev pub IsSorted : BTreeMap K V → Type 0
  IsSorted [] = Unit
  IsSorted ((k, v) ∷ m) = IsAbove k m × IsSorted m

  IsAbove-insert :
      (b q : K) (w : V) (m : BTreeMap K V) → o.cmp b q ≡ lt → IsAbove b m → IsAbove b (insert q w m)
  unfolding insert
  IsAbove-insert b q w [] h a = (h, tt)
  IsAbove-insert b q w ((k, v) ∷ m) h a = ground (arith, IsAbove-insert b q w m)

  IsAbove-trans : (b c : K) (m : BTreeMap K V) → o.cmp b c ≡ lt → IsAbove c m → IsAbove b m
  IsAbove-trans b c [] h a = tt
  IsAbove-trans b c ((k, v) ∷ m) h a = (o.chained b c k h a.0, IsAbove-trans b c m h a.1)

  pub insert-IsSorted : (q : K) (w : V) (m : BTreeMap K V) → IsSorted m → IsSorted (insert q w m)
  unfolding insert
  insert-IsSorted q w [] s = (tt, tt)
  insert-IsSorted q w ((k, v) ∷ m) s = ground (
    arith,
    insert-IsSorted q w m,
    o.same_eq q k,
    o.flipped q k,
    IsAbove-trans q k m,
    IsAbove-insert k q w m,
  )

  get-IsAbove : (q : K) (m : BTreeMap K V) → IsAbove q m → get q m ≡ none
  unfolding get
  get-IsAbove q [] a = refl
  get-IsAbove q ((k, v) ∷ m) a = ground (arith, get-IsAbove q m a.1)

  -- A look-up of a key below every key of the map.
  get_head : (k : K) (v : V) (m : BTreeMap K V) → get k ((k, v) ∷ m) ≡ some v
  unfolding get
  get_head k v m = ground (arith, cmp_refl k)

  head_differs :
      (k : K) (v : V) (m n : BTreeMap K V)
      → IsAbove k n
      → ((q : K) → get q ((k, v) ∷ m) ≡ get q n)
      → ⊥
  head_differs k v m n a h = cc (get_head k v m, get-IsAbove k n a, h k)

  tails_agree :
      (k : K) (v w : V) (m n : BTreeMap K V)
      → IsAbove k m
      → IsAbove k n
      → ((q : K) → get q ((k, v) ∷ m) ≡ get q ((k, w) ∷ n))
      → (q : K) → get q m ≡ get q n
  unfolding get
  tails_agree k v w m n a b h q =
      ground (arith, h q, o.same_eq q k, get-IsAbove q m, get-IsAbove q n)

  -- Two maps with the same look-ups are one map.
  pub eq_of_get :
      (m n : BTreeMap K V) → IsSorted m → IsSorted n → ((q : K) → get q m ≡ get q n) → m ≡ n
  eq_of_get [] [] s t h = refl
  eq_of_get [] ((j, w) ∷ n) s t h = absurd (head_differs j w n [] tt (λ q. sym (h q)))
  eq_of_get ((k, v) ∷ m) [] s t h = absurd (head_differs k v m [] tt h)
  eq_of_get ((k, v) ∷ m) ((j, w) ∷ n) s t h = elim (Ordering-cases (o.cmp k j)) [
    | less e ↦ absurd (head_differs k v m ((j, w) ∷ n) (e, IsAbove-trans k j n e t.0) h)
    | same e ↦
        let p : j ≡ k = sym (o.same_eq k j e) in
        let h' : (q : K) → get q ((k, v) ∷ m) ≡ get q ((k, w) ∷ n) =
          subst (λ x. (q : K) → get q ((k, v) ∷ m) ≡ get q ((x, w) ∷ n)) p h in
        let a : IsAbove k n = subst (λ x. IsAbove x n) p t.0 in
        let head : some v ≡ some w = cc (get_head k v m, h' k, get_head k w n) in
        cc (p, eq_of_get m n s.1 t.1 (tails_agree k v w m n s.0 a h'), head)
    | more e ↦
        let f : o.cmp j k ≡ lt = ground (arith, o.flipped k j) in
        absurd (head_differs j w n ((k, v) ∷ m) (f, IsAbove-trans j k m f s.0) (λ q. sym (h q)))
  ]
