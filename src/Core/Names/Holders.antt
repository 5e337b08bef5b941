-- ===== src/Core/Names/Holders.antt =====
-- Who holds a name: claims as an author checks them, and as every node replays them.
use ko_ls.Base.{
  ℕ, true, Option, none, some, List, [], ◌∷◌, ◌≡◌, refl, sym, ap, ◌∙◌, subst, ◌⊎◌, inl, inr, arith,
  Option-cases, Bool-cases,
}
use ko_ls.Base.Order.{Bytes, bytes_ord, ◌==◌, ==_iff, ==_refl}
use ko_ls.Base.Result.{ok, is_ok, Result-cases}
use ko_ls.Base.BTreeMap.{get, insert}
use ko_ls.Base.BTreeMap.Laws.{get-insert}
use ko_ls.Platform.{Platform, Governance, Unicode}
use ko_ls.Core.Record.{IdentityId}
use ko_ls.Core.Names.{
  NameClaim, Names, no_names, name_key, held_by_other, apply, claimable, name_of, read_claim,
  required_claim, replay_name, replay_names,
}

module _ (u : Unicode) where
  -- An author is told that it may claim a name exactly when the claim, applied to the same names, stands.
  pub claimable-apply :
      (author : IdentityId) (name : Bytes) (names : Names)
      → is_ok (claimable u author name names) ≡ (apply u author (record { name = name }) names).0
  unfolding claimable apply
  claimable-apply author name names = elim (Result-cases (name_key u name)) [
    | inl (why, bad) ↦ rw (bad, apply) refl
    | inr (key, good) ↦ elim (Option-cases (held_by_other u author (get key names.by_key))) [
      | inl free ↦ rw (good, apply) (rw free refl)
      | inr (holder, kept) ↦ rw (good, apply) (rw kept refl)
    ]
  ]

  -- Each name shown is one whose key its member holds.
  unfoldable pub IsHeld : Names → Type 0
  IsHeld names =
      (i : IdentityId) (name : Bytes)
      → get i names.current ≡ some name
      → (key : List ℕ) × (name_key u name ≡ ok key) × (get key names.by_key ≡ some i)

  -- A claim that another holder does not stand in the way of.
  free_or_own :
      (author i : IdentityId) (found : Option IdentityId)
      → held_by_other u author found ≡ none
      → found ≡ some i
      → i ≡ author
  free_or_own author i none h e = cc
  free_or_own author i (some holder) h e =
      let own : (holder == author) ≡ true = ground arith in
      let same : i ≡ holder = cc in same ∙ (==_iff holder author).0 own

  entered-keeps :
      (author i : IdentityId) (names : Names) (key k : List ℕ)
      → held_by_other u author (get key names.by_key) ≡ none
      → get k names.by_key ≡ some i
      → get k (insert key author names.by_key) ≡ some i
  entered-keeps author i names key k free h =
      get-insert k key author names.by_key ∙ elim (Bool-cases (k == key)) [
        | inl e ↦
            let hit : get key names.by_key ≡ some i =
              ap (λ x. get x names.by_key) (sym ((==_iff k key).0 e)) ∙ h in
            rw e (ap some (sym (free_or_own author i (get key names.by_key) free hit)))
        | inr e ↦ rw e h
      ]

  entered-IsHeld :
      (author : IdentityId) (name : Bytes) (names : Names) (key : List ℕ)
      → name_key u name ≡ ok key
      → held_by_other u author (get key names.by_key) ≡ none
      → IsHeld names
      → IsHeld (record {
        by_key = insert key author names.by_key;
        current = insert author name names.current;
      })
  unfolding IsHeld
  entered-IsHeld author name names key good free held i a found = elim (Bool-cases (i == author)) [
    | inl own ↦
        let same : i ≡ author = (==_iff i author).0 own in
        let its : name ≡ a = ground (arith, get-insert i author name names.current) in
        (
          key,
          ap (name_key u) (sym its) ∙ good,
          get-insert key key author names.by_key ∙ ground (arith, ==_refl key, same),
        )
    | inr other ↦
        let before : get i names.current ≡ some a =
          ground (arith, get-insert i author name names.current) in
        let (k, named, kept) = held i a before in
        (k, named, entered-keeps author i names key k free kept)
  ]

  pub start-IsHeld : IsHeld no_names
  unfolding IsHeld get
  start-IsHeld i name h = cc

  -- A claim changes nothing, or enters its key for its author.
  apply-cases :
      (author : IdentityId) (c : NameClaim) (names : Names)
      → ((apply u author c names).1 ≡ names)
        ⊎ (key : List ℕ) × (name_key u c.name ≡ ok key)
          × (held_by_other u author (get key names.by_key) ≡ none)
          × ((apply u author c names).1 ≡ record {
            by_key = insert key author names.by_key;
            current = insert author c.name names.current;
          })
  unfolding apply
  apply-cases author c names = elim (Result-cases (name_key u c.name)) [
    | inl (why, bad) ↦ inl (rw (bad, apply) refl)
    | inr (key, good) ↦ elim (Option-cases (held_by_other u author (get key names.by_key))) [
      | inl free ↦ inr (key, good, free, rw (good, free, apply) refl)
      | inr (holder, kept) ↦ inl (rw (good, kept, apply) refl)
    ]
  ]

  apply-IsHeld :
      (author : IdentityId) (c : NameClaim) (names : Names)
      → IsHeld names
      → IsHeld (apply u author c names).1
  apply-IsHeld author c names held = elim (apply-cases author c names) [
    | inl e ↦ subst IsHeld (sym e) held
    | inr (key, good, free, e) ↦
        subst IsHeld (sym e) (entered-IsHeld author c.name names key good free held)
  ]

  -- A key that somebody holds stays with its holder.
  get-apply :
      (author : IdentityId) (c : NameClaim) (names : Names) (key : List ℕ) (i : IdentityId)
      → get key names.by_key ≡ some i
      → get key (apply u author c names).1.by_key ≡ some i
  get-apply author c names k i h = elim (apply-cases author c names) [
    | inl e ↦ ap (λ n. get k n.by_key) e ∙ h
    | inr (key, good, free, e) ↦
        ap (λ n. get k n.by_key) e ∙ entered-keeps author i names key k free h
  ]

module _ (p : Platform) (g : Governance) (u : Unicode) (state : g.State) where
  -- A round changes nothing, or applies a claim of the entry's author.
  replay_name-cases :
      (names : Names) (e : g.LogEntry)
      → (replay_name p g u state names e ≡ names)
        ⊎ (c : NameClaim) × (replay_name p g u state names e ≡ (apply u (g.author e) c names).1)
  unfolding replay_name
  replay_name-cases names e = elim (Option-cases (read_claim p g (g.body e))) [
    | inl nothing ↦ inl (rw (nothing, replay_name) refl)
    | inr (c, found) ↦
        elim (Bool-cases (g.identity_holds state (g.author e) (required_claim p g))) [
          | inl may ↦ inr (c, rw (found, may, replay_name) refl)
          | inr cannot ↦ inl (rw (found, cannot, replay_name) refl)
        ]
  ]

  replay_names-IsHeld :
      (names : Names) (es : List g.LogEntry)
      → IsHeld u names
      → IsHeld u (replay_names p g u state names es)
  unfolding replay_names
  replay_names-IsHeld names [] h = h
  replay_names-IsHeld names (e ∷ es) h = elim (replay_name-cases names e) [
    | inl same ↦
        replay_names-IsHeld (replay_name p g u state names e) es (subst (IsHeld u) (sym same) h)
    | inr (c, applied) ↦
        replay_names-IsHeld (replay_name p g u state names e) es
          (subst (IsHeld u) (sym applied) (apply-IsHeld u (g.author e) c names h))
  ]

  -- Whatever entries are replayed, two members that are shown names of one key are one member.
  pub replay_names_unique :
      (es : List g.LogEntry) (i j : IdentityId) (a b : Bytes)
      → name_of i (replay_names p g u state no_names es) ≡ some a
      → name_of j (replay_names p g u state no_names es) ≡ some b
      → name_key u a ≡ name_key u b
      → i ≡ j
  unfolding name_of IsHeld
  replay_names_unique es i j a b x y same =
      let names = replay_names p g u state no_names es in
      let held = replay_names-IsHeld no_names es (start-IsHeld u) in
      let (k, named_a, held_a) = held i a x in let (l, named_b, held_b) = held j b y in cc

  -- A name's key, once held, stays with its holder whatever is replayed after.
  pub get-replay_names :
      (names : Names) (es : List g.LogEntry) (key : List ℕ) (i : IdentityId)
      → get key names.by_key ≡ some i
      → get key (replay_names p g u state names es).by_key ≡ some i
  unfolding replay_names
  get-replay_names names [] key i h = h
  get-replay_names names (e ∷ es) key i h =
      get-replay_names (replay_name p g u state names e) es key i
        (elim (replay_name-cases names e) [
          | inl same ↦ ap (λ n. get key n.by_key) same ∙ h
          | inr (c, applied) ↦
              ap (λ n. get key n.by_key) applied ∙ get-apply u (g.author e) c names key i h
        ])
