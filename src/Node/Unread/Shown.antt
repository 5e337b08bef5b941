-- ===== src/Node/Unread/Shown.antt =====
-- The counts of channels that windows show.
use ko_ls.Base.{
  ap, sym, not, ◌||◌, ◌&&◌, ℕ, Bool, true, Option, none, some, List, [], ◌∷◌, filter, any, ◌≡◌,
  refl, ◌∙◌, arith, if◌then◌else◌, inl, inr, ◌⊎◌, Bool-cases, Option-cases,
}
use ko_ls.Base.Order.{Bytes, bytes_ord, nat_ord, ◌==◌, ==_iff, ==_comm}
use ko_ls.Base.Int.{saturating_add_u32}
use ko_ls.Base.BTreeMap.{BTreeMap, get, insert, remove, contains_key}
use ko_ls.Base.BTreeMap.Laws.{get-insert, get-remove}
use ko_ls.Node.Structure.{and_then}
use ko_ls.Node.Unread.{
  Counts, Shown, Unread, clear, clear_shown, track, forget, opens, shows, is_viewed, arrived,
  clear_in, view, window_gone, unread_of, nothing_unread, or_zero,
}

-- The calls of the operations.
pub data Call : Type 0 where
  tracking : Bytes → Bytes → Counts → Call
  forgetting : Bytes → Call
  arriving : Bytes → Bytes → ℕ → Call
  viewing : Bytes → Option Shown → Call
  closing : Bytes → Call

abbrev pub called : Call → Unread → Unread
called (Call.tracking network root loaded) u = track network root loaded u
called (Call.forgetting network) u = forget network u
called (Call.arriving network channel messages) u = (arrived network channel messages u).1
called (Call.viewing window shown) u = (view window shown u).1
called (Call.closing window) u = window_gone window u

abbrev pub called_all : List Call → Unread → Unread
called_all [] u = u
called_all (c ∷ cs) u = called_all cs (called c u)

-- What a window shows has no count.
abbrev IsCurrent : Unread → Type 0
IsCurrent u =
    (network channel : Bytes)
    → is_viewed network channel u ≡ true
    → unread_of network channel u ≡ none

module _ (f : Bytes × Shown → Bool) where
  any-insert :
      (w : Bytes) (x : Shown) (m : BTreeMap Bytes Shown)
      → any f (insert w x m) ≡ true
      → (f (w, x) ≡ true) ⊎ (any f m ≡ true)
  unfolding insert
  any-insert w x [] h = ground arith
  any-insert w x ((v, y) ∷ m) h = let rest = any-insert w x m in ground arith

  any-remove : (w : Bytes) (m : BTreeMap Bytes Shown) → any f (remove w m) ≡ true → any f m ≡ true
  unfolding remove
  any-remove w [] h = h
  any-remove w ((v, y) ∷ m) h = let rest = any-remove w m in ground arith

  any-filter :
      (g : Bytes × Shown → Bool) (m : BTreeMap Bytes Shown)
      → any f (filter g m) ≡ true
      → any f m ≡ true
  any-filter g [] h = h
  any-filter g (e ∷ m) h = let rest = any-filter g m in ground arith

unread_of-clear :
    (channel : Bytes) (within : Option Bytes) (counts : Counts)
    → get channel (clear within counts)
      ≡ (if opens within channel then none else get channel counts)
unfolding clear get
unread_of-clear channel none counts = refl
unread_of-clear channel (some w) counts =
    get-remove channel w counts
    ∙ ap (λ b. if b then none else get channel counts) (==_comm channel w)

get-clear_shown :
    (network channel : Bytes) (m : BTreeMap Bytes Shown) (counts : Counts)
    → get channel (clear_shown network m counts)
      ≡ (if any (shows network channel) m then none else get channel counts)
unfolding clear_shown
get-clear_shown network channel [] counts = refl
get-clear_shown network channel ((window, (shown, within)) ∷ m) counts =
    let rest =
      get-clear_shown network channel m
        (if shown == network then clear within counts else counts) in
    ground (arith, rest, unread_of-clear channel within counts)

-- The count that a channel has, by the networks' counts.
abbrev count_of : Bytes → Bytes → BTreeMap Bytes Counts → Option ℕ
count_of q c m = and_then (get q m) (get c)

count_of-insert :
    (q c network : Bytes) (counts : Counts) (m : BTreeMap Bytes Counts)
    → count_of q c (insert network counts m)
      ≡ (if q == network then get c counts else count_of q c m)
count_of-insert q c network counts m = let e = get-insert q network counts m in ground (arith, e)

track-IsCurrent :
    (network root : Bytes) (loaded : Counts) (u : Unread)
    → IsCurrent u
    → IsCurrent (track network root loaded u)
unfolding track is_viewed unread_of
track-IsCurrent network root loaded u h q c seen =
    let before = h q c in
    let e = count_of-insert q c network (clear_shown network u.viewing loaded) u.counts in
    let cleared = get-clear_shown network c u.viewing loaded in
    elim (Bool-cases (contains_key network u.roots)) [
      | inl there ↦ ground (arith, before)
      | inr new ↦ elim (Bool-cases (q == network)) [
        | inl same ↦
            let it = (==_iff q network).0 same in
            let seen_before : any (shows q c) u.viewing ≡ true = ground (arith, new) in
            let at : any (shows network c) u.viewing ≡ true =
              ap (λ n. any (shows n c) u.viewing) (sym it) ∙ seen_before in
            ground (arith, e, cleared, at)
        | inr other ↦ ground (arith, e, before)
      ]
    ]

forget-IsCurrent : (network : Bytes) (u : Unread) → IsCurrent u → IsCurrent (forget network u)
unfolding forget is_viewed unread_of
forget-IsCurrent network u h q c seen =
    let before = h q c (any-filter (shows q c) (λ e. not (e.1.0 == network)) u.viewing seen) in
    let e = get-remove q network u.counts in ground (arith, e, before)

arrived-IsCurrent :
    (network channel : Bytes) (messages : ℕ) (u : Unread)
    → IsCurrent u
    → IsCurrent (arrived network channel messages u).1
unfolding arrived is_viewed unread_of
arrived-IsCurrent network channel messages u h q c seen =
    elim (Bool-cases ((messages == 0) || is_viewed network channel u)) [
      | inl idle ↦ ground (arith, h q c)
      | inr busy ↦ elim (Option-cases (get network u.counts)) [
        | inl untracked ↦ ground (arith, h q c)
        | inr (counts, found) ↦
            let n = saturating_add_u32 (or_zero (get channel counts)) messages in
            let e = count_of-insert q c network (insert channel n counts) u.counts in
            let d = get-insert c channel n counts in
            let seen_before : is_viewed q c u ≡ true = ground (arith, busy, found) in
            let before = h q c seen_before in
            elim (Bool-cases (q == network)) [
              | inr other ↦ ground (arith, e, before)
              | inl same ↦
                  let at : get q u.counts ≡ get network u.counts =
                    ap (λ x. get x u.counts) ((==_iff q network).0 same) in
                  elim (Bool-cases (c == channel)) [
                    | inr apart ↦ ground (arith, e, d, before, at)
                    | inl it ↦
                        let viewed : is_viewed network channel u ≡ true =
                          ap (λ x. is_viewed x channel u) (sym ((==_iff q network).0 same))
                          ∙ (ap (λ y. is_viewed q y u) (sym ((==_iff c channel).0 it))
                              ∙ seen_before) in
                        absurd (ground (arith, viewed, busy))
                  ]
            ]
      ]
    ]

count_of-clear_in :
    (q c network : Bytes) (within : Option Bytes) (m : BTreeMap Bytes Counts)
    → count_of q c (clear_in network within m)
      ≡ (if (network == q) && opens within c then none else count_of q c m)
count_of-clear_in q c network within m =
    let flipped = ==_comm q network in
    elim (Bool-cases (q == network)) [
      | inr other ↦ elim (Option-cases (get network m)) [
        | inl missing ↦ ground (arith, flipped)
        | inr (counts, found) ↦
            let e = count_of-insert q c network (clear within counts) m in
            ground (arith, flipped, e)
      ]
      | inl same ↦
          let at : get q m ≡ get network m = ap (λ x. get x m) ((==_iff q network).0 same) in
          elim (Option-cases (get network m)) [
            | inl missing ↦ ground (arith, flipped, at)
            | inr (counts, found) ↦
                let e = count_of-insert q c network (clear within counts) m in
                let d = unread_of-clear c within counts in ground (arith, flipped, at, e, d)
          ]
    ]

view-IsCurrent :
    (window : Bytes) (shown : Option Shown) (u : Unread)
    → IsCurrent u
    → IsCurrent (view window shown u).1
unfolding view is_viewed unread_of
view-IsCurrent window none u h q c seen = h q c (any-remove (shows q c) window u.viewing seen)
view-IsCurrent window (some (network, within)) u h q c seen =
    let e = count_of-clear_in q c network within u.counts in
    elim (any-insert (shows q c) window (network, within) u.viewing seen) [
      | inl now ↦ ground (arith, e)
      | inr before ↦ let zero = h q c before in ground (arith, e, zero)
    ]

gone-IsCurrent : (window : Bytes) (u : Unread) → IsCurrent u → IsCurrent (window_gone window u)
unfolding window_gone is_viewed unread_of
gone-IsCurrent window u h q c seen = h q c (any-remove (shows q c) window u.viewing seen)

called-IsCurrent : (c : Call) (u : Unread) → IsCurrent u → IsCurrent (called c u)
called-IsCurrent (Call.tracking network root loaded) = track-IsCurrent network root loaded
called-IsCurrent (Call.forgetting network) = forget-IsCurrent network
called-IsCurrent (Call.arriving network channel messages) =
    arrived-IsCurrent network channel messages
called-IsCurrent (Call.viewing window shown) = view-IsCurrent window shown
called-IsCurrent (Call.closing window) = gone-IsCurrent window

called_all-IsCurrent : (cs : List Call) (u : Unread) → IsCurrent u → IsCurrent (called_all cs u)
called_all-IsCurrent [] u h = h
called_all-IsCurrent (c ∷ cs) u h = called_all-IsCurrent cs (called c u) (called-IsCurrent c u h)

-- After whatever calls, from the state in which no network is tracked, a channel that a window
-- shows has no unread count.
pub unread_of-called_all :
    (cs : List Call) (network channel : Bytes)
    → is_viewed network channel (called_all cs nothing_unread) ≡ true
    → unread_of network channel (called_all cs nothing_unread) ≡ none
unfolding nothing_unread is_viewed
unread_of-called_all cs network channel =
    called_all-IsCurrent cs nothing_unread (λ q c seen. absurd (ground arith)) network channel
