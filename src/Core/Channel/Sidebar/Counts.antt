-- ===== src/Core/Channel/Sidebar/Counts.antt =====
-- How often a channel stands in the sidebar.
use ko_ls.Base.{
  ℕ, suc, ◌+◌, Bool, false, ◌&&◌, Option, none, some, is_some, List, [], ◌∷◌, ◌++◌, map, filter,
  count_if, All, All-of_In, In, In-filter, inl, inr, if◌then◌else◌, ◌≡◌, ◌∙◌, refl, sym, ap, subst,
  arith, Option-cases,
}
use ko_ls.Base.Order.{bytes_ord, ◌==◌, ==_refl, ==_comm}
use ko_ls.Base.BTreeMap.{BTreeMap, get, remove}
use ko_ls.Base.BTreeMap.Laws.{get-remove}
use ko_ls.Base.Sorting.{sort_by, count_if-sort_by}
use ko_ls.Core.Record.{ChannelId, CategoryId}
use ko_ls.Core.Channel.Sidebar.{
  SidebarChannel, SidebarCategory, SidebarRow, channel_row, category_row, cmp_channels, cmp_entries,
  Grouped, or_empty, group, positions, category_rows, sidebar_order,
}
use ko_ls.Core.Channel.Sidebar.Grouping.{
  is_in, names, is_loose, get-group, loose-group, positions-IsSorted, positions-names,
}
use ko_ls.Core.Channel.Sidebar.Sums.{
  sum_by, sum_by-sort_by, sum_by-agree, IsApart, sort_by-IsApart, sum_by-in_categories, IsPlaced,
  All-every,
}

-- How often a channel stands in the rows.
unfoldable pub shown : ChannelId → List SidebarRow → ℕ
shown i [] = 0
shown i (channel_row j ∷ rows) = let rest = shown i rows in if i == j then suc rest else rest
shown i (category_row k js ∷ rows) = count_if (λ j. i == j) js + shown i rows

module _ (i : ChannelId) where
  is_it : SidebarChannel → Bool
  is_it c = i == c.id

  shown-loose :
      (cs : List SidebarChannel) (rows : List SidebarRow)
      → shown i (map (λ c. channel_row c.id) cs ++ rows) ≡ count_if is_it cs + shown i rows
  unfolding shown is_it
  shown-loose [] rows = omega arith
  shown-loose (c ∷ cs) rows = ground (arith, shown-loose cs rows)

  count-ids :
      (cs : List SidebarChannel) → count_if (λ j. i == j) (map (λ c. c.id) cs) ≡ count_if is_it cs
  unfolding is_it
  count-ids [] = refl
  count-ids (c ∷ cs) = ground (arith, count-ids cs)

  -- Taking another category's channels out changes nothing.
  shown-category_rows :
      (es : List (CategoryId × Option ℕ)) (grouped : Grouped)
      → IsApart es
      → shown i (category_rows es grouped)
        ≡ sum_by (λ e. count_if is_it (or_empty (get e.0 grouped))) es
  unfolding shown category_rows sum_by
  shown-category_rows [] grouped a = refl
  shown-category_rows ((k, at) ∷ more) grouped a =
      let here : count_if (λ j. i == j)
            (map (λ c. c.id) (sort_by cmp_channels (or_empty (get k grouped))))
          ≡ count_if is_it (or_empty (get k grouped)) =
        count-ids (sort_by cmp_channels (or_empty (get k grouped)))
        ∙ count_if-sort_by cmp_channels is_it (or_empty (get k grouped)) in
      let behind : shown i (category_rows more (remove k grouped))
          ≡ sum_by (λ e. count_if is_it (or_empty (get e.0 grouped))) more =
        shown-category_rows more (remove k grouped) a.1
        ∙ sum_by-agree _ _ more (All-of_apart more a.0) in
      rw (here, behind) refl
    where
      All-of_apart :
          (es : List (CategoryId × Option ℕ))
          → All (λ f. (k == f.0) ≡ false) es
          → All
              (λ e.
                count_if is_it (or_empty (get e.0 (remove k grouped)))
                ≡ count_if is_it (or_empty (get e.0 grouped)))
              es
      All-of_apart [] h = tt
      All-of_apart (e ∷ es) h =
          let kept : get e.0 (remove k grouped) ≡ get e.0 grouped =
            ground (arith, get-remove e.0 k grouped, ==_comm e.0 k, h.0) in
          (ap (λ o. count_if is_it (or_empty o)) kept, All-of_apart es h.1)

  split_count :
      (cs : List SidebarChannel)
      → count_if is_it (filter is_loose cs) + count_if (λ c. is_some c.category && is_it c) cs
        ≡ count_if is_it cs
  split_count [] = refl
  split_count (c ∷ cs) = ground (arith, split_count cs)

  module _ (channels : List SidebarChannel) (categories : List SidebarCategory) where
    abbrev done : Grouped × List SidebarChannel
    done = group channels ([], [])

    abbrev places : BTreeMap CategoryId (Option ℕ)
    places = positions categories done.0

    IsPlaced-at :
        (c : SidebarChannel) (o : Option CategoryId)
        → In c channels
        → c.category ≡ o
        → IsPlaced places o
    unfolding get
    IsPlaced-at c none here e = tt
    IsPlaced-at c (some k) here e =
        let kept : In c (filter (names k) channels) =
          In-filter (names k) c channels here (ap (is_in k) e ∙ ==_refl k) in
        elim (Option-cases (get k done.0)) [
          | inr (cs, found) ↦ positions-names k categories done.0 (ap is_some found)
          | inl missing ↦
              let nothing : filter (names k) channels ≡ [] =
                sym (get-group k channels ([], [])) ∙ ap or_empty missing in
              absurd (subst (In c) nothing kept)
        ]

    shown-places :
        shown i (category_rows (sort_by cmp_entries places) done.0)
        ≡ count_if (λ c. is_some c.category && is_it c) channels
    unfolding get
    shown-places =
        let sorted = positions-IsSorted categories done.0 in
        shown-category_rows (sort_by cmp_entries places) done.0
          (sort_by-IsApart cmp_entries places sorted)
        ∙ sum_by-sort_by cmp_entries _ places
        ∙ sum_by-agree _ _ places
            (All-every places (λ e. ap (count_if is_it) (get-group e.0 channels ([], []))))
        ∙ sum_by-in_categories is_it places channels sorted
            (All-of_In _ channels (λ c here. IsPlaced-at c c.category here refl))

  -- Each channel stands in the rows as often as it was given.
  pub shown-sidebar_order :
      (channels : List SidebarChannel) (categories : List SidebarCategory)
      → shown i (sidebar_order channels categories) ≡ count_if (λ c. i == c.id) channels
  unfolding sidebar_order is_it
  shown-sidebar_order channels categories =
      let loose = (group channels ([], [])).1 in
      shown-loose (sort_by cmp_channels loose) _
      ∙ omega (
        arith,
        count_if-sort_by cmp_channels is_it loose,
        ap (count_if is_it) (loose-group channels ([], [])),
        shown-places channels categories,
        split_count channels,
      )
