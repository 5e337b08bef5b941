-- ===== src/Core/Channel/Sidebar.antt =====
-- The default order of a network's sidebar: `sidebar_order` of crates/kols-core/src/channel.rs.
pub mod Grouping
pub mod Sums
pub mod Counts
use Prim.Native.Nat.{compare, Ordering}
use ko_ls.Base.{ℕ, Option, none, some, is_some, List, [], ◌∷◌, ◌++◌, map, if◌then◌else◌}
use ko_ls.Base.Order.{Bytes, bytes_ord, cmp_bytes, then_with}
use ko_ls.Base.BTreeMap.{BTreeMap, get, insert, remove, keys}
use ko_ls.Base.Sorting.{sort_by}
use ko_ls.Core.Record.{ChannelId, CategoryId}

pub record SidebarChannel : Type 0 where
  pub id : ChannelId
  pub category : Option CategoryId
  pub position : Option ℕ

pub record SidebarCategory : Type 0 where
  pub id : CategoryId
  pub position : Option ℕ

pub data SidebarRow : Type 0 where
  channel_row : ChannelId → SidebarRow
  category_row : CategoryId → List ChannelId → SidebarRow

-- `false` before `true`, for `is_none`
abbrev none_rank : Option ℕ → ℕ
none_rank none = 1
none_rank (some at) = 0

abbrev or_zero : Option ℕ → ℕ
or_zero none = 0
or_zero (some at) = at

unfoldable pub cmp_siblings : Option ℕ × Bytes → Option ℕ × Bytes → Ordering
cmp_siblings a b =
    then_with (compare (none_rank a.0) (none_rank b.0))
      (then_with (compare (or_zero a.0) (or_zero b.0)) (cmp_bytes a.1 b.1))

abbrev pub cmp_channels : SidebarChannel → SidebarChannel → Ordering
cmp_channels a b = cmp_siblings (a.position, a.id) (b.position, b.id)

abbrev pub cmp_entries : CategoryId × Option ℕ → CategoryId × Option ℕ → Ordering
cmp_entries a b = cmp_siblings (a.1, a.0) (b.1, b.0)

abbrev pub or_empty : Option (List SidebarChannel) → List SidebarChannel
or_empty none = []
or_empty (some cs) = cs

abbrev pub Grouped : Type 0
Grouped = BTreeMap CategoryId (List SidebarChannel)

-- A round of the first loop, by the channel's category.
unfoldable pub push :
    Option CategoryId
    → SidebarChannel
    → Grouped × List SidebarChannel
    → Grouped × List SidebarChannel
push (some k) c (grouped, loose) = (insert k (or_empty (get k grouped) ++ c ∷ []) grouped, loose)
push none c (grouped, loose) = (grouped, loose ++ c ∷ [])

-- The first loop: what stands in categories, and what in none.
unfoldable pub group :
    List SidebarChannel → Grouped × List SidebarChannel → Grouped × List SidebarChannel
unfolding push
group [] done = done
group (c ∷ cs) done = group cs (push c.category c done)

-- The loops over the categories defined, and over those that a channel names.
unfoldable pub defined :
    List SidebarCategory → BTreeMap CategoryId (Option ℕ) → BTreeMap CategoryId (Option ℕ)
defined [] m = m
defined (c ∷ cs) m = defined cs (insert c.id c.position m)

unfoldable pub named :
    List CategoryId → BTreeMap CategoryId (Option ℕ) → BTreeMap CategoryId (Option ℕ)
named [] m = m
named (k ∷ ks) m = named ks (if is_some (get k m) then m else insert k none m)

unfoldable pub positions : List SidebarCategory → Grouped → BTreeMap CategoryId (Option ℕ)
unfolding defined named keys
positions categories grouped = named (keys grouped) (defined categories [])

-- The last loop; `remove` takes a category's channels out.
unfoldable pub category_rows : List (CategoryId × Option ℕ) → Grouped → List SidebarRow
unfolding cmp_siblings
category_rows [] grouped = []
category_rows ((k, at) ∷ more) grouped =
    category_row k (map (λ c. c.id) (sort_by cmp_channels (or_empty (get k grouped))))
    ∷ category_rows more (remove k grouped)

unfoldable pub sidebar_order : List SidebarChannel → List SidebarCategory → List SidebarRow
unfolding group positions category_rows cmp_siblings
sidebar_order channels categories =
    let (grouped, loose) = group channels ([], []) in
    map (λ c. channel_row c.id) (sort_by cmp_channels loose)
    ++ category_rows (sort_by cmp_entries (positions categories grouped)) grouped
