-- ===== src/Node/Unread.antt =====
-- Unread counts, and what the windows show: crates/kols-node/src/unread.rs. Writing the counts to the
-- store's file is left out, and what a store's file holds is an argument of `track`.
pub mod Shown
use ko_ls.Base.{
  ℕ, Bool, true, false, ◌&&◌, ◌||◌, not, Option, none, some, List, [], ◌∷◌, filter, any, length,
  if◌then◌else◌,
}
use ko_ls.Base.Order.{Bytes, bytes_ord, nat_ord, ◌==◌}
use ko_ls.Base.Int.{saturating_add_u32}
use ko_ls.Base.BTreeMap.{BTreeMap, get, insert, remove, contains_key, values}
use ko_ls.Node.Structure.{and_then}

-- The counts of one network, by channel.
abbrev pub Counts : Type 0
Counts = BTreeMap Bytes ℕ

-- What a window shows: a channel of a network, or all of it.
abbrev pub Shown : Type 0
Shown = Bytes × Option Bytes

pub record Unread : Type 0 where
  pub counts : BTreeMap Bytes Counts
  pub roots : BTreeMap Bytes Bytes
  pub viewing : BTreeMap Bytes Shown

-- Clears what is shown of the counts of its network: the `match` of `track` and of `viewing`.
unfoldable pub clear : Option Bytes → Counts → Counts
clear none counts = []
clear (some channel) counts = remove channel counts

-- The loop of `track` over what the windows show.
unfoldable pub clear_shown : Bytes → BTreeMap Bytes Shown → Counts → Counts
unfolding clear
clear_shown network [] counts = counts
clear_shown network ((window, (shown, within)) ∷ rest) counts =
    clear_shown network rest (if shown == network then clear within counts else counts)

-- `Unread::track`
unfoldable pub track : Bytes → Bytes → Counts → Unread → Unread
unfolding clear_shown
track network root loaded u = if contains_key network u.roots then u else record u {
  counts = insert network (clear_shown network u.viewing loaded) u.counts;
  roots = insert network root u.roots;
}

-- `Unread::forget`
unfoldable pub forget : Bytes → Unread → Unread
forget network u = record {
  counts = remove network u.counts;
  roots = remove network u.roots;
  viewing = filter (λ e. not (e.1.0 == network)) u.viewing;
}

abbrev pub opens : Option Bytes → Bytes → Bool
opens none channel = true
opens (some within) channel = within == channel

abbrev pub shows : Bytes → Bytes → Bytes × Shown → Bool
shows network channel e = (e.1.0 == network) && opens e.1.1 channel

-- `Unread::is_viewed`
unfoldable pub is_viewed : Bytes → Bytes → Unread → Bool
is_viewed network channel u = any (shows network channel) u.viewing

abbrev pub or_zero : Option ℕ → ℕ
or_zero none = 0
or_zero (some n) = n

-- `Unread::arrived`: whether a count changed, and the counts after it.
unfoldable pub arrived : Bytes → Bytes → ℕ → Unread → Bool × Unread
unfolding is_viewed
arrived network channel messages u =
    if (messages == 0) || is_viewed network channel u
    then (false, u)
    else elim (get network u.counts) [
      | none ↦ (false, u)
      | some counts ↦ (
        true,
        record u {
          counts =
              insert network
                (insert channel (saturating_add_u32 (or_zero (get channel counts)) messages) counts)
                u.counts;
        },
      )
    ]

abbrev pub clear_in : Bytes → Option Bytes → BTreeMap Bytes Counts → BTreeMap Bytes Counts
clear_in network within m = elim (get network m) [
  | none ↦ m
  | some counts ↦ insert network (clear within counts) m
]

-- Whether clearing took something off.
abbrev pub clears : Bytes → Option Bytes → BTreeMap Bytes Counts → Bool
clears network within m = elim (get network m) [
  | none ↦ false
  | some counts ↦ not (length (clear within counts) == length counts)
]

-- `Unread::viewing`
unfoldable pub view : Bytes → Option Shown → Unread → Bool × Unread
unfolding clear
view window none u = (false, record u { viewing = remove window u.viewing })
view window (some (network, within)) u = (
  clears network within u.counts,
  record u {
    counts = clear_in network within u.counts;
    viewing = insert window (network, within) u.viewing;
  },
)

-- `Unread::window_gone`
unfoldable pub window_gone : Bytes → Unread → Unread
window_gone window u = record u { viewing = remove window u.viewing }

-- The count that `Unread::channels` gives a channel, if it gives one.
unfoldable pub unread_of : Bytes → Bytes → Unread → Option ℕ
unread_of network channel u = and_then (get network u.counts) (get channel)

-- `Unread::default`
unfoldable pub nothing_unread : Unread
nothing_unread = record { counts = []; roots = []; viewing = [] }
