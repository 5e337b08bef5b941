-- ===== src/Examples/Channels.antt =====
-- Channel entries on the small platform.
use ko_ls.Base.{true, none, some, List, [], ◌∷◌, is_some, count_if, ◌≡◌, refl}
use ko_ls.Base.Order.{Bytes, bytes_ord, ==_iff, ◌==◌, cmp_bytes}
use ko_ls.Base.Text.{codes}
use ko_ls.Base.Result.{ok}
use ko_ls.Platform.Laws.{IsEntryLog}
use ko_ls.Core.Permissions.{capability, scope_name, holds, holds_in_scope}
use ko_ls.Core.Policy.{NetworkProfile}
use ko_ls.Core.Channel.{
  of_channel, ChannelChange, ChannelEntry, update, entry_kind, check_entry, agrees, required_verb,
}
use ko_ls.Core.Channel.Codec.{encode_entry, decode_entry}
use ko_ls.Core.Channel.Codec.RoundTrip.{IsEntry}
use ko_ls.Core.Channel.Admission.{chat_namespace, declaration, to_app_entry, read}
use ko_ls.Core.Channel.Admission.Scopes.{permitted, place_of, IsAuthorised, declaration-permitted}
use ko_ls.Core.Channel.Admission.Published.{read-IsAuthorised, read-to_app_entry}
use ko_ls.Base.BTreeMap.{get, insert}
use ko_ls.Base.Sorting.{sort_by}
use ko_ls.Core.Channel.Sidebar.{SidebarChannel, channel_row, category_row, sidebar_order}
use ko_ls.Core.Channel.Sidebar.Counts.{shown, shown-sidebar_order}
use ko_ls.Examples.Values.{grants, alice}
use ko_ls.Examples.Tiny.{tiny}
use ko_ls.Examples.Codec.{AnyText, tiny-IsCodec, repeat}

pub grants-IsEntryLog : IsEntryLog grants
grants-IsEntryLog = record {
  as_app_entry-app_entry = λ namespace kind c payload. refl;
  same_capability-iff = λ a b. ==_iff a b;
}

abbrev renaming : ChannelEntry
renaming = record {
  subject = of_channel (repeat 32);
  body = update (ChannelChange.rename (codes "den"));
}

renaming-IsEntry : IsEntry tiny AnyText renaming
unfolding agrees
renaming-IsEntry = record { subject_len = refl; body = tt; agreed = refl }

-- Alice may manage every channel.
abbrev pub manager : grants.State
manager = (alice, 1 ∷ codes "chat:manage-channel:*") ∷ []

manager-permitted : permitted tiny grants manager alice renaming none ≡ true
unfolding permitted place_of required_verb holds holds_in_scope scope_name capability cmp_bytes
manager-permitted = refl

renaming_checked : check_entry renaming ≡ ok tt
unfolding check_entry
renaming_checked = refl

read-to_app_entry_example :
    (declared : grants.Capability) × (body : grants.EntryBody) × (grants.identity_holds manager
        alice declared
      ≡ true)
    × (grants.as_app_entry body
        ≡ some (chat_namespace, entry_kind renaming.body, declared, encode_entry tiny renaming))
    × (to_app_entry tiny grants renaming manager alice none ≡ ok body)
    × (read tiny grants body NetworkProfile.server none ≡ ok renaming)
read-to_app_entry_example =
    read-to_app_entry tiny grants renaming manager alice none AnyText tiny-IsCodec grants-IsEntryLog
      renaming-IsEntry renaming_checked refl manager-permitted

declaration-permitted_example :
    is_some (declaration tiny grants renaming manager alice none)
    ≡ permitted tiny grants manager alice renaming none
declaration-permitted_example = declaration-permitted tiny grants manager alice renaming none

-- The entry as the log carries it.
abbrev posted : grants.EntryBody
posted = (
  codes "chat",
  codes "channel-update",
  1 ∷ codes "chat:manage-channel:*",
  encode_entry tiny renaming,
)

posted-read : read tiny grants posted NetworkProfile.server none ≡ ok renaming
unfolding read encode_entry decode_entry entry_kind check_entry cmp_bytes scope_name capability
posted-read = refl

read-IsAuthorised_example :
    (NetworkProfile.server ≡ NetworkProfile.server)
    × (declared : grants.Capability) × (payload : Bytes) × (grants.as_app_entry posted
        ≡ some (chat_namespace, entry_kind renaming.body, declared, payload))
    × (decode_entry tiny (entry_kind renaming.body) payload ≡ ok renaming)
    × (check_entry renaming ≡ ok tt)
    × IsAuthorised tiny grants renaming none declared
read-IsAuthorised_example =
    read-IsAuthorised tiny grants posted NetworkProfile.server none renaming grants-IsEntryLog
      posted-read

-- A channel in no category, and two in one that nothing defines.
abbrev rooms : List SidebarChannel
rooms =
    record { id = 1 ∷ []; category = some (9 ∷ []); position = none }
    ∷ record { id = 2 ∷ []; category = none; position = some 3 }
    ∷ record { id = 3 ∷ []; category = some (9 ∷ []); position = some 0 }
    ∷ []

shown-sidebar_order_example :
    shown (1 ∷ []) (sidebar_order rooms []) ≡ count_if (λ c. (1 ∷ []) == c.id) rooms
shown-sidebar_order_example = shown-sidebar_order (1 ∷ []) rooms []

rooms_ordered :
    sidebar_order rooms []
    ≡ channel_row (2 ∷ []) ∷ category_row (9 ∷ []) ((3 ∷ []) ∷ (1 ∷ []) ∷ []) ∷ []
unfolding sidebar_order sort_by get insert cmp_bytes
rooms_ordered = refl
