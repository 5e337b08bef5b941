-- ===== src/Examples/Counts.antt =====
-- Two channels, one of them shown by a window.
use ko_ls.Base.{true, some, none, List, [], ◌∷◌, ◌≡◌, refl}
use ko_ls.Base.Order.{bytes_ord, cmp_bytes}
use ko_ls.Base.Text.{codes}
use ko_ls.Base.BTreeMap.{insert, get, remove}
use ko_ls.Base.Int.{saturating_add_u32}
use ko_ls.Node.Unread.{is_viewed, unread_of, nothing_unread, track, arrived, view}
use ko_ls.Node.Unread.Shown.{Call, called_all, unread_of-called_all}

abbrev day : List Call
day =
    Call.viewing (codes "main") (some (1 ∷ [], some (codes "den")))
    ∷ Call.tracking (1 ∷ []) [] ((codes "den", 3) ∷ (codes "hall", 2) ∷ [])
    ∷ Call.arriving (1 ∷ []) (codes "den") 4
    ∷ Call.arriving (1 ∷ []) (codes "hall") 5
    ∷ []

den_shown : is_viewed (1 ∷ []) (codes "den") (called_all day nothing_unread) ≡ true
unfolding is_viewed nothing_unread track arrived view cmp_bytes insert get
den_shown = refl

hall_unread : unread_of (1 ∷ []) (codes "hall") (called_all day nothing_unread) ≡ some 7
unfolding unread_of nothing_unread track arrived view cmp_bytes insert saturating_add_u32 get remove
hall_unread = refl

unread_of-called_all_example :
    unread_of (1 ∷ []) (codes "den") (called_all day nothing_unread) ≡ none
unread_of-called_all_example = unread_of-called_all day (1 ∷ []) (codes "den") den_shown
