-- ===== src/Core/View/Drain.antt =====
-- The drain of `order` after the passes, where no two messages share an identifier.
use ko_ls.Base.{false, some, List, [], ◌∷◌, map, All, ◌≡◌, refl, arith}
use ko_ls.Base.Order.{bytes_ord, ◌==◌, ==_refl, ==_comm}
use ko_ls.Base.BTreeMap
use ko_ls.Base.BTreeMap.{BTreeMap, get, insert}
use ko_ls.Base.BTreeMap.Laws.{get-insert, get-remove}
use ko_ls.Core.Record.{MessageId}
use ko_ls.Core.Cursor.{Cursor}
use ko_ls.Core.Record.{Record}
use ko_ls.Core.Limits.{Withheld}
use ko_ls.Core.View.{RenderedMessage, fresh, take_out}
use ko_ls.Core.View.History.{written}
use ko_ls.Core.View.Passes.{IsKeyed, insert_each, ids}

-- No message of the list has the identifier.
abbrev IsUnlike : MessageId → List RenderedMessage → Type 0
IsUnlike i = All (λ m. (i == m.id) ≡ false)

abbrev pub HasDistinctIds : List RenderedMessage → Type 0
HasDistinctIds [] = Unit
HasDistinctIds (m ∷ rest) = IsUnlike m.id rest × HasDistinctIds rest

-- No two positions share an identifier.
abbrev pub HasDistinctPositions : BTreeMap Cursor Record → Type 0
HasDistinctPositions [] = Unit
HasDistinctPositions ((c, r) ∷ rest) =
    All (λ e. (c.id == e.0.id) ≡ false) rest × HasDistinctPositions rest

written-IsUnlike :
    (w : Withheld) (i : MessageId) (records : BTreeMap Cursor Record)
    → All (λ e. (i == e.0.id) ≡ false) records
    → IsUnlike i (written w records)
unfolding written fresh
written-IsUnlike w i [] h = tt
written-IsUnlike w i ((c, r) ∷ rest) h = ground (arith, written-IsUnlike w i rest h.1)

pub written-HasDistinctIds :
    (w : Withheld) (records : BTreeMap Cursor Record)
    → HasDistinctPositions records
    → HasDistinctIds (written w records)
unfolding written fresh
written-HasDistinctIds w [] d = tt
written-HasDistinctIds w ((c, r) ∷ rest) d =
    ground (arith, written-HasDistinctIds w rest d.1, written-IsUnlike w c.id rest d.0)

get-insert_each :
    (i : MessageId) (fs : List RenderedMessage) (ms : BTreeMap MessageId RenderedMessage)
    → IsUnlike i fs
    → get i (insert_each fs ms) ≡ get i ms
unfolding insert_each
get-insert_each i [] ms u = refl
get-insert_each i (f ∷ fs) ms u =
    ground (arith, get-insert_each i fs (insert f.id f ms) u.1, get-insert i f.id f ms)

pub insert_each-found :
    (fs : List RenderedMessage) (ms : BTreeMap MessageId RenderedMessage)
    → HasDistinctIds fs
    → All (λ f. get f.id (insert_each fs ms) ≡ some f) fs
unfolding insert_each
insert_each-found [] ms d = tt
insert_each-found (f ∷ fs) ms d = (
  ground (
    arith,
    get-insert_each f.id fs (insert f.id f ms) d.0,
    get-insert f.id f.id f ms,
    ==_refl f.id,
  ),
  insert_each-found fs (insert f.id f ms) d.1,
)

pub insert_each-IsKeyed :
    (fs : List RenderedMessage) (ms : BTreeMap MessageId RenderedMessage)
    → IsKeyed ms
    → IsKeyed (insert_each fs ms)
unfolding insert_each
insert_each-IsKeyed [] ms k = k
insert_each-IsKeyed (f ∷ fs) ms k = insert_each-IsKeyed fs (insert f.id f ms) keyed
  where
    keyed : IsKeyed (insert f.id f ms)
    keyed i m h = ground (arith, get-insert i f.id f ms, k i m, bytes_ord.same_eq i f.id)

found_after_remove :
    (g : RenderedMessage → RenderedMessage) (i : MessageId) (fs : List RenderedMessage)
    (ms : BTreeMap MessageId RenderedMessage)
    → IsUnlike i fs
    → All (λ f. get f.id ms ≡ some (g f)) fs
    → All (λ f. get f.id (BTreeMap.remove i ms) ≡ some (g f)) fs
found_after_remove g i [] ms u h = tt
found_after_remove g i (f ∷ fs) ms u h = (
  ground (arith, get-remove f.id i ms, ==_comm f.id i, u.0, h.0),
  found_after_remove g i fs ms u.1 h.1,
)

-- Draining by distinct identifiers reads each message once.
pub take_out-ids :
    (g : RenderedMessage → RenderedMessage) (fs : List RenderedMessage)
    (ms : BTreeMap MessageId RenderedMessage)
    → HasDistinctIds fs
    → All (λ f. get f.id ms ≡ some (g f)) fs
    → take_out (ids fs) ms ≡ map g fs
unfolding take_out
take_out-ids g [] ms d h = refl
take_out-ids g (f ∷ fs) ms d h = ground (
  arith,
  h.0,
  take_out-ids g fs (BTreeMap.remove f.id ms) d.1 (found_after_remove g f.id fs ms d.0 h.1),
)
