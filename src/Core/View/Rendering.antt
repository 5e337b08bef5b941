-- ===== src/Core/View/Rendering.antt =====
-- `render` and `render_excluding` compute the history message by message.
use ko_ls.Base.{◌||◌, some, List, [], ◌∷◌, map, filter, any, All, ◌≡◌, refl, ap, ◌∙◌, arith}
use ko_ls.Base.Order.{bytes_ord, ◌==◌}
use ko_ls.Base.Int.{ℤ}
use ko_ls.Base.BTreeMap.{BTreeMap, get, insert, keys, values, contains_key}
use ko_ls.Base.BTreeMap.Laws.{get-insert}
use ko_ls.Platform.{Platform}
use ko_ls.Core.Record.{MessageId, Record, id}
use ko_ls.Core.Cursor.{Cursor}
use ko_ls.Core.Limits.{ReaderLimits, Withheld, BTreeSet, excludes, too_fast, is_ahead, withheld}
use ko_ls.Core.Limits.Hold.{dated_ahead, held-eq-dated_ahead}
use ko_ls.Core.View.{
  ChannelView, RenderedMessage, pass_two, take_out, render_excluding, render, collect, held_now,
  view_withheld,
}
use ko_ls.Core.View.History.{settle, written, history}
use ko_ls.Core.View.Passes.{
  IsKeyed, map_option, ids, insert_each, get-pass_two, pass_one-written, pass_one-order,
}
use ko_ls.Core.View.Drain.{
  HasDistinctPositions, written-HasDistinctIds, insert_each-found, insert_each-IsKeyed,
  take_out-ids,
}

all_settled :
    (w : Withheld) (records : BTreeMap Cursor Record) (ms : BTreeMap MessageId RenderedMessage)
    (fs : List RenderedMessage)
    → IsKeyed ms
    → All (λ f. get f.id ms ≡ some f) fs
    → All (λ f. get f.id (pass_two w ms records) ≡ some (settle w records f)) fs
all_settled w records ms [] k h = tt
all_settled w records ms (f ∷ fs) k h = (
  get-pass_two w records f.id ms k ∙ ap (map_option (settle w records)) h.0,
  all_settled w records ms fs k h.1,
)

empty-IsKeyed : IsKeyed []
unfolding get
empty-IsKeyed i m h = cc h

drained :
    (w : Withheld) (records : BTreeMap Cursor Record)
    → HasDistinctPositions records
    → take_out (ids (written w records)) (pass_two w (insert_each (written w records) []) records)
      ≡ history w records
unfolding history
drained w records d =
    let distinct = written-HasDistinctIds w records d in
    let start = insert_each (written w records) [] in
    take_out-ids (settle w records) (written w records) (pass_two w start records) distinct (
      all_settled w records start (written w records)
        (insert_each-IsKeyed (written w records) [] empty-IsKeyed)
        (insert_each-found (written w records) [] distinct))

module _ (p : Platform) (l : ReaderLimits) (now : ℤ) where
  -- Where no two positions share an identifier, a rendering that refuses the given identifiers and
  -- holds what is dated ahead is the history of the view's records.
  pub render_excluding-eq-history :
      (v : ChannelView) (refused : BTreeSet MessageId)
      → HasDistinctPositions v.records
      → render_excluding p l now v refused
        ≡ history
            (record {
              refused = collect too_fast (keys refused) [];
              held = held_now p l now v.records;
            })
            v.records
  unfolding render_excluding
  render_excluding-eq-history v refused d =
      let w : Withheld = record {
        refused = collect too_fast (keys refused) [];
        held = held_now p l now v.records;
      } in
      rw
        (
          pass_one-written w (record { messages = []; order = [] }) v.records,
          pass_one-order w (record { messages = []; order = [] }) v.records,
        )
        (drained w v.records d)

-- A collected map holds what it held and the collected keys.
contains_key-collect {ℓ} :
    {V : Type ℓ} (x : V) (i : MessageId) (is : List MessageId) (m : BTreeMap MessageId V)
    → contains_key i (collect x is m) ≡ (contains_key i m || any (λ j. i == j) is)
unfolding collect
contains_key-collect x i [] m = ground arith
contains_key-collect x i (j ∷ is) m =
    ground (arith, contains_key-collect x i is (insert j x m), get-insert i j x m)

contains_key-keys {ℓ} :
    {V : Type ℓ} (i : MessageId) (m : BTreeMap MessageId V)
    → any (λ j. i == j) (keys m) ≡ contains_key i m
unfolding keys get
contains_key-keys i [] = refl
contains_key-keys i ((k, x) ∷ m) = ground (arith, contains_key-keys i m)

any-held :
    (p : Platform) (l : ReaderLimits) (now : ℤ) (i : MessageId) (rs : List Record)
    → any (λ j. i == j) (map (id p) (filter (λ r. is_ahead l now r.hlc.wall_millis) rs))
      ≡ dated_ahead p l now i rs
any-held p l now i [] = refl
any-held p l now i (r ∷ rs) = ground (arith, any-held p l now i rs)

-- Outcomes that exclude alike give one history.
settle-excludes :
    (w x : Withheld) (records : BTreeMap Cursor Record) (m : RenderedMessage)
    → ((i : MessageId) → excludes w i ≡ excludes x i)
    → settle w records m ≡ settle x records m
unfolding settle
settle-excludes w x [] m h = refl
settle-excludes w x ((c, r) ∷ rest) m h = rw (h c.id) (settle-excludes w x rest _ h)

written-excludes :
    (w x : Withheld) (records : BTreeMap Cursor Record)
    → ((i : MessageId) → excludes w i ≡ excludes x i)
    → written w records ≡ written x records
unfolding written
written-excludes w x [] h = refl
written-excludes w x ((c, r) ∷ rest) h = ground (arith, h c.id, written-excludes w x rest h)

map-settle :
    (w x : Withheld) (records : BTreeMap Cursor Record) (ms : List RenderedMessage)
    → ((i : MessageId) → excludes w i ≡ excludes x i)
    → map (settle w records) ms ≡ map (settle x records) ms
map-settle w x records [] h = refl
map-settle w x records (m ∷ ms) h =
    rw (settle-excludes w x records m h, map-settle w x records ms h) refl

history-excludes :
    (w x : Withheld) (records : BTreeMap Cursor Record)
    → ((i : MessageId) → excludes w i ≡ excludes x i)
    → history w records ≡ history x records
unfolding history
history-excludes w x records h =
    rw (written-excludes w x records h) (map-settle w x records (written x records) h)

module _ (p : Platform) (l : ReaderLimits) (now : ℤ) where
  excluded_alike :
      (v : ChannelView) (i : MessageId)
      → excludes
          (record {
            refused =
                collect too_fast
                  (keys {0, 0} (collect {0} tt (keys (view_withheld p l now v).refused) []))
                  [];
            held = held_now p l now v.records;
          })
          i
        ≡ excludes (view_withheld p l now v) i
  unfolding excludes held_now view_withheld get
  excluded_alike v i =
      let refused = (withheld p l now (values v.records)).refused in
      let set : BTreeSet MessageId = collect {0} tt (keys {0, 0} refused) [] in
      ground (
        arith,
        contains_key-collect too_fast i (keys set) [],
        contains_key-keys i set,
        contains_key-collect {0} tt i (keys refused) [],
        contains_key-keys i refused,
        contains_key-collect {0} tt i
            (map (id p) (filter (λ r. is_ahead l now r.hlc.wall_millis) (values v.records))) [],
        any-held p l now i (values v.records),
        held-eq-dated_ahead p l now i (values v.records),
      )

  -- Where no two positions share an identifier, a rendering is the history of the view's records
  -- less those that the view withholds.
  pub render-eq-history :
      (v : ChannelView)
      → HasDistinctPositions v.records
      → render p l now v ≡ history (view_withheld p l now v) v.records
  unfolding render
  render-eq-history v d =
      render_excluding-eq-history p l now v (collect tt (keys (view_withheld p l now v).refused) [])
        d
      ∙ history-excludes _ (view_withheld p l now v) v.records (excluded_alike v)
